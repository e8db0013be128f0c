-- ===== src/Download/Laws.antt =====
-- What `download` returns, and when it returns nothing.
use gemma_vllm_worker.Base.{
  ◌≡◌, ◌⊎◌, ◌∙◌, ap, refl, true, false, Bool, Bool-cases, inl, inr, Option, none, some, List, [],
  ◌∷◌, ◌++◌, map, String, arith,
}
use gemma_vllm_worker.Download.{
  Hub, Fetch, Fetched, at, value_error, failure, Result, returned, any, pattern_sets, request,
  fetch_sets, settle, tokenizer_patterns, model_patterns, first, download_sets, download,
}

path_eq :
    {p q : String}
    → ◌≡◌ {A = Result (Option String)} (returned (some p)) (returned (some q))
    → p ≡ q
path_eq e = cc

-- A path was returned for a pattern set that has files there.
pub record IsFound (hub : Hub) (fetch_of : List String → Fetch) (path : String) : Type 0 where
  pub patterns : List String
  pub before : List Fetch
  pub finds : String → Bool
  pub fetched : hub before (fetch_of patterns) ≡ at path finds
  pub matched : any finds patterns ≡ true

-- Whatever was asked for before, the hub has a path, and no file of any pattern there.
abbrev pub HasNothing : Hub → Type 0
HasNothing hub =
    (log : List Fetch) (r : Fetch) → (path : String) × (hub log r ≡ at path (λ p. false))

module _ (hub : Hub) (fetch_of : List String → Fetch) (all : List (List String)) where
  settle-IsFound :
      (ps : List String) (log log' : List Fetch) (rest : Result (Option String) × List Fetch)
      (path : String)
      → (rest.0 ≡ returned (some path) → IsFound hub fetch_of path)
      → (r : Fetched) → hub log (fetch_of ps) ≡ r
      → (settle all ps log' rest r).0 ≡ returned (some path)
      → IsFound hub fetch_of path
  settle-IsFound ps log log' rest path later (at p finds) h = elim (Bool-cases (any finds ps)) [
    | inl hit ↦ rw hit (λ e. record {
      patterns = ps;
      before = log;
      finds = finds;
      fetched = h ∙ ap (λ q. at q finds) (path_eq e);
      matched = hit;
    })
    | inr miss ↦ rw miss later
  ]
  settle-IsFound ps log log' rest path later value_error h = λ e. absurd (ground arith)
  settle-IsFound ps log log' rest path later (failure m) h = λ e. absurd (ground arith)

  fetch_sets-IsFound :
      (sets : List (List String)) (log : List Fetch) (path : String)
      → (fetch_sets hub fetch_of all sets log).0 ≡ returned (some path)
      → IsFound hub fetch_of path
  unfolding fetch_sets
  fetch_sets-IsFound [] log path e = absurd (ground arith)
  fetch_sets-IsFound (ps ∷ pss) log path e =
      let log' = log ++ (fetch_of ps ∷ []) in
      settle-IsFound ps log log' (fetch_sets hub fetch_of all pss log') path
        (fetch_sets-IsFound pss log' path) (hub log (fetch_of ps)) refl e

  none_of : (ps : List String) → any (λ p. false) ps ≡ false
  none_of [] = refl
  none_of (p ∷ ps) = none_of ps

  fetch_sets_missed :
      HasNothing hub
      → (sets : List (List String)) (log : List Fetch)
      → (fetch_sets hub fetch_of all sets log).0 ≡ returned none
  unfolding fetch_sets
  fetch_sets_missed h [] log = refl
  fetch_sets_missed h (ps ∷ pss) log =
      let log' = log ++ (fetch_of ps ∷ []) in
      ap (λ r. (settle all ps log' (fetch_sets hub fetch_of all pss log') r).0)
        (h log (fetch_of ps)).1
      ∙ rw (none_of ps) (fetch_sets_missed h pss log')

download_sets-IsFound :
    (hub : Hub) (name : String) (revision : Option String) (type : String)
    (cache_dir : Option String) (log : List Fetch) (sets : Option (List (List String)))
    (path : String)
    → (download_sets hub name revision type cache_dir log sets).0 ≡ returned (some path)
    → IsFound hub (request name revision cache_dir) path
download_sets-IsFound hub name revision type cache_dir log none path e = absurd (ground arith)
download_sets-IsFound hub name revision type cache_dir log (some sets) path e =
    fetch_sets-IsFound hub (request name revision cache_dir) sets sets log path e

-- A path that `download` returns was given by the hub for the name, the revision and a set of patterns of
-- which one has files there.
pub download-IsFound :
    (hub : Hub) (name : String) (revision : Option String) (type : String)
    (cache_dir : Option String) (log : List Fetch) (path : String)
    → (download hub name revision type cache_dir log).0 ≡ returned (some path)
    → IsFound hub (request name revision cache_dir) path
unfolding download
download-IsFound hub name revision type cache_dir log path e =
    download_sets-IsFound hub name revision type cache_dir log (pattern_sets type) path e

-- Where the hub has no file of any pattern, `download` of a model or a tokenizer raises nothing: it
-- returns `None`.
pub download_missed :
    (hub : Hub) (name : String) (revision : Option String) (type : String)
    (cache_dir : Option String) (log : List Fetch)
    → HasNothing hub
    → (type ≡ "model") ⊎ (type ≡ "tokenizer")
    → (download hub name revision type cache_dir log).0 ≡ returned none
unfolding download pattern_sets
download_missed hub name revision type cache_dir log h t =
    let f = request name revision cache_dir in
    elim t [
      | inl e ↦
          let sets = map (λ ps. ps ++ first tokenizer_patterns) model_patterns in
          rw e (fetch_sets_missed hub f sets h sets log)
      | inr e ↦ rw e (fetch_sets_missed hub f tokenizer_patterns h tokenizer_patterns log)
    ]
