-- ===== src/Base/Text/Laws.antt =====
-- Laws of the text operations.
use Prim.Native.String.{String, ◌++◌, [], ◌∷◌}
use text.Mathlib.TextLemmas.{nil-append, cons-append, append-nil, append_assoc}
use mathlib.Core.Path.{◌≡◌, ◌∙◌, ap, sym}
use mathlib.Core.List
use mathlib.Core.List.{List}
use gemma_vllm_worker.Base.Text.{drop, text_length, join}

pub drop-append : (a t : String) → drop (text_length a) (a ++ t) ≡ t
drop-append [] t = nil-append t
drop-append (c ∷ a) t = rw cons-append (drop-append a t)

pub join-append_one :
    (parts : List String) (s : String)
    → join (List.◌++◌ parts (List.◌∷◌ s List.[])) ≡ join parts ++ s
join-append_one List.[] s = append-nil s ∙ sym (nil-append s)
join-append_one (List.◌∷◌ p parts) s =
    ap (λ t. p ++ t) (join-append_one parts s) ∙ sym (append_assoc p (join parts) s)
