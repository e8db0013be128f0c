-- ===== src/Tests/Helpers.antt =====
-- The helpers at concrete inputs.
use gemma_vllm_worker.Base.{◌≡◌, refl, true, false, none, some, List, [], ◌∷◌, String}
use gemma_vllm_worker.Base.Number.{parse_int}
use gemma_vllm_worker.Base.Text.{contains, strip}
use gemma_vllm_worker.Base.Dict.{lookup}
use gemma_vllm_worker.Utilities.{value_of, scan, scan_line, count_physical_cores, get_int_bool_env}

abbrev cpuinfo : List String
cpuinfo =
    "processor\t: 0\n" ∷ "physical id\t: 0\n" ∷ "core id\t\t: 0\n" ∷ "physical id\t: 0\n"
    ∷ "core id\t\t: 1\n" ∷ "physical id\t: 0\n" ∷ "core id\t\t: 0\n" ∷ []

values :
    (value_of "core id\t\t: 1\n" ≡ some "1")
    × (value_of "a: b: c" ≡ some "b")
    × (value_of "core id" ≡ none)
unfolding value_of strip
values = (refl, refl, refl)

counted : count_physical_cores cpuinfo ≡ some 2
unfolding count_physical_cores scan scan_line contains value_of strip
counted = refl

flags :
    (get_int_bool_env (("A", "2") ∷ []) "A" true ≡ some false)
    × (get_int_bool_env [] "A" true ≡ some true)
    × (get_int_bool_env (("A", "x") ∷ []) "A" true ≡ none)
unfolding get_int_bool_env lookup parse_int
flags = (refl, refl, refl)
