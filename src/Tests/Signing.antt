-- ===== src/Tests/Signing.antt =====
-- The HMAC check, with a hash that shows its input.
use gemma_vllm_worker.Base.{
  ◌≡◌, ◌≢◌, ◌⊎◌, ◌↔◌, refl, true, none, some, String, ◌<>◌, arith, elem, string_comparable,
}
use gemma_vllm_worker.Base.Number.{parse_int}
use gemma_vllm_worker.Base.Int.{pos, negsuc}
use gemma_vllm_worker.Base.Text.{is_ascii}
use gemma_vllm_worker.Auth.{
  Request, Environment, valid, response, type_error, message_of, verify_cp_hmac, dispatch,
  exempt_paths,
}
use gemma_vllm_worker.Auth.Window.{IsAuthentic, dispatch_iff, verify_expires}
use gemma_vllm_worker.Auth.Message.{message_of_instance, verify_bound}

abbrev pub sign : String → String → String
sign secret message = secret <> (":" <> message)

abbrev pub env : Environment
env = record { secret = some "k"; instance_id = some "pod1" }

abbrev pub signed : Request
signed = record {
  signature = some "k:1000000.POST./v1/completions?a=1.pod1";
  timestamp = some "1000000";
  method = "POST";
  path = "/v1/completions";
  query = "a=1";
}

numbers :
    (parse_int " 1_000 " ≡ some (pos 1000))
    × (parse_int "-7" ≡ some (negsuc 6))
    × (parse_int "1__0" ≡ none)
    × (parse_int "" ≡ none)
unfolding parse_int
numbers = (refl, refl, refl, refl)

verdicts :
    (verify_cp_hmac sign env 1299999 signed ≡ valid)
    × (verify_cp_hmac sign env 1300001 signed
        ≡ response 401 "Request timestamp too old or in future")
    × (verify_cp_hmac sign (record env { secret = none }) 1000000 signed
        ≡ response 500 "Server configuration error")
    × (verify_cp_hmac sign env 1000000 (record signed { signature = some "é" }) ≡ type_error)
unfolding verify_cp_hmac parse_int is_ascii message_of
verdicts = (refl, refl, refl, refl)

-- An id with a dot takes part of the path: two instances, one message.
dotted_ids : message_of "1" "GET" "/a.b" "c" ≡ message_of "1" "GET" "/a" "b.c"
unfolding message_of
dotted_ids = refl

dispatch_iff_example :
    (dispatch sign env 1000000 exempt_paths signed ≡ valid)
    ↔ ((elem "/v1/completions" exempt_paths ≡ true) ⊎ IsAuthentic sign env 1000000 signed)
dispatch_iff_example = dispatch_iff sign env 1000000 exempt_paths signed

verify_expires_example : verify_cp_hmac sign env 1700001 signed ≢ valid
unfolding verify_cp_hmac parse_int is_ascii message_of
verify_expires_example = verify_expires sign env 1000000 1700001 signed refl (omega arith)

message_of_instance_run : ◌≡◌ {A = String} "pod1" "pod1"
unfolding message_of
message_of_instance_run =
    message_of_instance "1" "1.GET" "GET" "/a" "/a.b" "b" "pod1" "pod1"
      (refl, (refl, (refl, (refl, tt)))) (refl, (refl, (refl, (refl, tt)))) refl

verify_bound_example :
    (◌≡◌ {A = String} "pod1" "pod1")
    ⊎ ((secret : String) × (m : String) × (m' : String) × (m ≢ m')
        × (sign secret m ≡ sign secret m'))
unfolding verify_cp_hmac parse_int is_ascii message_of
verify_bound_example =
    verify_bound sign env env 1000000 1000001 signed "pod1" "pod1" refl refl refl
      (refl, (refl, (refl, (refl, tt)))) (refl, (refl, (refl, (refl, tt)))) refl refl
