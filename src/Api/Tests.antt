-- ===== src/Api/Tests.antt =====
-- The theorems on requests at concrete inputs.
use decentrarent.Prelude.{◌∙◌, ℕ, String, true, false, some, ◌≡◌, refl, truthy}
use decentrarent.Prelude.Outcome.{ok, threw, error_object}
use decentrarent.Prelude.Dict.{lookup}
use decentrarent.Api.{HttpResponse, fetch_request, receive}
use decentrarent.Api.Calls.{accept_order}
use decentrarent.Api.Laws.{fetch_request-carries, receive-tells}

bearer_of_accept :
    lookup "Authorization" (fetch_request (accept_order "o1" "T")).headers ≡ some "Bearer T"
bearer_of_accept = (fetch_request-carries (accept_order "o1" "T")).0 ∙ (unfold accept_order in refl)

abbrev refused : HttpResponse ℕ
refused = record {
  is_ok = false;
  status = 409;
  json = ok 0;
  error_json = some "order is closed";
  body_is_json = true;
}

receive-tells_run :
    (message : String) × (receive (λ n. "409") 0 (ok refused) ≡ threw (error_object message))
    × (truthy message ≡ true)
receive-tells_run = receive-tells (λ n. "409") 0 refused refl
