-- ===== src/Tests/Llm.antt =====
-- The errors, the retries and the gateway at small inputs.
use lycosa.Prelude.{
  ◌⊎◌, ℕ, ◌+◌, ◌*◌, ◌≤◌, false, not, ◌&&◌, ◌||◌, Option, none, some, List, [], ◌∷◌, Text, text,
  String, ltb, leb, if◌then◌else◌, ◌==◌, nat_comparable, text_comparable, ◌≡◌, refl,
}
use lycosa.WindowStore.{second}
use lycosa.Llm.Errors.{
  retryable, max_retry_after, Seconds, ticks_of, Json, null, hinted, context_hints, model_hints,
  quota_hints, classify_http, plain_error, error_signals, parse_retry_after, from_http, rate_limit,
  provider_unavailable,
}
use lycosa.Llm.Errors.Classes.{classify_http-retryable, from_http-retry_after}
use lycosa.Llm.Retries.{CallOutcome, value, failed, Runtime, with_retries}
use lycosa.Llm.Retries.Budget.{IsSound}
use lycosa.Llm.Retries.Attempts.{with_retries-IsSound}
use lycosa.Llm.Accounts.{Account}
use lycosa.Llm.Routing.{Target}
use lycosa.Llm.Gateway.{Response, State, done, refused, Services, generate}
use lycosa.Llm.Gateway.Entries.{Ends}
use lycosa.Llm.Gateway.Fallback.{generate-Ends}

program : Unit {0}
unfolding with_retries generate from_http parse_retry_after hinted error_signals
program = tt

abbrev too_many : ℕ
too_many = 429

abbrev slow_down : Text
slow_down = text "slow down"

classify_http-retryable_example :
    retryable (classify_http too_many slow_down)
    ≡ not (hinted context_hints slow_down)
      && not (hinted model_hints slow_down)
      && (too_many == 408
          || (too_many == 429 && not (hinted quota_hints slow_down))
          || leb 500 too_many)
classify_http-retryable_example = classify_http-retryable too_many slow_down

abbrev same : Text → Text
same t = t

abbrev shown : Json → Text
shown json = slow_down

-- `Retry-After: 5`, and no date.
abbrev five_seconds : Text → Option Seconds
five_seconds t = some (ticks_of 5_000_000)

abbrev no_date : Text → Option Seconds
no_date t = none

abbrev header : Option Text
header = some (text "5")

busy :
    (from_http same shown five_seconds no_date same too_many null
      (text "openai")
      header).retry_after
    ≡ some 5_000_000
unfolding program
busy = refl

from_http-retry_after_example :
    (5_000_000 ≤ max_retry_after)
    × (((from_http same shown five_seconds no_date same too_many null (text "openai") header).kind
          ≡ rate_limit)
        ⊎ ((from_http same shown five_seconds no_date same too_many null
              (text "openai")
              header).kind
            ≡ provider_unavailable))
from_http-retry_after_example =
    from_http-retry_after same shown five_seconds no_date same too_many null (text "openai") header
      busy

-- A clock that counts its readings in milliseconds, no jitter, and a wait that passes.
abbrev pub runtime : Runtime ℕ
runtime = record {
  now = λ x. (x, x + 1_000);
  uniform = λ bound x. (0, x);
  sleep = λ delay x. x + delay;
}

abbrev response : Response
response = record {
  content = text "fine";
  reasoning = none;
  tool_calls = [];
  metadata = [];
  extra = 0;
}

-- A provider that is unavailable for the first second.
abbrev flaky : ℕ → ℕ → CallOutcome Response × ℕ
flaky limit x =
    (if ltb x 1_000_000 then failed (plain_error provider_unavailable) else value response, x + 100)

with_retries-IsSound_example :
    IsSound runtime 2 (30 * second) (some (60 * second)) (
      with_retries runtime 2
        (30 * second)
        (some (60 * second))
        flaky
        (record { ext = 0; log = [] }))
with_retries-IsSound_example =
    with_retries-IsSound runtime 2 (30 * second) (some (60 * second)) flaky 0

abbrev pub account_of : ℕ → String → Account
account_of id provider = record {
  id = id;
  provider = text provider;
  owner_user_id = none;
  status = text "active";
  is_local = false;
  label = text "main";
  auth_method = text "api_key";
  base_url = text "https://api";
  api_access = text "unknown";
  node_id = none;
}

abbrev target_of : ℕ → String → Target
target_of id provider = record { account = account_of id provider; model = text "m" }

abbrev targets : List Target
targets = target_of 1 "first" ∷ target_of 2 "second" ∷ []

-- The first provider refuses every request, the second is flaky.
abbrev pub services : Services ℕ (Unit {0})
services = record {
  check_request =
      λ target x. (if target.account.id == 1 then refused (plain_error rate_limit) else done tt, x);
  connection_for = λ target private x. (done tt, x);
  credential = λ conn. some (text "sk-0123456789");
  generate_once = λ target conn. flaky;
}

abbrev pub fresh : State ℕ
fresh = record { ext = 0; rows = []; fallbacks = []; asked = [] }

generate-Ends_example :
    Ends runtime services 2
      (30 * second)
      (60 * second)
      false
      (60 * second)
      targets
      0
      []
      []
      []
      (generate runtime services 2 (30 * second) (60 * second) false targets fresh)
generate-Ends_example =
    generate-Ends runtime services 2 (30 * second) (60 * second) false targets fresh
