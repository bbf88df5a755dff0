-- ===== src/Llm/Gateway.antt =====
-- `generate` of backend/app/llm/gateway.py: a call over a route with fallback, and what it records.
-- The adapters, the connection and the clock are the other side of a state `X`. Latency, cost, the
-- request identifier and the log lines are left out of the rows. The arguments of a tool call are
-- the text of their JSON, and `extra` stands for the fields of the response that pass unchanged.
pub mod Tried
pub mod Entries
pub mod Fallback
use lycosa.Prelude.{
  ℕ, zero, suc, ◌+◌, ◌-◌, ◌*◌, ◌/◌, ◌^◌, ◌≤◌, ◌<◌, min, max, Bool, true, false, not, ◌&&◌, ◌||◌,
  Option, none, some, List, [], ◌∷◌, ◌++◌, map, append-nil, append_assoc, Text, text, String,
  length, take, drop, get_elem?, length-append, length-map, length-take-le, All, All-append, any,
  keep_if, is_in, ltb, leb, nat_beq, if◌then◌else◌, ltb→lt, lt→ltb, leb→le, le→leb, nat_beq_iff,
  Bool-cases, Option-cases, Comparable, ◌==◌, nat_comparable, text_beq, text_beq_iff,
  text_comparable, beq_refl, beq_false, ◌≡◌, refl, sym, ap, ◌∙◌, subst, ◌≢◌, ◌↔◌, ◌⊎◌, inl, inr,
  starts_with, contains, join, arith,
}
use lycosa.Llm.Accounts.{Account}
use lycosa.Llm.Errors.{ErrorKind, LlmError, plain_error, error_code, no_route}
use lycosa.Llm.Routing.{Target}
use lycosa.Llm.Retries.{
  CallOutcome, Retried, returned, raised, escaped, out_of_fuel, Effect, World, Runtime, exhausted,
  with_retries,
}

pub record ToolCall : Type 0 where
  pub name : Text
  pub arguments : Text

pub record Response : Type 0 where
  pub content : Text
  pub reasoning : Option Text
  pub tool_calls : List ToolCall
  pub metadata : List (Text × ℕ)
  pub extra : ℕ

-- `s.replace(old, new)`, for a text `old` that is not empty; `skip` characters of a match are still
-- to be dropped.
unfoldable pub replace_from : Text → Text → ℕ → Text → Text
replace_from old new skip [] = []
replace_from old new (suc skip) (c ∷ s) = replace_from old new skip s
replace_from old new zero (c ∷ s) =
    let matched = replace_from old new (length old - 1) s in
    let unmatched = replace_from old new zero s in
    if starts_with old (c ∷ s) then new ++ matched else c ∷ unmatched

unfoldable pub replace : Text → Text → Text → Text
unfolding replace_from
replace old new s = replace_from old new zero s

abbrev pub redacted : Text
redacted = text "[REDACTED]"

-- `not secret or len(secret) < 8`: `secret` is too short to be looked for.
abbrev pub hideable : Option Text → Option Text
hideable none = none
hideable (some secret) = if ltb (length secret) 8 then none else some secret

unfoldable pub redact_text : Option Text → Option Text → Option Text
unfolding replace
redact_text none secret = none
redact_text (some t) secret = elim (hideable secret) [
  | none ↦ some t
  | some key ↦ some (replace key redacted t)
]

unfoldable pub redact_call : Text → ToolCall → ToolCall
unfolding replace
redact_call secret call =
    if contains secret call.arguments
    then record call { arguments = replace secret redacted call.arguments }
    else call

-- `_redact`
unfoldable pub redact : Response → Option Text → Response
unfolding replace redact_call
redact response secret = elim (hideable secret) [
  | none ↦ response
  | some key ↦ record response {
    content = replace key redacted response.content;
    reasoning = elim response.reasoning [ none ↦ none | some t ↦ some (replace key redacted t) ];
    tool_calls = map (redact_call key) response.tool_calls;
  }
]

pub record UsageRow : Type 0 where
  pub account_id : ℕ
  pub provider : Text
  pub model : Text
  pub succeeded : Bool
  pub error : Option Text
  pub attempts : ℕ
  pub fallback_index : ℕ
  pub stream : Bool

pub record Skipped : Type 0 where
  pub provider : Text
  pub account_id : ℕ
  pub error : Text

-- The external state, the rows written by `usage.record`, the providers that the fallback counter
-- was raised for, and a log of the entries that were asked, which the code does not read.
pub record State (X : Type 0) : Type 0 where
  pub ext : X
  pub rows : List UsageRow
  pub fallbacks : List Text
  pub asked : List Target

-- A step that returns, raises an `LLMError`, or raises something else.
pub data Attempted (A : Type 0) : Type 0 where
  done : A → Attempted A
  refused : LlmError → Attempted A
  broke : Attempted A

-- What the adapter of a target's provider, and `connection_for`, do.
pub record Services (X C : Type 0) : Type 0 where
  pub check_request : Target → X → Attempted (Unit {0}) × X
  pub connection_for : Target → Bool → X → Attempted C × X
  pub credential : C → Option Text
  pub generate_once : Target → C → ℕ → X → CallOutcome Response × X

-- How the `try` of one route entry ends.
pub data Answer : Type 0 where
  answered : Response → ℕ → Answer
  rejected : LlmError → ℕ → Answer
  aborted : Answer
  unfinished : Answer

pub record GatewayResult : Type 0 where
  pub response : Response
  pub target : Target
  pub attempts : ℕ
  pub fallback_index : ℕ
  pub skipped : List Skipped

pub data End : Type 0 where
  result : GatewayResult → End
  no_answer : LlmError → List Skipped → End
  failed_through : End
  no_end : End

-- `_record` on a target.
abbrev pub row_of : Target → Bool → Option LlmError → ℕ → ℕ → Bool → UsageRow
row_of target succeeded error attempts index stream = record {
  account_id = target.account.id;
  provider = target.account.provider;
  model = take 200 target.model;
  succeeded = succeeded;
  error = elim error [ none ↦ none | some e ↦ some (error_code e.kind) ];
  attempts = attempts;
  fallback_index = index;
  stream = stream;
}

abbrev pub skipped_of : Target → LlmError → Skipped
skipped_of target error = record {
  provider = target.account.provider;
  account_id = target.account.id;
  error = error_code error.kind;
}

-- `_note_fallback`
abbrev pub note_fallback : Target → ℕ → ℕ → List Text → List Text
note_fallback target index total fallbacks =
    if ltb (index + 1) total then fallbacks ++ target.account.provider ∷ [] else fallbacks

-- `getattr(exc, "attempts", attempts)`
abbrev pub attempts_of : Option ℕ → ℕ
attempts_of none = 0
attempts_of (some n) = n

unfoldable pub answer_of : Option Text → Retried Response → Answer
unfolding redact
answer_of secret (returned response attempts) = answered (redact response secret) attempts
answer_of secret (raised error attempts) = rejected error (attempts_of attempts)
answer_of secret escaped = aborted
answer_of secret out_of_fuel = unfinished

module _ {X C : Type 0} (runtime : Runtime X) (services : Services X C)
    (max_retries request_timeout total_timeout : ℕ) (requires_privacy : Bool) where
  unfoldable pub call_connected : Target → ℕ → Attempted C → X → Answer × X
  unfolding answer_of
  call_connected target ends_at (refused error) x = (rejected error 0, x)
  call_connected target ends_at broke x = (aborted, x)
  call_connected target ends_at (done conn) x =
      let (end, w) =
        with_retries runtime max_retries request_timeout (some ends_at)
          (services.generate_once target conn) (record { ext = x; log = [] }) in
      (answer_of (services.credential conn) end, w.ext)

  unfoldable pub call_checked : Target → ℕ → Attempted (Unit {0}) → X → Answer × X
  unfolding call_connected
  call_checked target ends_at (refused error) x = (rejected error 0, x)
  call_checked target ends_at broke x = (aborted, x)
  call_checked target ends_at (done _) x =
      let (conn, x') = services.connection_for target requires_privacy x in
      call_connected target ends_at conn x'

  -- The `try` of the loop of `generate`.
  unfoldable pub call_target : Target → ℕ → X → Answer × X
  unfolding call_checked
  call_target target ends_at x =
      let (checked, x') = services.check_request target x in call_checked target ends_at checked x'

  -- The rest of the loop's body, and the rest of the loop.
  unfoldable pub settle_target :
      Target
      → ℕ
      → ℕ
      → List Skipped
      → (List Skipped → LlmError → State X → End × State X)
      → Answer
      → State X
      → End × State X
  settle_target target index total skipped later (answered response attempts) s = (
    result (record {
      response = record response {
        metadata = (text "account_id", target.account.id) ∷ response.metadata;
      };
      target = target;
      attempts = attempts;
      fallback_index = index;
      skipped = skipped;
    }),
    record s { rows = s.rows ++ row_of target true none attempts index false ∷ [] },
  )
  settle_target target index total skipped later (rejected error attempts) s =
      later (skipped ++ skipped_of target error ∷ []) error (record s {
        rows = s.rows ++ row_of target false (some error) attempts index false ∷ [];
        fallbacks = note_fallback target index total s.fallbacks;
      })
  settle_target target index total skipped later aborted s = (failed_through, s)
  settle_target target index total skipped later unfinished s = (no_end, s)

  -- `for index, target in enumerate(targets)`, from an index on.
  unfoldable pub generate_from :
      ℕ → ℕ → ℕ → List Target → List Skipped → LlmError → State X → End × State X
  generate_from ends_at total index [] skipped last s = (no_answer last skipped, s)
  generate_from ends_at total index (target ∷ targets) skipped last s =
      let (over, x) = exhausted runtime (some ends_at) s.ext in
      let later : List Skipped → LlmError → State X → End × State X =
        λ skipped' last' s'. generate_from ends_at total (index + 1) targets skipped' last' s' in
      if over
      then (no_answer last skipped, record s { ext = x })
      else let (answer, x') = call_target target ends_at x in
        settle_target target index total skipped later answer
          (record s { ext = x'; asked = s.asked ++ target ∷ [] })

  unfoldable pub generate : List Target → State X → End × State X
  generate [] s = (no_answer (plain_error no_route) [], s)
  generate (target ∷ targets) s =
      let (t, x) = runtime.now s.ext in
      generate_from (t + total_timeout) (length (target ∷ targets)) 0 (target ∷ targets) []
        (plain_error no_route) (record s { ext = x })
