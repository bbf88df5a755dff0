-- ===== src/Llm/Errors.antt =====
-- backend/app/llm/errors.py: the normalized errors, and how a provider's answer is classified.
-- Delays are whole ticks, 1_000_000 to a second.
pub mod Classes
use lycosa.Prelude.{
  ℕ, zero, suc, ◌+◌, ◌-◌, ◌*◌, ◌/◌, ◌^◌, ◌≤◌, ◌<◌, min, max, Bool, true, false, not, ◌&&◌, ◌||◌,
  Option, none, some, List, [], ◌∷◌, ◌++◌, map, append-nil, append_assoc, Text, text, String,
  length, take, drop, get_elem?, length-append, length-map, length-take-le, All, All-append, any,
  keep_if, is_in, ltb, leb, nat_beq, if◌then◌else◌, ltb→lt, lt→ltb, leb→le, le→leb, nat_beq_iff,
  Bool-cases, Option-cases, Comparable, ◌==◌, nat_comparable, text_beq, text_beq_iff,
  text_comparable, beq_refl, beq_false, ◌≡◌, refl, sym, ap, ◌∙◌, subst, ◌≢◌, ◌↔◌, ◌⊎◌, inl, inr,
  starts_with, contains, join, arith,
}
use lycosa.WindowStore.{second}

-- The subclasses of `LLMError`, and `LLMError` itself.
pub data ErrorKind : Type 0 where
  llm_error authentication permission_denied quota_exceeded rate_limit llm_timeout : ErrorKind
  provider_unavailable invalid_request model_not_found context_length tool_calling : ErrorKind
  unsupported_capability endpoint_not_allowed malformed_response response_too_large : ErrorKind
  credential_unavailable node_unavailable no_route : ErrorKind

abbrev pub retryable : ErrorKind → Bool
retryable rate_limit = true
retryable llm_timeout = true
retryable provider_unavailable = true
retryable _ = false

abbrev pub http_status : ErrorKind → ℕ
http_status rate_limit = 429
http_status llm_timeout = 504
http_status provider_unavailable = 503
http_status invalid_request = 422
http_status model_not_found = 422
http_status context_length = 422
http_status unsupported_capability = 422
http_status endpoint_not_allowed = 422
http_status credential_unavailable = 409
http_status node_unavailable = 503
http_status no_route = 409
http_status _ = 502

abbrev pub error_code : ErrorKind → Text
error_code llm_error = text "llm_error"
error_code authentication = text "provider_auth_failed"
error_code permission_denied = text "provider_permission_denied"
error_code quota_exceeded = text "provider_quota_exceeded"
error_code rate_limit = text "provider_rate_limited"
error_code llm_timeout = text "provider_timeout"
error_code provider_unavailable = text "provider_unavailable"
error_code invalid_request = text "provider_invalid_request"
error_code model_not_found = text "model_not_found"
error_code context_length = text "context_length_exceeded"
error_code tool_calling = text "tool_call_invalid"
error_code unsupported_capability = text "capability_unsupported"
error_code endpoint_not_allowed = text "endpoint_not_allowed"
error_code malformed_response = text "provider_malformed_response"
error_code response_too_large = text "provider_response_too_large"
error_code credential_unavailable = text "credential_unavailable"
error_code node_unavailable = text "node_unavailable"
error_code no_route = text "no_llm_route"

abbrev pub default_message : ErrorKind → Text
default_message llm_error = text "LLM request failed"
default_message authentication =
    text "The provider rejected the credential; check or replace the API key"
default_message permission_denied =
    text "The credential is not permitted to use this model or endpoint"
default_message quota_exceeded = text "The provider account has no remaining quota or balance"
default_message rate_limit = text "The provider rate-limited the request"
default_message llm_timeout = text "The provider did not respond in time"
default_message provider_unavailable = text "The provider is unavailable or overloaded"
default_message invalid_request = text "The provider rejected the request parameters"
default_message model_not_found =
    text "The model does not exist or is not available to this account"
default_message context_length = text "The request exceeds the model's context window"
default_message tool_calling = text "The provider returned a malformed tool call"
default_message unsupported_capability =
    text "The selected provider or model does not support a requested feature"
default_message endpoint_not_allowed =
    text "The provider endpoint is not permitted by the controller network policy"
default_message malformed_response =
    text "The provider returned a response Lycosa could not interpret"
default_message response_too_large = text "The provider response exceeded Lycosa's size limit"
default_message credential_unavailable =
    text "The account credential is missing or cannot be decrypted"
default_message node_unavailable =
    text "The node that runs this account is not available; check that its agent is running"
default_message no_route = text "No usable provider account/model is configured for this request"

pub record LlmError : Type 0 where
  pub kind : ErrorKind
  pub public_message : Text
  pub provider : Option Text
  pub status : Option ℕ
  pub retry_after : Option ℕ

-- An error raised with its class's own message.
abbrev pub plain_error : ErrorKind → LlmError
plain_error kind = record {
  kind = kind;
  public_message = default_message kind;
  provider = none;
  status = none;
  retry_after = none;
}

abbrev pub max_retry_after : ℕ
max_retry_after = 60 * second

-- A Python float, as far as `parse_retry_after` looks at it: not a number, below zero, or a number
-- of ticks.
pub data Seconds : Type 0 where
  nan : Seconds
  negative : Seconds
  ticks_of : ℕ → Seconds

-- `max(0.0, min(seconds, MAX_RETRY_AFTER_SECONDS))`
unfoldable pub clamp_retry_after : Seconds → Option ℕ
clamp_retry_after nan = none
clamp_retry_after negative = some 0
clamp_retry_after (ticks_of n) = some (max 0 (min n max_retry_after))

-- A decoded JSON value. A number is Python's text of it, and whether it is zero.
mutual
  pub data Json : Type 0 where
    null : Json
    boolean : Bool → Json
    number : Text → Bool → Json
    string : Text → Json
    array : Items → Json
    object : Fields → Json

  pub data Items : Type 0 where
    nil : Items
    cons : Json → Items → Items

  pub data Fields : Type 0 where
    end : Fields
    field : Text → Json → Fields → Fields

-- `obj.get(k)`, with `null` for Python's `None`.
unfoldable pub get : Text → Fields → Json
get k end = null
get k (field j v fields) = let rest = get k fields in if j == k then v else rest

unfoldable pub has : Text → Fields → Bool
has k end = false
has k (field j v fields) = (j == k) || has k fields

abbrev pub context_hints : List Text
context_hints =
    text "context length"
    ∷ text "context_length"
    ∷ text "context window"
    ∷ text "maximum context"
    ∷ text "prompt is too long"
    ∷ text "too many tokens"
    ∷ text "exceeds the maximum number of tokens"
    ∷ text "input is too long"
    ∷ []

abbrev pub model_hints : List Text
model_hints =
    text "model_not_found"
    ∷ text "model not found"
    ∷ text "does not exist"
    ∷ text "unknown model"
    ∷ text "no such model"
    ∷ []

abbrev pub auth_hints : List Text
auth_hints =
    text "api key not valid"
    ∷ text "api_key_invalid"
    ∷ text "incorrect api key"
    ∷ text "invalid api key"
    ∷ text "invalid x-api-key"
    ∷ []

abbrev pub quota_hints : List Text
quota_hints =
    text "insufficient_quota"
    ∷ text "insufficient balance"
    ∷ text "exceeded your current quota"
    ∷ text "credits"
    ∷ []

-- `any(h in signals for h in hints)`
unfoldable pub hinted : List Text → Text → Bool
unfolding contains
hinted [] signals = false
hinted (h ∷ hints) signals = contains h signals || hinted hints signals

-- The chain of tests of `from_http`, on the text `signals`.
unfoldable pub classify_http : ℕ → Text → ErrorKind
classify_http status signals =
    if hinted context_hints signals
    then context_length
    else if status == 401 || (((status == 400) || (status == 403)) && hinted auth_hints signals)
    then authentication
    else if status == 402 || (((status == 403) || (status == 429)) && hinted quota_hints signals)
    then quota_exceeded
    else if status == 403
    then permission_denied
    else if status == 404 || hinted model_hints signals
    then model_not_found
    else if status == 408
    then llm_timeout
    else if status == 429
    then rate_limit
    else if is_in status (400 ∷ 409 ∷ 413 ∷ 415 ∷ 422 ∷ [])
    then invalid_request
    else if leb 500 status
    then provider_unavailable
    else llm_error

-- The chain of tests of `from_stream_payload`.
unfoldable pub classify_stream : Text → ErrorKind
classify_stream signals =
    if hinted (text "overloaded" ∷ text "unavailable" ∷ text "internal" ∷ []) signals
    then provider_unavailable
    else if hinted (text "rate_limit" ∷ text "rate limit" ∷ []) signals
    then rate_limit
    else if hinted context_hints signals
    then context_length
    else if hinted model_hints signals || contains (text "not found") signals
    then model_not_found
    else if hinted (text "auth" ∷ text "api key" ∷ []) signals
    then authentication
    else llm_error

-- Only a rate limit and an unavailable provider carry the parsed delay.
abbrev pub carried : ErrorKind → Option ℕ → Option ℕ
carried rate_limit delay = delay
carried provider_unavailable delay = delay
carried _ delay = none

-- Python's `str.lower`, its `str` on a value that is neither a string nor false, and the two ways
-- of reading a Retry-After header are the runtime's.
module _ (lower : Text → Text) (str : Json → Text) (seconds_of : Text → Option Seconds)
    (seconds_until : Text → Option Seconds) (strip : Text → Text) where
  -- `str(value or "")`
  text_of : Json → Text
  text_of null = []
  text_of (boolean false) = []
  text_of (number repr true) = []
  text_of (string s) = s
  text_of (array nil) = []
  text_of (object end) = []
  text_of other = str other

  -- The body of `_error_signals` once the error object is found.
  signals_of_fields : Fields → Text × Text
  unfolding get text_of
  signals_of_fields err = (
    lower (
        join (text " ") (
          text_of (get (text "code") err)
          ∷ text_of (get (text "type") err)
          ∷ text_of (get (text "status") err)
          ∷ [])),
    take 2000 (lower (text_of (get (text "message") err))),
  )

  signals_of_error : Json → Text × Text
  unfolding signals_of_fields
  signals_of_error (string s) = ([], take 2000 (lower s))
  signals_of_error (object err) = signals_of_fields err
  signals_of_error other = ([], [])

  -- `body.get("error", body)`
  signals_of_body : Json → Text × Text
  unfolding signals_of_error has get
  signals_of_body (object body) =
      signals_of_error (if has (text "error") body then get (text "error") body else object body)
  signals_of_body other = ([], [])

  unfoldable pub error_signals : Json → Text × Text
  unfolding signals_of_body
  error_signals (array (cons first rest)) = signals_of_body first
  error_signals body = signals_of_body body

  unfoldable pub parse_retry_after : Option Text → Option ℕ
  unfolding clamp_retry_after
  parse_retry_after none = none
  parse_retry_after (some []) = none
  parse_retry_after (some (c ∷ value)) = elim (seconds_of (strip (c ∷ value))) [
    | some seconds ↦ clamp_retry_after seconds
    | none ↦ elim (seconds_until (strip (c ∷ value))) [
      | some seconds ↦ clamp_retry_after seconds
      | none ↦ none
    ]
  ]

  -- `f"{code} {message}"`
  abbrev signals : Json → Text
  signals body = let (code, message) = error_signals body in code ++ (text " " ++ message)

  unfoldable pub from_http : ℕ → Json → Text → Option Text → LlmError
  unfolding classify_http
  from_http status body provider header =
      let kind = classify_http status (signals body) in
      record {
        kind = kind;
        public_message = default_message kind;
        provider = some provider;
        status = some status;
        retry_after = carried kind (parse_retry_after header);
      }

  unfoldable pub from_stream_payload : Json → Text → LlmError
  unfolding classify_stream
  from_stream_payload payload provider =
      let kind = classify_stream (signals payload) in
      record {
        kind = kind;
        public_message = default_message kind;
        provider = some provider;
        status = none;
        retry_after = none;
      }
