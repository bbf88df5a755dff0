-- ===== src/Llm/TaskBridge.antt =====
-- backend/app/llm/task_bridge.py: a task of the orchestrator by way of the LLM layer. The finish
-- reason of a response, `strip` and `str` are parameters; usage and cost are left out.
pub mod Private
use lycosa.Prelude.{
  ℕ, zero, suc, ◌+◌, ◌-◌, ◌*◌, ◌/◌, ◌%◌, ◌^◌, ◌≤◌, ◌<◌, min, max, Bool, true, false, not, ◌&&◌,
  ◌||◌, Option, none, some, List, [], ◌∷◌, ◌++◌, map, append-nil, append_assoc, Text, text, String,
  length, take, drop, get_elem?, length-append, length-map, length-take-le, All, All-append, any,
  keep_if, is_in, ltb, leb, nat_beq, if◌then◌else◌, ltb→lt, lt→ltb, leb→le, le→leb, nat_beq_iff,
  Bool-cases, Option-cases, Comparable, ◌==◌, nat_comparable, text_beq, text_beq_iff,
  text_comparable, beq_refl, beq_false, ◌≡◌, refl, sym, ap, ◌∙◌, subst, ◌≢◌, ◌↔◌, ◌⊎◌, inl, inr,
  starts_with, contains, join, arith,
}
use lycosa.Orchestrator.Classifier.{TaskType, coding, vision}
use lycosa.Orchestrator.State.{TaskCreate}
use lycosa.Llm.Errors.{LlmError}
use lycosa.Llm.Retries.{Runtime}
use lycosa.Llm.Accounts.{
  ProviderKind, Account, Actor, Checked, ok, account_error, multiple_results, use_it,
  require_account, is_local_target,
}
use lycosa.Llm.Routing.{Target, Tables, Route, found_route, no_route_error, crashed, resolve}
use lycosa.Llm.Gateway.{
  Response, Skipped, State, Services, GatewayResult, End, result, no_answer, failed_through, no_end,
  generate,
}

pub data FinishReason : Type 0 where
  stop length_limit tool_calls content_filter other : FinishReason

-- `purpose_for_task` of backend/app/llm/routing.py
unfoldable pub purpose_for_task : TaskType → Text
purpose_for_task coding = text "coding"
purpose_for_task vision = text "vision"
purpose_for_task _ = text "default"

-- The purpose of a request.
unfoldable pub purpose_of : TaskType → Option Text → Option Text
unfolding purpose_for_task
purpose_of task_type none = none
purpose_of task_type (some route) =
    if route == text "auto" then some (purpose_for_task task_type) else some route

-- The targets of a request, the text of an error, or another exception.
pub data Targets : Type 0 where
  targets : List Target → Targets
  no_targets : Text → Targets
  targets_crashed : Targets

abbrev pub route_targets : Route → Targets
route_targets (found_route route) = targets route
route_targets (no_route_error why) = no_targets why
route_targets crashed = targets_crashed

-- What a completed task reports.
pub record Completion : Type 0 where
  pub output : Text
  pub provider : Text
  pub model : Text
  pub node_id : Option ℕ
  pub account_id : ℕ
  pub ran_locally : Bool
  pub purpose : Option Text
  pub fallback_index : ℕ
  pub attempts : ℕ
  pub skipped : List Skipped

pub data Completed : Type 0 where
  completed : Completion → Completed
  failed_with : Text → Completed
  task_crashed : Completed

-- `purpose or "default"`
abbrev pub purpose_or_default : Option Text → Text
purpose_or_default none = text "default"
purpose_or_default (some []) = text "default"
purpose_or_default (some (c ∷ purpose)) = c ∷ purpose

abbrev pub model_or_empty : Option Text → Text
model_or_empty none = []
model_or_empty (some model) = model

-- `len(getattr(exc, "skipped", []) or [1])`
abbrev pub count_tried : List Skipped → ℕ
count_tried [] = 1
count_tried (s ∷ skipped) = length (s ∷ skipped)

abbrev pub operator : Option ℕ → Option ℕ → Actor
operator user_id api_key_id = record {
  role = text "operator";
  user_id = user_id;
  api_key_id = api_key_id;
}

module _ (kind_of : Text → ProviderKind) (db : Tables) where
  -- The targets of an account that the request names.
  unfoldable pub account_targets : TaskCreate → Checked Account → Targets
  account_targets body (ok account) =
      if body.requires_privacy && not (is_local_target kind_of account)
      then no_targets (text "Privacy requires a local model; this account is not local")
      else targets (record { account = account; model = model_or_empty body.model } ∷ [])
  account_targets body (account_error status why) = no_targets why
  account_targets body multiple_results = targets_crashed

  unfoldable pub targets_for : TaskCreate → Actor → Option Text → Targets
  unfolding account_targets
  targets_for body actor purpose = elim body.llm_account_id [
    | some id ↦ account_targets body (require_account db.accounts actor id use_it)
    | none ↦
        route_targets (resolve kind_of db actor (purpose_or_default purpose) body.requires_privacy)
  ]

  module _ {X C : Type 0} (runtime : Runtime X) (services : Services X C)
      (max_retries request_timeout total_timeout : ℕ) (reason_of : Response → FinishReason)
      (strip : Text → Text) (show : ℕ → Text) where
    abbrev pub report : Option Text → GatewayResult → Completed
    report purpose r = completed (record {
      output = r.response.content;
      provider = r.target.account.provider;
      model = r.target.account.provider ++ (text ":" ++ r.target.model);
      node_id = r.target.account.node_id;
      account_id = r.target.account.id;
      ran_locally = is_local_target kind_of r.target.account;
      purpose = purpose;
      fallback_index = r.fallback_index;
      attempts = r.attempts;
      skipped = r.skipped;
    })

    -- The tests on the response.
    unfoldable pub judge : Option Text → GatewayResult → Completed
    judge purpose r = elim (reason_of r.response) [
      | length_limit ↦
          failed_with (text "Output was truncated at max_tokens; raise max_tokens and resubmit")
      | content_filter ↦ failed_with (text "The provider withheld the answer (content filter)")
      | _ ↦
          if strip r.response.content == []
          then failed_with (text "The provider returned no text")
          else report purpose r
    ]

    unfoldable pub completion_of : Option Text → End → Completed
    unfolding judge
    completion_of purpose (result r) = judge purpose r
    completion_of purpose (no_answer error skipped) =
        let tried = count_tried skipped in
        failed_with (
          error.public_message
          ++ (text " ("
              ++ (show tried
                  ++ (text " route "
                      ++ ((if tried == 1 then text "entry" else text "entries")
                          ++ text " tried)")))))
    completion_of purpose failed_through = task_crashed
    completion_of purpose no_end = task_crashed

    unfoldable pub complete_targets :
        TaskCreate → Option Text → Targets → State X → Completed × State X
    unfolding completion_of generate
    complete_targets body purpose (no_targets why) s = (failed_with why, s)
    complete_targets body purpose targets_crashed s = (task_crashed, s)
    complete_targets body purpose (targets route) s =
        let (end, s') =
          generate runtime services max_retries request_timeout total_timeout body.requires_privacy
            route s in
        (completion_of purpose end, s')

    -- `complete_task`
    unfoldable pub complete_task :
        TaskCreate → TaskType → Option ℕ → Option ℕ → State X → Completed × State X
    unfolding purpose_of targets_for complete_targets
    complete_task body task_type user_id api_key_id s =
        let purpose = purpose_of task_type body.route in
        complete_targets body purpose (targets_for body (operator user_id api_key_id) purpose) s
