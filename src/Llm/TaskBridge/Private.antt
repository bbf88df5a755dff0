-- ===== src/Llm/TaskBridge/Private.antt =====
-- The accounts behind a task that requires privacy.
use lycosa.Prelude.{
  ℕ, ◌+◌, Bool, true, ◌||◌, Option, some, List, [], ◌∷◌, Text, All, All-append, Bool-cases,
  Option-cases, nat_comparable, text_comparable, ◌≡◌, refl, sym, ap, ◌∙◌, subst, inl, inr, arith,
}
use lycosa.Orchestrator.Classifier.{TaskType}
use lycosa.Orchestrator.State.{TaskCreate}
use lycosa.Llm.Errors.{LlmError, plain_error, no_route}
use lycosa.Llm.Retries.{Runtime, exhausted}
use lycosa.Llm.Accounts.{
  ProviderKind, Account, Actor, Checked, ok, account_error, multiple_results, use_it,
  require_account, is_local_target, can_use, permit, get_account, check,
}
use lycosa.Llm.Routing.{
  Target, Tables, Route, found_route, no_route_error, crashed, resolve, is_local_only,
}
use lycosa.Llm.Routing.Chains.{IsUsable, resolve-IsRoute}
use lycosa.Llm.Routing.Resolution.{get_account-id}
use lycosa.Llm.Gateway.{
  Response, UsageRow, Skipped, State, Services, Answer, answered, rejected, aborted, unfinished,
  End, settle_target, generate_from, generate,
}
use lycosa.Llm.TaskBridge.{
  FinishReason, Targets, targets, no_targets, targets_crashed, route_targets, account_targets,
  targets_for, complete_targets, complete_task, purpose_of, operator, purpose_or_default,
}

-- A usage row of an account that satisfies a predicate, and an entry with such an account.
abbrev pub RowOf : (ℕ → Type 0) → UsageRow → Type 0
RowOf P row = P row.account_id

abbrev pub TargetOf : (ℕ → Type 0) → Target → Type 0
TargetOf P target = P target.account.id

-- Every entry that was asked and every row that was written are those of such an account.
pub record AreAll {X : Type 0} (P : ℕ → Type 0) (s : State X) : Type 0 where
  pub asked : All (TargetOf P) s.asked
  pub written : All (RowOf P) s.rows

module _ {X C : Type 0} (runtime : Runtime X) (services : Services X C)
    (max_retries request_timeout total_timeout : ℕ) (requires_privacy : Bool) (P : ℕ → Type 0) where
  settle_target-All :
      (target : Target) (index total : ℕ) (skipped : List Skipped)
      (later : List Skipped → LlmError → State X → End × State X) (answer : Answer) (s : State X)
      → P target.account.id
      → AreAll P s
      → ((sk : List Skipped) (e : LlmError) (s' : State X)
          → AreAll P s'
          → AreAll P (later sk e s').1)
      → AreAll P
          (settle_target runtime services max_retries request_timeout total_timeout requires_privacy
            target index total skipped later answer s).1
  unfolding settle_target
  settle_target-All target index total skipped later (answered response attempts) s here before
        next =
      record {
        asked = before.asked;
        written = All-append (RowOf P) s.rows _ before.written (here, tt);
      }
  settle_target-All target index total skipped later (rejected error attempts) s here before next =
      next _ error _ (record {
        asked = before.asked;
        written = All-append (RowOf P) s.rows _ before.written (here, tt);
      })
  settle_target-All target index total skipped later aborted s here before next = before
  settle_target-All target index total skipped later unfinished s here before next = before

  -- A reading of the clock changes neither the entries that were asked nor the rows.
  AreAll-ext : (s : State X) (x : X) → AreAll P s → AreAll P (record s { ext = x })
  AreAll-ext s x before = record { asked = before.asked; written = before.written }

  generate_from-All :
      (ends_at total index : ℕ) (route : List Target) (skipped : List Skipped) (last : LlmError)
      (s : State X)
      → All (TargetOf P) route
      → AreAll P s
      → AreAll P
          (generate_from runtime services max_retries request_timeout total_timeout requires_privacy
            ends_at total index route skipped last s).1
  unfolding generate_from
  generate_from-All ends_at total index [] skipped last s members before = before
  generate_from-All ends_at total index (target ∷ route) skipped last s (here, members) before =
      let (over, x) = exhausted runtime (some ends_at) s.ext in
      elim (Bool-cases over) [
        | inl late ↦ rw late (AreAll-ext s x before)
        | inr in_time ↦ rw in_time (
            settle_target-All target index total skipped _ _ _ here
              (record {
                asked = All-append (TargetOf P) s.asked _ before.asked (here, tt);
                written = before.written;
              })
              (λ sk e s'. generate_from-All ends_at total (index + 1) route sk e s' members))
      ]

  generate-All :
      (route : List Target) (s : State X)
      → All (TargetOf P) route
      → AreAll P s
      → AreAll P
          (generate runtime services max_retries request_timeout total_timeout requires_privacy
            route s).1
  unfolding generate AreAll-ext
  generate-All [] s members before = before
  generate-All (target ∷ route) s members before =
      generate_from-All _ _ 0 (target ∷ route) [] (plain_error no_route) _ members
        (AreAll-ext s _ before)

-- The account that the table has under an identifier is one that the caller may use, and local.
pub record IsOwnLocal (kind_of : Text → ProviderKind) (accounts : List Account) (actor : Actor)
    (id : ℕ) : Type 0 where
  pub account : Account
  pub stored : get_account accounts id ≡ some account
  pub usable : can_use account actor ≡ true
  pub local_account : is_local_target kind_of account ≡ true

module _ (kind_of : Text → ProviderKind) (db : Tables) (actor : Actor) where
  abbrev IsOwnLocalTarget : Target → Type 0
  IsOwnLocalTarget target = IsOwnLocal kind_of db.accounts actor target.account.id

  -- What is known of the targets of a request.
  unfoldable IsPrivate : Targets → Type 0
  IsPrivate (targets route) = All IsOwnLocalTarget route
  IsPrivate (no_targets why) = Unit
  IsPrivate targets_crashed = Unit

  usable-IsOwnLocal :
      (local_only : Bool) (route : List Target)
      → local_only ≡ true
      → All (IsUsable kind_of db.accounts actor local_only) route
      → All IsOwnLocalTarget route
  usable-IsOwnLocal local_only [] private members = tt
  usable-IsOwnLocal local_only (target ∷ route) private (first, members) = (
    record {
      account = target.account;
      stored =
          subst (λ id. get_account db.accounts id ≡ some target.account)
            (sym
              (get_account-id db.accounts first.stored.0 {account = target.account} first.stored.1))
            first.stored.1;
      usable = first.usable;
      local_account = ground (arith, first.local_enough, private);
    },
    usable-IsOwnLocal local_only route private members,
  )

  permit-use :
      (account found : Account)
      → permit account actor use_it ≡ ok found
      → (account ≡ found) × (can_use found actor ≡ true)
  unfolding permit check
  permit-use account found e = ground (arith, e)

  -- An account of the table that the caller may use.
  IsPermitted : Account → Type 0
  IsPermitted account =
      (get_account db.accounts account.id ≡ some account) × (can_use account actor ≡ true)

  require_account-use :
      (id : ℕ) (found : Account)
      → require_account db.accounts actor id use_it ≡ ok found
      → IsPermitted found
  unfolding require_account IsPermitted
  require_account-use id found e = elim (Option-cases (get_account db.accounts id)) [
    | inl missing ↦ absurd (ground (arith, missing, e))
    | inr (account, row) ↦
        let (same, usable) = permit-use account found (simp (require_account, row) at e) in
        let there : get_account db.accounts id ≡ some found = row ∙ ap some same in
        (
          subst (λ i. get_account db.accounts i ≡ some found)
              (sym (get_account-id db.accounts id {account = found} there)) there,
          usable,
        )
  ]

  account_targets-IsPrivate :
      (body : TaskCreate) (id : ℕ) (checked : Checked Account)
      → body.requires_privacy ≡ true
      → ((account : Account) → checked ≡ ok account → IsPermitted account)
      → IsPrivate (account_targets kind_of db body checked)
  unfolding account_targets IsPrivate IsPermitted
  account_targets-IsPrivate body id (ok account) private usable =
      elim (Bool-cases (is_local_target kind_of account)) [
        | inl near ↦
            simp (account_targets, private, near)
              (
                record {
                  account = account;
                  stored = (usable account refl).0;
                  usable = (usable account refl).1;
                  local_account = near;
                },
                tt,
              )
        | inr far ↦ simp (account_targets, private, far) tt
      ]
  account_targets-IsPrivate body id (account_error status why) private usable = tt
  account_targets-IsPrivate body id multiple_results private usable = tt

  route_targets-IsPrivate :
      (purpose : Text) (route : Route)
      → resolve kind_of db actor purpose true ≡ route
      → IsPrivate (route_targets route)
  unfolding IsPrivate
  route_targets-IsPrivate purpose (found_route route) e =
      usable-IsOwnLocal (true || is_local_only purpose) route refl
        (resolve-IsRoute kind_of db actor purpose true e).members
  route_targets-IsPrivate purpose (no_route_error why) e = tt
  route_targets-IsPrivate purpose crashed e = tt

  targets_for-IsPrivate :
      (body : TaskCreate) (purpose : Option Text)
      → body.requires_privacy ≡ true
      → IsPrivate (targets_for kind_of db body actor purpose)
  unfolding targets_for
  targets_for-IsPrivate body purpose private = elim (Option-cases body.llm_account_id) [
    | inl by_route ↦
        simp (targets_for, by_route, private)
          (route_targets-IsPrivate (purpose_or_default purpose) _ refl)
    | inr (id, named) ↦
        simp (targets_for, named)
          (account_targets-IsPrivate body id (require_account db.accounts actor id use_it) private
            (require_account-use id))
  ]

module _ (kind_of : Text → ProviderKind) (db : Tables) {X C : Type 0} (runtime : Runtime X)
    (services : Services X C) (max_retries request_timeout total_timeout : ℕ)
    (reason_of : Response → FinishReason) (strip : Text → Text) (show : ℕ → Text) where
  complete_targets-All :
      (body : TaskCreate) (actor : Actor) (purpose : Option Text) (chosen : Targets) (s : State X)
      → IsPrivate kind_of db actor chosen
      → AreAll (IsOwnLocal kind_of db.accounts actor) s
      → AreAll
          (IsOwnLocal kind_of db.accounts actor)
          (complete_targets kind_of db runtime services max_retries request_timeout total_timeout
            reason_of strip show body purpose chosen s).1
  unfolding complete_targets IsPrivate
  complete_targets-All body actor purpose (targets route) s members before =
      generate-All runtime services max_retries request_timeout total_timeout body.requires_privacy
        (IsOwnLocal kind_of db.accounts actor) route s members before
  complete_targets-All body actor purpose (no_targets why) s members before = before
  complete_targets-All body actor purpose targets_crashed s members before = before

  -- A task that requires privacy only ever asks accounts that are local and that its owner may use,
  -- through an account that it names or any route, retries and fallbacks included: each entry that
  -- it asks and each usage row that it writes has the identifier of such an account of the table.
  pub complete_task-AreAll :
      (body : TaskCreate) (task_type : TaskType) (user_id api_key_id : Option ℕ) (s : State X)
      → body.requires_privacy ≡ true
      → AreAll (IsOwnLocal kind_of db.accounts (operator user_id api_key_id)) s
      → AreAll
          (IsOwnLocal kind_of db.accounts (operator user_id api_key_id))
          (complete_task kind_of db runtime services max_retries request_timeout total_timeout
            reason_of strip show body task_type user_id api_key_id s).1
  unfolding complete_task
  complete_task-AreAll body task_type user_id api_key_id s private before =
      let actor = operator user_id api_key_id in
      let purpose = purpose_of task_type body.route in
      complete_targets-All body actor purpose (targets_for kind_of db body actor purpose) s
        (targets_for-IsPrivate kind_of db actor body purpose private) before
