-- ===== src/Llm/Routing.antt =====
-- backend/app/llm/routing.py: a policy is an ordered chain of accounts and models for a purpose,
-- and `resolve` is the route that a caller gets. The tables are lists of rows.
pub mod Chains
pub mod Policies
pub mod RoundTrip
pub mod Resolution
pub mod Refinement
use lycosa.Prelude.{
  ℕ, zero, suc, ◌+◌, ◌-◌, ◌*◌, ◌/◌, ◌^◌, ◌≤◌, ◌<◌, min, max, Bool, true, false, not, ◌&&◌, ◌||◌,
  Option, none, some, List, [], ◌∷◌, ◌++◌, map, append-nil, append_assoc, Text, text, String,
  length, take, drop, get_elem?, length-append, length-map, length-take-le, All, All-append, any,
  keep_if, is_in, ltb, leb, nat_beq, if◌then◌else◌, ltb→lt, lt→ltb, leb→le, le→leb, nat_beq_iff,
  Bool-cases, Option-cases, Comparable, ◌==◌, nat_comparable, text_beq, text_beq_iff,
  text_comparable, beq_refl, beq_false, ◌≡◌, refl, sym, ap, ◌∙◌, subst, ◌≢◌, ◌↔◌, ◌⊎◌, inl, inr,
  starts_with, contains, join, arith,
}
use lycosa.Llm.Accounts.{
  ProviderKind, Account, Actor, Checked, ok, account_error, multiple_results, Scope, personal,
  deployment, is_admin, is_none, same_id, is_deployment, can_use, get_account, is_local_target,
}
use lycosa.Llm.Errors.{ErrorKind, LlmError, plain_error, no_route}

-- An entry of a stored chain: the account's identifier if the text is one, and the model if it is
-- a string.
pub record Entry : Type 0 where
  pub account_id : Option ℕ
  pub model : Option Text

pub record Policy : Type 0 where
  pub owner_user_id : Option ℕ
  pub purpose : Text
  pub chain : List Entry

pub record Target : Type 0 where
  pub account : Account
  pub model : Text

-- An entry of the audit log.
pub record Audited : Type 0 where
  pub action : Text
  pub resource : Text
  pub scope : Scope
  pub entries : ℕ

pub record Tables : Type 0 where
  pub accounts : List Account
  pub policies : List Policy
  pub audited : List Audited

abbrev pub purposes : List Text
purposes =
    text "default"
    ∷ text "coding"
    ∷ text "reasoning"
    ∷ text "vision"
    ∷ text "cheap"
    ∷ text "private"
    ∷ text "offline"
    ∷ []

abbrev pub local_only_purposes : List Text
local_only_purposes = text "private" ∷ text "offline" ∷ []

-- `purpose in PURPOSES`
unfoldable pub is_purpose : Text → Bool
is_purpose purpose = is_in purpose purposes

-- `purpose in LOCAL_ONLY`
unfoldable pub is_local_only : Text → Bool
is_local_only purpose = is_in purpose local_only_purposes

abbrev pub max_chain : ℕ
max_chain = 5

-- `LLMRoutingPolicy.owner_user_id == owner, LLMRoutingPolicy.purpose == purpose`
abbrev pub is_for : Option ℕ → Text → Policy → Bool
is_for owner purpose policy = same_id policy.owner_user_id owner && policy.purpose == purpose

-- The rows of the query. No constraint of the table keeps them to one.
unfoldable pub rows_for : List Policy → Option ℕ → Text → List Policy
rows_for [] owner purpose = []
rows_for (policy ∷ policies) owner purpose =
    let rest = rows_for policies owner purpose in
    if is_for owner purpose policy then policy ∷ rest else rest

-- What `scalar_one_or_none` makes of them.
pub data Found : Type 0 where
  absent : Found
  one : Policy → Found
  multiple : Found

abbrev pub scalar_one_or_none : List Policy → Found
scalar_one_or_none [] = absent
scalar_one_or_none (policy ∷ []) = one policy
scalar_one_or_none (policy ∷ policy' ∷ rest) = multiple

unfoldable pub get_policy : List Policy → Option ℕ → Text → Found
get_policy policies owner purpose = scalar_one_or_none (rows_for policies owner purpose)

-- `policy.chain = chain` on the row that was read.
unfoldable pub update_chain : List Policy → Option ℕ → Text → List Entry → List Policy
update_chain [] owner purpose chain = []
update_chain (policy ∷ policies) owner purpose chain =
    let rest = update_chain policies owner purpose chain in
    if is_for owner purpose policy then record policy { chain = chain } ∷ rest else policy ∷ rest

-- `db.delete(policy)` on the row that was read.
unfoldable pub drop_policy : List Policy → Option ℕ → Text → List Policy
drop_policy [] owner purpose = []
drop_policy (policy ∷ policies) owner purpose =
    let rest = drop_policy policies owner purpose in
    if is_for owner purpose policy then rest else policy ∷ rest

-- `get_policy(...) or LLMRoutingPolicy(...)`, the assignment and `db.add`: the write that follows
-- a read.
unfoldable pub write_policy :
    Found → List Policy → Option ℕ → Text → List Entry → Option (List Policy)
unfolding update_chain
write_policy absent policies owner purpose chain =
    some (policies ++ record { owner_user_id = owner; purpose = purpose; chain = chain } ∷ [])
write_policy (one policy) policies owner purpose chain =
    some (update_chain policies owner purpose chain)
write_policy multiple policies owner purpose chain = none

abbrev pub entry_of : ℕ × Text → Entry
entry_of (account_id, model) = record { account_id = some account_id; model = some model }

abbrev pub owner_of : Scope → Actor → Option ℕ
owner_of deployment actor = none
owner_of personal actor = actor.user_id

abbrev pub is_shared : Scope → Bool
is_shared deployment = true
is_shared personal = false

-- `[purpose] if purpose == "default" else [purpose, "default"]`, each with the caller's own
-- policy before the deployment's.
abbrev pub owners : Actor → List (Option ℕ)
owners actor = elim actor.user_id [ none ↦ none ∷ [] | some user ↦ some user ∷ none ∷ [] ]

abbrev pub paired : Text → List (Option ℕ) → List (Text × Option ℕ)
paired name owners' = map (λ owner. (name, owner)) owners'

unfoldable pub places : Actor → Text → List (Text × Option ℕ)
places actor purpose =
    if purpose == text "default"
    then paired purpose (owners actor)
    else paired purpose (owners actor) ++ paired (text "default") (owners actor)

-- How the loops of `resolve` end.
pub data Search : Type 0 where
  hit : List Target → Search
  nothing : Search
  clash : Search

-- The targets, the message of the `NoRouteError`, or the `MultipleResultsFound` of `get_policy`.
pub data Route : Type 0 where
  found_route : List Target → Route
  no_route_error : Text → Route
  crashed : Route

-- The end of `set_policy`: the rows as they are now, and the entry of the audit log.
unfoldable pub store_policy :
    Tables → Scope → Text → ℕ → Option (List Policy) → Checked (Unit {0}) × Tables
store_policy db scope purpose entries none = (multiple_results, db)
store_policy db scope purpose entries (some policies) = (
  ok tt,
  record db {
    policies = policies;
    audited =
        db.audited
        ++ record {
          action = text "llm.routing.update";
          resource = purpose;
          scope = scope;
          entries = entries;
        }
          ∷ [];
  },
)

-- What follows the loops of `resolve`.
unfoldable pub route_of : Bool → Text → Search → Route
route_of local_only purpose (hit targets) = found_route targets
route_of local_only purpose clash = crashed
route_of local_only purpose nothing =
    if local_only
    then no_route_error (text "No local model route is configured for private/offline work")
    else no_route_error (text "No usable route is configured for '" ++ (purpose ++ text "'"))

module _ (kind_of : Text → ProviderKind) where
  -- The tests on one entry of the chain that `set_policy` is given.
  unfoldable pub check_entry : List Account → Actor → Scope → Text → ℕ → Checked (Unit {0})
  check_entry accounts actor scope purpose account_id = elim (get_account accounts account_id) [
    | none ↦ account_error 422 (text "Every route entry must be an active account you can use")
    | some account ↦
        if not (can_use account actor)
        then account_error 422 (text "Every route entry must be an active account you can use")
        else if is_shared scope && not (is_deployment account)
        then account_error 422 (text "Deployment routes may only use deployment accounts")
        else if is_local_only purpose && not (is_local_target kind_of account)
        then account_error 422
            (text "The '" ++ (purpose ++ text "' route may only use local runtimes"))
        else ok tt
  ]

  unfoldable pub check_chain :
      List Account → Actor → Scope → Text → List (ℕ × Text) → Checked (Unit {0})
  check_chain accounts actor scope purpose [] = ok tt
  check_chain accounts actor scope purpose ((account_id, model) ∷ chain) =
      let rest = check_chain accounts actor scope purpose chain in
      elim (check_entry accounts actor scope purpose account_id) [
        | ok _ ↦ rest
        | account_error status message ↦ account_error status message
        | multiple_results ↦ multiple_results
      ]

  -- The guards of `set_policy`, in order.
  unfoldable pub check_policy :
      List Account → Actor → Scope → Text → List (ℕ × Text) → Checked (Unit {0})
  check_policy accounts actor scope purpose chain =
      if not (is_purpose purpose)
      then account_error 422 (text "Unknown purpose")
      else if not (leb 1 (length chain) && leb (length chain) max_chain)
      then account_error 422 (text "A route needs 1 to 5 entries")
      else if is_shared scope && not (is_admin actor)
      then account_error 403 (text "Only administrators manage deployment routing")
      else if not (is_shared scope) && is_none actor.user_id
      then account_error 403 (text "API-key callers have no personal routing")
      else check_chain accounts actor scope purpose chain

  unfoldable pub set_policy :
      Tables → Actor → Scope → Text → List (ℕ × Text) → Checked (Unit {0}) × Tables
  set_policy db actor scope purpose chain =
      elim (check_policy db.accounts actor scope purpose chain) [
        | account_error status message ↦ (account_error status message, db)
        | multiple_results ↦ (multiple_results, db)
        | ok _ ↦
            let owner = owner_of scope actor in
            let found = get_policy db.policies owner purpose in
            store_policy db scope purpose (length chain)
              (write_policy found db.policies owner purpose (map entry_of chain))
      ]

  unfoldable pub delete_policy : Tables → Actor → Scope → Text → Checked Bool × Tables
  delete_policy db actor scope purpose =
      if is_shared scope && not (is_admin actor)
      then (account_error 403 (text "Only administrators manage deployment routing"), db)
      else if not (is_shared scope) && is_none actor.user_id
      then (account_error 403 (text "API-key callers have no personal routing"), db)
      else elim (get_policy db.policies (owner_of scope actor) purpose) [
        | absent ↦ (ok false, db)
        | multiple ↦ (multiple_results, db)
        | one policy ↦ (
          ok true,
          record db {
            policies = drop_policy db.policies (owner_of scope actor) purpose;
            audited =
                db.audited
                ++ record {
                  action = text "llm.routing.delete";
                  resource = purpose;
                  scope = scope;
                  entries = 0;
                }
                  ∷ [];
          },
        )
      ]

  -- One turn of the loop of `_chain_targets`.
  unfoldable pub entry_target : List Account → Actor → Bool → Entry → Option Target
  entry_target accounts actor local_only entry = elim entry.account_id [
    | none ↦ none
    | some account_id ↦ elim (get_account accounts account_id) [
      | none ↦ none
      | some account ↦ elim entry.model [
        | none ↦ none
        | some model ↦
            if not (can_use account actor)
            then none
            else if local_only && not (is_local_target kind_of account)
            then none
            else some (record { account = account; model = model })
      ]
    ]
  ]

  unfoldable pub targets_of : List Account → Actor → Bool → List Entry → List Target
  targets_of accounts actor local_only [] = []
  targets_of accounts actor local_only (entry ∷ chain) =
      let rest = targets_of accounts actor local_only chain in
      elim (entry_target accounts actor local_only entry) [
        | none ↦ rest
        | some target ↦ target ∷ rest
      ]

  -- `_chain_targets`
  abbrev pub chain_targets : List Account → Actor → Policy → Bool → List Target
  chain_targets accounts actor policy local_only =
      targets_of accounts actor local_only (take max_chain policy.chain)

  -- The two loops of `resolve`: the first place with a policy that has a usable target.
  unfoldable pub first_route : Tables → Actor → Bool → List (Text × Option ℕ) → Search
  first_route db actor local_only [] = nothing
  first_route db actor local_only ((name, owner) ∷ rest) =
      let later = first_route db actor local_only rest in
      elim (get_policy db.policies owner name) [
        | absent ↦ later
        | multiple ↦ clash
        | one policy ↦ elim (chain_targets db.accounts actor policy local_only) [
          | [] ↦ later
          | target ∷ targets ↦ hit (target ∷ targets)
        ]
      ]

  unfoldable pub resolve : Tables → Actor → Text → Bool → Route
  unfolding route_of
  resolve db actor purpose requires_privacy =
      if not (is_purpose purpose)
      then no_route_error (text "Unknown routing purpose")
      else let local_only = requires_privacy || is_local_only purpose in
        route_of local_only purpose (first_route db actor local_only (places actor purpose))
