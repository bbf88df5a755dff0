-- ===== src/Llm/Accounts.antt =====
-- The access rules of backend/app/llm/accounts.py. Identifiers are numbers; `user_id` and
-- `api_key_id` are `none` where the source has `None`.
use lycosa.Prelude.{
  ℕ, Bool, true, false, not, ◌&&◌, ◌||◌, Option, none, some, List, [], ◌∷◌, Text, text,
  if◌then◌else◌, ◌==◌, nat_comparable, text_comparable,
}

pub data ProviderKind : Type 0 where
  cloud aggregator local compatible node : ProviderKind

pub record Account : Type 0 where
  pub id : ℕ
  pub provider : Text
  pub owner_user_id : Option ℕ
  pub status : Text
  pub is_local : Bool
  pub label : Text
  pub auth_method : Text
  pub base_url : Text
  pub api_access : Text
  pub node_id : Option ℕ

pub record Actor : Type 0 where
  pub role : Text
  pub user_id : Option ℕ
  pub api_key_id : Option ℕ

-- The result, `AccountError(status, message)`, or the `MultipleResultsFound` of a query for at most
-- one row.
pub data Checked {ℓ} (A : Type ℓ) : Type ℓ where
  ok : A → Checked A
  account_error : ℕ → Text → Checked A
  multiple_results : Checked A

pub data Scope : Type 0 where
  personal deployment : Scope

abbrev pub is_admin : Actor → Bool
is_admin actor = actor.role == text "admin"

abbrev pub is_none {ℓ} : {A : Type ℓ} → Option A → Bool
is_none none = true
is_none (some a) = false

abbrev pub same_id : Option ℕ → Option ℕ → Bool
same_id none none = true
same_id (some a) (some b) = a == b
same_id _ _ = false

unfoldable pub is_deployment : Account → Bool
is_deployment account = is_none account.owner_user_id

unfoldable pub scope_of : Account → Scope
unfolding is_deployment
scope_of account = if is_deployment account then deployment else personal

unfoldable pub owns : Account → Actor → Bool
owns account actor = not (is_none actor.user_id) && same_id account.owner_user_id actor.user_id

unfoldable pub can_view : Account → Actor → Bool
unfolding is_deployment owns
can_view account actor = is_deployment account || owns account actor || is_admin actor

unfoldable pub can_use : Account → Actor → Bool
unfolding is_deployment owns
can_use account actor =
    account.status == text "active" && (is_deployment account || owns account actor)

unfoldable pub can_manage : Account → Actor → Bool
unfolding is_deployment owns
can_manage account actor = (is_deployment account && is_admin actor) || owns account actor

unfoldable pub can_remove : Account → Actor → Bool
unfolding can_manage
can_remove account actor = can_manage account actor || is_admin actor

pub data Need : Type 0 where
  view use_it manage remove_it : Need

-- `_CHECKS[need]`
unfoldable pub check : Need → Account → Actor → Bool
unfolding can_view can_use can_manage can_remove
check view = can_view
check use_it = can_use
check manage = can_manage
check remove_it = can_remove

-- `get_account`: the row with the identifier.
unfoldable pub get_account : List Account → ℕ → Option Account
get_account [] id = none
get_account (account ∷ accounts) id =
    let rest = get_account accounts id in if account.id == id then some account else rest

abbrev pub is_use : Need → Bool
is_use use_it = true
is_use _ = false

-- The tests of `require_account` on the row that was found.
unfoldable pub permit : Account → Actor → Need → Checked Account
unfolding check
permit account actor need =
    if not (can_view account actor)
    then account_error 404 (text "Account not found")
    else if check need account actor
    then ok account
    else if is_use need && not (account.status == text "active")
    then account_error 409 (text "Account is disabled")
    else account_error 403 (text "Not permitted for this account")

unfoldable pub require_account : List Account → Actor → ℕ → Need → Checked Account
unfolding get_account permit
require_account accounts actor id need = elim (get_account accounts id) [
  | none ↦ account_error 404 (text "Account not found")
  | some account ↦ permit account actor need
]

-- `is_local_target` of backend/app/llm/routing.py, by the kind that the catalogue gives the
-- provider.
unfoldable pub is_local_target : (Text → ProviderKind) → Account → Bool
is_local_target kind_of account =
    account.is_local
    && elim (kind_of account.provider) [ local ↦ true | compatible ↦ true | _ ↦ false ]
