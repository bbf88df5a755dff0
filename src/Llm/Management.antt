-- ===== src/Llm/Management.antt =====
-- create_account, update_account and delete_account of backend/app/llm/accounts.py, with the
-- credential rows of backend/app/llm/vault.py. A request that fails is not committed, so on an error
-- the tables are those before it. The catalogue, the nodes, the users, the cipher, the vault of the
-- operating system and fresh identifiers are parameters.
pub mod Save
pub mod Create
pub mod Update
pub mod Paths
pub mod Keys
pub mod Owners
pub mod Chains
use lycosa.Prelude.{
  ℕ, zero, suc, ◌+◌, ◌-◌, ◌*◌, ◌/◌, ◌%◌, ◌^◌, ◌≤◌, ◌<◌, min, max, Bool, true, false, not, ◌&&◌,
  ◌||◌, Option, none, some, List, [], ◌∷◌, ◌++◌, map, append-nil, append_assoc, Text, text, String,
  length, take, drop, get_elem?, length-append, length-map, length-take-le, All, All-append, any,
  keep_if, is_in, ltb, leb, nat_beq, if◌then◌else◌, ltb→lt, lt→ltb, leb→le, le→leb, nat_beq_iff,
  Bool-cases, Option-cases, Comparable, ◌==◌, nat_comparable, text_beq, text_beq_iff,
  text_comparable, beq_refl, beq_false, ◌≡◌, refl, sym, ap, ◌∙◌, subst, ◌≢◌, ◌↔◌, ◌⊎◌, inl, inr,
  starts_with, contains, join, arith,
}
use lycosa.Llm.Accounts.{
  ProviderKind, Account, Actor, Scope, personal, deployment, is_admin, is_none, same_id, can_manage,
  can_remove,
}
use lycosa.Llm.NetPolicy.{NetworkStack, Guarded, allowed, not_allowed, unavailable, crashed}
use lycosa.Llm.Endpoints.{
  Urls, BaseUrlMode, ProviderSpec, Networks, is_empty, is_node, normalize_agent_url,
  resolve_base_url, address_policy, locality,
}
use lycosa.Llm.Routing.{Entry, Policy}

pub record Credential : Type 0 where
  pub account_id : ℕ
  pub store : Text
  pub sealed : Option Text

pub data AccountAudit : Type 0 where
  account_created account_deleted : ℕ → AccountAudit
  account_updated : ℕ → List Text → AccountAudit

pub record Registry (X : Type 0) : Type 0 where
  pub ext : X
  pub accounts : List Account
  pub policies : List Policy
  pub credentials : List Credential
  pub audits : List AccountAudit

-- A result, or the exception that leaves the function.
pub data Managed {ℓ} (A : Type ℓ) : Type ℓ where
  done : A → Managed A
  account_error : ℕ → Text → Managed A
  endpoint_not_allowed provider_unavailable credential_unavailable broke : Managed A

pub record BoundNode : Type 0 where
  pub id : ℕ
  pub agent_url : Option Text
  pub offers : Text → Bool

pub record AccountServices (X : Type 0) : Type 0 where
  pub stack : NetworkStack X
  pub urls : Urls
  pub networks : Networks
  pub role_of : ℕ → Option Text
  pub spec_of : Text → Option ProviderSpec
  pub node_of : ℕ → Option BoundNode
  pub new_id : X → ℕ × X
  pub uses_keyring : Bool
  pub set_password : ℕ → Text → X → Bool × X
  pub open_vault : X → Bool × X
  pub delete_password : ℕ → X → X
  pub seal : ℕ → Text → X → Text × X

pub record NewAccount : Type 0 where
  pub provider : Text
  pub label : Text
  pub scope : Scope
  pub base_url : Option Text
  pub api_key : Option Text
  pub auth_method : Option Text
  pub node_id : Option ℕ

pub record Changes : Type 0 where
  pub label : Option Text
  pub status : Option Text
  pub base_url : Option Text
  pub api_key : Option Text

abbrev pub max_accounts_per_owner : ℕ
max_accounts_per_owner = 50

-- An optional text that is neither None nor empty.
unfoldable pub is_filled : Option Text → Bool
is_filled none = false
is_filled (some value) = not (is_empty value)

abbrev pub is_some_text : Option Text → Bool
is_some_text none = false
is_some_text (some value) = true

abbrev pub is_some_id : Option ℕ → Bool
is_some_id none = false
is_some_id (some id) = true

abbrev pub is_deployment_scope : Scope → Bool
is_deployment_scope deployment = true
is_deployment_scope personal = false

abbrev pub is_outside_ascii : ℕ → Bool
is_outside_ascii c = ltb c 33 || ltb 126 c

-- `validate_secret` of backend/app/llm/vault.py
unfoldable pub is_valid_secret : (Text → Text) → Text → Bool
is_valid_secret strip value = not (
    is_empty value
    || (not (value == strip value) || (ltb 4096 (length value) || any is_outside_ascii value)))

-- `has_credential`
unfoldable pub has_credential : List Credential → ℕ → Bool
has_credential [] id = false
has_credential (row ∷ rows) id = row.account_id == id || has_credential rows id

unfoldable pub drop_credential : List Credential → ℕ → List Credential
drop_credential [] id = []
drop_credential (row ∷ rows) id =
    let rest = drop_credential rows id in if row.account_id == id then rest else row ∷ rest

-- The row of an account's credential, if there is one.
unfoldable pub credential_row : List Credential → ℕ → Option Credential
credential_row [] id = none
credential_row (row ∷ rows) id =
    let rest = credential_row rows id in if row.account_id == id then some row else rest

-- The row of an account's credential, with what it holds now.
abbrev pub write_credential : List Credential → ℕ → Text → Option Text → List Credential
write_credential rows id store sealed =
    record { account_id = id; store = store; sealed = sealed } ∷ drop_credential rows id

-- The rows of an owner, and the row that has a provider and a label.
unfoldable pub owned_by : Option ℕ → List Account → List Account
owned_by owner [] = []
owned_by owner (account ∷ accounts) =
    let rest = owned_by owner accounts in
    if same_id account.owner_user_id owner then account ∷ rest else rest

abbrev pub is_named : Text → Text → Account → Bool
is_named provider label account = account.provider == provider && account.label == label

-- The query for another row of the same owner, provider and label.
abbrev pub clashes : Account → Text → Account → Bool
clashes account label other =
    (other.provider == account.provider && other.label == label)
    && (not (other.id == account.id) && same_id other.owner_user_id account.owner_user_id)

-- The row with the identifier of an account, replaced by it.
unfoldable pub put_account : Account → List Account → List Account
put_account account [] = []
put_account account (other ∷ accounts) =
    let rest = put_account account accounts in
    if other.id == account.id then account ∷ rest else other ∷ rest

unfoldable pub drop_account : ℕ → List Account → List Account
drop_account id [] = []
drop_account id (account ∷ accounts) =
    let rest = drop_account id accounts in if account.id == id then rest else account ∷ rest

-- `[e for e in policy.chain if e.get("account_id") != target]`
unfoldable pub without_account : ℕ → List Entry → List Entry
without_account id [] = []
without_account id (entry ∷ chain) =
    let rest = without_account id chain in
    if same_id entry.account_id (some id) then rest else entry ∷ rest

-- The loop of `delete_account` over the policies. A chain that loses no entry is left alone.
abbrev pub keep_policy : ℕ → Policy → List Entry → List Policy → List Policy
keep_policy id policy [] rest = if length policy.chain == 0 then policy ∷ rest else rest
keep_policy id policy (entry ∷ chain) rest = record policy { chain = entry ∷ chain } ∷ rest

unfoldable pub clean_policies : ℕ → List Policy → List Policy
unfolding without_account
clean_policies id [] = []
clean_policies id (policy ∷ policies) =
    keep_policy id policy (without_account id policy.chain) (clean_policies id policies)

-- `url.startswith("http://")` for an account that is not local.
unfoldable pub is_exposed : Account → Bool
is_exposed account = starts_with (text "http://") account.base_url && not account.is_local

abbrev pub api_key_method : Text
api_key_method = text "api_key"

abbrev pub oauth_method : Text
oauth_method = text "oauth_pkce"

abbrev pub none_method : Text
none_method = text "none"

abbrev pub node_method : Text
node_method = text "node_sign_in"

-- The method of a new account: the one that is asked for, or the one that fits.
abbrev pub method_or : Option Text → Text → Text
method_or (some method) default = method
method_or none default = default

unfoldable pub method_of : ProviderSpec → NewAccount → Text
unfolding is_filled
method_of spec request = method_or request.auth_method (
    if is_filled request.api_key
    then api_key_method
    else if is_node spec.kind
    then node_method
    else none_method)

-- Whether the method needs a key, `method in (API_KEY, OAUTH_PKCE)`.
abbrev pub needs_key : Text → Bool
needs_key method = method == api_key_method || method == oauth_method
