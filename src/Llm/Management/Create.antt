-- ===== src/Llm/Management/Create.antt =====
-- `create_account` of backend/app/llm/accounts.py.
use lycosa.Prelude.{
  ℕ, Bool, false, not, ◌&&◌, Option, none, some, [], ◌∷◌, ◌++◌, Text, text, length, any, is_in, leb,
  if◌then◌else◌, ◌==◌, nat_comparable, text_comparable,
}
use lycosa.Llm.Accounts.{
  ProviderKind, Account, Actor, Scope, personal, deployment, is_admin, is_none,
}
use lycosa.Llm.NetPolicy.{Guarded, allowed, not_allowed, unavailable, crashed}
use lycosa.Llm.Endpoints.{
  ProviderSpec, is_node, normalize_agent_url, resolve_base_url, address_policy, locality,
}
use lycosa.Llm.Management.{
  account_created, Registry, Managed, done, account_error, endpoint_not_allowed,
  provider_unavailable, credential_unavailable, broke, BoundNode, AccountServices, NewAccount,
  max_accounts_per_owner, is_filled, is_some_text, is_some_id, is_deployment_scope, is_valid_secret,
  owned_by, is_named, is_exposed, none_method, method_or, method_of, needs_key,
}
use lycosa.Llm.Management.Save.{failed, save, filled_or_none}

module _ {X : Type 0} (services : AccountServices X) where
  open services use {
    stack, urls, networks, role_of, spec_of, node_of, new_id, uses_keyring, set_password, seal,
  }

  -- The tests of `create_account` up to the query for the owner's accounts.
  unfoldable pub refusal : ProviderSpec → Actor → NewAccount → Option (ℕ × Text)
  unfolding method_of is_filled is_valid_secret
  refusal spec actor request =
      let method = method_of spec request in
      if is_deployment_scope request.scope && not (is_admin actor)
      then some (403, text "Only administrators manage deployment accounts")
      else if not (is_deployment_scope request.scope) && is_none actor.user_id
      then some (403, text "API-key callers cannot own personal accounts")
      else if is_node spec.kind && is_deployment_scope request.scope
      then some
          (422, spec.display_name ++ text " accounts are personal: a plan may serve only its owner")
      else if is_node spec.kind && is_some_text request.base_url
      then some (422, spec.display_name ++ text " runs on a node and takes no endpoint URL")
      else if not (is_node spec.kind) && is_some_id request.node_id
      then some (422, text "Only node-run providers are bound to a node")
      else if not (is_in method spec.auth_methods)
      then some (
        422,
        spec.display_name ++ (text " does not support " ++ (method ++ text " authentication")),
      )
      else if method == none_method && is_filled request.api_key
      then some (422, text "An API key was supplied for an unauthenticated account")
      else if needs_key method && not (is_filled request.api_key)
      then some (422, spec.display_name ++ text " needs an API key")
      else if needs_key method && not (is_valid_secret urls.strip (method_or request.api_key []))
      then some (422, text "Invalid API key format")
      else none

  abbrev pub owner_for : Scope → Actor → Option ℕ
  owner_for personal actor = actor.user_id
  owner_for deployment actor = none

  -- `_bound_node` and `_node_url`: the node and its URL, or the message of a 422.
  abbrev pub node_url : BoundNode → Managed (Option ℕ × Text)
  node_url node = elim (normalize_agent_url urls (method_or node.agent_url [])) [
    | none ↦ account_error 422 (text "The node has not registered a reachable agent")
    | some url ↦ done (some node.id, url)
  ]

  abbrev pub offered_url : ProviderSpec → BoundNode → Managed (Option ℕ × Text)
  offered_url spec node =
      if node.offers spec.id
      then node_url node
      else account_error 422 (
          text "This node does not offer "
          ++ (spec.display_name
              ++ text
                  "; enable it on the node (LYCOSA_CLAUDE_SUBSCRIPTION=true) and restart its agent"))

  abbrev pub bound_node : Option ℕ → Option BoundNode
  bound_node none = none
  bound_node (some id) = node_of id

  abbrev pub guarded_url : Guarded Text → Managed (Option ℕ × Text)
  guarded_url (allowed url) = done (none, url)
  guarded_url not_allowed = endpoint_not_allowed
  guarded_url unavailable = provider_unavailable
  guarded_url crashed = broke

  -- Where the account's calls go: the node, if there is one, and the URL.
  unfoldable pub place : ProviderSpec → NewAccount → Managed (Option ℕ × Text)
  unfolding normalize_agent_url resolve_base_url
  place spec request =
      if is_node spec.kind
      then elim (bound_node request.node_id) [
        | none ↦ account_error 422 (text "Choose the node that runs this account")
        | some node ↦ offered_url spec node
      ]
      else guarded_url (resolve_base_url urls spec request.base_url)

  -- The new row before its locality is known.
  abbrev pub draft : ℕ → Actor → NewAccount → Text → Option ℕ × Text → Account
  draft id actor request method (node_id, url) = record {
    id = id;
    provider = request.provider;
    owner_user_id = owner_for request.scope actor;
    status = text "active";
    is_local = false;
    label = request.label;
    auth_method = method;
    base_url = url;
    api_access = text "unknown";
    node_id = node_id;
  }

  abbrev pub kind_local : ProviderKind → Account → X → Guarded Bool × X
  kind_local kind account x =
      if is_some_id account.node_id
      then (allowed false, x)
      else locality stack urls kind account.base_url
          (address_policy networks role_of kind account false) x

  unfoldable pub add_account :
      Account → Option Text → Registry X → X → Guarded Bool → Managed Account × Registry X
  unfolding save is_exposed is_filled
  add_account account key w x not_allowed = failed services endpoint_not_allowed w x
  add_account account key w x unavailable = failed services provider_unavailable w x
  add_account account key w x crashed = failed services broke w x
  add_account account key w x (allowed here) =
      let account' = record account { is_local = here } in
      if is_filled key && is_exposed account'
      then failed services
          (account_error 422 (text "API keys need HTTPS unless the endpoint is on a local network"))
          w x
      else save services account' (filled_or_none services key) (account_created account.id) w
          (record w { ext = x; accounts = account' ∷ w.accounts })

  -- The same error, of another result.
  abbrev pub as_error : Managed (Option ℕ × Text) → Managed Account
  as_error (done target) = broke
  as_error (account_error status why) = account_error status why
  as_error endpoint_not_allowed = endpoint_not_allowed
  as_error provider_unavailable = provider_unavailable
  as_error credential_unavailable = credential_unavailable
  as_error broke = broke

  unfoldable pub create_at :
      ProviderSpec
      → Actor
      → NewAccount
      → Option ℕ × Text
      → Registry X
      → Managed Account × Registry X
  unfolding add_account locality address_policy method_of
  create_at spec actor request target w =
      let (id, x) = new_id w.ext in
      let account = draft id actor request (method_of spec request) target in
      let (here, x') = kind_local spec.kind account x in
      add_account account request.api_key w x' here

  unfoldable pub create_placed :
      ProviderSpec
      → Actor
      → NewAccount
      → Managed (Option ℕ × Text)
      → Registry X
      → Managed Account × Registry X
  unfolding create_at
  create_placed spec actor request (done target) w = create_at spec actor request target w
  create_placed spec actor request other w = (as_error other, w)

  -- The limit, the clash and what follows.
  unfoldable pub create_checked :
      ProviderSpec → Actor → NewAccount → Registry X → Managed Account × Registry X
  unfolding owned_by place create_placed
  create_checked spec actor request w =
      let existing = owned_by (owner_for request.scope actor) w.accounts in
      if leb max_accounts_per_owner (length existing)
      then (account_error 409 (text "Account limit reached"), w)
      else if any (is_named request.provider request.label) existing
      then (account_error 409 (text "An account with this provider and label already exists"), w)
      else create_placed spec actor request (place spec request) w

  unfoldable pub create_known :
      ProviderSpec → Actor → NewAccount → Registry X → Managed Account × Registry X
  unfolding refusal create_checked
  create_known spec actor request w = elim (refusal spec actor request) [
    | none ↦ create_checked spec actor request w
    | some (status, why) ↦ (account_error status why, w)
  ]

  unfoldable pub create_account : Actor → NewAccount → Registry X → Managed Account × Registry X
  unfolding create_known
  create_account actor request w = elim (spec_of request.provider) [
    | none ↦ (account_error 422 (text "Unknown provider"), w)
    | some spec ↦ create_known spec actor request w
  ]
