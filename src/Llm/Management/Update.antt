-- ===== src/Llm/Management/Update.antt =====
-- `update_account` and `delete_account` of backend/app/llm/accounts.py.
use lycosa.Prelude.{
  ℕ, Bool, true, false, not, ◌&&◌, ◌||◌, Option, none, some, List, [], ◌∷◌, ◌++◌, Text, text, any,
  if◌then◌else◌, ◌==◌, nat_comparable, text_comparable,
}
use lycosa.Llm.Accounts.{Account, Actor, can_manage, can_remove}
use lycosa.Llm.NetPolicy.{Guarded, allowed, not_allowed, unavailable, crashed}
use lycosa.Llm.Endpoints.{ProviderSpec, is_node, resolve_base_url, address_policy, locality}
use lycosa.Llm.Management.{
  account_deleted, account_updated, Registry, Managed, done, account_error, endpoint_not_allowed,
  provider_unavailable, credential_unavailable, broke, AccountServices, Changes, is_some_text,
  is_valid_secret, has_credential, drop_credential, credential_row, Credential, clashes,
  put_account, drop_account, clean_policies, is_exposed, none_method, node_method,
}
use lycosa.Llm.Management.Save.{failed, save}

-- The account as the request has changed it, and the names of what it changed.
pub record Draft : Type 0 where
  pub account : Account
  pub changed : List Text

abbrev pub same : Account → Draft
same account = record { account = account; changed = [] }

abbrev pub is_no_text : List Text → Bool
is_no_text [] = true
is_no_text (t ∷ ts) = false

unfoldable pub relabel : List Account → Option Text → Account → Managed Draft
relabel accounts none account = done (same account)
relabel accounts (some label) account =
    if label == account.label
    then done (same account)
    else if any (clashes account label) accounts
    then account_error 409 (text "An account with this provider and label already exists")
    else done (record { account = record account { label = label }; changed = text "label" ∷ [] })

unfoldable pub restatus : Option Text → Draft → Draft
restatus none d = d
restatus (some status) d = if status == d.account.status then d else record {
  account = record d.account { status = status };
  changed = d.changed ++ text "status" ∷ [];
}

abbrev pub is_keyless : Text → Bool
is_keyless method = method == none_method || method == node_method

unfoldable pub rekey : (Text → Text) → Option Text → Draft → Managed Draft
unfolding is_valid_secret
rekey strip none d = done d
rekey strip (some key) d =
    if is_keyless d.account.auth_method
    then account_error 422 (text "This account does not use an API key")
    else if not (is_valid_secret strip key)
    then account_error 422 (text "Invalid API key format")
    else done (record {
      account = record d.account { api_access = text "unknown" };
      changed = d.changed ++ text "credential" ∷ [];
    })

module _ {X : Type 0} (services : AccountServices X) where
  open services use {
    stack, urls, networks, role_of, spec_of, node_of, new_id, uses_keyring, set_password, seal,
  }

  -- The new endpoint, once its locality is known.
  abbrev pub moved : Text → Draft → Guarded Bool → Managed Draft
  moved url d (allowed here) = done (record {
    account = record d.account { is_local = here; base_url = url; api_access = text "unknown" };
    changed = d.changed ++ text "base_url" ∷ [];
  })
  moved url d not_allowed = endpoint_not_allowed
  moved url d unavailable = provider_unavailable
  moved url d crashed = broke

  unfoldable pub move_to : ProviderSpec → Draft → Guarded Text → X → Managed Draft × X
  unfolding locality address_policy
  move_to spec d (allowed url) x =
      if url == d.account.base_url
      then (done d, x)
      else (let (here, x') =
            locality stack urls spec.kind url
              (address_policy networks role_of spec.kind d.account false) x in
          (moved url d here, x'))
  move_to spec d not_allowed x = (endpoint_not_allowed, x)
  move_to spec d unavailable x = (provider_unavailable, x)
  move_to spec d crashed x = (broke, x)

  unfoldable pub rebase : ProviderSpec → Option Text → Draft → X → Managed Draft × X
  unfolding move_to resolve_base_url
  rebase spec none d x = (done d, x)
  rebase spec (some url) d x = move_to spec d (resolve_base_url urls spec (some url)) x

  -- A change that may fail, and what follows it.
  abbrev pub after_change :
      Managed Draft
      → X
      → Registry X
      → (Draft → X → Managed Account × Registry X)
      → Managed Account × Registry X
  after_change (done d) x w next = next d x
  after_change (account_error status why) x w next = failed services (account_error status why) w x
  after_change endpoint_not_allowed x w next = failed services endpoint_not_allowed w x
  after_change provider_unavailable x w next = failed services provider_unavailable w x
  after_change credential_unavailable x w next = failed services credential_unavailable w x
  after_change broke x w next = failed services broke w x

  -- The test of the transport, and the write.
  unfoldable pub store_draft : Option Text → Registry X → Draft → X → Managed Account × Registry X
  unfolding save is_exposed has_credential put_account
  store_draft key w d x =
      if is_exposed d.account && (is_some_text key || has_credential w.credentials d.account.id)
      then failed services
          (account_error 422 (text "API keys need HTTPS unless the endpoint is on a local network"))
          w x
      else if is_no_text d.changed
      then (done d.account, record w { ext = x })
      else save services d.account key (account_updated d.account.id d.changed) w
          (record w { ext = x; accounts = put_account d.account w.accounts })

  unfoldable pub rekey_and_store : Changes → Registry X → Draft → X → Managed Account × Registry X
  unfolding rekey store_draft
  rekey_and_store changes w d x =
      after_change (rekey urls.strip changes.api_key d) x w (store_draft changes.api_key w)

  unfoldable pub move_and_store :
      ProviderSpec → Changes → Registry X → Draft → X → Managed Account × Registry X
  unfolding rebase restatus rekey_and_store
  move_and_store spec changes w d x =
      let (moved_to, x') = rebase spec changes.base_url (restatus changes.status d) x in
      after_change moved_to x' w (rekey_and_store changes w)

  unfoldable pub update_known :
      ProviderSpec → Account → Changes → Registry X → Managed Account × Registry X
  unfolding relabel move_and_store
  update_known spec account changes w =
      if is_node spec.kind && is_some_text changes.base_url
      then (
        account_error 422
            (spec.display_name ++ text " follows its node; there is no endpoint to change"),
        w,
      )
      else after_change (relabel w.accounts changes.label account) w.ext w
          (move_and_store spec changes w)

  -- `update_account`; `catalog.spec` fails for a provider that it does not know.
  unfoldable pub update_account :
      Actor → Account → Changes → Registry X → Managed Account × Registry X
  unfolding update_known can_manage
  update_account actor account changes w =
      if not (can_manage account actor)
      then (account_error 403 (text "Not permitted for this account"), w)
      else elim (spec_of account.provider) [
        | none ↦ (broke, w)
        | some spec ↦ update_known spec account changes w
      ]

module _ {X : Type 0} (services : AccountServices X) where
  open services use {open_vault, delete_password}

  -- The password in the vault of the operating system: an exception of `delete_password` is
  -- swallowed, one of `_keyring` is not.
  unfoldable pub forget_password : ℕ → X → Managed (Unit {0}) × X
  forget_password id x =
      let (opened, x') = open_vault x in
      if opened then (done tt, delete_password id x') else (credential_unavailable, x')

  -- `delete_credential` up to the row itself.
  unfoldable pub forget_credential : Option Credential → ℕ → X → Managed (Unit {0}) × X
  unfolding forget_password
  forget_credential none id x = (done tt, x)
  forget_credential (some row) id x =
      if row.store == text "keyring" then forget_password id x else (done tt, x)

  -- The rows after `delete_credential` and the rest of `delete_account`.
  unfoldable pub settle_delete :
      Account → Managed (Unit {0}) → X → Registry X → Managed (Unit {0}) × Registry X
  unfolding drop_credential drop_account clean_policies
  settle_delete account (done _) x w = (
    done tt,
    record {
      ext = x;
      accounts = drop_account account.id w.accounts;
      policies = clean_policies account.id w.policies;
      credentials = drop_credential w.credentials account.id;
      audits = w.audits ++ account_deleted account.id ∷ [];
    },
  )
  settle_delete account why x w = (why, record w { ext = x })

  -- `delete_account`
  unfoldable pub delete_account : Actor → Account → Registry X → Managed (Unit {0}) × Registry X
  unfolding can_remove credential_row forget_credential settle_delete
  delete_account actor account w =
      if not (can_remove account actor)
      then (account_error 403 (text "Not permitted for this account"), w)
      else let (forgotten, x) =
          forget_credential (credential_row w.credentials account.id) account.id w.ext in
        settle_delete account forgotten x w
