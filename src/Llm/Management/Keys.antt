-- ===== src/Llm/Management/Keys.antt =====
-- API keys and the transport of the accounts that have them.
use lycosa.Prelude.{
  ℕ, Bool, true, false, ◌&&◌, Option, none, some, List, [], ◌∷◌, ◌++◌, Text, Bool-cases,
  Option-cases, nat_comparable, text_comparable, ◌≡◌, refl, inl, inr, arith,
}
use lycosa.Llm.Accounts.{Account, Actor, can_manage}
use lycosa.Llm.NetPolicy.{Guarded, allowed, not_allowed, unavailable, crashed}
use lycosa.Llm.Endpoints.{ProviderSpec, is_node}
use lycosa.Llm.Management.{
  Credential, AccountAudit, account_created, account_updated, Registry, Managed, done,
  account_error, endpoint_not_allowed, provider_unavailable, credential_unavailable, broke,
  AccountServices, NewAccount, Changes, is_filled, is_some_text, has_credential, put_account,
  is_exposed, method_of,
}
use lycosa.Llm.Management.Save.{store_credential, with_key, save}
use lycosa.Llm.Management.Create.{
  place, kind_local, draft, add_account, create_at, create_placed, create_account,
}
use lycosa.Llm.Management.Update.{
  Draft, relabel, rekey, after_change, store_draft, rekey_and_store, move_and_store, update_known,
  update_account, is_no_text,
}
use lycosa.Llm.Management.Paths.{Created, rejected, reached, create_account-Created}

-- An account that a request returns has a key afterwards only if its endpoint is local or is not
-- plain HTTP.
unfoldable pub IsSafe : {X : Type 0} → Managed Account × Registry X → Type 0
IsSafe (done account, w) = (has_credential w.credentials account.id && is_exposed account) ≡ false
IsSafe (_, w) = Unit

module _ {X : Type 0} (services : AccountServices X) where
  open services use {urls}

  -- A write of a key for an account that is not exposed.
  save_key-IsSafe :
      (account : Account) (key : Option Text) (entry : AccountAudit) (before w : Registry X)
      → is_exposed account ≡ false
      → IsSafe (save services account key entry before w)
  unfolding save IsSafe
  save_key-IsSafe account none entry before w hidden = ground (arith, hidden)
  save_key-IsSafe account (some key) entry before w hidden =
      after (store_credential services account.id key w.credentials w.ext)
    where
      after :
          (stored : Managed (List Credential) × X)
          → IsSafe (
              with_key services account before stored
                (record w { audits = w.audits ++ entry ∷ [] }))
      after (done rows, x) = ground (arith, hidden)
      after (account_error status why, x) = tt
      after (endpoint_not_allowed, x) = tt
      after (provider_unavailable, x) = tt
      after (credential_unavailable, x) = tt
      after (broke, x) = tt

  -- Without a key, the credentials stay as they are.
  save-none-IsSafe :
      (account : Account) (entry : AccountAudit) (before w : Registry X)
      → has_credential w.credentials account.id ≡ false
      → IsSafe (save services account none entry before w)
  unfolding save IsSafe
  save-none-IsSafe account entry before w bare = ground (arith, bare)

  hidden_draft-IsSafe :
      (key : Option Text) (w : Registry X) (d : Draft) (x : X)
      → is_exposed d.account ≡ false
      → IsSafe (store_draft services key w d x)
  unfolding store_draft IsSafe
  hidden_draft-IsSafe key w d x hidden = elim (Bool-cases (is_no_text d.changed)) [
    | inl idle ↦ simp (store_draft, hidden, idle) (ground (arith, hidden))
    | inr busy ↦
        simp (store_draft, hidden, busy)
          (save_key-IsSafe d.account key (account_updated d.account.id d.changed) w
            (record w { ext = x; accounts = put_account d.account w.accounts }) hidden)
  ]

  bare_draft-IsSafe :
      (w : Registry X) (d : Draft) (x : X)
      → is_exposed d.account ≡ true
      → has_credential w.credentials d.account.id ≡ false
      → IsSafe (store_draft services none w d x)
  unfolding store_draft IsSafe
  bare_draft-IsSafe w d x exposed bare = elim (Bool-cases (is_no_text d.changed)) [
    | inl idle ↦ simp (store_draft, exposed, bare, idle) refl
    | inr busy ↦ simp (store_draft, exposed, bare, busy) refl
  ]

  exposed_draft-IsSafe :
      (key : Option Text) (w : Registry X) (d : Draft) (x : X)
      → is_exposed d.account ≡ true
      → IsSafe (store_draft services key w d x)
  unfolding store_draft IsSafe
  exposed_draft-IsSafe (some key) w d x exposed = simp (store_draft, exposed) tt
  exposed_draft-IsSafe none w d x exposed =
      elim (Bool-cases (has_credential w.credentials d.account.id)) [
        | inl keyed ↦ simp (store_draft, exposed, keyed) tt
        | inr bare ↦ bare_draft-IsSafe w d x exposed bare
      ]

  store_draft-IsSafe :
      (key : Option Text) (w : Registry X) (d : Draft) (x : X)
      → IsSafe (store_draft services key w d x)
  store_draft-IsSafe key w d x = elim (Bool-cases (is_exposed d.account)) [
    | inl exposed ↦ exposed_draft-IsSafe key w d x exposed
    | inr hidden ↦ hidden_draft-IsSafe key w d x hidden
  ]

  after_change-IsSafe :
      (change : Managed Draft) (x : X) (w : Registry X)
      (next : Draft → X → Managed Account × Registry X)
      → ((d : Draft) (x' : X) → IsSafe (next d x'))
      → IsSafe (after_change services change x w next)
  unfolding IsSafe
  after_change-IsSafe (done d) x w next safe = safe d x
  after_change-IsSafe (account_error status why) x w next safe = tt
  after_change-IsSafe endpoint_not_allowed x w next safe = tt
  after_change-IsSafe provider_unavailable x w next safe = tt
  after_change-IsSafe credential_unavailable x w next safe = tt
  after_change-IsSafe broke x w next safe = tt

  -- Whatever `update_account` changes, the label, the status, the endpoint or the key, the account
  -- that it returns does not have a key for a plain HTTP endpoint that is not local.
  pub update_account-IsSafe :
      (actor : Actor) (account : Account) (changes : Changes) (w : Registry X)
      → IsSafe (update_account services actor account changes w)
  unfolding update_account update_known move_and_store rekey_and_store IsSafe
  update_account-IsSafe actor account changes w = elim (Bool-cases (can_manage account actor)) [
    | inl may ↦ elim (Option-cases (services.spec_of account.provider)) [
      | inl unknown ↦ simp (update_account, may, unknown) tt
      | inr (spec, known) ↦ simp (update_account, may, known) (known-IsSafe spec)
    ]
    | inr may_not ↦ simp (update_account, may_not) tt
  ]
    where
      known-IsSafe : (spec : ProviderSpec) → IsSafe (update_known services spec account changes w)
      known-IsSafe spec = elim (Bool-cases (is_node spec.kind && is_some_text changes.base_url)) [
        | inl stays ↦ simp (update_known, stays) tt
        | inr moves ↦
            simp (update_known, moves)
              (after_change-IsSafe (relabel w.accounts changes.label account) w.ext w
                (move_and_store services spec changes w)
                (λ d x. after_change-IsSafe _ _ w _ (λ d' x'.
                  after_change-IsSafe (rekey urls.strip changes.api_key d') x' w _
                    (λ d'' x''. store_draft-IsSafe changes.api_key w d'' x''))))
      ]

  add_account-IsSafe :
      (account : Account) (key : Option Text) (w : Registry X) (x : X) (here : Guarded Bool)
      → has_credential w.credentials account.id ≡ false
      → IsSafe (add_account services account key w x here)
  unfolding add_account IsSafe is_filled
  add_account-IsSafe account key w x not_allowed fresh = tt
  add_account-IsSafe account key w x unavailable fresh = tt
  add_account-IsSafe account key w x crashed fresh = tt
  add_account-IsSafe account none w x (allowed here) fresh =
      let account' = record account { is_local = here } in
      save-none-IsSafe account' (account_created account.id) w
        (record w { ext = x; accounts = account' ∷ w.accounts }) fresh
  add_account-IsSafe account (some []) w x (allowed here) fresh =
      let account' = record account { is_local = here } in
      save-none-IsSafe account' (account_created account.id) w
        (record w { ext = x; accounts = account' ∷ w.accounts }) fresh
  add_account-IsSafe account (some (c ∷ key)) w x (allowed here) fresh =
      let account' = record account { is_local = here } in
      elim (Bool-cases (is_exposed account')) [
        | inl exposed ↦ simp (add_account, exposed) tt
        | inr hidden ↦
            simp (add_account, hidden)
              (save_key-IsSafe account' (some (c ∷ key)) (account_created account.id) w
                (record w { ext = x; accounts = account' ∷ w.accounts }) hidden)
      ]

  create_placed-IsSafe :
      (spec : ProviderSpec) (actor : Actor) (request : NewAccount)
      (target : Managed (Option ℕ × Text)) (w : Registry X)
      → has_credential w.credentials (services.new_id w.ext).0 ≡ false
      → IsSafe (create_placed services spec actor request target w)
  unfolding create_placed create_at IsSafe
  create_placed-IsSafe spec actor request (done target) w fresh =
      let (id, x) = services.new_id w.ext in
      let account = draft services id actor request (method_of spec request) target in
      let (here, x') = kind_local services spec.kind account x in
      add_account-IsSafe account request.api_key w x' here fresh
  create_placed-IsSafe spec actor request (account_error status why) w fresh = tt
  create_placed-IsSafe spec actor request endpoint_not_allowed w fresh = tt
  create_placed-IsSafe spec actor request provider_unavailable w fresh = tt
  create_placed-IsSafe spec actor request credential_unavailable w fresh = tt
  create_placed-IsSafe spec actor request broke w fresh = tt

  Created-IsSafe :
      (actor : Actor) (request : NewAccount) (w : Registry X)
      (result : Managed Account × Registry X)
      → has_credential w.credentials (services.new_id w.ext).0 ≡ false
      → Created services actor request w result
      → IsSafe result
  unfolding IsSafe
  Created-IsSafe actor request w result fresh (rejected status why) = tt
  Created-IsSafe actor request w result fresh (reached spec known passed few unnamed) =
      create_placed-IsSafe spec actor request (place services spec request) w fresh

  -- The same of the account that `create_account` returns, if no credential stands under the fresh
  -- identifier.
  pub create_account-IsSafe :
      (actor : Actor) (request : NewAccount) (w : Registry X)
      → has_credential w.credentials (services.new_id w.ext).0 ≡ false
      → IsSafe (create_account services actor request w)
  create_account-IsSafe actor request w fresh =
      Created-IsSafe actor request w _ fresh (create_account-Created services actor request w)
