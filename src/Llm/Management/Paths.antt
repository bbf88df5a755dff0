-- ===== src/Llm/Management/Paths.antt =====
-- The ways through `create_account`.
use lycosa.Prelude.{
  ℕ, false, none, some, Text, text, length, any, leb, Bool-cases, Option-cases, nat_comparable,
  text_comparable, ◌≡◌, inl, inr,
}
use lycosa.Llm.Accounts.{Account, Actor}
use lycosa.Llm.Endpoints.{ProviderSpec}
use lycosa.Llm.Management.{
  Registry, Managed, account_error, AccountServices, NewAccount, max_accounts_per_owner, owned_by,
  is_named,
}
use lycosa.Llm.Management.Create.{
  owner_for, refusal, place, create_placed, create_checked, create_known, create_account,
}

module _ {X : Type 0} (services : AccountServices X) where
  open services use {spec_of}

  -- A request that is rejected leaves the tables alone; one that goes on has passed every test, the
  -- limit and the search for its name included.
  pub data Created (actor : Actor) (request : NewAccount) (w : Registry X)
      : Managed Account × Registry X → Type 0 where
    rejected : (status : ℕ) (why : Text) → Created actor request w (account_error status why, w)
    reached :
        (spec : ProviderSpec)
        → spec_of request.provider ≡ some spec
        → refusal services spec actor request ≡ none
        → leb max_accounts_per_owner
            (length (owned_by (owner_for services request.scope actor) w.accounts))
          ≡ false
        → any
            (is_named request.provider request.label)
            (owned_by (owner_for services request.scope actor) w.accounts)
          ≡ false
        → Created actor request w
            (create_placed services spec actor request (place services spec request) w)

  create_checked-Created :
      (spec : ProviderSpec) (actor : Actor) (request : NewAccount) (w : Registry X)
      → spec_of request.provider ≡ some spec
      → refusal services spec actor request ≡ none
      → Created actor request w (create_checked services spec actor request w)
  unfolding create_checked
  create_checked-Created spec actor request w known passed =
      let existing = owned_by (owner_for services request.scope actor) w.accounts in
      elim (Bool-cases (leb max_accounts_per_owner (length existing))) [
        | inl full ↦ simp (create_checked, full) (rejected 409 (text "Account limit reached"))
        | inr few ↦ elim (Bool-cases (any (is_named request.provider request.label) existing)) [
          | inl named ↦
              simp (create_checked, few, named)
                (rejected 409 (text "An account with this provider and label already exists"))
          | inr unnamed ↦
              simp (create_checked, few, unnamed) (reached spec known passed few unnamed)
        ]
      ]

  create_known-Created :
      (spec : ProviderSpec) (actor : Actor) (request : NewAccount) (w : Registry X)
      → spec_of request.provider ≡ some spec
      → Created actor request w (create_known services spec actor request w)
  unfolding create_known
  create_known-Created spec actor request w known =
      elim (Option-cases (refusal services spec actor request)) [
        | inl passed ↦
            simp (create_known, passed) (create_checked-Created spec actor request w known passed)
        | inr ((status, why), shut) ↦ simp (create_known, shut) (rejected status why)
      ]

  pub create_account-Created :
      (actor : Actor) (request : NewAccount) (w : Registry X)
      → Created actor request w (create_account services actor request w)
  unfolding create_account
  create_account-Created actor request w = elim (Option-cases (spec_of request.provider)) [
    | inl unknown ↦ simp (create_account, unknown) (rejected 422 (text "Unknown provider"))
    | inr (spec, known) ↦
        simp (create_account, known) (create_known-Created spec actor request w known)
  ]
