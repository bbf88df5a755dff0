-- ===== src/Llm/Management/Owners.antt =====
-- How many accounts an owner has, and under which names.
use lycosa.Prelude.{
  any-All, ℕ, suc, ◌≤◌, Bool, true, false, ◌&&◌, Option, none, some, List, [], ◌∷◌, ◌++◌, Text,
  length, All, any, leb, Bool-cases, nat_comparable, text_comparable, ◌≡◌, refl, ap, subst, inl,
  inr, arith,
}
use lycosa.Llm.Accounts.{Account, Actor, same_id}
use lycosa.Llm.NetPolicy.{Guarded, allowed, not_allowed, unavailable, crashed}
use lycosa.Llm.Endpoints.{ProviderSpec}
use lycosa.Llm.Management.{
  Credential, AccountAudit, account_created, Registry, Managed, done, account_error,
  endpoint_not_allowed, provider_unavailable, credential_unavailable, broke, AccountServices,
  NewAccount, max_accounts_per_owner, is_filled, owned_by, is_named, is_exposed, method_of,
}
use lycosa.Llm.Management.Save.{store_credential, with_key, save, filled_or_none}
use lycosa.Llm.Management.Create.{
  owner_for, place, kind_local, draft, add_account, create_at, create_placed, create_account,
}
use lycosa.Llm.Management.Paths.{Created, rejected, reached, create_account-Created}

-- Two accounts of one owner with the same provider and label.
abbrev pub collides : Account → Account → Bool
collides a b = same_id a.owner_user_id b.owner_user_id && is_named b.provider b.label a

unfoldable pub IsDistinct : List Account → Type 0
IsDistinct [] = Unit
IsDistinct (account ∷ accounts) =
    All (λ other. collides other account ≡ false) accounts × IsDistinct accounts

-- The limit and the uniqueness of names.
pub record IsKept (accounts : List Account) : Type 0 where
  pub limited : (owner : Option ℕ) → length (owned_by owner accounts) ≤ max_accounts_per_owner
  pub distinct : IsDistinct accounts

same_id_eq : (a b : Option ℕ) → same_id a b ≡ true → a ≡ b
same_id_eq none none e = refl
same_id_eq (some a) (some b) e = ap some (ground (arith, e))
same_id_eq none (some b) e = ground (arith, e)
same_id_eq (some a) none e = ground (arith, e)

unnamed-All :
    (account : Account) (accounts : List Account)
    → All
        (λ other. is_named account.provider account.label other ≡ false)
        (owned_by account.owner_user_id accounts)
    → All (λ other. collides other account ≡ false) accounts
unfolding owned_by
unnamed-All account [] free = tt
unnamed-All account (other ∷ accounts) free =
    elim (Bool-cases (same_id other.owner_user_id account.owner_user_id)) [
      | inl same ↦
          let (first, others) = (rw same at free) in
          (ground (arith, first), unnamed-All account accounts others)
      | inr another ↦ (ground (arith, another), unnamed-All account accounts (rw another at free))
    ]

few-le :
    (account : Account) (accounts : List Account) (owner : Option ℕ)
    → same_id account.owner_user_id owner ≡ true
    → leb max_accounts_per_owner (length (owned_by account.owner_user_id accounts)) ≡ false
    → suc (length (owned_by owner accounts)) ≤ max_accounts_per_owner
few-le account accounts owner same few =
    let below =
      subst (λ o. leb max_accounts_per_owner (length (owned_by o accounts)) ≡ false)
        (same_id_eq account.owner_user_id owner same) few in
    ground (arith, below)

cons-limited :
    (account : Account) (accounts : List Account) (owner : Option ℕ)
    → leb max_accounts_per_owner (length (owned_by account.owner_user_id accounts)) ≡ false
    → length (owned_by owner accounts) ≤ max_accounts_per_owner
    → length (owned_by owner (account ∷ accounts)) ≤ max_accounts_per_owner
unfolding owned_by
cons-limited account accounts owner few before =
    elim (Bool-cases (same_id account.owner_user_id owner)) [
      | inl same ↦ rw same (few-le account accounts owner same few)
      | inr another ↦ rw another before
    ]

cons-IsKept :
    (account : Account) (accounts : List Account)
    → leb max_accounts_per_owner (length (owned_by account.owner_user_id accounts)) ≡ false
    → any (is_named account.provider account.label) (owned_by account.owner_user_id accounts)
      ≡ false
    → IsKept accounts
    → IsKept (account ∷ accounts)
unfolding IsDistinct
cons-IsKept account accounts few free kept = record {
  limited = λ owner. cons-limited account accounts owner few (kept.limited owner);
  distinct = (
    unnamed-All account accounts (
        any-All (is_named account.provider account.label) (owned_by account.owner_user_id accounts)
          free),
    kept.distinct,
  );
}

module _ {X : Type 0} (services : AccountServices X) where
  save-IsKept :
      (account : Account) (key : Option Text) (entry : AccountAudit) (before w : Registry X)
      → IsKept before.accounts
      → IsKept w.accounts
      → IsKept (save services account key entry before w).1.accounts
  unfolding save
  save-IsKept account none entry before w kept written = written
  save-IsKept account (some secret) entry before w kept written =
      after (store_credential services account.id secret w.credentials w.ext)
    where
      after :
          (stored : Managed (List Credential) × X)
          → IsKept
              (with_key services account before stored
                (record w { audits = w.audits ++ entry ∷ [] })).1.accounts
      after (done rows, x) = written
      after (account_error status why, x) = kept
      after (endpoint_not_allowed, x) = kept
      after (provider_unavailable, x) = kept
      after (credential_unavailable, x) = kept
      after (broke, x) = kept

  add_account-IsKept :
      (account : Account) (key : Option Text) (w : Registry X) (x : X) (here : Guarded Bool)
      → IsKept w.accounts
      → ((b : Bool) → IsKept (record account { is_local = b } ∷ w.accounts))
      → IsKept (add_account services account key w x here).1.accounts
  unfolding add_account
  add_account-IsKept account key w x not_allowed kept added = kept
  add_account-IsKept account key w x unavailable kept added = kept
  add_account-IsKept account key w x crashed kept added = kept
  add_account-IsKept account key w x (allowed here) kept added =
      let account' = record account { is_local = here } in
      elim (Bool-cases (is_filled key && is_exposed account')) [
        | inl exposed ↦ simp (add_account, exposed) kept
        | inr fine ↦
            simp (add_account, fine)
              (save-IsKept account' (filled_or_none services key) (account_created account.id) w
                (record w { ext = x; accounts = account' ∷ w.accounts }) kept (added here))
      ]

  create_placed-IsKept :
      (spec : ProviderSpec) (actor : Actor) (request : NewAccount)
      (target : Managed (Option ℕ × Text)) (w : Registry X)
      → leb max_accounts_per_owner
          (length (owned_by (owner_for services request.scope actor) w.accounts))
        ≡ false
      → any
          (is_named request.provider request.label)
          (owned_by (owner_for services request.scope actor) w.accounts)
        ≡ false
      → IsKept w.accounts
      → IsKept (create_placed services spec actor request target w).1.accounts
  unfolding create_placed create_at
  create_placed-IsKept spec actor request (done target) w few unnamed kept =
      let (id, x) = services.new_id w.ext in
      let account = draft services id actor request (method_of spec request) target in
      let (here, x') = kind_local services spec.kind account x in
      add_account-IsKept account request.api_key w x' here kept
        (λ b. cons-IsKept (record account { is_local = b }) w.accounts few unnamed kept)
  create_placed-IsKept spec actor request (account_error status why) w few unnamed kept = kept
  create_placed-IsKept spec actor request endpoint_not_allowed w few unnamed kept = kept
  create_placed-IsKept spec actor request provider_unavailable w few unnamed kept = kept
  create_placed-IsKept spec actor request credential_unavailable w few unnamed kept = kept
  create_placed-IsKept spec actor request broke w few unnamed kept = kept

  Created-IsKept :
      (actor : Actor) (request : NewAccount) (w : Registry X)
      (result : Managed Account × Registry X)
      → IsKept w.accounts
      → Created services actor request w result
      → IsKept result.1.accounts
  Created-IsKept actor request w result kept (rejected status why) = kept
  Created-IsKept actor request w result kept (reached spec known passed few unnamed) =
      create_placed-IsKept spec actor request (place services spec request) w few unnamed kept

  -- However it ends, `create_account` keeps every owner to 50 accounts at most, and no two accounts
  -- of one owner have the same provider and label.
  pub create_account-IsKept :
      (actor : Actor) (request : NewAccount) (w : Registry X)
      → IsKept w.accounts
      → IsKept (create_account services actor request w).1.accounts
  create_account-IsKept actor request w kept =
      Created-IsKept actor request w _ kept (create_account-Created services actor request w)
