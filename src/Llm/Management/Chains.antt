-- ===== src/Llm/Management/Chains.antt =====
-- What is left of an account that is deleted.
use lycosa.Prelude.{
  ℕ, true, false, none, some, text, text_beq_iff, Option-cases, List, [], ◌∷◌, length, All,
  Bool-cases, ◌==◌, nat_comparable, text_comparable, ◌≡◌, refl, ◌≢◌, inl, inr, arith,
}
use lycosa.Llm.Accounts.{Account, Actor, same_id, can_remove, get_account}
use lycosa.Llm.Routing.{Entry, Policy}
use lycosa.Llm.Management.{
  Credential, Registry, has_credential, credential_row, drop_credential, drop_account, Managed,
  done, credential_unavailable, AccountServices, without_account, clean_policies, keep_policy,
}
use lycosa.Llm.Management.Update.{delete_account, settle_delete, forget_credential, forget_password}

abbrev IsElsewhere : ℕ → Entry → Type 0
IsElsewhere id entry = same_id entry.account_id (some id) ≡ false

-- A policy with a chain that is not empty and that does not name the account.
pub record IsFreeOf (id : ℕ) (policy : Policy) : Type 0 where
  pub elsewhere : All (IsElsewhere id) policy.chain
  pub not_empty : policy.chain ≢ []

-- Neither a row of the account, nor a row of its credential, nor an entry of a chain is left.
pub record IsGone {X : Type 0} (id : ℕ) (w : Registry X) : Type 0 where
  pub no_row : get_account w.accounts id ≡ none
  pub no_key : has_credential w.credentials id ≡ false
  pub no_entry : All (IsFreeOf id) w.policies

without_account-All :
    (id : ℕ) (chain : List Entry) → All (IsElsewhere id) (without_account id chain)
unfolding without_account
without_account-All id [] = tt
without_account-All id (entry ∷ chain) = elim (Bool-cases (same_id entry.account_id (some id))) [
  | inl here ↦ rw here (without_account-All id chain)
  | inr other ↦ rw other (other, without_account-All id chain)
]

full-length : (chain : List Entry) → chain ≢ [] → (length chain == 0) ≡ false
full-length [] full = absurd (full refl)
full-length (entry ∷ chain) full = ground arith

keep_policy-All :
    (id : ℕ) (policy : Policy) (chain : List Entry) (rest : List Policy)
    → policy.chain ≢ []
    → All (IsElsewhere id) chain
    → All (IsFreeOf id) rest
    → All (IsFreeOf id) (keep_policy id policy chain rest)
keep_policy-All id policy [] rest full free others = rw (full-length policy.chain full) others
keep_policy-All id policy (entry ∷ chain) rest full free others =
    (record { elsewhere = free; not_empty = λ e. ground arith }, others)

clean_policies-All :
    (id : ℕ) (policies : List Policy)
    → All (λ policy. policy.chain ≢ []) policies
    → All (IsFreeOf id) (clean_policies id policies)
unfolding clean_policies
clean_policies-All id [] full = tt
clean_policies-All id (policy ∷ policies) (first, full) =
    keep_policy-All id policy (without_account id policy.chain) (clean_policies id policies) first
      (without_account-All id policy.chain) (clean_policies-All id policies full)

drop_account-none :
    (id : ℕ) (accounts : List Account) → get_account (drop_account id accounts) id ≡ none
unfolding get_account drop_account
drop_account-none id [] = refl
drop_account-none id (account ∷ accounts) = elim (Bool-cases (account.id == id)) [
  | inl here ↦ rw here (drop_account-none id accounts)
  | inr other ↦ rw (other, other) (drop_account-none id accounts)
]

drop_credential-none :
    (rows : List Credential) (id : ℕ) → has_credential (drop_credential rows id) id ≡ false
unfolding has_credential drop_credential
drop_credential-none [] id = refl
drop_credential-none (row ∷ rows) id = elim (Bool-cases (row.account_id == id)) [
  | inl here ↦ rw here (drop_credential-none rows id)
  | inr other ↦ rw (other, other) (drop_credential-none rows id)
]

-- The account is gone, and its password was asked to be deleted if the vault of the operating
-- system has it.
pub record IsDeleted {X : Type 0} (services : AccountServices X) (id : ℕ) (w : Registry X)
    (w' : Registry X) : Type 0 where
  pub gone : IsGone id w'
  pub forgotten :
      (row : Credential)
      → credential_row w.credentials id ≡ some row
      → row.store ≡ text "keyring"
      → w'.ext ≡ services.delete_password id (services.open_vault w.ext).1

-- Nothing was changed, since the credential is in a vault that cannot be opened.
pub record IsLocked {X : Type 0} (services : AccountServices X) (id : ℕ) (w : Registry X)
    (w' : Registry X) : Type 0 where
  pub row : Credential
  pub found : credential_row w.credentials id ≡ some row
  pub in_vault : row.store ≡ text "keyring"
  pub closed : (services.open_vault w.ext).0 ≡ false
  pub unchanged : w' ≡ record w { ext = (services.open_vault w.ext).1 }

module _ {X : Type 0} (services : AccountServices X) where
  -- How a deletion that is permitted ends.
  unfoldable pub Deletes : ℕ → Registry X → Managed (Unit {0}) × Registry X → Type 0
  Deletes id w (done _, w') = IsDeleted services id w w'
  Deletes id w (credential_unavailable, w') = IsLocked services id w w'
  Deletes id w (_, w') = ⊥

  rows-IsGone :
      (account : Account) (w : Registry X) (x : X)
      → All (λ policy. policy.chain ≢ []) w.policies
      → IsGone account.id (settle_delete services account (done tt) x w).1
  unfolding settle_delete
  rows-IsGone account w x full = record {
    no_row = drop_account-none account.id w.accounts;
    no_key = drop_credential-none w.credentials account.id;
    no_entry = clean_policies-All account.id w.policies full;
  }

  vault-Deletes :
      (account : Account) (row : Credential) (w : Registry X)
      → credential_row w.credentials account.id ≡ some row
      → row.store ≡ text "keyring"
      → All (λ policy. policy.chain ≢ []) w.policies
      → Deletes account.id w (
          settle_delete services account
            (forget_password services account.id w.ext).0
            (forget_password services account.id w.ext).1
            w)
  unfolding forget_password settle_delete Deletes
  vault-Deletes account row w found stored full =
      let (opened, x) = services.open_vault w.ext in
      elim (Bool-cases opened) [
        | inl unlocked ↦ rw unlocked (record {
          gone = rows-IsGone account w _ full;
          forgotten = λ row' found' stored'. refl;
        })
        | inr closed ↦ rw closed (record {
          row = row;
          found = found;
          in_vault = stored;
          closed = closed;
          unchanged = refl;
        })
      ]

  -- An account that the caller may remove is deleted: no row of it is left, no credential row and no
  -- entry in any policy, of whatever owner, no policy has an empty chain if none had before, and a
  -- password in the vault of the operating system was asked to be deleted. Only where the vault has
  -- the credential and cannot be opened does the deletion fail, and changes no table.
  pub delete_account-Deletes :
      (actor : Actor) (account : Account) (w : Registry X)
      → can_remove account actor ≡ true
      → All (λ policy. policy.chain ≢ []) w.policies
      → Deletes account.id w (delete_account services actor account w)
  unfolding delete_account forget_credential Deletes settle_delete
  delete_account-Deletes actor account w may full =
      elim (Option-cases (credential_row w.credentials account.id)) [
        | inl missing ↦
            simp (delete_account, may, missing, forget_credential)
              (record {
                gone = rows-IsGone account w w.ext full;
                forgotten = λ row found stored. absurd (ground (arith, missing, found));
              })
        | inr (row, found) ↦ elim (Bool-cases (row.store == text "keyring")) [
          | inl stored ↦
              simp (delete_account, may, found, forget_credential, stored)
                (vault-Deletes account row w found
                  ((text_beq_iff row.store (text "keyring")).0 stored) full)
          | inr sealed ↦
              simp (delete_account, may, found, forget_credential, sealed)
                (record {
                  gone = rows-IsGone account w w.ext full;
                  forgotten = λ row' found' stored'. absurd (
                      ground (
                        arith,
                        found,
                        found',
                        stored',
                        sealed,
                        text_beq_iff row.store (text "keyring"),
                      ));
                })
        ]
      ]
