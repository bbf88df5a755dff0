-- ===== src/Llm/Routing/Policies.antt =====
-- The table of policies under `set_policy` and `delete_policy`.
use lycosa.Prelude.{
  ℕ, ◌≤◌, true, Option, none, some, List, [], ◌∷◌, ◌++◌, map, append-nil, Text, length,
  nat_comparable, text_beq_iff, text_comparable, ◌≡◌, refl, subst, ◌↔◌, arith,
}
use mathlib.Core.Option.{some-injective}
use lycosa.Llm.Accounts.{
  ProviderKind, Actor, Checked, ok, account_error, multiple_results, Scope, same_id,
}
use lycosa.Llm.Routing.{
  Entry, Policy, Tables, is_for, rows_for, Found, absent, one, multiple, scalar_one_or_none,
  get_policy, update_chain, drop_policy, write_policy, entry_of, owner_of, check_policy, set_policy,
  store_policy, delete_policy,
}

-- At most one row for each owner and purpose.
abbrev pub IsUnique : List Policy → Type 0
IsUnique policies =
    (owner : Option ℕ) (purpose : Text) → length (rows_for policies owner purpose) ≤ 1

pub same_id_iff : (a b : Option ℕ) → (same_id a b ≡ true) ↔ (a ≡ b)
same_id_iff a b = ground arith

-- The tests for two places agree on a row only if the places do.
pub is_for_iff :
    (policy : Policy) (owner : Option ℕ) (purpose : Text)
    → (is_for owner purpose policy ≡ true)
      ↔ ((policy.owner_user_id ≡ owner) × (policy.purpose ≡ purpose))
is_for_iff policy owner purpose =
    ground (arith, same_id_iff policy.owner_user_id owner, text_beq_iff policy.purpose purpose)

pub rows_for-append :
    (xs ys : List Policy) (owner : Option ℕ) (purpose : Text)
    → rows_for (xs ++ ys) owner purpose ≡ rows_for xs owner purpose ++ rows_for ys owner purpose
unfolding rows_for
rows_for-append [] ys owner purpose = refl
rows_for-append (policy ∷ xs) ys owner purpose = ground (arith, rows_for-append xs ys owner purpose)

length-rows_for-update :
    (policies : List Policy) (owner owner' : Option ℕ) (purpose purpose' : Text)
    (chain : List Entry)
    → length (rows_for (update_chain policies owner purpose chain) owner' purpose')
      ≡ length (rows_for policies owner' purpose')
unfolding rows_for update_chain
length-rows_for-update [] owner owner' purpose purpose' chain = refl
length-rows_for-update (policy ∷ policies) owner owner' purpose purpose' chain =
    ground (arith, length-rows_for-update policies owner owner' purpose purpose' chain)

length-rows_for-drop-le :
    (policies : List Policy) (owner owner' : Option ℕ) (purpose purpose' : Text)
    → length (rows_for (drop_policy policies owner purpose) owner' purpose')
      ≤ length (rows_for policies owner' purpose')
unfolding rows_for drop_policy
length-rows_for-drop-le [] owner owner' purpose purpose' = omega arith
length-rows_for-drop-le (policy ∷ policies) owner owner' purpose purpose' =
    ground (arith, length-rows_for-drop-le policies owner owner' purpose purpose')

-- An insert of a row for an absent place keeps the table unique.
insert-IsUnique :
    (policies : List Policy) (row : Policy)
    → IsUnique policies
    → rows_for policies row.owner_user_id row.purpose ≡ []
    → IsUnique (policies ++ row ∷ [])
unfolding rows_for
insert-IsUnique policies row unique empty owner purpose =
    rw (rows_for-append policies (row ∷ []) owner purpose) (
      ground (
        arith,
        is_for_iff row owner purpose,
        unique owner purpose,
        append-nil (rows_for policies owner purpose),
      ))

pub rows_for_absent : (rows : List Policy) → scalar_one_or_none rows ≡ absent → rows ≡ []
rows_for_absent rows e = ground arith

write_policy-IsUnique :
    (found : Found) (policies : List Policy) (owner : Option ℕ) (purpose : Text)
    (chain : List Entry) {after : List Policy}
    → get_policy policies owner purpose ≡ found
    → IsUnique policies
    → write_policy found policies owner purpose chain ≡ some after
    → IsUnique after
unfolding write_policy get_policy
write_policy-IsUnique absent policies owner purpose chain read unique e =
    subst IsUnique (some-injective _ _ e)
      (insert-IsUnique policies _ unique (rows_for_absent (rows_for policies owner purpose) read))
write_policy-IsUnique (one policy) policies owner purpose chain read unique e =
    subst IsUnique (some-injective _ _ e) (λ owner' purpose'. omega (
      arith,
      length-rows_for-update policies owner owner' purpose purpose' chain,
      unique owner' purpose',
    ))
write_policy-IsUnique multiple policies owner purpose chain read unique e = cc

store_policy-IsUnique :
    (db : Tables) (scope : Scope) (purpose : Text) (entries : ℕ) (written : Option (List Policy))
    → IsUnique db.policies
    → ((after : List Policy) → written ≡ some after → IsUnique after)
    → IsUnique (store_policy db scope purpose entries written).1.policies
unfolding store_policy
store_policy-IsUnique db scope purpose entries none unique kept = unique
store_policy-IsUnique db scope purpose entries (some policies) unique kept = kept policies refl

module _ (kind_of : Text → ProviderKind) (db : Tables) (actor : Actor) (scope : Scope)
    (purpose : Text) where
  abbrev owner : Option ℕ
  owner = owner_of scope actor

  -- However it ends, `set_policy` keeps the table to one row for each owner and purpose.
  pub set_policy-IsUnique :
      (chain : List (ℕ × Text))
      → IsUnique db.policies
      → IsUnique (set_policy kind_of db actor scope purpose chain).1.policies
  unfolding set_policy
  set_policy-IsUnique chain unique =
      checked (check_policy kind_of db.accounts actor scope purpose chain)
    where
      checked :
          (c : Checked (Unit {0}))
          → IsUnique
              (elim c as (λ _. Checked (Unit {0}) × Tables) [
                | account_error status message ↦ (account_error status message, db)
                | multiple_results ↦ (multiple_results, db)
                | ok _ ↦ store_policy db scope purpose (length chain) (
                    write_policy
                      (get_policy db.policies owner purpose)
                      db.policies
                      owner
                      purpose
                      (map entry_of chain))
              ]).1.policies
      checked (account_error status message) = unique
      checked multiple_results = unique
      checked (ok _) = store_policy-IsUnique db scope purpose (length chain) _ unique (λ after.
          write_policy-IsUnique (get_policy db.policies owner purpose) db.policies owner purpose
            (map entry_of chain) {after = after} refl unique)

  -- However it ends, so does `delete_policy`.
  pub delete_policy-IsUnique :
      IsUnique db.policies → IsUnique (delete_policy kind_of db actor scope purpose).1.policies
  unfolding delete_policy
  delete_policy-IsUnique unique owner' purpose' = ground (
    arith,
    unique owner' purpose',
    length-rows_for-drop-le db.policies owner owner' purpose purpose',
  )
