-- ===== src/Llm/Routing/RoundTrip.antt =====
-- What a route is after `set_policy` has stored it.
use lycosa.Prelude.{
  ℕ, Option, none, some, List, [], ◌∷◌, ◌++◌, map, append-nil, Text, length, nat_comparable,
  text_comparable, ◌≡◌, refl, subst, arith,
}
use mathlib.Core.Option.{some-injective}
use lycosa.Llm.Accounts.{ProviderKind, Actor, Checked, ok, account_error, multiple_results, Scope}
use lycosa.Llm.Routing.{
  Entry, Policy, Tables, rows_for, Found, absent, one, multiple, scalar_one_or_none, get_policy,
  update_chain, write_policy, entry_of, owner_of, check_policy, set_policy, store_policy,
}
use lycosa.Llm.Routing.Policies.{rows_for-append, is_for_iff, rows_for_absent}

-- The rows of the place, each with the new chain.
rows_for-update_self :
    (policies : List Policy) (owner : Option ℕ) (purpose : Text) (chain : List Entry)
    → rows_for (update_chain policies owner purpose chain) owner purpose
      ≡ map {A = Policy}
          (λ policy. record policy { chain = chain })
          (rows_for policies owner purpose)
unfolding rows_for update_chain
rows_for-update_self [] owner purpose chain = refl
rows_for-update_self (policy ∷ policies) owner purpose chain =
    ground (arith, rows_for-update_self policies owner purpose chain)

rows_for-update_other :
    (policies : List Policy) (owner other : Option ℕ) (purpose name : Text) (chain : List Entry)
    → ¬ ((owner ≡ other) × (purpose ≡ name))
    → rows_for (update_chain policies owner purpose chain) other name ≡ rows_for policies other name
unfolding rows_for update_chain
rows_for-update_other [] owner other purpose name chain apart = refl
rows_for-update_other (policy ∷ policies) owner other purpose name chain apart = ground (
  arith,
  is_for_iff policy owner purpose,
  is_for_iff policy other name,
  rows_for-update_other policies owner other purpose name chain apart,
)

-- After a write the place has one row, with the chain, and no other place has changed.
pub record IsWritten (before after : List Policy) (owner : Option ℕ) (purpose : Text)
    (chain : List Entry) : Type 0 where
  pub row : Policy
  pub stored : get_policy after owner purpose ≡ one row
  pub chained : row.chain ≡ chain
  pub others :
      (other : Option ℕ) (name : Text)
      → ¬ ((owner ≡ other) × (purpose ≡ name))
      → get_policy after other name ≡ get_policy before other name

insert-IsWritten :
    (policies : List Policy) (owner : Option ℕ) (purpose : Text) (chain : List Entry)
    → rows_for policies owner purpose ≡ []
    → IsWritten policies
        (policies ++ record { owner_user_id = owner; purpose = purpose; chain = chain } ∷ [])
        owner
        purpose
        chain
unfolding get_policy rows_for
insert-IsWritten policies owner purpose chain empty =
    let row : Policy = record { owner_user_id = owner; purpose = purpose; chain = chain } in
    record {
      row = row;
      stored =
          rw (rows_for-append policies (row ∷ []) owner purpose, empty)
            (ground (arith, is_for_iff row owner purpose));
      chained = refl;
      others = λ other name apart.
          rw (rows_for-append policies (row ∷ []) other name)
            (ground (arith, is_for_iff row other name, append-nil (rows_for policies other name)));
    }

one_row : (rows : List Policy) {row : Policy} → scalar_one_or_none rows ≡ one row → rows ≡ row ∷ []
one_row rows e = ground arith

pub write-IsWritten :
    (found : Found) (policies : List Policy) (owner : Option ℕ) (purpose : Text)
    (chain : List Entry) {after : List Policy}
    → get_policy policies owner purpose ≡ found
    → write_policy found policies owner purpose chain ≡ some after
    → IsWritten policies after owner purpose chain
unfolding write_policy get_policy
write-IsWritten absent policies owner purpose chain read e =
    subst (λ after. IsWritten policies after owner purpose chain) (some-injective _ _ e)
      (insert-IsWritten policies owner purpose chain (rows_for_absent _ read))
write-IsWritten (one policy) policies owner purpose chain read e =
    subst (λ after. IsWritten policies after owner purpose chain) (some-injective _ _ e)
      (record {
        row = record policy { chain = chain };
        stored = rw (
          rows_for-update_self policies owner purpose chain,
          one_row (rows_for policies owner purpose) read,
        );
        chained = refl;
        others = λ other name apart.
            rw (rows_for-update_other policies owner other purpose name chain apart);
      })
write-IsWritten multiple policies owner purpose chain read e = cc

store_policy_ok :
    (db : Tables) (scope : Scope) (purpose : Text) (entries : ℕ) (written : Option (List Policy))
    {after : Tables}
    → store_policy db scope purpose entries written ≡ (ok tt, after)
    → (written ≡ some after.policies) × (after.accounts ≡ db.accounts)
unfolding store_policy
store_policy_ok db scope purpose entries none e = ground arith
store_policy_ok db scope purpose entries (some policies) e = ground arith

module _ (kind_of : Text → ProviderKind) (db : Tables) (actor : Actor) (scope : Scope)
    (purpose : Text) (chain : List (ℕ × Text)) where
  -- What a call of `set_policy` that returns has checked and written.
  pub set_policy_ok :
      {after : Tables}
      → set_policy kind_of db actor scope purpose chain ≡ (ok tt, after)
      → IsWritten db.policies after.policies (owner_of scope actor) purpose (map entry_of chain)
        × (check_policy kind_of db.accounts actor scope purpose chain ≡ ok tt)
        × (after.accounts ≡ db.accounts)
  unfolding set_policy
  set_policy_ok {after} e =
      checked (check_policy kind_of db.accounts actor scope purpose chain) refl e
    where
      written : Option (List Policy)
      written =
          write_policy (get_policy db.policies (owner_of scope actor) purpose) db.policies
            (owner_of scope actor) purpose (map entry_of chain)

      checked :
          (c : Checked (Unit {0}))
          → check_policy kind_of db.accounts actor scope purpose chain ≡ c
          → elim c as (λ _. Checked (Unit {0}) × Tables) [
            | account_error status message ↦ (account_error status message, db)
            | multiple_results ↦ (multiple_results, db)
            | ok _ ↦ store_policy db scope purpose (length chain) written
          ]
            ≡ (ok tt, after)
          → IsWritten db.policies after.policies (owner_of scope actor) purpose (map entry_of chain)
            × (check_policy kind_of db.accounts actor scope purpose chain ≡ ok tt)
            × (after.accounts ≡ db.accounts)
      checked (account_error status message) p q = ground arith
      checked multiple_results p q = ground arith
      checked (ok tt) p q =
          let (rows, accounts) =
            store_policy_ok db scope purpose (length chain) written {after = after} q in
          (
            write-IsWritten (get_policy db.policies (owner_of scope actor) purpose) db.policies
                (owner_of scope actor) purpose (map entry_of chain) refl rows,
            p,
            accounts,
          )
