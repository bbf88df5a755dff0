-- ===== src/Llm/Routing/Refinement.antt =====
-- The table of policies as a map from an owner and a purpose to a chain.
use lycosa.Prelude.{
  ℕ, Bool, true, not, ◌&&◌, Option, none, some, List, [], ◌∷◌, map, Text, length, if◌then◌else◌,
  Bool-cases, ◌==◌, nat_comparable, text_beq_iff, text_comparable, ◌≡◌, refl, ap, ◌∙◌, subst, ◌↔◌,
  ◌⊎◌, inl, inr, arith,
}
use mathlib.Core.Option.{some-injective}
use lycosa.Llm.Accounts.{
  ProviderKind, Actor, Checked, ok, account_error, multiple_results, Scope, same_id, is_none,
  is_admin,
}
use lycosa.Llm.Routing.{
  Entry, Policy, Tables, rows_for, Found, absent, one, multiple, get_policy, drop_policy,
  write_policy, entry_of, owner_of, check_policy, set_policy, store_policy, delete_policy,
  is_shared,
}
use lycosa.Llm.Routing.Policies.{is_for_iff, same_id_iff}
use lycosa.Llm.Routing.RoundTrip.{IsWritten, write-IsWritten}

-- The chain for each owner and purpose, if there is one.
abbrev pub PolicyMap : Type 0
PolicyMap = Option ℕ → Text → Option (List Entry)

-- What a reader of one place sees; `none` is the exception of a query with two rows.
unfoldable pub view : Found → Option (Option (List Entry))
view absent = some none
view (one policy) = some (some policy.chain)
view multiple = none

-- The table holds the map: each place can be read, and reads what the map says.
pub record Represents (policies : List Policy) (m : PolicyMap) : Type 0 where
  pub reads :
      (owner : Option ℕ) (purpose : Text)
      → view (get_policy policies owner purpose) ≡ some (m owner purpose)

-- The two requests that change the table.
pub data Request : Type 0 where
  set_request : Actor → Scope → Text → List (ℕ × Text) → Request
  delete_request : Actor → Scope → Text → Request

abbrev is_at : Option ℕ → Text → Option ℕ → Text → Bool
is_at owner purpose other name = same_id owner other && purpose == name

-- The map with one place written, to a chain or to none.
unfoldable pub assigned : Option ℕ → Text → Option (List Entry) → PolicyMap → PolicyMap
assigned owner purpose chain m other name =
    if is_at owner purpose other name then chain else m other name

-- What a request that succeeds means for the map; one that fails means nothing.
unfoldable pub meaning :
    {A : Type 0} → Checked A → Option ℕ → Text → Option (List Entry) → PolicyMap → PolicyMap
unfolding assigned
meaning (ok a) owner purpose chain m = assigned owner purpose chain m
meaning (account_error status why) owner purpose chain m = m
meaning multiple_results owner purpose chain m = m

Checked-cases :
    {A : Type 0} (c : Checked A)
    → ((a : A) × (c ≡ ok a))
      ⊎ (((s : ℕ) × (why : Text) × (c ≡ account_error s why)) ⊎ (c ≡ multiple_results))
Checked-cases (ok a) = inl (a, refl)
Checked-cases (account_error s why) = inr (inl (s, why, refl))
Checked-cases multiple_results = inr (inr refl)

Found-cases : (f : Found) → (f ≡ absent) ⊎ (((policy : Policy) × (f ≡ one policy)) ⊎ (f ≡ multiple))
Found-cases absent = inl refl
Found-cases (one policy) = inr (inl (policy, refl))
Found-cases multiple = inr (inr refl)

view_absent : (f : Found) → view f ≡ some none → f ≡ absent
unfolding view
view_absent absent e = refl
view_absent (one policy) e = absurd (ground (arith, e))
view_absent multiple e = absurd (ground (arith, e))

view_one :
    (f : Found) (chain : List Entry)
    → view f ≡ some (some chain)
    → (policy : Policy) × (f ≡ one policy) × (policy.chain ≡ chain)
unfolding view
view_one absent chain e = absurd (ground (arith, e))
view_one (one policy) chain e = (policy, refl, some-injective _ _ (some-injective _ _ e))
view_one multiple chain e = absurd (ground (arith, e))

is_at_iff :
    (owner other : Option ℕ) (purpose name : Text)
    → (is_at owner purpose other name ≡ true) ↔ ((owner ≡ other) × (purpose ≡ name))
is_at_iff owner other purpose name =
    ground (arith, same_id_iff owner other, text_beq_iff purpose name)

-- A table in which one place reads a chain or nothing, and every other place reads as before.
assigned-Represents :
    (before after : List Policy) (owner : Option ℕ) (purpose : Text) (chain : Option (List Entry))
    (m : PolicyMap)
    → Represents before m
    → view (get_policy after owner purpose) ≡ some chain
    → ((other : Option ℕ) (name : Text)
        → ¬ ((owner ≡ other) × (purpose ≡ name))
        → get_policy after other name ≡ get_policy before other name)
    → Represents after (assigned owner purpose chain m)
unfolding assigned
assigned-Represents before after owner purpose chain m held here others = record {
  reads = λ other name. elim (Bool-cases (is_at owner purpose other name)) [
    | inl same ↦
        let (o, p) = (is_at_iff owner other purpose name).0 same in
        simp (assigned, same)
          (subst (λ o'. view (get_policy after o' name) ≡ some chain) o
            (subst (λ p'. view (get_policy after owner p') ≡ some chain) p here))
    | inr apart ↦
        simp (assigned, apart)
          (ap view (
              others other name
                (λ both. ground (arith, apart, (is_at_iff owner other purpose name).1 both)))
            ∙ held.reads other name)
  ];
}

written-Represents :
    (before after : List Policy) (owner : Option ℕ) (purpose : Text) (chain : List Entry)
    (m : PolicyMap)
    → Represents before m
    → IsWritten before after owner purpose chain
    → Represents after (assigned owner purpose (some chain) m)
unfolding view
written-Represents before after owner purpose chain m held written =
    assigned-Represents before after owner purpose (some chain) m held
      (ap view written.stored ∙ ap (λ c. some (some c)) written.chained) written.others

store_policy-Represents :
    (db : Tables) (scope : Scope) (purpose : Text) (entries : ℕ) (written : Option (List Policy))
    (owner : Option ℕ) (chain : List Entry) (m : PolicyMap)
    → Represents db.policies m
    → ((after : List Policy)
        → written ≡ some after
        → IsWritten db.policies after owner purpose chain)
    → Represents
        (store_policy db scope purpose entries written).1.policies
        (meaning (store_policy db scope purpose entries written).0 owner purpose (some chain) m)
unfolding store_policy meaning
store_policy-Represents db scope purpose entries none owner chain m held writes = held
store_policy-Represents db scope purpose entries (some policies) owner chain m held writes =
    written-Represents db.policies policies owner purpose chain m held (writes policies refl)

rows_for-drop_self :
    (policies : List Policy) (owner : Option ℕ) (purpose : Text)
    → rows_for (drop_policy policies owner purpose) owner purpose ≡ []
unfolding rows_for drop_policy
rows_for-drop_self [] owner purpose = refl
rows_for-drop_self (policy ∷ policies) owner purpose =
    ground (arith, rows_for-drop_self policies owner purpose)

rows_for-drop_other :
    (policies : List Policy) (owner other : Option ℕ) (purpose name : Text)
    → ¬ ((owner ≡ other) × (purpose ≡ name))
    → rows_for (drop_policy policies owner purpose) other name ≡ rows_for policies other name
unfolding rows_for drop_policy
rows_for-drop_other [] owner other purpose name apart = refl
rows_for-drop_other (policy ∷ policies) owner other purpose name apart = ground (
  arith,
  is_for_iff policy owner purpose,
  is_for_iff policy other name,
  rows_for-drop_other policies owner other purpose name apart,
)

module _ (kind_of : Text → ProviderKind) where
  set_policy-Represents :
      (db : Tables) (actor : Actor) (scope : Scope) (purpose : Text) (chain : List (ℕ × Text))
      (m : PolicyMap)
      → Represents db.policies m
      → Represents (set_policy kind_of db actor scope purpose chain).1.policies (
          meaning
            (set_policy kind_of db actor scope purpose chain).0
            (owner_of scope actor)
            purpose
            (some (map entry_of chain))
            m)
  unfolding set_policy meaning
  set_policy-Represents db actor scope purpose chain m held =
      let owner = owner_of scope actor in
      elim (Checked-cases (check_policy kind_of db.accounts actor scope purpose chain)) [
        | inl (u, good) ↦
            simp (set_policy, good)
              (store_policy-Represents db scope purpose (length chain)
                (write_policy (get_policy db.policies owner purpose) db.policies owner purpose
                  (map entry_of chain))
                owner (map entry_of chain) m held
                (λ after e.
                  write-IsWritten (get_policy db.policies owner purpose) db.policies owner purpose
                    (map entry_of chain) {after = after} refl e))
        | inr (inl (status, why, bad)) ↦ simp (set_policy, bad) held
        | inr (inr bad) ↦ simp (set_policy, bad) held
      ]

  delete_found-Represents :
      (db : Tables) (owner : Option ℕ) (purpose : Text) (m : PolicyMap)
      → Represents db.policies m
      → Represents (drop_policy db.policies owner purpose) (assigned owner purpose none m)
  unfolding view get_policy
  delete_found-Represents db owner purpose m held =
      assigned-Represents db.policies (drop_policy db.policies owner purpose) owner purpose none m
        held (rw (rows_for-drop_self db.policies owner purpose) refl)
        (λ other name apart.
          rw (rows_for-drop_other db.policies owner other purpose name apart) refl)

  delete_policy-Represents :
      (db : Tables) (actor : Actor) (scope : Scope) (purpose : Text) (m : PolicyMap)
      → Represents db.policies m
      → Represents (delete_policy kind_of db actor scope purpose).1.policies (
          meaning
            (delete_policy kind_of db actor scope purpose).0
            (owner_of scope actor)
            purpose
            none
            m)
  unfolding delete_policy meaning view
  delete_policy-Represents db actor scope purpose m held =
      let owner = owner_of scope actor in
      elim (Bool-cases (is_shared scope && not (is_admin actor))) [
        | inl shared ↦ simp (delete_policy, shared) held
        | inr own ↦ elim (Bool-cases (not (is_shared scope) && is_none actor.user_id)) [
          | inl nobody ↦ simp (delete_policy, own, nobody) held
          | inr somebody ↦ elim (Found-cases (get_policy db.policies owner purpose)) [
            | inl missing ↦
                simp (delete_policy, own, somebody, missing)
                  (assigned-Represents db.policies db.policies owner purpose none m held
                    (ap view missing) (λ other name apart. refl))
            | inr (inl (policy, found)) ↦
                simp (delete_policy, own, somebody, found)
                  (delete_found-Represents db owner purpose m held)
            | inr (inr two) ↦ simp (delete_policy, own, somebody, two) held
          ]
        ]
      ]

  -- The table after a request, and what the request means for the map, by how it ended.
  unfoldable pub perform : Request → Tables → Tables
  perform (set_request actor scope purpose chain) db =
      (set_policy kind_of db actor scope purpose chain).1
  perform (delete_request actor scope purpose) db = (delete_policy kind_of db actor scope purpose).1

  unfoldable pub effect : Request → Tables → PolicyMap → PolicyMap
  unfolding meaning
  effect (set_request actor scope purpose chain) db m =
      meaning (set_policy kind_of db actor scope purpose chain).0 (owner_of scope actor) purpose
        (some (map entry_of chain)) m
  effect (delete_request actor scope purpose) db m =
      meaning (delete_policy kind_of db actor scope purpose).0 (owner_of scope actor) purpose none m

  -- A sequence of requests, on the table and on the map.
  unfoldable pub perform_all : List Request → Tables → Tables
  unfolding perform
  perform_all [] db = db
  perform_all (request ∷ requests) db = perform_all requests (perform request db)

  unfoldable pub effects : List Request → Tables → PolicyMap → PolicyMap
  unfolding perform effect
  effects [] db m = m
  effects (request ∷ requests) db m = effects requests (perform request db) (effect request db m)

  perform-Represents :
      (request : Request) (db : Tables) (m : PolicyMap)
      → Represents db.policies m
      → Represents (perform request db).policies (effect request db m)
  unfolding perform effect
  perform-Represents (set_request actor scope purpose chain) db m held =
      set_policy-Represents db actor scope purpose chain m held
  perform-Represents (delete_request actor scope purpose) db m held =
      delete_policy-Represents db actor scope purpose m held

  -- The table of policies refines a map from an owner and a purpose to a chain: over any sequence of
  -- calls of `set_policy` and `delete_policy`, one after the other, a table that holds a map goes on
  -- to hold the map in which each call that succeeded has written its own place, and no other.
  pub perform_all-Represents :
      (requests : List Request) (db : Tables) (m : PolicyMap)
      → Represents db.policies m
      → Represents (perform_all requests db).policies (effects requests db m)
  unfolding perform_all effects
  perform_all-Represents [] db m held = held
  perform_all-Represents (request ∷ requests) db m held =
      perform_all-Represents requests (perform request db) (effect request db m)
        (perform-Represents request db m held)
