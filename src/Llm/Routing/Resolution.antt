-- ===== src/Llm/Routing/Resolution.antt =====
-- `resolve` after `set_policy`, and when it cannot answer.
use lycosa.Prelude.{
  ℕ, zero, suc, ◌≤◌, Bool, true, false, not, ◌&&◌, ◌||◌, Option, none, some, List, [], ◌∷◌, ◌++◌,
  map, All, Text, text, length, take, length-map, if◌then◌else◌, Bool-cases, Option-cases, ◌==◌,
  nat_comparable, text_comparable, ◌≡◌, refl, sym, ap, ◌∙◌, subst, ◌≢◌, inl, inr, arith,
}
use mathlib.Core.Option.{some-injective}
use lycosa.Llm.Accounts.{
  ProviderKind, Account, Actor, ok, Scope, personal, same_id, get_account, is_none,
}
use lycosa.Llm.Routing.{
  Entry, Policy, Target, Tables, rows_for, absent, one, multiple, scalar_one_or_none, get_policy,
  write_policy, entry_of, check_entry, check_chain, check_policy, set_policy, entry_target,
  targets_of, chain_targets, Search, hit, nothing, clash, Route, found_route, no_route_error,
  crashed, route_of, places, first_route, resolve, is_purpose, is_local_only, max_chain, is_shared,
  owners, paired, is_for,
}
use lycosa.Llm.Routing.Policies.{IsUnique, rows_for-append, is_for_iff, rows_for_absent}
use lycosa.Llm.Routing.RoundTrip.{set_policy_ok}

-- No two rows of the table have the same owner and the same purpose.
abbrev IsApart : Policy → Policy → Type 0
IsApart policy other =
    ¬ ((other.owner_user_id ≡ policy.owner_user_id) × (other.purpose ≡ policy.purpose))

abbrev pub IsKeyed : List Policy → Type 0
IsKeyed [] = Unit
IsKeyed (policy ∷ policies) = All (IsApart policy) policies × IsKeyed policies

rows_for-apart :
    (policies : List Policy) (policy : Policy) (owner : Option ℕ) (purpose : Text)
    → is_for owner purpose policy ≡ true
    → All (IsApart policy) policies
    → rows_for policies owner purpose ≡ []
unfolding rows_for
rows_for-apart [] policy owner purpose here apart = refl
rows_for-apart (other ∷ policies) policy owner purpose here (first, apart) =
    let (o, p) = (is_for_iff policy owner purpose).0 here in
    elim (Bool-cases (is_for owner purpose other)) [
      | inl there ↦
          let (o', p') = (is_for_iff other owner purpose).0 there in
          absurd (first (o' ∙ sym o, p' ∙ sym p))
      | inr elsewhere ↦ rw elsewhere (rows_for-apart policies policy owner purpose here apart)
    ]

keyed-IsUnique : (policies : List Policy) → IsKeyed policies → IsUnique policies
unfolding rows_for
keyed-IsUnique [] keyed owner purpose = omega arith
keyed-IsUnique (policy ∷ policies) (apart, keyed) owner purpose =
    elim (Bool-cases (is_for owner purpose policy)) [
      | inl here ↦ rw (here, rows_for-apart policies policy owner purpose here apart) (omega arith)
      | inr elsewhere ↦ rw elsewhere (keyed-IsUnique policies keyed owner purpose)
    ]

not-multiple : (rows : List Policy) → length rows ≤ 1 → scalar_one_or_none rows ≢ multiple
not-multiple rows h e = ground arith

route_of-clash :
    (local_only : Bool) (purpose : Text) (search : Search)
    → route_of local_only purpose search ≡ crashed
    → search ≡ clash
unfolding route_of
route_of-clash local_only purpose (hit targets) e = cc
route_of-clash local_only purpose clash e = refl
route_of-clash true purpose nothing e = cc
route_of-clash false purpose nothing e = cc

module _ (kind_of : Text → ProviderKind) (db : Tables) (actor : Actor) where
  first_route-ne-clash :
      (local_only : Bool) (where_to : List (Text × Option ℕ))
      → IsUnique db.policies
      → first_route kind_of db actor local_only where_to ≢ clash
  unfolding first_route get_policy
  first_route-ne-clash local_only [] unique e = ground arith
  first_route-ne-clash local_only ((name, owner) ∷ rest) unique e = ground (
    arith,
    not-multiple (rows_for db.policies owner name) (unique owner name),
    first_route-ne-clash local_only rest unique,
  )

  -- While no two rows of the table have both the owner and the purpose in common, `resolve` never
  -- fails with `MultipleResultsFound`.
  pub resolve-ne-crashed :
      (purpose : Text) (requires_privacy : Bool)
      → IsKeyed db.policies
      → resolve kind_of db actor purpose requires_privacy ≢ crashed
  unfolding resolve
  resolve-ne-crashed purpose requires_privacy keyed e =
      let unique = keyed-IsUnique db.policies keyed in
      let local_only = requires_privacy || is_local_only purpose in
      let search = first_route kind_of db actor local_only (places actor purpose) in
      elim (Bool-cases (is_purpose purpose)) [
        | inl known ↦
            first_route-ne-clash local_only (places actor purpose) unique
              (route_of-clash local_only purpose search (rw known at e))
        | inr unknown ↦
            let refused : ◌≡◌ {A = Route} (no_route_error (text "Unknown routing purpose"))
                crashed =
              rw unknown at e in
            cc
      ]

pub get_account-id :
    (accounts : List Account) (id : ℕ) {account : Account}
    → get_account accounts id ≡ some account
    → account.id ≡ id
unfolding get_account
get_account-id [] id e = cc
get_account-id (row ∷ accounts) id {account} e =
    ground (arith, get_account-id accounts id {account = account})

-- A route's entries as `set_policy` is given them.
abbrev pub entries_of : List Target → List (ℕ × Text)
entries_of = map (λ (target : Target). (target.account.id, target.model))

module _ (kind_of : Text → ProviderKind) (accounts : List Account) (actor : Actor) (scope : Scope)
    (purpose : Text) where
  -- An entry that passed the tests is a target.
  check_entry-target :
      (id : ℕ) (model : Text)
      → check_entry kind_of accounts actor scope purpose id ≡ ok tt
      → (target : Target) × (entry_target kind_of accounts actor
            (is_local_only purpose)
            (entry_of (id, model))
          ≡ some target)
        × (target.account.id ≡ id)
        × (target.model ≡ model)
  unfolding check_entry entry_target
  check_entry-target id model e = elim (Option-cases (get_account accounts id)) [
    | inl missing ↦ absurd (ground arith)
    | inr (account, found) ↦ (
      record { account = account; model = model },
      ground arith,
      get_account-id accounts id found,
      refl,
    )
  ]

  targets_of-cons :
      (entry : Entry) (chain : List Entry) {target : Target}
      → entry_target kind_of accounts actor (is_local_only purpose) entry ≡ some target
      → targets_of kind_of accounts actor (is_local_only purpose) (entry ∷ chain)
        ≡ target ∷ targets_of kind_of accounts actor (is_local_only purpose) chain
  unfolding targets_of
  targets_of-cons entry chain e = ground arith

  check_chain-cons :
      (id : ℕ) (model : Text) (chain : List (ℕ × Text))
      → check_chain kind_of accounts actor scope purpose ((id, model) ∷ chain) ≡ ok tt
      → (check_entry kind_of accounts actor scope purpose id ≡ ok tt)
        × (check_chain kind_of accounts actor scope purpose chain ≡ ok tt)
  unfolding check_chain
  check_chain-cons id model chain e = ground arith

  check_chain-targets :
      (chain : List (ℕ × Text))
      → check_chain kind_of accounts actor scope purpose chain ≡ ok tt
      → entries_of (targets_of kind_of accounts actor (is_local_only purpose) (map entry_of chain))
        ≡ chain
  unfolding check_chain targets_of
  check_chain-targets [] e = refl
  check_chain-targets ((id, model) ∷ chain) e =
      let (first, rest) = check_chain-cons id model chain e in
      let (target, kept, same_id, same_model) = check_entry-target id model first in
      ap entries_of (targets_of-cons (entry_of (id, model)) (map entry_of chain) kept)
      ∙ cc (same_id, same_model, check_chain-targets chain rest)

  -- What `set_policy` has checked when it returns.
  check_policy_ok :
      (chain : List (ℕ × Text))
      → check_policy kind_of accounts actor scope purpose chain ≡ ok tt
      → (is_purpose purpose ≡ true)
        × (1 ≤ length chain)
        × (length chain ≤ max_chain)
        × (not (is_shared scope) && is_none actor.user_id ≡ false)
        × (check_chain kind_of accounts actor scope purpose chain ≡ ok tt)
  unfolding check_policy
  check_policy_ok chain e = ground arith

length-entry_of : (chain : List (ℕ × Text)) → length (map entry_of chain) ≡ length chain
length-entry_of [] = refl
length-entry_of (entry ∷ chain) = omega (arith, length-entry_of chain)

take_all {ℓ} : {A : Type ℓ} (n : ℕ) (xs : List A) → length xs ≤ n → take n xs ≡ xs
take_all zero [] h = refl
take_all zero (x ∷ xs) h = absurd (omega arith)
take_all (suc n) [] h = refl
take_all (suc n) (x ∷ xs) h = ap (◌∷◌ x) (take_all n xs (omega arith))

places_shape :
    (b : Bool) (purpose other : Text) (user : ℕ)
    → (rest : List (Text × Option ℕ)) × ((if b
          then paired purpose (some user ∷ none ∷ [])
          else paired purpose (some user ∷ none ∷ []) ++ paired other (some user ∷ none ∷ []))
        ≡ (purpose, some user) ∷ rest)
places_shape true purpose other user = (_, refl)
places_shape false purpose other user = (_, refl)

-- The first place that `resolve` looks at for a user.
places_head :
    (actor : Actor) (purpose : Text) (user : ℕ)
    → actor.user_id ≡ some user
    → (rest : List (Text × Option ℕ)) × (places actor purpose ≡ (purpose, some user) ∷ rest)
unfolding places
places_head actor purpose user e =
    let (rest, shape) = places_shape (purpose == text "default") purpose (text "default") user in
    (rest, rw (e, owners) shape)

first_route_head :
    (kind_of : Text → ProviderKind) (db : Tables) (actor : Actor) (local_only : Bool) (name : Text)
    (owner : Option ℕ) (rest : List (Text × Option ℕ)) (policy : Policy) (route : List Target)
    → get_policy db.policies owner name ≡ one policy
    → chain_targets kind_of db.accounts actor policy local_only ≡ route
    → 1 ≤ length route
    → first_route kind_of db actor local_only ((name, owner) ∷ rest) ≡ hit route
unfolding first_route
first_route_head kind_of db actor local_only name owner rest policy route p q h = ground arith

resolve_hit :
    (kind_of : Text → ProviderKind) (db : Tables) (actor : Actor) (purpose : Text)
    {route : List Target}
    → is_purpose purpose ≡ true
    → first_route kind_of db actor (is_local_only purpose) (places actor purpose) ≡ hit route
    → resolve kind_of db actor purpose false ≡ found_route route
unfolding resolve route_of
resolve_hit kind_of db actor purpose known e = rw (known, e)

module _ (kind_of : Text → ProviderKind) (db after : Tables) (actor : Actor) (purpose : Text)
    (user : ℕ) (chain : List (ℕ × Text)) (signed_in : actor.user_id ≡ some user)
    (stored : set_policy kind_of db actor personal purpose chain ≡ (ok tt, after)) where
  stored_targets :
      (policy : Policy)
      → policy.chain ≡ map entry_of chain
      → after.accounts ≡ db.accounts
      → length chain ≤ max_chain
      → chain_targets kind_of after.accounts actor policy (is_local_only purpose)
        ≡ targets_of kind_of db.accounts actor (is_local_only purpose) (map entry_of chain)
  stored_targets policy chained same fits = rw (
    same,
    chained,
    take_all max_chain (map entry_of chain) (omega (arith, length-entry_of chain)),
  )

  -- A user who stores a personal route for a purpose gets exactly that route, entry by entry, when
  -- resolving the purpose afterwards without asking for privacy.
  pub resolve-set_policy :
      (route : List Target) × (resolve kind_of after actor purpose false ≡ found_route route)
      × (entries_of route ≡ chain)
  resolve-set_policy =
      let (w, checked, same) =
        set_policy_ok kind_of db actor personal purpose chain {after = after} stored in
      let (known, low, high, _, entries) =
        check_policy_ok kind_of db.accounts actor personal purpose chain checked in
      let route =
        targets_of kind_of db.accounts actor (is_local_only purpose) (map entry_of chain) in
      let back : entries_of route ≡ chain =
        check_chain-targets kind_of db.accounts actor personal purpose chain entries in
      let (rest, head) = places_head actor purpose user signed_in in
      let found : get_policy after.policies (some user) purpose ≡ one w.row =
        rw signed_in at w.stored in
      let filled : 1 ≤ length route = omega (
        arith,
        length-map {B = ℕ × Text} route (λ (t : Target). (t.account.id, t.model)),
        ap length back,
      ) in
      (
        route,
        resolve_hit kind_of after actor purpose known (
            rw head (
              first_route_head kind_of after actor (is_local_only purpose) purpose (some user) rest
                w.row route found (stored_targets w.row w.chained same high) filled)),
        back,
      )

abbrev the_row : Option ℕ → Text → List Entry → Policy
the_row owner purpose chain = record { owner_user_id = owner; purpose = purpose; chain = chain }

-- Two writers that both read the table before either has written leave two rows, if there was none.
rows_for-race :
    (policies : List Policy) (owner : Option ℕ) (purpose : Text) (first second : List Entry)
    (between after : List Policy)
    → get_policy policies owner purpose ≡ absent
    → write_policy absent policies owner purpose first ≡ some between
    → write_policy absent between owner purpose second ≡ some after
    → get_policy after owner purpose ≡ multiple
unfolding get_policy write_policy rows_for
rows_for-race policies owner purpose first second between after none_yet wrote wrote_again =
    let row = λ (chain : List Entry). the_row owner purpose chain in
    let empty = rows_for_absent (rows_for policies owner purpose) none_yet in
    subst (λ ps. scalar_one_or_none (rows_for ps owner purpose) ≡ multiple)
      (some-injective _ _ wrote_again)
      (subst (λ ps. scalar_one_or_none (rows_for (ps ++ row second ∷ []) owner purpose) ≡ multiple)
        (some-injective _ _ wrote)
        (rw
          (
            rows_for-append (policies ++ row first ∷ []) (row second ∷ []) owner purpose,
            rows_for-append policies (row first ∷ []) owner purpose,
            empty,
          )
          (ground
            (arith, is_for_iff (row first) owner purpose, is_for_iff (row second) owner purpose))))

-- The race of two calls of `set_policy` by one user for a purpose without a policy: both read
-- before either writes. From then on `resolve` fails with `MultipleResultsFound` for that user and
-- purpose, with or without a demand for privacy.
pub resolve_after_race :
    (kind_of : Text → ProviderKind) (db : Tables) (actor : Actor) (purpose : Text) (user : ℕ)
    (first second : List Entry) (between after : List Policy) (requires_privacy : Bool)
    → is_purpose purpose ≡ true
    → actor.user_id ≡ some user
    → get_policy db.policies (some user) purpose ≡ absent
    → write_policy absent db.policies (some user) purpose first ≡ some between
    → write_policy absent between (some user) purpose second ≡ some after
    → resolve kind_of (record db { policies = after }) actor purpose requires_privacy ≡ crashed
unfolding resolve route_of first_route
resolve_after_race kind_of db actor purpose user first second between after requires_privacy known
      signed_in none_yet wrote wrote_again =
    let (rest, head) = places_head actor purpose user signed_in in
    let twice =
      rows_for-race db.policies (some user) purpose first second between after none_yet wrote
        wrote_again in
    rw (known, head, first_route, twice)
