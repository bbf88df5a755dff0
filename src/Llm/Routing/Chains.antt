-- ===== src/Llm/Routing/Chains.antt =====
-- Every route that `resolve` returns is one that the caller may use.
use lycosa.Prelude.{
  ℕ, ◌≤◌, Bool, true, false, not, ◌||◌, Option, some, List, [], ◌∷◌, Text, text, length, take,
  length-take-le, All, Bool-cases, Option-cases, nat_comparable, text_comparable, ◌≡◌, refl, ap,
  subst, inl, inr, arith,
}
use lycosa.Llm.Accounts.{ProviderKind, Account, Actor, can_use, get_account, is_local_target}
use lycosa.Llm.Routing.{
  Entry, Policy, Target, Tables, is_local_only, is_purpose, route_of, max_chain, get_policy,
  entry_target, targets_of, chain_targets, first_route, places, Route, found_route, no_route_error,
  resolve, Search, hit, nothing, clash, Found, absent, one, multiple,
}

module _ (kind_of : Text → ProviderKind) (accounts : List Account) (actor : Actor)
    (local_only : Bool) where
  -- The target's account is a row of the table that the caller may use, and a local one where only
  -- those are allowed.
  pub record IsUsable (target : Target) : Type 0 where
    pub stored : (id : ℕ) × (get_account accounts id ≡ some target.account)
    pub usable : can_use target.account actor ≡ true
    pub local_enough : not local_only || is_local_target kind_of target.account ≡ true

  entry_target-IsUsable :
      (entry : Entry) {target : Target}
      → entry_target kind_of accounts actor local_only entry ≡ some target
      → IsUsable target
  unfolding entry_target
  entry_target-IsUsable entry {target} e = elim (Option-cases entry.account_id) [
    | inl bad ↦ absurd (ground arith)
    | inr (id, given) ↦ elim (Option-cases (get_account accounts id)) [
      | inl missing ↦ absurd (ground arith)
      | inr (account, found) ↦ record {
        stored = (id, ground arith);
        usable = ground arith;
        local_enough = ground arith;
      }
    ]
  ]

  targets_of-IsUsable :
      (chain : List Entry) → All IsUsable (targets_of kind_of accounts actor local_only chain)
  unfolding targets_of
  targets_of-IsUsable [] = tt
  targets_of-IsUsable (entry ∷ chain) =
      elim (Option-cases (entry_target kind_of accounts actor local_only entry)) [
        | inl skipped ↦ rw (skipped, All) (targets_of-IsUsable chain)
        | inr (target, kept) ↦
            rw (kept, All) (entry_target-IsUsable entry kept, targets_of-IsUsable chain)
      ]

  length-targets_of-le :
      (chain : List Entry)
      → length (targets_of kind_of accounts actor local_only chain) ≤ length chain
  unfolding targets_of
  length-targets_of-le [] = omega arith
  length-targets_of-le (entry ∷ chain) = ground (arith, length-targets_of-le chain)

-- What a route consists of.
pub record IsRoute (kind_of : Text → ProviderKind) (db : Tables) (actor : Actor) (local_only : Bool)
    (route : List Target) : Type 0 where
  pub members : All (IsUsable kind_of db.accounts actor local_only) route
  pub nonempty : 1 ≤ length route
  pub short : length route ≤ max_chain

module _ (kind_of : Text → ProviderKind) (db : Tables) (actor : Actor) where
  chain_targets-IsRoute :
      (policy : Policy) (local_only : Bool) {target : Target} {targets : List Target}
      → chain_targets kind_of db.accounts actor policy local_only ≡ target ∷ targets
      → IsRoute kind_of db actor local_only (target ∷ targets)
  chain_targets-IsRoute policy local_only e =
      let chain = take max_chain policy.chain in
      record {
        members =
            subst (All (IsUsable kind_of db.accounts actor local_only)) e
              (targets_of-IsUsable kind_of db.accounts actor local_only chain);
        nonempty = omega arith;
        short = omega (
          arith,
          ap length e,
          length-take-le max_chain policy.chain,
          length-targets_of-le kind_of db.accounts actor local_only chain,
        );
      }

  first_route-IsRoute :
      (local_only : Bool) (where_to : List (Text × Option ℕ)) {route : List Target}
      → first_route kind_of db actor local_only where_to ≡ hit route
      → IsRoute kind_of db actor local_only route
  unfolding first_route
  first_route-IsRoute local_only [] e = absurd (ground arith)
  first_route-IsRoute local_only ((name, owner) ∷ rest) {route} e =
      split (first_route-IsRoute local_only rest {route = route})
        (get_policy db.policies owner name) refl
    where
      from_policy :
          (first_route kind_of db actor local_only rest ≡ hit route
            → IsRoute kind_of db actor local_only route)
          → (policy : Policy) → get_policy db.policies owner name ≡ one policy
          → (ts : List Target) → chain_targets kind_of db.accounts actor policy local_only ≡ ts
          → IsRoute kind_of db actor local_only route
      from_policy later policy found [] none_left = later (ground arith)
      from_policy later policy found (target ∷ ts) some_left =
          let same : target ∷ ts ≡ route = ground arith in
          subst (IsRoute kind_of db actor local_only) same
            (chain_targets-IsRoute policy local_only some_left)

      split :
          (first_route kind_of db actor local_only rest ≡ hit route
            → IsRoute kind_of db actor local_only route)
          → (found : Found) → get_policy db.policies owner name ≡ found
          → IsRoute kind_of db actor local_only route
      split later absent p = later (ground arith)
      split later multiple p = absurd (ground arith)
      split later (one policy) p = from_policy later policy p _ refl

  route_of-hit :
      (local_only : Bool) (purpose : Text) (search : Search) {route : List Target}
      → route_of local_only purpose search ≡ found_route route
      → search ≡ hit route
  unfolding route_of
  route_of-hit local_only purpose (hit targets) e = cc
  route_of-hit local_only purpose clash e = cc
  route_of-hit true purpose nothing e = cc
  route_of-hit false purpose nothing e = cc

  -- Every route that `resolve` returns has one to five entries, all of them rows of the table that
  -- the caller may use; with `requires_privacy`, or for the purposes `private` and `offline`, all
  -- of them are local.
  pub resolve-IsRoute :
      (purpose : Text) (requires_privacy : Bool) {route : List Target}
      → resolve kind_of db actor purpose requires_privacy ≡ found_route route
      → IsRoute kind_of db actor (requires_privacy || is_local_only purpose) route
  unfolding resolve
  resolve-IsRoute purpose requires_privacy {route} e =
      let local_only = requires_privacy || is_local_only purpose in
      let search = first_route kind_of db actor local_only (places actor purpose) in
      elim (Bool-cases (is_purpose purpose)) [
        | inl known ↦
            first_route-IsRoute local_only (places actor purpose)
              (route_of-hit local_only purpose search (rw known at e))
        | inr unknown ↦
            let refused : ◌≡◌ {A = Route} (no_route_error (text "Unknown routing purpose"))
                (found_route route) =
              rw unknown at e in
            absurd (cc)
      ]
