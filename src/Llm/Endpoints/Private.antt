-- ===== src/Llm/Endpoints/Private.antt =====
-- The sockets of a call that requires privacy.
use lycosa.Prelude.{
  ℕ, true, false, Option, some, List, [], ◌∷◌, Text, All, Bool-cases, nat_comparable,
  text_comparable, ◌≡◌, refl, sym, ◌∙◌, subst, inl, inr,
}
use lycosa.Llm.Accounts.{ProviderKind, Account}
use lycosa.Llm.NetPolicy.{
  IpAddress, AddressPolicy, NetworkStack, normalize, connect_tcp, private_only_policy,
}
use lycosa.Llm.NetPolicy.Vetted.{IsVetted, public, private, connect_tcp-IsGuarded}
use lycosa.Llm.Endpoints.{Networks, address_policy, is_public_kind, is_node, node_policy}

-- A policy for a call that requires privacy lets nothing global through.
private_is_closed :
    (networks : Networks) (role_of : ℕ → Option Text) (kind : ProviderKind) (account : Account)
    → (address_policy networks role_of kind account true).public_ok ≡ false
unfolding address_policy node_policy private_only_policy
private_is_closed networks role_of kind account = elim (Bool-cases (is_public_kind kind)) [
  | inl far ↦ simp (address_policy, far) refl
  | inr near ↦ elim (Bool-cases (is_node kind)) [
    | inl on_node ↦ simp (address_policy, near, on_node) refl
    | inr other ↦ simp (address_policy, near, other) refl
  ]
]

module _ {X : Type 0} (stack : NetworkStack X) where
  open stack use {is_global}

  -- An address of this network that is not a global one.
  pub record IsNotGlobal (address : Text) : Type 0 where
    pub ip : IpAddress
    pub parses : normalize stack address ≡ some ip
    pub not_global : is_global ip ≡ false

  vetted-IsNotGlobal :
      (policy : AddressPolicy) (address : Text)
      → policy.public_ok ≡ false
      → IsVetted stack policy address
      → IsNotGlobal address
  vetted-IsNotGlobal policy address closed (public ip parses outside out open_to) =
      absurd (subst (λ b. elim b [ true ↦ ⊥ | false ↦ Unit {0} ]) (sym closed ∙ open_to) tt)
  vetted-IsNotGlobal policy address closed (private ip parses outside inner inside) = record {
    ip = ip;
    parses = parses;
    not_global = inner;
  }

  all-IsNotGlobal :
      (policy : AddressPolicy) (tried : List Text)
      → policy.public_ok ≡ false
      → All (IsVetted stack policy) tried
      → All IsNotGlobal tried
  all-IsNotGlobal policy [] closed vetted = tt
  all-IsNotGlobal policy (a ∷ tried) closed (first, vetted) =
      (vetted-IsNotGlobal policy a closed first, all-IsNotGlobal policy tried closed vetted)

  -- With the policy that `address_policy` gives for a call that requires privacy, `connect_tcp` never
  -- attempts a socket at a global address, for any account at a provider of any kind, whatever the
  -- resolver answers.
  pub connect_tcp-IsNotGlobal :
      (networks : Networks) (role_of : ℕ → Option Text) (kind : ProviderKind) (account : Account)
      (host : Text) (port : ℕ) (x : X)
      → All IsNotGlobal
          (connect_tcp stack (address_policy networks role_of kind account true) host port x).1
  connect_tcp-IsNotGlobal networks role_of kind account host port x =
      let policy = address_policy networks role_of kind account true in
      let guarded = connect_tcp-IsGuarded stack policy host port x in
      all-IsNotGlobal policy _ (private_is_closed networks role_of kind account) guarded.vetted
