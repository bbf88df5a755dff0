-- ===== src/Llm/NetPolicy/Vetted.antt =====
-- What is known of the addresses at which a socket is attempted.
use lycosa.Prelude.{
  ℕ, true, false, none, some, List, [], ◌∷◌, ◌++◌, Text, All, All-append, any, Bool-cases,
  Option-cases, any-nil, any-tail, any-All, nat_comparable, text_comparable, ◌≡◌, refl, subst, ◌≢◌,
  inl, inr, arith,
}
use lycosa.Llm.NetPolicy.{
  IpAddress, Network, AddressPolicy, NetworkStack, Resolved, addresses, os_error, broken, Guarded,
  allowed, not_allowed, unavailable, crashed, Socket, stream, connect_error, other_error, Connected,
  refused, assertion_failed, in_network, always_blocked, normalize, permits_ip, permits,
  permits_all, vet, vet_resolved, resolve_checked, connect_from, after_attempt, connect_vetted,
  connect_tcp,
}

-- An address outside each of these networks, and one inside one of them.
unfoldable pub IsOutside : IpAddress → List Network → Type 0
IsOutside ip = All (λ net. in_network ip net ≡ false)

pub data IsInside (ip : IpAddress) : List Network → Type 0 where
  here : {net : Network} {nets : List Network} → in_network ip net ≡ true → IsInside ip (net ∷ nets)
  there : {net : Network} {nets : List Network} → IsInside ip nets → IsInside ip (net ∷ nets)

module _ {X : Type 0} (stack : NetworkStack X) where
  open stack use {is_global, show, resolve, connect}

  -- An address that a policy means to let through: it is outside the blocked networks, and it is
  -- global where the policy allows the public, or not global and in a network of the policy.
  pub data IsVetted (policy : AddressPolicy) (address : Text) : Type 0 where
    public :
        (ip : IpAddress)
        → normalize stack address ≡ some ip
        → IsOutside ip always_blocked
        → is_global ip ≡ true
        → policy.public_ok ≡ true
        → IsVetted policy address
    private :
        (ip : IpAddress)
        → normalize stack address ≡ some ip
        → IsOutside ip always_blocked
        → is_global ip ≡ false
        → IsInside ip policy.networks
        → IsVetted policy address

  any-IsInside :
      (ip : IpAddress) (nets : List Network) → any (in_network ip) nets ≡ true → IsInside ip nets
  any-IsInside ip [] holds = absurd (any-nil (in_network ip) holds)
  any-IsInside ip (net ∷ nets) holds = elim (Bool-cases (in_network ip net)) [
    | inl inside ↦ here inside
    | inr outside ↦ there (any-IsInside ip nets (any-tail (in_network ip) net nets outside holds))
  ]

  permits_ip-IsVetted :
      (policy : AddressPolicy) (address : Text) (ip : IpAddress)
      → normalize stack address ≡ some ip
      → permits_ip stack policy ip ≡ true
      → IsVetted policy address
  unfolding permits_ip IsOutside
  permits_ip-IsVetted policy address ip parses let_in =
      elim (Bool-cases (any (in_network ip) always_blocked)) [
        | inl blocked ↦ ground (arith, blocked, let_in)
        | inr free ↦ elim (Bool-cases (is_global ip)) [
          | inl out ↦
              public ip parses (any-All (in_network ip) always_blocked free) out
                (ground (arith, free, out, let_in))
          | inr inner ↦
              private ip parses (any-All (in_network ip) always_blocked free) inner
                (any-IsInside ip policy.networks (ground (arith, free, inner, let_in)))
        ]
      ]

  permits-IsVetted :
      (policy : AddressPolicy) (address : Text)
      → permits stack policy address ≡ true
      → IsVetted policy address
  unfolding permits
  permits-IsVetted policy address let_in = elim (Option-cases (normalize stack address)) [
    | inl unread ↦ ground (arith, unread, let_in)
    | inr (ip, parses) ↦ permits_ip-IsVetted policy address ip parses (
        subst (λ found. elim found [ none ↦ false | some ip' ↦ permits_ip stack policy ip' ] ≡ true)
          parses let_in)
  ]

  permits_all-IsVetted :
      (policy : AddressPolicy) (found : List Text)
      → permits_all stack policy found ≡ true
      → All (IsVetted policy) found
  unfolding permits_all
  permits_all-IsVetted policy [] let_in = tt
  permits_all-IsVetted policy (a ∷ found) let_in = (
    permits-IsVetted policy a (ground (arith, let_in)),
    permits_all-IsVetted policy found (ground (arith, let_in)),
  )

  -- What the check of the addresses lets through.
  unfoldable IsChecked : AddressPolicy → Guarded (List Text) → Type 0
  IsChecked policy (allowed found) = (found ≢ []) × All (IsVetted policy) found
  IsChecked policy _ = Unit

  vet-IsChecked :
      (policy : AddressPolicy) (found : List Text) → IsChecked policy (vet stack policy found)
  unfolding vet IsChecked
  vet-IsChecked policy [] = tt
  vet-IsChecked policy (a ∷ found) = elim (Bool-cases (permits_all stack policy (a ∷ found))) [
    | inl let_in ↦ rw let_in ((λ e. ground arith), permits_all-IsVetted policy (a ∷ found) let_in)
    | inr kept_out ↦ rw kept_out tt
  ]

  vet_resolved-IsChecked :
      (policy : AddressPolicy) (found : Resolved)
      → IsChecked policy (vet_resolved stack policy found)
  unfolding vet_resolved IsChecked
  vet_resolved-IsChecked policy (addresses found) = vet-IsChecked policy found
  vet_resolved-IsChecked policy os_error = tt
  vet_resolved-IsChecked policy broken = tt

  resolve_checked-IsChecked :
      (host : Text) (port : ℕ) (policy : AddressPolicy) (x : X)
      → IsChecked policy (resolve_checked stack host port policy x).0
  unfolding resolve_checked
  resolve_checked-IsChecked host port policy x = elim (Option-cases (normalize stack host)) [
    | inl name ↦
        simp (resolve_checked, name) (vet_resolved-IsChecked policy (resolve host port x).0)
    | inr (ip, parses) ↦ simp (resolve_checked, parses) (vet-IsChecked policy (show ip ∷ []))
  ]

  -- What is known once the loop is over.
  pub record IsGuarded (policy : AddressPolicy) (result : Connected × List Text × X) : Type 0 where
    pub vetted : All (IsVetted policy) result.1
    pub no_assertion : result.0 ≢ assertion_failed

  after_attempt-IsGuarded :
      (policy : AddressPolicy) (socket : Socket) (tried : List Text) (x : X)
      (again : Text → Connected × List Text × X)
      → All (IsVetted policy) tried
      → ((why : Text) → IsGuarded policy (again why))
      → IsGuarded policy (after_attempt stack socket tried x again)
  unfolding after_attempt
  after_attempt-IsGuarded policy (stream id) tried x again vetted next = record {
    vetted = vetted;
    no_assertion = λ e. ground arith;
  }
  after_attempt-IsGuarded policy (connect_error why) tried x again vetted next = next why
  after_attempt-IsGuarded policy other_error tried x again vetted next = record {
    vetted = vetted;
    no_assertion = λ e. ground arith;
  }

  connect_from-IsGuarded :
      (policy : AddressPolicy) (found : List Text) (port : ℕ) (last : Text) (tried : List Text)
      (x : X)
      → All (IsVetted policy) found
      → All (IsVetted policy) tried
      → IsGuarded policy (connect_from stack found port (some last) tried x)
  unfolding connect_from
  connect_from-IsGuarded policy [] port last tried x vetted before = record {
    vetted = before;
    no_assertion = λ e. ground arith;
  }
  connect_from-IsGuarded policy (a ∷ found) port last tried x (first, vetted) before =
      let now = All-append (IsVetted policy) tried (a ∷ []) before (first, tt) in
      after_attempt-IsGuarded policy _ (tried ++ a ∷ []) _ _ now
        (λ why. connect_from-IsGuarded policy found port why (tried ++ a ∷ []) _ vetted now)

  connect_vetted-IsGuarded :
      (policy : AddressPolicy) (port : ℕ) (found : Guarded (List Text)) (x : X)
      → IsChecked policy found
      → IsGuarded policy (connect_vetted stack port found x)
  unfolding connect_vetted connect_from IsChecked
  connect_vetted-IsGuarded policy port (allowed []) x (some_left, vetted) = absurd (some_left refl)
  connect_vetted-IsGuarded policy port (allowed (a ∷ found)) x (some_left, (first, vetted)) =
      after_attempt-IsGuarded policy _ (a ∷ []) _ _ (first, tt)
        (λ why. connect_from-IsGuarded policy found port why (a ∷ []) _ vetted (first, tt))
  connect_vetted-IsGuarded policy port not_allowed x checked = record {
    vetted = tt;
    no_assertion = λ e. ground arith;
  }
  connect_vetted-IsGuarded policy port unavailable x checked = record {
    vetted = tt;
    no_assertion = λ e. ground arith;
  }
  connect_vetted-IsGuarded policy port crashed x checked = record {
    vetted = tt;
    no_assertion = λ e. ground arith;
  }

  -- Whatever the resolver answers, `connect_tcp` attempts a socket only at vetted addresses, and
  -- its assertion that an error was seen holds whenever it is reached.
  pub connect_tcp-IsGuarded :
      (policy : AddressPolicy) (host : Text) (port : ℕ) (x : X)
      → IsGuarded policy (connect_tcp stack policy host port x)
  unfolding connect_tcp
  connect_tcp-IsGuarded policy host port x =
      connect_vetted-IsGuarded policy port _ _ (resolve_checked-IsChecked host port policy x)

  permits_all-bad :
      (policy : AddressPolicy) (front back : List Text) (bad : Text)
      → permits stack policy bad ≡ false
      → permits_all stack policy (front ++ bad ∷ back) ≡ false
  unfolding permits_all
  permits_all-bad policy [] back bad blocked = rw blocked refl
  permits_all-bad policy (a ∷ front) back bad blocked =
      ground (arith, permits_all-bad policy front back bad blocked)

  vet-bad :
      (policy : AddressPolicy) (found : List Text)
      → permits_all stack policy found ≡ false
      → vet stack policy found ≡ not_allowed
  unfolding vet
  vet-bad policy [] kept_out = refl
  vet-bad policy (a ∷ found) kept_out = rw kept_out refl

  -- If one of the addresses that a host resolves to is not permitted, nothing is attempted at the
  -- others either.
  pub connect_tcp-refused :
      (policy : AddressPolicy) (host : Text) (port : ℕ) (front back : List Text) (bad : Text)
      (x : X)
      → normalize stack host ≡ none
      → (resolve host port x).0 ≡ addresses (front ++ bad ∷ back)
      → permits stack policy bad ≡ false
      → connect_tcp stack policy host port x ≡ (refused, [], (resolve host port x).1)
  unfolding connect_tcp resolve_checked vet_resolved connect_vetted
  connect_tcp-refused policy host port front back bad x name found blocked =
      let shut =
        vet-bad policy (front ++ bad ∷ back) (permits_all-bad policy front back bad blocked) in
      simp (connect_tcp, resolve_checked, name, found, vet_resolved, shut, connect_vetted) refl
