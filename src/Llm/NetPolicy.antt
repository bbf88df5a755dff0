-- ===== src/Llm/NetPolicy.antt =====
-- Which socket addresses the call of a provider may use (backend/app/llm/netpolicy.py). An address
-- is its number, as in Python's ipaddress; the parser and printer of addresses, the table behind
-- `is_global`, `urlsplit` and the resolver are parameters.
pub mod Vetted
use lycosa.Prelude.{
  ℕ, zero, suc, ◌+◌, ◌-◌, ◌*◌, ◌/◌, ◌%◌, ◌^◌, ◌≤◌, ◌<◌, min, max, Bool, true, false, not, ◌&&◌,
  ◌||◌, Option, none, some, List, [], ◌∷◌, ◌++◌, map, append-nil, append_assoc, Text, text, String,
  length, take, drop, get_elem?, length-append, length-map, length-take-le, All, All-append, any,
  keep_if, is_in, ltb, leb, nat_beq, if◌then◌else◌, ltb→lt, lt→ltb, leb→le, le→leb, nat_beq_iff,
  Bool-cases, Option-cases, Comparable, ◌==◌, nat_comparable, text_beq, text_beq_iff,
  text_comparable, beq_refl, beq_false, ◌≡◌, refl, sym, ap, ◌∙◌, subst, ◌≢◌, ◌↔◌, ◌⊎◌, inl, inr,
  starts_with, contains, join, arith,
}

pub data IpAddress : Type 0 where
  v4 v6 : ℕ → IpAddress

-- A network: the number of its first address and the length of its prefix.
pub record Network : Type 0 where
  pub first : IpAddress
  pub prefix : ℕ

-- Whether two numbers of `width` bits have the first `prefix` of them in common.
abbrev pub same_prefix : ℕ → ℕ → ℕ → ℕ → Bool
same_prefix width prefix a b = a / 2 ^ (width - prefix) == b / 2 ^ (width - prefix)

-- `ip in net` for the networks of the same version.
unfoldable pub in_network : IpAddress → Network → Bool
in_network (v4 a) net = elim net.first [ v4 b ↦ same_prefix 32 net.prefix a b | v6 b ↦ false ]
in_network (v6 a) net = elim net.first [ v4 b ↦ false | v6 b ↦ same_prefix 128 net.prefix a b ]

abbrev pub network_v4 : ℕ → ℕ → ℕ → ℕ → ℕ → Network
network_v4 a b c d prefix = record {
  first = v4 (((a * 256 + b) * 256 + c) * 256 + d);
  prefix = prefix;
}

-- A network of the other version, by the first 16 bits of its address, and what follows them.
abbrev pub network_v6 : ℕ → ℕ → ℕ → Network
network_v6 head rest prefix = record { first = v6 (head * 2 ^ 112 + rest); prefix = prefix }

unfoldable pub always_blocked : List Network
always_blocked =
    network_v4 0 0 0 0 8
    ∷ network_v4 169 254 0 0 16
    ∷ network_v4 100 100 100 200 32
    ∷ network_v4 192 0 0 192 32
    ∷ network_v4 224 0 0 0 4
    ∷ network_v4 240 0 0 0 4
    ∷ network_v4 255 255 255 255 32
    ∷ network_v6 0 0 128
    ∷ network_v6 65_152 0 10
    ∷ network_v6 65_280 0 8
    ∷ network_v6 64_768 (3_778 * 2 ^ 96 + 596) 128
    ∷ []

-- `ip.ipv4_mapped`
unfoldable pub unmapped : IpAddress → IpAddress
unmapped (v4 a) = v4 a
unmapped (v6 a) = if a / 2 ^ 32 == 65_535 then v4 (a % 2 ^ 32) else v6 a

-- `address.split("%", 1)[0]`
unfoldable pub before_zone : Text → Text
before_zone [] = []
before_zone (c ∷ rest) = let head = before_zone rest in if c == 37 then [] else c ∷ head

pub record AddressPolicy : Type 0 where
  pub public_ok : Bool
  pub networks : List Network
  pub label : Text

unfoldable pub public_only : AddressPolicy
public_only = record { public_ok = true; networks = []; label = text "public" }

unfoldable pub local_policy : List Network → AddressPolicy
local_policy networks = record { public_ok = true; networks = networks; label = text "local" }

unfoldable pub private_only_policy : List Network → AddressPolicy
private_only_policy networks = record {
  public_ok = false;
  networks = networks;
  label = text "private";
}

-- What the resolver gives: addresses, an `OSError`, or another exception.
pub data Resolved : Type 0 where
  addresses : List Text → Resolved
  os_error : Resolved
  broken : Resolved

-- A result, the two errors of the policy, or another exception.
pub data Guarded {ℓ} (A : Type ℓ) : Type ℓ where
  allowed : A → Guarded A
  not_allowed : Guarded A
  unavailable : Guarded A
  crashed : Guarded A

-- How the attempt to open a socket ends: a stream, a `ConnectError` or `ConnectTimeout`, or another
-- exception.
pub data Socket : Type 0 where
  stream : ℕ → Socket
  connect_error : Text → Socket
  other_error : Socket

-- How `connect_tcp` ends; the last is the failure of its assertion.
pub data Connected : Type 0 where
  opened : ℕ → Connected
  last_error : Text → Connected
  refused : Connected
  unresolved : Connected
  raised : Connected
  assertion_failed : Connected

-- Python's ipaddress and the resolver, which acts on a state of its own, as the sockets do.
pub record NetworkStack (X : Type 0) : Type 0 where
  pub parse : Text → Option IpAddress
  pub show : IpAddress → Text
  pub is_global : IpAddress → Bool
  pub resolve : Text → ℕ → X → Resolved × X
  pub connect : Text → ℕ → X → Socket × X

module _ {X : Type 0} (stack : NetworkStack X) where
  open stack use {parse, show, is_global, resolve, connect}

  -- `_normalize`; `none` is its `ValueError`.
  unfoldable pub normalize : Text → Option IpAddress
  unfolding unmapped before_zone
  normalize address = elim (parse (before_zone address)) [
    | none ↦ none
    | some ip ↦ some (unmapped ip)
  ]

  -- The rest of `permits`, for an address that parses.
  unfoldable pub permits_ip : AddressPolicy → IpAddress → Bool
  unfolding in_network always_blocked
  permits_ip policy ip =
      if any (in_network ip) always_blocked
      then false
      else if is_global ip
      then policy.public_ok
      else any (in_network ip) policy.networks

  unfoldable pub permits : AddressPolicy → Text → Bool
  unfolding normalize permits_ip
  permits policy address = elim (normalize address) [
    | none ↦ false
    | some ip ↦ permits_ip policy ip
  ]

  -- `all(policy.permits(a) for a in addresses)`
  unfoldable pub permits_all : AddressPolicy → List Text → Bool
  permits_all policy [] = true
  permits_all policy (a ∷ rest) = permits policy a && permits_all policy rest

  unfoldable pub vet : AddressPolicy → List Text → Guarded (List Text)
  unfolding permits_all
  vet policy [] = not_allowed
  vet policy (a ∷ rest) = if permits_all policy (a ∷ rest) then allowed (a ∷ rest) else not_allowed

  -- The addresses of a host that is a name.
  unfoldable pub vet_resolved : AddressPolicy → Resolved → Guarded (List Text)
  unfolding vet
  vet_resolved policy (addresses found) = vet policy found
  vet_resolved policy os_error = unavailable
  vet_resolved policy broken = crashed

  unfoldable pub resolve_checked : Text → ℕ → AddressPolicy → X → Guarded (List Text) × X
  unfolding normalize vet vet_resolved
  resolve_checked host port policy x = elim (normalize host) [
    | some ip ↦ (vet policy (show ip ∷ []), x)
    | none ↦ (let (found, x') = resolve host port x in (vet_resolved policy found, x'))
  ]

  -- The loop of `connect_tcp` over the vetted addresses, with the addresses at which a socket was
  -- attempted, and `last_error`.
  abbrev pub Attempting : Type 0
  Attempting = Connected × List Text × X

  abbrev pub after_loop : Option Text → Connected
  after_loop none = assertion_failed
  after_loop (some why) = last_error why

  -- What follows an attempt.
  unfoldable pub after_attempt : Socket → List Text → X → (Text → Attempting) → Attempting
  after_attempt (stream id) tried x again = (opened id, tried, x)
  after_attempt (connect_error why) tried x again = again why
  after_attempt other_error tried x again = (raised, tried, x)

  unfoldable pub connect_from : List Text → ℕ → Option Text → List Text → X → Attempting
  unfolding after_attempt
  connect_from [] port last tried x = (after_loop last, tried, x)
  connect_from (address ∷ rest) port last tried x =
      let (socket, x') = connect address port x in
      let tried' = tried ++ address ∷ [] in
      after_attempt socket tried' x' (λ why. connect_from rest port (some why) tried' x')

  unfoldable pub connect_vetted : ℕ → Guarded (List Text) → X → Attempting
  unfolding connect_from
  connect_vetted port (allowed found) x = connect_from found port none [] x
  connect_vetted port not_allowed x = (refused, [], x)
  connect_vetted port unavailable x = (unresolved, [], x)
  connect_vetted port crashed x = (raised, [], x)

  -- `GuardedBackend.connect_tcp`
  unfoldable pub connect_tcp : AddressPolicy → Text → ℕ → X → Attempting
  unfolding resolve_checked connect_vetted
  connect_tcp policy host port x =
      let (found, x') = resolve_checked host port policy x in connect_vetted port found x'

  -- `is_literal_private`, by the host of the URL.
  unfoldable pub is_literal_private : Text → Bool
  unfolding normalize
  is_literal_private host =
      if host == text "localhost" || host == text "host.docker.internal"
      then true
      else elim (normalize host) [ none ↦ false | some ip ↦ not (is_global ip) ]
