-- ===== src/Tests/NetPolicy.antt =====
-- The address policies at a small network: two names, one of which is pointed elsewhere.
use lycosa.Prelude.{
  ℕ, ◌+◌, ◌*◌, ◌^◌, Bool, true, false, Option, none, some, List, [], ◌∷◌, Text, text, any, ltb,
  if◌then◌else◌, ◌==◌, nat_comparable, text_comparable, ◌≡◌, refl,
}
use lycosa.Llm.NetPolicy.{
  IpAddress, v4, v6, Network, network_v4, NetworkStack, addresses, stream, connect_error, opened,
  refused, in_network, always_blocked, unmapped, before_zone, permits, connect_tcp, local_policy,
  private_only_policy,
}
use lycosa.Llm.NetPolicy.Vetted.{IsGuarded, connect_tcp-IsGuarded, connect_tcp-refused}

program : Unit {0}
unfolding any in_network always_blocked unmapped before_zone permits connect_tcp local_policy
    private_only_policy
program = tt

-- An address is written as its name here.
abbrev address_of : Text → Option IpAddress
address_of name =
    if name == text "lan"
    then some (v4 (192 * 2 ^ 24 + 168 * 2 ^ 16 + 7))
    else if name == text "meta"
    then some (v4 (169 * 2 ^ 24 + 254 * 2 ^ 16 + 169 * 256 + 254))
    else if name == text "mapped"
    then some (v6 (65_535 * 2 ^ 32 + 169 * 2 ^ 24 + 254 * 2 ^ 16 + 169 * 256 + 254))
    else if name == text "dns"
    then some (v4 (8 * 2 ^ 24 + 8 * 2 ^ 16 + 8 * 256 + 8))
    else none

abbrev global_of : IpAddress → Bool
global_of (v4 a) = a == 8 * 2 ^ 24 + 8 * 2 ^ 16 + 8 * 256 + 8
global_of (v6 a) = false

abbrev stack : NetworkStack ℕ
stack = record {
  parse = address_of;
  show = λ ip. text "lan";
  is_global = global_of;
  resolve = λ host port x. (
    if host == text "bound"
        then addresses (text "lan" ∷ text "meta" ∷ [])
        else addresses (text "lan" ∷ []),
    x + 1,
  );
  connect = λ address port x. (if ltb x 2 then connect_error (text "busy") else stream x, x + 1);
}

abbrev networks : List Network
networks = network_v4 192 168 0 0 16 ∷ []

private-lan : permits stack (private_only_policy networks) (text "lan") ≡ true
unfolding program
private-lan = refl

private-dns : permits stack (private_only_policy networks) (text "dns") ≡ false
unfolding program
private-dns = refl

local-dns : permits stack (local_policy networks) (text "dns%eth0") ≡ true
unfolding program
local-dns = refl

mapped_metadata : permits stack (local_policy (network_v4 0 0 0 0 0 ∷ [])) (text "mapped") ≡ false
unfolding program
mapped_metadata = refl

opens : (connect_tcp stack (local_policy networks) (text "box") 80 2).0 ≡ opened 3
unfolding program
opens = refl

connect_tcp-IsGuarded_example :
    IsGuarded stack
      (local_policy networks)
      (connect_tcp stack (local_policy networks) (text "box") 80 2)
connect_tcp-IsGuarded_example =
    connect_tcp-IsGuarded stack (local_policy networks) (text "box") 80 2

connect_tcp-refused_example :
    connect_tcp stack (local_policy networks) (text "bound") 80 2 ≡ (refused, [], 3)
unfolding program
connect_tcp-refused_example =
    connect_tcp-refused stack (local_policy networks) (text "bound") 80 (text "lan" ∷ []) []
      (text "meta") 2 refl refl refl
