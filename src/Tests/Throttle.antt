-- ===== src/Tests/Throttle.antt =====
-- The in-process window store at small inputs.
use lycosa.Prelude.{
  ◌≤◌, List, [], ◌∷◌, Text, text, length, nat_comparable, text_comparable, ◌≡◌, refl, arith,
}
use native.Mathlib.Nat.{le_refl}
use lycosa.Prelude.Dict.{lookup, assign, remove}
use lycosa.WindowStore.{
  Hits, return, index_error, ticks, retry_after, prune, bucket_of, retry_of, try_hit, penalty, add,
  clear, clear_prefix,
}
use lycosa.WindowStore.Retry.{try_hit_after_wait}
use lycosa.WindowStore.Frame.{try_hit-penalty}
use lycosa.WindowStore.Bound.{Call, hit, peek, within, times_of, admitted, admitted-le-limit}

program : Unit {0}
unfolding lookup assign remove retry_after prune bucket_of retry_of try_hit penalty add clear
    clear_prefix
program = tt

abbrev key : Text
key = text "rl:ip:10.0.0.7"

abbrev other_key : Text
other_key = text "login:10.0.0.7"

-- Two hits at 10 s and 12 s, with a limit of two in 60 seconds.
abbrev full : Hits
full = (key, 10_000_000 ∷ 12_000_000 ∷ []) ∷ []

third_hit : (try_hit full key 2 60 15_500_000).0 ≡ return 55
unfolding program
third_hit = refl

room_again : (try_hit full key 2 60 70_000_001).0 ≡ return 0
unfolding program
room_again = refl

-- A limit of zero is not caught by the settings: the first request of a client raises.
zero_limit : (try_hit [] key 0 60 1).0 ≡ index_error
unfolding program
zero_limit = refl

rejected_third : try_hit full key 2 60 15_500_000 ≡ (return 55, full)
unfolding program
rejected_third = refl

two_hits : length (bucket_of full key) ≤ 2
unfolding program
two_hits = le_refl 2

try_hit_after_wait_example : (try_hit full key 2 60 70_600_000).0 ≡ return 0
try_hit_after_wait_example =
    try_hit_after_wait full full key 2 60 15_500_000 70_600_000 54 two_hits rejected_third
      (omega arith)

try_hit-penalty_example :
    (try_hit (penalty full key 2 60 15_500_000).1 key 2 60 20_000_000).0
    ≡ (try_hit full key 2 60 20_000_000).0
try_hit-penalty_example = try_hit-penalty full key key 2 2 60 15_500_000 20_000_000 (omega arith)

abbrev traffic : List Call
traffic = hit key 1 ∷ hit other_key 2 ∷ hit key 3 ∷ peek key 4 ∷ hit key 5 ∷ hit key 60_000_004 ∷ []

-- Of the four hits of the key three are admitted, the last one when the first has left the window.
traffic-admitted : times_of key (admitted 2 60 [] traffic) ≡ 1 ∷ 3 ∷ 60_000_004 ∷ []
unfolding program admitted times_of
traffic-admitted = refl

admitted-le-limit_example : within 1 (ticks 60) (times_of key (admitted 2 60 [] traffic)) ≤ 2
admitted-le-limit_example = admitted-le-limit 2 60 1 key traffic (omega arith)
