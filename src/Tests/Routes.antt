-- ===== src/Tests/Routes.antt =====
-- Routes and policies at small tables.
use lycosa.Prelude.{
  ℕ, true, false, ◌||◌, none, some, List, [], ◌∷◌, ◌++◌, map, Text, text, nat_comparable,
  text_comparable, ◌≡◌, refl, ◌≢◌, arith,
}
use lycosa.Llm.Accounts.{ProviderKind, cloud, Account, Actor, ok, personal, get_account, can_use}
use lycosa.Llm.Routing.{
  Policy, Target, Tables, is_purpose, is_local_only, rows_for, absent, get_policy, write_policy,
  entry_of, found_route, crashed, set_policy, delete_policy, resolve, first_route, places,
  check_policy, check_chain, check_entry, store_policy, targets_of, entry_target,
}
use lycosa.Llm.Routing.Chains.{IsRoute, resolve-IsRoute}
use lycosa.Llm.Routing.Refinement.{
  PolicyMap, Represents, Request, set_request, delete_request, view, perform_all, effects,
  perform_all-Represents,
}
use lycosa.Llm.Routing.Policies.{IsUnique, set_policy-IsUnique}
use lycosa.Llm.Routing.Resolution.{
  entries_of, IsKeyed, resolve-ne-crashed, resolve-set_policy, resolve_after_race,
}

program : Unit {0}
unfolding view is_purpose is_local_only set_policy delete_policy resolve rows_for get_policy
    write_policy first_route places check_policy check_chain check_entry get_account can_use
    store_policy targets_of entry_target
program = tt

abbrev account : Account
account = record {
  id = 4;
  provider = text "openai";
  owner_user_id = none;
  status = text "active";
  is_local = false;
  label = text "main";
  auth_method = text "api_key";
  base_url = text "https://api";
  api_access = text "unknown";
  node_id = none;
}

abbrev db : Tables
db = record { accounts = account ∷ []; policies = []; audited = [] }

abbrev actor : Actor
actor = record { role = text "operator"; user_id = some 9; api_key_id = none }

abbrev coding : Text
coding = text "coding"

abbrev cloud_only : Text → ProviderKind
cloud_only provider = cloud

abbrev chain : List (ℕ × Text)
chain = (4, text "big") ∷ (4, text "small") ∷ []

abbrev stored : Tables
stored = (set_policy cloud_only db actor personal coding chain).1

stored-ok : set_policy cloud_only db actor personal coding chain ≡ (ok tt, stored)
unfolding program
stored-ok = refl

db-IsUnique : IsUnique db.policies
unfolding program
db-IsUnique owner purpose = omega arith

set_policy-IsUnique_example : IsUnique stored.policies
set_policy-IsUnique_example =
    set_policy-IsUnique cloud_only db actor personal coding chain db-IsUnique

-- The policy of every user, and one user's own.
abbrev with_default : Tables
with_default = record db {
  policies =
      record { owner_user_id = none; purpose = coding; chain = map entry_of chain }
      ∷ record { owner_user_id = some 9; purpose = coding; chain = map entry_of chain }
      ∷ [];
}

with_default-IsKeyed : IsKeyed with_default.policies
with_default-IsKeyed = (((λ both. ground (arith, both.0)), tt), (tt, tt))

resolve-ne-crashed_example : resolve cloud_only with_default actor coding false ≢ crashed
resolve-ne-crashed_example =
    resolve-ne-crashed cloud_only with_default actor coding false with_default-IsKeyed

resolve-set_policy_example :
    (route : List Target) × (resolve cloud_only stored actor coding false ≡ found_route route)
    × (entries_of route ≡ chain)
resolve-set_policy_example =
    resolve-set_policy cloud_only db stored actor coding 9 chain refl stored-ok

abbrev route : List Target
route =
    record { account = account; model = text "big" }
    ∷ record { account = account; model = text "small" }
    ∷ []

route-found : resolve cloud_only stored actor coding false ≡ found_route route
unfolding program
route-found = refl

resolve-IsRoute_example : IsRoute cloud_only stored actor (false || is_local_only coding) route
resolve-IsRoute_example = resolve-IsRoute cloud_only stored actor coding false route-found

abbrev between : List Policy
between = record { owner_user_id = some 9; purpose = coding; chain = map entry_of chain } ∷ []

abbrev twice : List Policy
twice = between ++ record { owner_user_id = some 9; purpose = coding; chain = [] } ∷ []

coding-known : is_purpose coding ≡ true
unfolding program
coding-known = refl

none_yet : get_policy db.policies (some 9) coding ≡ absent
unfolding program
none_yet = refl

first_write : write_policy absent db.policies (some 9) coding (map entry_of chain) ≡ some between
unfolding program
first_write = refl

second_write : write_policy absent between (some 9) coding [] ≡ some twice
unfolding program
second_write = refl

resolve_after_race_example :
    resolve cloud_only (record db { policies = twice }) actor coding false ≡ crashed
resolve_after_race_example =
    resolve_after_race cloud_only db actor coding 9 (map entry_of chain) [] between twice false
      coding-known refl none_yet first_write second_write

abbrev requests : List Request
requests = set_request actor personal coding chain ∷ delete_request actor personal coding ∷ []

abbrev nowhere : PolicyMap
nowhere owner purpose = none

db-Represents : Represents db.policies nowhere
unfolding program
db-Represents = record { reads = λ owner purpose. refl }

perform_all-Represents_example :
    Represents
      (perform_all cloud_only requests db).policies
      (effects cloud_only requests db nowhere)
perform_all-Represents_example = perform_all-Represents cloud_only requests db nowhere db-Represents
