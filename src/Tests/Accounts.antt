-- ===== src/Tests/Accounts.antt =====
-- Accounts of one user at a local provider: created, moved, given a key, and deleted.
use lycosa.Prelude.{
  ℕ, ◌+◌, ◌*◌, ◌^◌, Bool, true, false, Option, none, some, [], ◌∷◌, Text, text, length, All, any,
  ltb, if◌then◌else◌, ◌==◌, nat_comparable, text_comparable, ◌≡◌, refl, starts_with, arith,
}
use lycosa.Llm.Accounts.{local, Account, Actor, personal}
use lycosa.Llm.NetPolicy.{
  IpAddress, permits, v4, network_v4, NetworkStack, addresses, other_error, connect_tcp,
  before_zone, unmapped, in_network, always_blocked, local_policy,
}
use lycosa.Llm.Endpoints.{Urls, port_of, user_supplied, ProviderSpec, Networks, address_policy}
use lycosa.Llm.Endpoints.Private.{IsNotGlobal, connect_tcp-IsNotGlobal}
use lycosa.Llm.Management.{
  Registry, Managed, account_error, AccountServices, NewAccount, Changes, owned_by, has_credential,
  is_exposed, is_valid_secret,
}
use lycosa.Llm.Management.Create.{create_account}
use lycosa.Llm.Management.Update.{update_account, delete_account}
use lycosa.Llm.Management.Keys.{IsSafe, create_account-IsSafe, update_account-IsSafe}
use lycosa.Llm.Management.Owners.{IsKept, IsDistinct, create_account-IsKept}
use lycosa.Llm.Management.Chains.{Deletes, delete_account-Deletes}

program : Unit {0}
unfolding any is_valid_secret starts_with owned_by has_credential is_exposed create_account
    update_account delete_account IsSafe IsDistinct permits before_zone unmapped in_network
    always_blocked local_policy
program = tt

abbrev global_of : IpAddress → Bool
global_of (v4 a) = a == 8 * 2 ^ 24
global_of _ = false

-- The network answers with an address of the local network, or a global one once it is past 5.
abbrev stack : NetworkStack ℕ
stack = record {
  parse = λ name.
      if name == text "lan"
      then some (v4 (192 * 2 ^ 24 + 168 * 2 ^ 16))
      else if name == text "dns"
      then some (v4 (8 * 2 ^ 24))
      else none;
  show = λ ip. text "lan";
  is_global = global_of;
  resolve = λ host port x. (addresses ((if ltb x 5 then text "lan" else text "dns") ∷ []), x + 1);
  connect = λ address port x. (other_error, x + 1);
}

abbrev urls : Urls
urls = record {
  split = λ url. some (record {
    scheme = if starts_with (text "http:") url then text "http" else text "https";
    netloc = url;
    hostname = text "box";
    username = none;
    password = none;
    path = [];
    query = [];
    fragment = [];
    port = port_of 80;
  });
  unsplit = λ scheme netloc path. netloc;
  show = λ n. text "80";
  strip = λ t. t;
}

abbrev spec : ProviderSpec
spec = record {
  id = text "ollama";
  kind = local;
  display_name = text "Ollama";
  default_base_url = text "http://box";
  base_url_mode = user_supplied;
  auth_methods = text "none" ∷ text "api_key" ∷ [];
  accepts = λ url. true;
}

abbrev networks : Networks
networks = record {
  trusted = network_v4 192 168 0 0 16 ∷ [];
  user = network_v4 192 168 0 0 16 ∷ [];
}

abbrev no_role : ℕ → Option Text
no_role user = none

abbrev services : AccountServices ℕ
services = record {
  stack = stack;
  urls = urls;
  networks = networks;
  role_of = no_role;
  spec_of = λ provider. some spec;
  node_of = λ id. none;
  new_id = λ x. (x + 10, x + 1);
  uses_keyring = false;
  set_password = λ id secret x. (false, x);
  open_vault = λ x. (true, x);
  delete_password = λ id x. x + 1;
  seal = λ id secret x. (text "sealed", x + 1);
}

abbrev user : Actor
user = record { role = text "operator"; user_id = some 7; api_key_id = none }

abbrev request : NewAccount
request = record {
  provider = text "ollama";
  label = text "mine";
  scope = personal;
  base_url = none;
  api_key = some (text "key");
  auth_method = none;
  node_id = none;
}

abbrev empty : Registry ℕ
empty = record { ext = 0; accounts = []; policies = []; credentials = []; audits = [] }

abbrev created : Managed Account × Registry ℕ
created = create_account services user request empty

one_account : length created.1.accounts ≡ 1
unfolding program
one_account = refl

same_name :
    (create_account services user request created.1).0
    ≡ account_error 409 (text "An account with this provider and label already exists")
unfolding program
same_name = refl

create_account-IsSafe_example : IsSafe created
unfolding program
create_account-IsSafe_example = create_account-IsSafe services user request empty refl

empty-IsKept : IsKept empty.accounts
unfolding program
empty-IsKept = record { limited = λ owner. omega arith; distinct = tt }

create_account-IsKept_example : IsKept created.1.accounts
create_account-IsKept_example = create_account-IsKept services user request empty empty-IsKept

abbrev mine : Account
mine = record {
  id = 10;
  provider = text "ollama";
  owner_user_id = some 7;
  status = text "active";
  is_local = true;
  label = text "mine";
  auth_method = text "api_key";
  base_url = text "http://box";
  api_access = text "unknown";
  node_id = none;
}

abbrev stored : Registry ℕ
stored = record {
  ext = 5;
  accounts = mine ∷ [];
  policies =
      record {
        owner_user_id = none;
        purpose = text "default";
        chain = record { account_id = some 10; model = some (text "m") } ∷ [];
      }
      ∷ [];
  credentials = record { account_id = 10; store = text "db"; sealed = none } ∷ [];
  audits = [];
}

abbrev move : Changes
move = record { label = none; status = none; base_url = some (text "http://far"); api_key = none }

-- Moving an account with a key to a plain HTTP endpoint that is not local fails.
move_fails :
    (update_account services user mine move stored).0
    ≡ account_error 422 (text "API keys need HTTPS unless the endpoint is on a local network")
unfolding program
move_fails = refl

abbrev rename : Changes
rename = record { label = some (text "other"); status = none; base_url = none; api_key = none }

update_account-IsSafe_example : IsSafe (update_account services user mine rename stored)
update_account-IsSafe_example = update_account-IsSafe services user mine rename stored

abbrev in_vault : Registry ℕ
in_vault = record stored {
  credentials = record { account_id = 10; store = text "keyring"; sealed = none } ∷ [];
}

delete_account-Deletes_example :
    Deletes services 10 in_vault (delete_account services user mine in_vault)
unfolding program
delete_account-Deletes_example =
    delete_account-Deletes services user mine in_vault refl ((λ e. ground arith), tt)

connect_tcp-IsNotGlobal_example :
    All
      (IsNotGlobal stack)
      (connect_tcp stack (address_policy networks no_role local mine true) (text "box") 80 2).1
connect_tcp-IsNotGlobal_example =
    connect_tcp-IsNotGlobal stack networks no_role local mine (text "box") 80 2
