-- ===== src/Llm/Endpoints.antt =====
-- The endpoint of an account: the shape of a URL (validate_base_url of
-- backend/app/llm/netpolicy.py, backend/app/core/agenturl.py), and of backend/app/llm/accounts.py
-- the URL that a provider takes and the policy for its calls. `urlsplit`, `urlunsplit` and `str` are
-- parameters.
pub mod Private
use lycosa.Prelude.{
  ℕ, zero, suc, ◌+◌, ◌-◌, ◌*◌, ◌/◌, ◌%◌, ◌^◌, ◌≤◌, ◌<◌, min, max, Bool, true, false, not, ◌&&◌,
  ◌||◌, Option, none, some, List, [], ◌∷◌, ◌++◌, map, append-nil, append_assoc, Text, text, String,
  length, take, drop, get_elem?, length-append, length-map, length-take-le, All, All-append, any,
  keep_if, is_in, ltb, leb, nat_beq, if◌then◌else◌, ltb→lt, lt→ltb, leb→le, le→leb, nat_beq_iff,
  Bool-cases, Option-cases, Comparable, ◌==◌, nat_comparable, text_beq, text_beq_iff,
  text_comparable, beq_refl, beq_false, ◌≡◌, refl, sym, ap, ◌∙◌, subst, ◌≢◌, ◌↔◌, ◌⊎◌, inl, inr,
  starts_with, contains, join, arith,
}
use lycosa.Llm.Accounts.{
  ProviderKind, cloud, aggregator, local, compatible, node, Account, is_deployment,
}
use lycosa.Llm.NetPolicy.{
  IpAddress, Network, AddressPolicy, NetworkStack, Guarded, allowed, not_allowed, unavailable,
  crashed, public_only, local_policy, private_only_policy, before_zone, resolve_checked,
}

-- The parts of a URL; a port that is not a number in range is `bad_port`.
pub data Port : Type 0 where
  no_port bad_port : Port
  port_of : ℕ → Port

pub record UrlParts : Type 0 where
  pub scheme : Text
  pub netloc : Text
  pub hostname : Text
  pub username : Option Text
  pub password : Option Text
  pub path : Text
  pub query : Text
  pub fragment : Text
  pub port : Port

-- `urlsplit`, which may raise a ValueError, and `urlunsplit` of a scheme, a netloc and a path.
pub record Urls : Type 0 where
  pub split : Text → Option UrlParts
  pub unsplit : Text → Text → Text → Text
  pub show : ℕ → Text
  pub strip : Text → Text

pub data BaseUrlMode : Type 0 where
  fixed official_choice user_supplied : BaseUrlMode

-- A `ProviderSpec`, as far as accounts look at it; `accepts` is the match with its patterns.
pub record ProviderSpec : Type 0 where
  pub id : Text
  pub kind : ProviderKind
  pub display_name : Text
  pub default_base_url : Text
  pub base_url_mode : BaseUrlMode
  pub auth_methods : List Text
  pub accepts : Text → Bool

abbrev pub is_empty : Text → Bool
is_empty [] = true
is_empty (c ∷ rest) = false

-- `parts.username or parts.password`
abbrev pub is_given : Option Text → Bool
is_given none = false
is_given (some value) = not (is_empty value)

abbrev pub is_node : ProviderKind → Bool
is_node node = true
is_node _ = false

abbrev pub is_public_kind : ProviderKind → Bool
is_public_kind cloud = true
is_public_kind aggregator = true
is_public_kind _ = false

-- `spec.allow_http`
abbrev pub allow_http : ProviderKind → Bool
allow_http kind = not (is_public_kind kind)

-- `value.rstrip("/")`
unfoldable pub drop_slashes : Text → Text
drop_slashes [] = []
drop_slashes (c ∷ rest) =
    let kept = drop_slashes rest in if is_empty kept && c == 47 then [] else c ∷ kept

-- A character below 33, which no URL may have.
abbrev pub is_control : ℕ → Bool
is_control c = ltb c 33

module _ (urls : Urls) where
  open urls use {split, unsplit, show, strip}

  -- The tests of `validate_base_url` on the parts.
  unfoldable pub checked_parts : Bool → UrlParts → Guarded Text
  unfolding drop_slashes
  checked_parts http parts =
      if not (parts.scheme == text "https" || (http && parts.scheme == text "http"))
      then not_allowed
      else if is_empty parts.hostname
          || (is_given parts.username
              || (is_given parts.password
                  || (not (is_empty parts.query) || not (is_empty parts.fragment))))
      then not_allowed
      else elim parts.port [
        | bad_port ↦ not_allowed
        | no_port ↦ allowed (unsplit parts.scheme parts.netloc (drop_slashes parts.path))
        | port_of n ↦ allowed (unsplit parts.scheme parts.netloc (drop_slashes parts.path))
      ]

  unfoldable pub checked_split : Bool → Option UrlParts → Guarded Text
  unfolding checked_parts
  checked_split http none = crashed
  checked_split http (some parts) = checked_parts http parts

  -- `validate_base_url`. The ValueError of `urlsplit` is not caught.
  unfoldable pub validate_base_url : Text → Bool → Guarded Text
  unfolding checked_split
  validate_base_url url http =
      if ltb 255 (length url) || any is_control url
      then not_allowed
      else checked_split http (split url)

  -- `f":{port}" if port is not None else ""`
  abbrev pub port_text : Port → Text
  port_text (port_of n) = text ":" ++ show n
  port_text _ = []

  abbrev pub host_text : Text → Text
  host_text host = if contains (text ":") host then text "[" ++ (host ++ text "]") else host

  abbrev pub is_bad_port : Port → Bool
  is_bad_port bad_port = true
  is_bad_port _ = false

  abbrev pub is_none_text : Option Text → Bool
  is_none_text none = true
  is_none_text (some value) = false

  -- `normalize_agent_url`; `none` is its InvalidAgentUrl.
  unfoldable pub normalize_parts : Text → UrlParts → Option Text
  normalize_parts value parts =
      if is_bad_port parts.port
      then none
      else if not (parts.scheme == text "http" || parts.scheme == text "https")
          || is_empty parts.hostname
      then none
      else if not (is_none_text parts.username && is_none_text parts.password)
      then none
      else if not (is_empty parts.path || parts.path == text "/")
          || (contains (text "?") value || contains (text "#") value)
      then none
      else some (parts.scheme ++ (text "://" ++ (host_text parts.hostname ++ port_text parts.port)))

  unfoldable pub normalize_agent_url : Text → Option Text
  unfolding normalize_parts
  normalize_agent_url value = elim (split (strip value)) [
    | none ↦ none
    | some parts ↦ normalize_parts value parts
  ]

  unfoldable pub is_valid_agent_url : Option Text → Bool
  unfolding normalize_agent_url
  is_valid_agent_url none = false
  is_valid_agent_url (some []) = false
  is_valid_agent_url (some (c ∷ value)) = elim (normalize_agent_url (c ∷ value)) [
    | none ↦ false
    | some url ↦ true
  ]

  -- `requested or spec.default_base_url`
  abbrev pub requested_or : Option Text → Text → Text
  requested_or none default = default
  requested_or (some []) default = default
  requested_or (some (c ∷ url)) default = c ∷ url

  abbrev pub official : ProviderSpec → Guarded Text → Guarded Text
  official spec (allowed url) = if spec.accepts url then allowed url else not_allowed
  official spec other = other

  -- `requested and requested.rstrip("/") != spec.default_base_url`
  unfoldable pub is_elsewhere : Option Text → Text → Bool
  unfolding drop_slashes
  is_elsewhere none default = false
  is_elsewhere (some []) default = false
  is_elsewhere (some (c ∷ url)) default = not (drop_slashes (c ∷ url) == default)

  unfoldable pub resolve_base_url : ProviderSpec → Option Text → Guarded Text
  unfolding is_elsewhere validate_base_url
  resolve_base_url spec requested = elim spec.base_url_mode [
    | fixed ↦
        if is_elsewhere requested spec.default_base_url
        then not_allowed
        else allowed spec.default_base_url
    | official_choice ↦
        official spec (validate_base_url (requested_or requested spec.default_base_url) false)
    | user_supplied ↦
        if is_empty (requested_or requested spec.default_base_url)
        then not_allowed
        else validate_base_url (requested_or requested spec.default_base_url) (allow_http spec.kind)
  ]

-- The networks that an administrator allows, for deployment accounts and those of administrators,
-- and for those of other users.
pub record Networks : Type 0 where
  pub trusted : List Network
  pub user : List Network

abbrev pub local_or_private : Bool → List Network → AddressPolicy
local_or_private private_only networks =
    if private_only then private_only_policy networks else local_policy networks

-- `node_policy` of backend/app/llm/node_runtime.py
unfoldable pub node_policy : Networks → Bool → AddressPolicy
node_policy networks private_only = local_or_private private_only networks.trusted

-- `_trusted_network_owner`, with the role of the owner.
unfoldable pub trusted_network_owner : (ℕ → Option Text) → Account → Bool
trusted_network_owner role_of account = elim account.owner_user_id [
  | none ↦ true
  | some owner ↦ elim (role_of owner) [ none ↦ false | some role ↦ role == text "admin" ]
]

-- `address_policy`, by the kind of the provider.
unfoldable pub address_policy :
    Networks → (ℕ → Option Text) → ProviderKind → Account → Bool → AddressPolicy
unfolding node_policy trusted_network_owner public_only
address_policy networks role_of kind account private_only =
    if is_public_kind kind
    then (if private_only
        then record { public_ok = false; networks = []; label = text "none" }
        else public_only)
    else if is_node kind
    then node_policy networks private_only
    else local_or_private private_only
        (if trusted_network_owner role_of account then networks.trusted else networks.user)

module _ {X : Type 0} (stack : NetworkStack X) (urls : Urls) where
  open stack use {parse, is_global}
  open urls use {split}

  abbrev pub default_port : UrlParts → ℕ
  default_port parts = if parts.scheme == text "https" then 443 else 80

  -- `parts.port or …`
  abbrev pub port_number : UrlParts → ℕ
  port_number parts = elim parts.port [
    | port_of n ↦ if n == 0 then default_port parts else n
    | _ ↦ default_port parts
  ]

  -- `all(not ip_address(...).is_global for a in addresses)`; `none` where an address does not parse.
  unfoldable pub all_private : List Text → Option Bool
  unfolding before_zone
  all_private [] = some true
  all_private (a ∷ rest) = elim (parse (before_zone a)) [
    | none ↦ none
    | some ip ↦ if is_global ip then some false else all_private rest
  ]

  abbrev pub or_crash : Option Bool → Guarded Bool
  or_crash none = crashed
  or_crash (some b) = allowed b

  abbrev pub private_addresses : Guarded (List Text) → Guarded Bool
  private_addresses (allowed found) = or_crash (all_private found)
  private_addresses not_allowed = not_allowed
  private_addresses unavailable = unavailable
  private_addresses crashed = crashed

  unfoldable pub locality_of : UrlParts → AddressPolicy → X → Guarded Bool × X
  unfolding resolve_checked all_private
  locality_of parts policy x =
      let (found, x') = resolve_checked stack parts.hostname (port_number parts) policy x in
      (private_addresses found, x')

  -- `_locality`
  unfoldable pub locality : ProviderKind → Text → AddressPolicy → X → Guarded Bool × X
  unfolding locality_of
  locality kind url policy x =
      if is_public_kind kind
      then (allowed false, x)
      else elim (split url) [ none ↦ (crashed, x) | some parts ↦ locality_of parts policy x ]
