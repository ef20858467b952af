-- ===== src/Policy/Identity.antt =====
-- `RuntimeIdentity` of runtime_policy.py: who owns the containers of this process.
pub mod Allowed
pub mod Environment
pub mod Ownership
pub mod Tests
use ctf_plugin_docker_per_te.Prelude.{
  String, Bool, true, false, not, ◌&&◌, ◌==◌, Option, none, some, List, [], ◌∷◌, Dict, get, one_of,
}
use ctf_plugin_docker_per_te.Text.{strip, lower, starts_with, is_empty}
use ctf_plugin_docker_per_te.Regex.{fullmatch}
use ctf_plugin_docker_per_te.Result.{Result, ok, err, ◌>>=◌, ◌>>◌, raise_if}
use ctf_plugin_docker_per_te.Policy.Forms.{
  identity_pattern, network_pattern, event_network_prefix, is_ipv4, is_bad_prefix,
}
use ctf_plugin_docker_per_te.Policy.Errors.{
  PolicyError, required, bad_identifier, unknown_target, placeholder_release, bad_network_name,
  network_not_namespaced, bad_image_prefix, unknown_egress_policy, egress_not_enforced,
  bind_ip_not_literal, bind_ip_not_v4,
}

abbrev pub target_ids : List String
target_ids = "local" ∷ "staging" ∷ "production" ∷ []

abbrev pub non_release_ids : List String
non_release_ids = "development" ∷ "dev" ∷ "latest" ∷ "local" ∷ "unreleased" ∷ []

abbrev pub egress_policies : List String
egress_policies = "not-enforced" ∷ "worker-firewall-default-deny" ∷ []

abbrev pub egress_enforced_target_ids : List String
egress_enforced_target_ids = "staging" ∷ "production" ∷ []

pub record RuntimeIdentity : Type 0 where
  pub event_id : String
  pub release_id : String
  pub target_id : String
  pub challenge_network : String
  pub image_prefix : String
  pub egress_policy : String
  pub challenge_bind_ip : String

-- `str(environment.get(name, "") or "").strip()`
unfoldable pub stripped_value : Dict String → String → String
stripped_value environment name = elim (get environment name) [ none ↦ "" | some s ↦ strip s ]

-- `_required_value`
unfoldable pub required_value : Dict String → String → Result PolicyError String
required_value environment name = do
  let value = stripped_value environment name
  raise_if (is_empty value) (required name)
  ok value

-- `_validate_identity_component`
unfoldable pub validate_identity_component : String → String → Result PolicyError Unit
validate_identity_component value field =
    raise_if (not (fullmatch identity_pattern value)) (bad_identifier field)

-- The dict `values`: every variable is there before any is judged.
unfoldable pub required_values : Dict String → Result PolicyError RuntimeIdentity
unfolding required_value
required_values environment = do
  event_id ← required_value environment "CTF_EVENT_ID"
  release_id ← required_value environment "CTF_RELEASE_ID"
  target_id ← required_value environment "CTF_TARGET_ID"
  challenge_network ← required_value environment "CTF_CHALLENGE_NETWORK"
  image_prefix ← required_value environment "CTF_IMAGE_PREFIX"
  egress_policy ← required_value environment "CTF_EGRESS_POLICY"
  challenge_bind_ip ← required_value environment "CTF_CHALLENGE_BIND_IP"
  ok (record {
    event_id = event_id;
    release_id = release_id;
    target_id = target_id;
    challenge_network = challenge_network;
    image_prefix = image_prefix;
    egress_policy = egress_policy;
    challenge_bind_ip = challenge_bind_ip;
  })

-- `is_ipv6` says which texts `ipaddress.ip_address` takes for IPv6 literals.
module _ (is_ipv6 : String → Bool) where
  -- The checks of `from_environment`. The text of an IPv4 address is the text that was parsed.
  unfoldable pub validate_values : RuntimeIdentity → Result PolicyError RuntimeIdentity
  validate_values v = do
    validate_identity_component v.event_id "CTF_EVENT_ID"
    validate_identity_component v.release_id "CTF_RELEASE_ID"
    validate_identity_component v.target_id "CTF_TARGET_ID"
    raise_if (not (one_of v.target_id target_ids)) unknown_target
    raise_if (v.target_id == "production" && one_of v.release_id non_release_ids)
        placeholder_release
    raise_if (not (fullmatch network_pattern v.challenge_network)) bad_network_name
    raise_if (not (starts_with (lower v.challenge_network) (event_network_prefix v.event_id)))
        network_not_namespaced
    raise_if (is_bad_prefix v.image_prefix) bad_image_prefix
    raise_if (not (one_of v.egress_policy egress_policies)) unknown_egress_policy
    raise_if
        (one_of v.target_id egress_enforced_target_ids
          && not (v.egress_policy == "worker-firewall-default-deny"))
        egress_not_enforced
    raise_if (not (is_ipv4 v.challenge_bind_ip) && not (is_ipv6 v.challenge_bind_ip))
        bind_ip_not_literal
    raise_if (not (is_ipv4 v.challenge_bind_ip)) bind_ip_not_v4
    ok v

  unfoldable pub from_environment : Dict String → Result PolicyError RuntimeIdentity
  from_environment environment = do v ← required_values environment; validate_values v

-- `RuntimeIdentity.labels`
unfoldable pub labels : RuntimeIdentity → Dict String
labels self =
    ("ctfd.event_id", self.event_id)
    ∷ ("ctfd.release_id", self.release_id)
    ∷ ("ctfd.target_id", self.target_id)
    ∷ ("ctfd.egress_policy", self.egress_policy)
    ∷ ("ctfd.challenge_bind_ip", self.challenge_bind_ip)
    ∷ []

-- `labels.get(key) == value`
abbrev pub has_label : Dict String → String → String → Bool
has_label given key value = elim (get given key) [ none ↦ false | some v ↦ v == value ]

-- `RuntimeIdentity.owns_labels`; an empty dict and None are no labels.
unfoldable pub owns_labels : RuntimeIdentity → Dict String → Bool
owns_labels self given =
    has_label given "ctfd.event_id" self.event_id && has_label given "ctfd.target_id" self.target_id
