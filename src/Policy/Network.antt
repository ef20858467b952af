-- ===== src/Policy/Network.antt =====
-- `validate_challenge_network_attributes` of runtime_policy.py.
pub mod Accepts
pub mod Tests
use ctf_plugin_docker_per_te.Prelude.{
  String, Bool, true, false, not, ◌==◌, Option, none, some, Dict, get,
}
use ctf_plugin_docker_per_te.Text.{lower, or_empty}
use ctf_plugin_docker_per_te.Result.{Result, ok, err, ◌>>=◌, ◌>>◌, raise_if}
use ctf_plugin_docker_per_te.Policy.Errors.{
  PolicyError, wrong_network, not_bridge, internal_network, icc_enabled, no_labels,
  wrong_event_label, wrong_role_label, wrong_egress_label,
}
use ctf_plugin_docker_per_te.Policy.Identity.{RuntimeIdentity}

-- Docker's inspect attributes; `none` is a missing key, or a value of another type.
pub record NetworkAttrs : Type 0 where
  pub name : Option String
  pub driver : Option String
  pub internal : Option Bool
  pub options : Option (Dict String)
  pub labels : Option (Dict String)

-- `found == value`, where None equals no text
abbrev pub equals : Option String → String → Bool
equals none value = false
equals (some found) value = found == value

abbrev is_false : Option Bool → Bool
is_false none = false
is_false (some true) = false
is_false (some false) = true

abbrev icc_key : String
icc_key = "com.docker.network.bridge.enable_icc"

abbrev disables_icc : Option (Dict String) → Bool
disables_icc none = false
disables_icc (some options) = lower (or_empty (get options icc_key)) == "false"

unfoldable pub validate_network_labels :
    Option (Dict String) → RuntimeIdentity → Result PolicyError Unit
validate_network_labels none identity = err no_labels
validate_network_labels (some labels) identity = do
  raise_if (not (equals (get labels "ctfd.event_id") identity.event_id)) wrong_event_label
  raise_if (not (equals (get labels "ctfd.network_role") "challenge")) wrong_role_label
  raise_if (not (equals (get labels "ctfd.egress_policy") identity.egress_policy))
      wrong_egress_label

unfoldable pub validate_challenge_network_attributes :
    NetworkAttrs → RuntimeIdentity → Result PolicyError Unit
validate_challenge_network_attributes attrs identity = do
  raise_if (not (equals attrs.name identity.challenge_network)) wrong_network
  raise_if (not (equals attrs.driver "bridge")) not_bridge
  raise_if (not (is_false attrs.internal)) internal_network
  raise_if (not (disables_icc attrs.options)) icc_enabled
  validate_network_labels attrs.labels identity
