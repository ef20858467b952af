-- ===== src/Policy/Network/Tests.antt =====
-- A run of `validate_challenge_network_attributes` of runtime_policy.py.
use ctf_plugin_docker_per_te.Prelude.{◌≡◌, refl, false, some, [], ◌∷◌}
use ctf_plugin_docker_per_te.Result.{err}
use ctf_plugin_docker_per_te.Text.{lower}
use ctf_plugin_docker_per_te.Policy.Errors
use ctf_plugin_docker_per_te.Policy.Identity.Tests.{local_identity}
use ctf_plugin_docker_per_te.Policy.Network.{
  NetworkAttrs, validate_network_labels, validate_challenge_network_attributes,
}
use ctf_plugin_docker_per_te.Policy.Network.Accepts.{IsEventNetwork, validate_challenge_network_iff}

abbrev pub event_network : NetworkAttrs
event_network = record {
  name = some "cybersea26_challenge_net";
  driver = some "bridge";
  internal = some false;
  options = some (("com.docker.network.bridge.enable_icc", "False") ∷ []);
  labels = some (
      ("ctfd.event_id", "cybersea26")
      ∷ ("ctfd.network_role", "challenge")
      ∷ ("ctfd.egress_policy", "not-enforced")
      ∷ []);
}

icc_is_rejected :
    validate_challenge_network_attributes
      (record event_network { options = some [] })
      local_identity
    ≡ err Errors.icc_enabled
unfolding validate_challenge_network_attributes lower
icc_is_rejected = refl

validate_challenge_network_iff_example : IsEventNetwork event_network local_identity
unfolding validate_challenge_network_attributes validate_network_labels lower
validate_challenge_network_iff_example =
    (validate_challenge_network_iff event_network local_identity).0 refl
