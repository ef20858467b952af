-- ===== src/Policy/Identity/Tests.antt =====
-- Runs of `from_environment`, after the program's own tests.
use ctf_plugin_docker_per_te.Prelude.{String, ◌≡◌, refl, ◌↔◌, Bool, true, false, [], ◌∷◌, Dict, put}
use ctf_plugin_docker_per_te.Regex.{fullmatch}
use ctf_plugin_docker_per_te.Text.{strip, is_space, lower}
use ctf_plugin_docker_per_te.Result.{ok, err}
use ctf_plugin_docker_per_te.Policy.Errors
use ctf_plugin_docker_per_te.Policy.Forms.{event_network_prefix, is_ipv4, is_bad_prefix}
use ctf_plugin_docker_per_te.Policy.Identity.Allowed.{IsFrom, IsAllowed}
use ctf_plugin_docker_per_te.Policy.Identity.Environment.{from_environment_iff}
use ctf_plugin_docker_per_te.Policy.Identity.Ownership.{owns_labels-labels_iff}
use ctf_plugin_docker_per_te.Policy.Identity.{
  RuntimeIdentity, from_environment, validate_values, required_values, stripped_value,
  validate_identity_component, owns_labels, labels,
}

abbrev pub no_ipv6 : String → Bool
no_ipv6 s = false

abbrev pub local_environment : Dict String
local_environment =
    ("CTF_EVENT_ID", "cybersea26")
    ∷ ("CTF_RELEASE_ID", "development")
    ∷ ("CTF_TARGET_ID", "local")
    ∷ ("CTF_CHALLENGE_NETWORK", "cybersea26_challenge_net")
    ∷ ("CTF_IMAGE_PREFIX", "cybersea/")
    ∷ ("CTF_EGRESS_POLICY", "not-enforced")
    ∷ ("CTF_CHALLENGE_BIND_IP", "127.0.0.1")
    ∷ []

abbrev pub local_identity : RuntimeIdentity
local_identity = record {
  event_id = "cybersea26";
  release_id = "development";
  target_id = "local";
  challenge_network = "cybersea26_challenge_net";
  image_prefix = "cybersea/";
  egress_policy = "not-enforced";
  challenge_bind_ip = "127.0.0.1";
}

pub from_environment-local : from_environment no_ipv6 local_environment ≡ ok local_identity
unfolding from_environment validate_values required_values stripped_value strip is_space
    validate_identity_component fullmatch lower event_network_prefix is_ipv4 is_bad_prefix
from_environment-local = refl

from_environment_rejects :
    (from_environment no_ipv6 (put local_environment "CTF_TARGET_ID" "production")
      ≡ err Errors.placeholder_release)
    × (from_environment no_ipv6 (put local_environment "CTF_CHALLENGE_NETWORK" "csctf26_net")
        ≡ err Errors.network_not_namespaced)
    × (from_environment no_ipv6 (put local_environment "CTF_CHALLENGE_BIND_IP" "0.0.0.0/0")
        ≡ err Errors.bind_ip_not_literal)
    × (from_environment no_ipv6 (put local_environment "CTF_EVENT_ID" " ")
        ≡ err (Errors.required "CTF_EVENT_ID"))
unfolding from_environment-local
from_environment_rejects = (refl, refl, refl, refl)

from_environment_iff_example : IsFrom local_environment local_identity × IsAllowed local_identity
from_environment_iff_example =
    (from_environment_iff no_ipv6 local_environment local_identity).0 from_environment-local

-- The same event on another target.
abbrev staging_identity : RuntimeIdentity
staging_identity = record local_identity { target_id = "staging" }

owns_labels-labels_iff_example : (owns_labels staging_identity (labels local_identity) ≡ true) ↔ (
    (local_identity.event_id ≡ staging_identity.event_id)
    × (local_identity.target_id ≡ staging_identity.target_id))
owns_labels-labels_iff_example = owns_labels-labels_iff staging_identity local_identity
