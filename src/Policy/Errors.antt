-- ===== src/Policy/Errors.antt =====
-- The `RuntimePolicyError`s of runtime_policy.py, one constructor for each `raise`, with the values
-- that its message shows.
use ctf_plugin_docker_per_te.Prelude.{String, List}

pub data PolicyError : Type 0 where
  -- _required_value, _validate_identity_component
  required bad_identifier : String → PolicyError
  -- RuntimeIdentity.from_environment
  unknown_target placeholder_release bad_network_name network_not_namespaced : PolicyError
  bad_image_prefix unknown_egress_policy egress_not_enforced : PolicyError
  bind_ip_not_literal bind_ip_not_v4 : PolicyError
  -- allow_limited_local_daemon, validate_daemon_capabilities
  override_not_boolean override_not_local : PolicyError
  missing_controls : List String → PolicyError
  -- account_rate_limit_key
  account_not_integer account_not_positive endpoint_required : PolicyError
  -- validate_challenge_network_attributes
  wrong_network not_bridge internal_network icc_enabled no_labels : PolicyError
  wrong_event_label wrong_role_label wrong_egress_label : PolicyError
  -- validate_image_reference
  image_blank image_quoted image_outside_prefix image_without_digest : PolicyError
  -- validate_docker_endpoint; `bad_url` is the ValueError of `urlsplit`
  endpoint_missing endpoint_not_ssh endpoint_malformed bad_url : PolicyError
  -- _positive_int, _positive_float, build_hardening_profile
  not_an_integer not_a_number not_positive : String → PolicyError
  bad_log_size : PolicyError
