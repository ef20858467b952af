-- ===== src/Admin/Tests.antt =====
-- Runs of the settings form of admin_routes.py, and of the page of reused flags.
use ctf_plugin_docker_per_te.Prelude.{ℕ, ◌<◌, ◌*◌, ◌≡◌, refl, some, [], ◌∷◌, All, Dict, put}
use ctf_plugin_docker_per_te.Regex.{fullmatch}
use ctf_plugin_docker_per_te.Text.{strip, is_space, decimal}
use ctf_plugin_docker_per_te.Text.Numbers.{ℤ, int}
use ctf_plugin_docker_per_te.Result.{ok, err}
use ctf_plugin_docker_per_te.Policy.Identity.Tests.{no_ipv6, local_environment}
use ctf_plugin_docker_per_te.Policy.Hardening.{
  Settings, HardeningProfile, positive_float, build_hardening_profile, get_start_timeout_seconds,
}
use ctf_plugin_docker_per_te.Policy.Hardening.Tests.{whole_floats}
use ctf_plugin_docker_per_te.Manager.Connection.{get_expiration_seconds}
use ctf_plugin_docker_per_te.Manager.Samples.{any_netloc, small_docker, empty_world}
use ctf_plugin_docker_per_te.ChallengeType.{Value, text, number}
use ctf_plugin_docker_per_te.Admin.{
  must_be_positive, bad_log_size, integer_settings, normalize_settings_payload,
}
use ctf_plugin_docker_per_te.Admin.Positive.{ReadsPositive}
use ctf_plugin_docker_per_te.Admin.Accepted.{policy-accepts}
use ctf_plugin_docker_per_te.Admin.Routes.{route_update_settings, flag_fingerprint}
use ctf_plugin_docker_per_te.Admin.Routes.Saved.{Outcome, update-Outcome}

abbrev stored_defaults : Settings
stored_defaults =
    ("docker_base_url", some "unix:///var/run/docker.sock")
    ∷ ("docker_hostname", some "")
    ∷ ("docker_api_timeout", some "15")
    ∷ ("challenge_network", some "cybersea26_challenge_net")
    ∷ ("container_expiration", some "30")
    ∷ ("container_maxmemory", some "1024")
    ∷ ("container_maxcpu", some "2")
    ∷ ("container_pids_limit", some "512")
    ∷ ("container_tmpfs_size_mb", some "256")
    ∷ ("container_log_max_size", some "10m")
    ∷ ("container_log_max_files", some "3")
    ∷ ("container_start_timeout_seconds", some "60")
    ∷ ("max_containers", some "3")
    ∷ ("allow_challenge_volumes", some "disabled")
    ∷ ("allowed_capabilities", some "")
    ∷ []

-- The admin asks for less time and for bigger logs.
abbrev small_form : Dict Value
small_form =
    ("container_expiration", number (ℤ.pos 15)) ∷ ("container_log_max_size", text " 20M ") ∷ []

abbrev changed : Settings
changed =
    put (put stored_defaults "container_expiration" (some "15")) "container_log_max_size"
      (some "20M")

accepts_form : normalize_settings_payload whole_floats small_form stored_defaults ≡ ok changed
unfolding normalize_settings_payload fullmatch int strip is_space decimal
accepts_form = refl

reads_cpu : positive_float whole_floats changed "container_maxcpu" 1 ≡ ok 2
unfolding positive_float int strip is_space
reads_cpu = refl

refuses_zero :
    normalize_settings_payload whole_floats (("max_containers", text "0") ∷ []) stored_defaults
    ≡ err (must_be_positive "max_containers")
unfolding normalize_settings_payload strip is_space int
refuses_zero = refl

refuses_plain_size :
    normalize_settings_payload whole_floats
      (("container_log_max_size", text "20") ∷ [])
      stored_defaults
    ≡ err bad_log_size
unfolding normalize_settings_payload strip is_space int fullmatch
refuses_plain_size = refl

hides_flags : flag_fingerprint (λ s. "5f") "CTF{secret}" ≡ "sha256:5f"
unfolding flag_fingerprint
hides_flags = refl

policy-accepts_example :
    All (ReadsPositive changed) integer_settings
    × ((profile : HardeningProfile) × (build_hardening_profile whole_floats changed ≡ ok profile))
    × ((t : ℕ) × (0 < t) × (get_start_timeout_seconds changed ≡ ok t))
    × ((n : ℕ) × (0 < n) × (get_expiration_seconds changed ≡ ok (n * 60)))
policy-accepts_example =
    policy-accepts whole_floats small_form stored_defaults changed 2 accepts_form reads_cpu

update-Outcome_example :
    Outcome no_ipv6 whole_floats any_netloc small_docker local_environment small_form
      stored_defaults empty_world
      (route_update_settings no_ipv6 whole_floats any_netloc small_docker local_environment
        small_form stored_defaults empty_world)
update-Outcome_example =
    update-Outcome no_ipv6 whole_floats any_netloc small_docker local_environment small_form
      stored_defaults empty_world
