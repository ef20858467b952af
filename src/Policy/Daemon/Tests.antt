-- ===== src/Policy/Daemon/Tests.antt =====
-- Runs of `validate_daemon_capabilities` of runtime_policy.py.
use ctf_plugin_docker_per_te.Prelude.{◌≡◌, ◌≢◌, refl, ◌⊎◌, true, false, some, [], ◌∷◌, Dict}
use ctf_plugin_docker_per_te.Result.{ok, err}
use ctf_plugin_docker_per_te.Text.{lower}
use ctf_plugin_docker_per_te.Policy.Errors
use ctf_plugin_docker_per_te.Policy.Identity.{RuntimeIdentity, stripped_value}
use ctf_plugin_docker_per_te.Policy.Identity.Tests.{local_identity}
use ctf_plugin_docker_per_te.Policy.Daemon.{
  InfoValue, flag, capability_flags, is_local, allow_limited_local_daemon,
  validate_daemon_capabilities,
}
use ctf_plugin_docker_per_te.Policy.Daemon.Accepts.{
  EnforcesProcessLimits, EnforcesMemoryLimits, validate_daemon_capabilities_iff,
}

abbrev staging : RuntimeIdentity
staging = record local_identity { target_id = "staging" }

abbrev full_info : Dict InfoValue
full_info =
    ("MemoryLimit", flag true)
    ∷ ("SwapLimit", flag true)
    ∷ ("CpuCfsPeriod", flag true)
    ∷ ("CpuCfsQuota", flag true)
    ∷ ("PidsLimit", flag true)
    ∷ []

abbrev no_memory_info : Dict InfoValue
no_memory_info =
    ("CpuCfsPeriod", flag true) ∷ ("CpuCfsQuota", flag true) ∷ ("PidsLimit", flag true) ∷ []

memory_is_required :
    validate_daemon_capabilities no_memory_info (some staging) true
    ≡ err (Errors.missing_controls ("memory limits" ∷ "memory+swap limits" ∷ []))
unfolding validate_daemon_capabilities
memory_is_required = refl

validate_daemon_capabilities_iff_example :
    (capability_flags no_memory_info ≡ capability_flags no_memory_info)
    × EnforcesProcessLimits no_memory_info
    × (EnforcesMemoryLimits no_memory_info
        ⊎ ((true ≡ true) × (is_local (some local_identity) ≡ true)))
unfolding validate_daemon_capabilities
validate_daemon_capabilities_iff_example =
    (validate_daemon_capabilities_iff no_memory_info (some local_identity) true
        (capability_flags no_memory_info)).0
      refl

staging_not_local : staging.target_id ≢ "local"
staging_not_local h = cc h

override_is_off : allow_limited_local_daemon [] staging ≡ ok false
unfolding allow_limited_local_daemon stripped_value lower
override_is_off = refl
