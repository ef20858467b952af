-- ===== src/Policy/Daemon.antt =====
-- `allow_limited_local_daemon` and `validate_daemon_capabilities` of runtime_policy.py.
pub mod Accepts
mod Tests
use ctf_plugin_docker_per_te.Prelude.{
  String, Bool, true, false, not, ◌&&◌, ◌||◌, ◌==◌, Option, none, some, List, [], ◌∷◌,
  if◌then◌else◌, Dict, get, one_of, all, keep, map,
}
use ctf_plugin_docker_per_te.Text.{lower}
use ctf_plugin_docker_per_te.Result.{Result, ok, err, ◌>>=◌, ◌>>◌, raise_if}
use ctf_plugin_docker_per_te.Policy.Errors.{
  PolicyError, override_not_boolean, override_not_local, missing_controls,
}
use ctf_plugin_docker_per_te.Policy.Identity.{RuntimeIdentity, stripped_value}

-- A value of `docker info`: a truth value, or anything else.
pub data InfoValue : Type 0 where
  flag : Bool → InfoValue
  other : InfoValue

abbrev pub required_daemon_capabilities : Dict String
required_daemon_capabilities =
    ("MemoryLimit", "memory limits")
    ∷ ("SwapLimit", "memory+swap limits")
    ∷ ("CpuCfsPeriod", "CPU period limits")
    ∷ ("CpuCfsQuota", "CPU quota limits")
    ∷ ("PidsLimit", "PID limits")
    ∷ []

abbrev pub local_relaxable_daemon_capabilities : List String
local_relaxable_daemon_capabilities = "MemoryLimit" ∷ "SwapLimit" ∷ []

abbrev override_variable : String
override_variable = "CTF_LOCAL_ALLOW_MISSING_DOCKER_MEMORY_LIMITS"

unfoldable pub allow_limited_local_daemon : Dict String → RuntimeIdentity → Result PolicyError Bool
allow_limited_local_daemon environment identity = do
  let raw_value = lower (stripped_value environment override_variable)
  raise_if (not (one_of raw_value ("" ∷ "false" ∷ "true" ∷ []))) override_not_boolean
  let enabled = raw_value == "true"
  raise_if (enabled && not (identity.target_id == "local")) override_not_local
  ok enabled

-- `info.get(key) is True`
abbrev is_true : Option InfoValue → Bool
is_true (some (flag b)) = b
is_true (some other) = false
is_true none = false

abbrev pub enforces : Dict InfoValue → String → Bool
enforces info key = is_true (get info key)

-- `{key: info.get(key) is True for key in REQUIRED_DAEMON_CAPABILITIES}`
abbrev pub capability_flags : Dict InfoValue → Dict Bool
capability_flags info = map (λ entry. (entry.0, enforces info entry.0)) required_daemon_capabilities

-- The required entries that are not enforced.
abbrev missing_entries : Dict InfoValue → Dict String
missing_entries info = keep (λ entry. not (enforces info entry.0)) required_daemon_capabilities

abbrev is_local : Option RuntimeIdentity → Bool
is_local none = false
is_local (some identity) = identity.target_id == "local"

abbrev is_nil {ℓ} : {A : Type ℓ} → List A → Bool
is_nil [] = true
is_nil (x ∷ xs) = false

-- `missing` is never empty at the raise: no entry that is missing has been left out.
unfoldable pub validate_daemon_capabilities :
    Dict InfoValue → Option RuntimeIdentity → Bool → Result PolicyError (Dict Bool)
validate_daemon_capabilities info identity allow_limited_local =
    let missing = missing_entries info in
    if not (is_nil missing)
      && allow_limited_local
      && is_local identity
      && all (λ entry. one_of entry.0 local_relaxable_daemon_capabilities) missing
    then ok (capability_flags info)
    else if not (is_nil missing)
    then err (missing_controls (map (λ entry. entry.1) missing))
    else ok (capability_flags info)
