-- ===== src/Policy/Daemon/Accepts.antt =====
-- Which Docker daemons `validate_daemon_capabilities` accepts.
use ctf_plugin_docker_per_te.Prelude.{
  String, ◌≡◌, ◌≢◌, refl, ◌↔◌, ◌⊎◌, inl, inr, Bool, true, false, not, ◌&&◌, ◌==◌, eq_iff, Option,
  some, [], ◌∷◌, one_of, Dict, arith,
}
use ctf_plugin_docker_per_te.Text.{lower}
use ctf_plugin_docker_per_te.Result.{ok, raise_if-passes}
use ctf_plugin_docker_per_te.Policy.Errors.{override_not_boolean, override_not_local}
use ctf_plugin_docker_per_te.Policy.Identity.{RuntimeIdentity, stripped_value}
use ctf_plugin_docker_per_te.Policy.Daemon.{
  InfoValue, override_variable, enforces, capability_flags, is_local, validate_daemon_capabilities,
  allow_limited_local_daemon,
}

-- The controls that no target may do without, and the two that a local target may be allowed to.
abbrev pub EnforcesProcessLimits : Dict InfoValue → Type 0
EnforcesProcessLimits info =
    (enforces info "CpuCfsPeriod" ≡ true)
    × (enforces info "CpuCfsQuota" ≡ true)
    × (enforces info "PidsLimit" ≡ true)

abbrev pub EnforcesMemoryLimits : Dict InfoValue → Type 0
EnforcesMemoryLimits info =
    (enforces info "MemoryLimit" ≡ true) × (enforces info "SwapLimit" ≡ true)

module _ (info : Dict InfoValue) (identity : Option RuntimeIdentity) (allow : Bool) where
  daemon_sound :
      (flags : Dict Bool)
      → validate_daemon_capabilities info identity allow ≡ ok flags
      → (flags ≡ capability_flags info)
        × EnforcesProcessLimits info
        × (EnforcesMemoryLimits info ⊎ ((allow ≡ true) × (is_local identity ≡ true)))
  unfolding validate_daemon_capabilities
  daemon_sound flags h = ground arith

  daemon_complete :
      EnforcesProcessLimits info
      → EnforcesMemoryLimits info ⊎ ((allow ≡ true) × (is_local identity ≡ true))
      → validate_daemon_capabilities info identity allow ≡ ok (capability_flags info)
  unfolding validate_daemon_capabilities
  daemon_complete (period, quota, pids) (inl (memory, swap)) =
      rw (period, quota, pids, memory, swap) refl
  daemon_complete (period, quota, pids) (inr (allowed, local)) =
      rw (period, quota, pids, allowed, local) (ground arith)

-- The daemon passes exactly if it enforces the CPU and process limits, and the memory limits too
-- unless the override is on and the target is local; the answer lists what it enforces.
pub validate_daemon_capabilities_iff :
    (info : Dict InfoValue) (identity : Option RuntimeIdentity) (allow : Bool) (flags : Dict Bool)
    → (validate_daemon_capabilities info identity allow ≡ ok flags) ↔ (
        (flags ≡ capability_flags info)
        × EnforcesProcessLimits info
        × (EnforcesMemoryLimits info ⊎ ((allow ≡ true) × (is_local identity ≡ true))))
validate_daemon_capabilities_iff info identity allow flags = (
  daemon_sound info identity allow flags,
  λ (e, process, memory). rw e (daemon_complete info identity allow process memory),
)

local_if_on : (on local : Bool) → on ≡ true → (on && not local) ≡ false → local ≡ true
local_if_on on local h k = ground arith

allow_limited-local :
    (environment : Dict String) (identity : RuntimeIdentity)
    → allow_limited_local_daemon environment identity ≡ ok true
    → identity.target_id ≡ "local"
unfolding allow_limited_local_daemon
allow_limited-local environment identity h0 =
    let raw_value = lower (stripped_value environment override_variable) in
    let (_, h1) =
      raise_if-passes (not (one_of raw_value ("" ∷ "false" ∷ "true" ∷ []))) override_not_boolean _
        h0 in
    let (off, h2) =
      raise_if-passes (raw_value == "true" && not (identity.target_id == "local"))
        override_not_local _ h1 in
    let on : (raw_value == "true") ≡ true = cc h2 in (eq_iff _ _).0 (local_if_on _ _ on off)

-- Whatever the environment, a target other than `local` never runs on a daemon that lacks one of
-- the five controls: the override cannot be turned on for it.
pub remote_daemon_enforces_all :
    (environment : Dict String) (identity : RuntimeIdentity) (info : Dict InfoValue) (allow : Bool)
    (flags : Dict Bool)
    → identity.target_id ≢ "local"
    → allow_limited_local_daemon environment identity ≡ ok allow
    → validate_daemon_capabilities info (some identity) allow ≡ ok flags
    → EnforcesProcessLimits info × EnforcesMemoryLimits info
remote_daemon_enforces_all environment identity info allow flags remote parsed h =
    let (_, process, memory) = daemon_sound info (some identity) allow flags h in
    elim memory [
      | inl enforced ↦ (process, enforced)
      | inr (on, local) ↦
          absurd (remote (allow_limited-local environment identity (rw on at parsed)))
    ]
