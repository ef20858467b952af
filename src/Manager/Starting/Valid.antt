-- ===== src/Manager/Starting/Valid.antt =====
-- What settings are like that `validate_settings` lets pass.
use ctf_plugin_docker_per_te.Prelude.{
  ℕ, ◌≡◌, refl, String, Bool, true, false, not, ◌==◌, Dict, eq_iff,
}
use ctf_plugin_docker_per_te.Result.{Result, ok, err}
use ctf_plugin_docker_per_te.Policy.Errors.{PolicyError}
use ctf_plugin_docker_per_te.Policy.Identity.{RuntimeIdentity, from_environment}
use ctf_plugin_docker_per_te.Policy.Daemon.{allow_limited_local_daemon}
use ctf_plugin_docker_per_te.Policy.Endpoint.{validate_docker_endpoint}
use ctf_plugin_docker_per_te.Policy.Hardening.{
  Settings, Floats, HardeningProfile, build_hardening_profile, get_start_timeout_seconds,
}
use ctf_plugin_docker_per_te.Manager.{
  ManagerError, network_mismatch, Docker, World, checked, fail_if, continue-eq-ok,
}
use ctf_plugin_docker_per_te.Manager.Starting.{network_setting, endpoint_setting, validate_settings}

module _ {D A : Type 0} where
  checked-eq-ok :
      (r : Result PolicyError A) (w w' : World D) (a : A) → checked r w ≡ (ok a, w') → r ≡ ok a
  checked-eq-ok (ok b) w w' a h = cc h
  checked-eq-ok (err e) w w' a h = cc h

fail_if-eq-ok :
    {D : Type 0} (b : Bool) (e : ManagerError) (w w' : World D) (u : Unit {0})
    → fail_if b e w ≡ (ok u, w')
    → b ≡ false
fail_if-eq-ok true e w w' u h = cc h
fail_if-eq-ok false e w w' u h = refl

-- The settings fit the process: they make a hardening profile and a start timeout, their endpoint is
-- one that the policy accepts, and their network is the one of the process.
pub record IsValid (is_ipv6 : String → Bool) (floats : Floats) (netloc_ok : String → Bool)
    (environment : Dict String) (settings : Settings) : Type 0 where
  pub identity : RuntimeIdentity
  pub profile : HardeningProfile
  pub start : ℕ
  pub endpoint : String
  pub identity_lem : from_environment is_ipv6 environment ≡ ok identity
  pub profile_lem : build_hardening_profile floats settings ≡ ok profile
  pub start_lem : get_start_timeout_seconds settings ≡ ok start
  pub endpoint_lem :
      validate_docker_endpoint netloc_ok (endpoint_setting settings) identity ≡ ok endpoint
  pub network_lem : network_setting settings ≡ identity.challenge_network

negated : (b : Bool) → not b ≡ false → b ≡ true
negated true h = refl
negated false h = cc h

module _ {D : Type 0} (is_ipv6 : String → Bool) (floats : Floats) (netloc_ok : String → Bool)
    (dock : Docker D) (environment : Dict String) where
  -- Settings pass only if they fit the process.
  pub validate_settings-IsValid :
      (settings : Settings) (u : Unit {0}) (w w' : World D)
      → validate_settings is_ipv6 floats netloc_ok dock environment settings w ≡ (ok u, w')
      → IsValid is_ipv6 floats netloc_ok environment settings
  unfolding validate_settings
  validate_settings-IsValid settings u w w' h =
      let (identity, w1, e1, h1) =
        continue-eq-ok (checked (from_environment is_ipv6 environment) w) _ h in
      let (allow, w2, e2, h2) =
        continue-eq-ok (checked (allow_limited_local_daemon environment identity) w1) _ h1 in
      let (profile, w3, e3, h3) =
        continue-eq-ok (checked (build_hardening_profile floats settings) w2) _ h2 in
      let (start, w4, e4, h4) =
        continue-eq-ok (checked (get_start_timeout_seconds settings) w3) _ h3 in
      let (endpoint, w5, e5, h5) =
        continue-eq-ok
          (checked (validate_docker_endpoint netloc_ok (endpoint_setting settings) identity) w4) _
          h4 in
      let (v, w6, e6, h6) =
        continue-eq-ok
          (fail_if (not (network_setting settings == identity.challenge_network)) network_mismatch
            w5)
          _ h5 in
      record {
        identity = identity;
        profile = profile;
        start = start;
        endpoint = endpoint;
        identity_lem = checked-eq-ok _ w w1 identity e1;
        profile_lem = checked-eq-ok _ w2 w3 profile e3;
        start_lem = checked-eq-ok _ w3 w4 start e4;
        endpoint_lem = checked-eq-ok _ w4 w5 endpoint e5;
        network_lem = (eq_iff _ _).0 (negated _ (fail_if-eq-ok _ _ w5 w6 v e6));
      }
