-- ===== src/Admin/Accepted.antt =====
-- admin_routes.py: the settings of the form, as the runtime policy reads them.
use ctf_plugin_docker_per_te.Prelude.{
  ℕ, ◌<◌, ◌*◌, ◌≡◌, refl, sym, ap, ◌∙◌, subst, String, Bool, true, false, not, some, [], ◌∷◌, ◌++◌,
  All, Dict, get, one_of, lt→ltb,
}
use ctf_plugin_docker_per_te.Text.{strip}
use ctf_plugin_docker_per_te.Text.Laws.{strip_idem}
use ctf_plugin_docker_per_te.Text.Numbers.{pos, int}
use ctf_plugin_docker_per_te.Regex.{fullmatch}
use ctf_plugin_docker_per_te.Result.{
  Result, ok, err, bind-eq-ok, ok_injective, raise_if, raise_if_passes,
}
use ctf_plugin_docker_per_te.Policy.Hardening.{
  Settings, Floats, HardeningProfile, log_size_pattern, log_max_size_of, positive_float,
  build_hardening_profile, get_start_timeout_seconds,
}
use ctf_plugin_docker_per_te.Manager.Connection.{get_expiration_seconds}
use ctf_plugin_docker_per_te.ChallengeType.{Value}
use ctf_plugin_docker_per_te.Admin.{
  timeout_too_small, capacity_too_small, bad_log_size, bad_volumes_switch, default_text,
  less_than_one, submitted_text, base_fields, advanced_fields, required_settings, integer_settings,
  payload_of, field_text, each_field, check_required, check_integer, check_cpu,
  normalize_settings_payload, submitted_size_pattern,
}
use ctf_plugin_docker_per_te.Admin.LogSize.{fullmatch-lower}
use ctf_plugin_docker_per_te.Admin.Positive.{ReadsPositive, each_field-All, reads_positive}

negated : (b : Bool) → not b ≡ false → b ≡ true
negated true h = refl
negated false h = cc h

abbrev returns : {E A : Type 0} → Result E A → Bool
returns (ok a) = true
returns (err e) = false

returned : {E A : Type 0} (r : Result E A) → returns r ≡ true → (a : A) × (r ≡ ok a)
returned (ok a) h = (a, refl)
returned (err e) h = cc h

module _ (floats : Floats) where
  open floats use {Float, one}

  -- What is known of an accepted payload: it is made of the form, the numbers are positive, and the
  -- log size has the form that the pattern asks for.
  pub record Parts (form : Dict Value) (defaults payload : Settings) : Type 0 where
    pub same : payload_of form defaults (base_fields ++ advanced_fields) ≡ payload
    required : All (λ field. check_required payload field ≡ ok tt) required_settings
    whole : All (λ field. check_integer payload field ≡ ok tt) integer_settings
    size : fullmatch submitted_size_pattern (field_text payload "container_log_max_size") ≡ true

  pub parts :
      (form : Dict Value) (defaults payload : Settings)
      → normalize_settings_payload floats form defaults ≡ ok payload
      → Parts form defaults payload
  unfolding normalize_settings_payload
  parts form defaults payload h =
      let made = payload_of form defaults (base_fields ++ advanced_fields) in
      let (u1, required, h1) =
        bind-eq-ok (each_field (check_required made) required_settings) _ h in
      let (u2, whole, h2) = bind-eq-ok (each_field (check_integer made) integer_settings) _ h1 in
      let (u3, timeout, h3) =
        bind-eq-ok (raise_if (less_than_one made "docker_api_timeout") timeout_too_small) _ h2 in
      let (u4, capacity, h4) =
        bind-eq-ok (raise_if (less_than_one made "max_containers") capacity_too_small) _ h3 in
      let (u5, cpu, h5) = bind-eq-ok (check_cpu floats (field_text made "container_maxcpu")) _ h4 in
      let (u6, size, h6) =
        bind-eq-ok
          (raise_if
            (not (fullmatch submitted_size_pattern (field_text made "container_log_max_size")))
            bad_log_size)
          _ h5 in
      let (u7, switch, h7) =
        bind-eq-ok
          (raise_if
            (not (one_of (field_text made "allow_challenge_volumes") ("disabled" ∷ "enabled" ∷ [])))
            bad_volumes_switch)
          _ h6 in
      let same : made ≡ payload = ok_injective h7 in
      subst (Parts form defaults) same (record {
        same = refl;
        required = each_field-All (check_required made) required_settings required;
        whole = each_field-All (check_integer made) integer_settings whole;
        size = negated _ (raise_if_passes _ _ size);
      })

  -- The text of a field that the payload holds.
  abbrev value_of : Dict Value → Settings → String → String
  value_of form defaults key =
      strip (submitted_text (get form key) (default_text (get defaults key)))

  module _ (form : Dict Value) (defaults payload : Settings) (p : Parts form defaults payload) where
    positive_fields : All (ReadsPositive payload) integer_settings
    positive_fields =
        let at = λ (key : String). ap (λ (q : Settings). get q key) (sym p.same) in
        let (
          r_url,
          (
            r_timeout,
            (
              r_network,
              (
                r_expiration,
                (
                  r_memory,
                  (r_cpu, (r_pids, (r_tmpfs, (r_size, (r_files, (r_start, (r_max, _))))))),
                ),
              ),
            ),
          ),
        ) =
          p.required in
        let (
          w_expiration,
          (w_memory, (w_pids, (w_tmpfs, (w_files, (w_start, (w_max, (w_timeout, _))))))),
        ) =
          p.whole in
        let v = value_of form defaults in
        (
          reads_positive payload "container_expiration" (v "container_expiration")
              (at "container_expiration") r_expiration w_expiration,
          (
            reads_positive payload "container_maxmemory" (v "container_maxmemory")
                (at "container_maxmemory") r_memory w_memory,
            (
              reads_positive payload "container_pids_limit" (v "container_pids_limit")
                  (at "container_pids_limit") r_pids w_pids,
              (
                reads_positive payload "container_tmpfs_size_mb" (v "container_tmpfs_size_mb")
                    (at "container_tmpfs_size_mb") r_tmpfs w_tmpfs,
                (
                  reads_positive payload "container_log_max_files" (v "container_log_max_files")
                      (at "container_log_max_files") r_files w_files,
                  (
                    reads_positive payload "container_start_timeout_seconds"
                        (v "container_start_timeout_seconds") (at "container_start_timeout_seconds")
                        r_start w_start,
                    (
                      reads_positive payload "max_containers" (v "max_containers")
                          (at "max_containers") r_max w_max,
                      (
                        reads_positive payload "docker_api_timeout" (v "docker_api_timeout")
                            (at "docker_api_timeout") r_timeout w_timeout,
                        tt,
                      ),
                    ),
                  ),
                ),
              ),
            ),
          ),
        )

    good_size : fullmatch log_size_pattern (log_max_size_of payload) ≡ true
    unfolding log_max_size_of
    good_size =
        let key : String = "container_log_max_size" in
        let v = value_of form defaults key in
        let e : get payload key ≡ some (some v) = ap (λ (q : Settings). get q key) (sym p.same) in
        let plain : strip v ≡ v =
          strip_idem (submitted_text (get form key) (default_text (get defaults key))) in
        let fits = fullmatch-lower v (
          subst (λ found. fullmatch submitted_size_pattern (default_text found) ≡ true) e p.size) in
        rw (e, log_max_size_of, plain) fits

  profile_from :
      (payload : Settings) (x : Float)
      → ReadsPositive payload "container_maxmemory"
      → positive_float floats payload "container_maxcpu" one ≡ ok x
      → ReadsPositive payload "container_pids_limit"
      → ReadsPositive payload "container_tmpfs_size_mb"
      → ReadsPositive payload "container_log_max_files"
      → fullmatch log_size_pattern (log_max_size_of payload) ≡ true
      → (profile : HardeningProfile) × (build_hardening_profile floats payload ≡ ok profile)
  unfolding build_hardening_profile
  profile_from payload x memory cpu pids tmpfs files size =
      returned (build_hardening_profile floats payload)
        (rw (memory.3 1024, cpu, pids.3 512, tmpfs.3 256, files.3 3, size) refl)

  expiration_from :
      (payload : Settings) (n : ℕ)
      → (value : String) → get payload "container_expiration" ≡ some (some value)
      → int value ≡ some (pos n)
      → 0 < n
      → get_expiration_seconds payload ≡ ok (n * 60)
  unfolding get_expiration_seconds
  expiration_from payload n value e whole positive = rw (e, whole, lt→ltb 0 n positive) refl

  -- Settings that the form accepts, and whose CPU limit the runtime policy accepts, make a hardening
  -- profile, a start timeout and an expiry; every whole number among them is positive. The form
  -- itself promises no finite CPU limit.
  pub policy-accepts :
      (form : Dict Value) (defaults payload : Settings) (x : Float)
      → normalize_settings_payload floats form defaults ≡ ok payload
      → positive_float floats payload "container_maxcpu" one ≡ ok x
      → All (ReadsPositive payload) integer_settings
        × ((profile : HardeningProfile) × (build_hardening_profile floats payload ≡ ok profile))
        × ((t : ℕ) × (0 < t) × (get_start_timeout_seconds payload ≡ ok t))
        × ((n : ℕ) × (0 < n) × (get_expiration_seconds payload ≡ ok (n * 60)))
  unfolding get_start_timeout_seconds
  policy-accepts form defaults payload x h cpu =
      let p = parts form defaults payload h in
      let (expiration, (memory, (pids, (tmpfs, (files, (start, rest)))))) =
        positive_fields form defaults payload p in
      let key : String = "container_expiration" in
      let e : get payload key ≡ some (some (value_of form defaults key)) =
        ap (λ (q : Settings). get q key) (sym p.same) in
      (
        (expiration, (memory, (pids, (tmpfs, (files, (start, rest)))))),
        profile_from payload x memory cpu pids tmpfs files (good_size form defaults payload p),
        (start.0, start.1, start.3 60),
        (
          expiration.0,
          expiration.1,
          expiration_from payload expiration.0 (value_of form defaults key) e
              (ap (λ found. int (default_text found)) (sym e) ∙ expiration.2) expiration.1,
        ),
      )
