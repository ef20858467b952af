-- ===== src/Policy/Hardening/Profile.antt =====
-- Which settings make a hardening profile, and what every profile enforces.
use Prim.Native.String.{◌++◌}
use ctf_plugin_docker_per_te.Prelude.{
  ℕ, ◌<◌, String, ◌≡◌, refl, ap, ◌↔◌, Bool, true, false, not, ◌&&◌, Option, none, some, [], ◌∷◌,
  get, arith, Bool-cases, inl, inr,
}
use ctf_plugin_docker_per_te.Text.{decimal}
use ctf_plugin_docker_per_te.Text.Numbers.{ℤ, pos, negsuc, int}
use ctf_plugin_docker_per_te.Regex.{fullmatch, codes}
use ctf_plugin_docker_per_te.Regex.Language.{Matches, fullmatch_iff}
use ctf_plugin_docker_per_te.Result.{ok, raise_if-passes, bind-eq-ok, ok_injective}
use ctf_plugin_docker_per_te.Policy.Hardening.{
  Settings, Floats, HardeningProfile, positive_int, positive_int_of, positive_float_of,
  positive_value, positive_number, positive_float, build_hardening_profile, log_size_pattern,
  log_max_size_of, tmpfs_options,
}

both : (a b : Bool) → (a && b) ≡ true → (a ≡ true) × (b ≡ true)
both a b h = ground arith

negated : (b : Bool) → not b ≡ false → b ≡ true
negated b h = ground arith

-- What a setting holds: the default where the key is missing, nothing where it cannot be read.
abbrev pub setting_value {ℓ} :
    {A : Type ℓ} → (String → Option A) → A → Option (Option String) → Option A
setting_value parse default none = some default
setting_value parse default (some none) = none
setting_value parse default (some (some text)) = parse text

positive_value_iff :
    (key : String) (z : Option ℤ) (n : ℕ)
    → (positive_value key z ≡ ok n) ↔ ((z ≡ some (pos n)) × (0 < n))
positive_value_iff key none n = ((λ h. cc h), λ (e, _). cc e)
positive_value_iff key (some (pos m)) n = ((λ h. ground arith), λ (e, h). ground arith)
positive_value_iff key (some (negsuc m)) n = ((λ h. cc h), λ (e, _). cc e)

positive_int_of_iff :
    (key : String) (default n : ℕ)
    → 0 < default
    → (found : Option (Option String))
    → (positive_int_of key default found ≡ ok n)
      ↔ ((setting_value int (pos default) found ≡ some (pos n)) × (0 < n))
positive_int_of_iff key default n d none = positive_value_iff key (some (pos default)) n
positive_int_of_iff key default n d (some none) = positive_value_iff key none n
positive_int_of_iff key default n d (some (some text)) = positive_value_iff key (int text) n

-- `_positive_int` with a positive default returns exactly the positive number that is set.
pub positive_int_iff :
    (settings : Settings) (key : String) (default n : ℕ)
    → 0 < default
    → (positive_int settings key default ≡ ok n)
      ↔ ((setting_value int (pos default) (get settings key) ≡ some (pos n)) × (0 < n))
unfolding positive_int
positive_int_iff settings key default n d = positive_int_of_iff key default n d (get settings key)

module _ (floats : Floats) where
  open floats use {Float, float, is_finite, exceeds_zero, times_100000, one}

  -- The settings hold these values, and this is the profile that they make.
  pub record IsProfile (settings : Settings) (profile : HardeningProfile) : Type 0 where
    pub memory_mb : ℕ
    pub cpu_limit : Float
    pub tmpfs_size_mb : ℕ
    pub log_max_files : ℕ
    pub memory_set :
        setting_value int (pos 1024) (get settings "container_maxmemory") ≡ some (pos memory_mb)
    pub memory_positive : 0 < memory_mb
    pub cpu_set : setting_value float one (get settings "container_maxcpu") ≡ some cpu_limit
    pub cpu_finite : is_finite cpu_limit ≡ true
    pub cpu_positive : exceeds_zero cpu_limit ≡ true
    pub pids_set :
        setting_value int (pos 512) (get settings "container_pids_limit")
        ≡ some (pos profile.pids_limit)
    pub pids_positive : 0 < profile.pids_limit
    pub tmpfs_set :
        setting_value int (pos 256) (get settings "container_tmpfs_size_mb")
        ≡ some (pos tmpfs_size_mb)
    pub tmpfs_positive : 0 < tmpfs_size_mb
    pub files_set :
        setting_value int (pos 3) (get settings "container_log_max_files")
        ≡ some (pos log_max_files)
    pub files_positive : 0 < log_max_files
    pub log_size : Matches log_size_pattern (codes profile.log_config.max_size)
    pub log_size_set : profile.log_config.max_size ≡ log_max_size_of settings
    pub no_capabilities : profile.cap_drop ≡ "ALL" ∷ []
    pub no_new_privileges : profile.security_opt ≡ "no-new-privileges:true" ∷ []
    pub read_only : profile.read_only ≡ true
    pub init : profile.init ≡ true
    pub memory : profile.mem_limit ≡ decimal memory_mb ++ "m"
    pub no_swap : profile.memswap_limit ≡ profile.mem_limit
    pub temporary : profile.tmpfs ≡ ("/tmp", tmpfs_options tmpfs_size_mb) ∷ []
    pub period : profile.cpu_period ≡ 100000
    pub quota : profile.cpu_quota ≡ times_100000 cpu_limit
    pub log_type : profile.log_config.type_name ≡ "json-file"
    pub log_files : profile.log_config.max_file ≡ decimal log_max_files

  positive_number_iff :
      (key : String) (x : Option Float) (y : Float)
      → (positive_number floats key x ≡ ok y)
        ↔ ((x ≡ some y) × (is_finite y ≡ true) × (exceeds_zero y ≡ true))
  positive_number_iff key none y = ((λ h. cc h), λ (e, _, _). cc e)
  positive_number_iff key (some x) y = (
    λ h. elim (Bool-cases (is_finite x && exceeds_zero x)) [
      | inl fits ↦
          let same : x ≡ y = cc (rw fits at h) in
          (ap some same, rw (← same) (both _ _ fits).0, rw (← same) (both _ _ fits).1)
      | inr unfit ↦ cc (rw unfit at h)
    ],
    λ (e, finite, positive). let same : x ≡ y = cc e in rw (same, finite, positive) refl,
  )

  positive_float_iff :
      (settings : Settings) (key : String) (default y : Float)
      → (positive_float floats settings key default ≡ ok y) ↔ (
          (setting_value float default (get settings key) ≡ some y)
          × (is_finite y ≡ true)
          × (exceeds_zero y ≡ true))
  unfolding positive_float
  positive_float_iff settings key default y = at (get settings key)
    where
      at :
          (found : Option (Option String))
          → (positive_float_of floats key default found ≡ ok y) ↔ (
              (setting_value float default found ≡ some y)
              × (is_finite y ≡ true)
              × (exceeds_zero y ≡ true))
      at none = positive_number_iff key (some default) y
      at (some none) = positive_number_iff key none y
      at (some (some text)) = positive_number_iff key (float text) y

  -- Every profile that is built drops all capabilities, forbids new privileges, keeps the root file
  -- system read-only with a bounded `/tmp`, and takes its process, memory, CPU and log limits from
  -- settings that are positive, or from the defaults.
  pub build_hardening_profile-IsProfile :
      (settings : Settings) (profile : HardeningProfile)
      → build_hardening_profile floats settings ≡ ok profile
      → IsProfile settings profile
  unfolding build_hardening_profile
  build_hardening_profile-IsProfile settings profile h0 =
      let (memory_mb, e1, h1) = bind-eq-ok _ _ h0 in
      let (cpu_limit, e2, h2) = bind-eq-ok _ _ h1 in
      let (pids_limit, e3, h3) = bind-eq-ok _ _ h2 in
      let (tmpfs_size_mb, e4, h4) = bind-eq-ok _ _ h3 in
      let (log_max_files, e5, h5) = bind-eq-ok _ _ h4 in
      let (log_size, h6) =
        raise_if-passes (not (fullmatch log_size_pattern (log_max_size_of settings))) _ _ h5 in
      let memory =
        (positive_int_iff settings "container_maxmemory" 1024 memory_mb (omega arith)).0 e1 in
      let cpu = (positive_float_iff settings "container_maxcpu" one cpu_limit).0 e2 in
      let pids =
        (positive_int_iff settings "container_pids_limit" 512 pids_limit (omega arith)).0 e3 in
      let tmpfs =
        (positive_int_iff settings "container_tmpfs_size_mb" 256 tmpfs_size_mb (omega arith)).0
          e4 in
      let files =
        (positive_int_iff settings "container_log_max_files" 3 log_max_files (omega arith)).0 e5 in
      let same = ok_injective h6 in
      rw (← same) (record {
        memory_mb = memory_mb;
        cpu_limit = cpu_limit;
        tmpfs_size_mb = tmpfs_size_mb;
        log_max_files = log_max_files;
        memory_set = memory.0;
        memory_positive = memory.1;
        cpu_set = cpu.0;
        cpu_finite = cpu.1;
        cpu_positive = cpu.2;
        pids_set = pids.0;
        pids_positive = pids.1;
        tmpfs_set = tmpfs.0;
        tmpfs_positive = tmpfs.1;
        files_set = files.0;
        files_positive = files.1;
        log_size = (fullmatch_iff _ _).0 (negated _ log_size);
        log_size_set = refl;
        no_capabilities = refl;
        no_new_privileges = refl;
        read_only = refl;
        init = refl;
        memory = refl;
        no_swap = refl;
        temporary = refl;
        period = refl;
        quota = refl;
        log_type = refl;
        log_files = refl;
      })
