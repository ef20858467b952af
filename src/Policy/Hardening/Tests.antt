-- ===== src/Policy/Hardening/Tests.antt =====
-- A run of `build_hardening_profile` of runtime_policy.py, with numbers in place of floats.
use ctf_plugin_docker_per_te.Prelude.{
  ℕ, ◌*◌, ◌≡◌, refl, true, leb, ltb, Option, none, some, [], ◌∷◌,
}
use ctf_plugin_docker_per_te.Regex.{fullmatch}
use ctf_plugin_docker_per_te.Result.{ok, err}
use ctf_plugin_docker_per_te.Text.{strip, is_space, decimal}
use ctf_plugin_docker_per_te.Text.Numbers.{ℤ, pos, negsuc, int}
use ctf_plugin_docker_per_te.Policy.Errors.{not_positive}
use ctf_plugin_docker_per_te.Policy.Hardening.{
  Settings, Floats, HardeningProfile, positive_int, positive_float, log_max_size_of,
  build_hardening_profile,
}
use ctf_plugin_docker_per_te.Policy.Hardening.Profile.{IsProfile, build_hardening_profile-IsProfile}

-- Whole numbers in place of floats: "2.5" is no number here.
abbrev whole : Option ℤ → Option ℕ
whole none = none
whole (some (pos n)) = some n
whole (some (negsuc n)) = some 0

abbrev pub whole_floats : Floats
whole_floats = record {
  Float = ℕ;
  float = λ s. whole (int s);
  is_finite = λ x. true;
  exceeds_zero = λ x. ltb 0 x;
  at_most_zero = λ x. leb x 0;
  times_100000 = λ x. x * 100000;
  one = 1;
}

abbrev pub default_profile : HardeningProfile
default_profile = record {
  cap_drop = "ALL" ∷ [];
  security_opt = "no-new-privileges:true" ∷ [];
  read_only = true;
  tmpfs = ("/tmp", "rw,noexec,nosuid,nodev,size=256m,mode=1777") ∷ [];
  pids_limit = 512;
  mem_limit = "1024m";
  memswap_limit = "1024m";
  cpu_period = 100000;
  cpu_quota = 200000;
  init = true;
  log_config = record { type_name = "json-file"; max_size = "10m"; max_file = "3" };
}

abbrev two_cpus : Settings
two_cpus = ("container_maxcpu", some "2") ∷ []

builds_default : build_hardening_profile whole_floats two_cpus ≡ ok default_profile
unfolding build_hardening_profile positive_int positive_float log_max_size_of fullmatch decimal int
    strip is_space
builds_default = refl

zero_is_rejected :
    positive_int (("container_pids_limit", some "0") ∷ []) "container_pids_limit" 512
    ≡ err (not_positive "container_pids_limit")
unfolding positive_int int strip is_space
zero_is_rejected = refl

build_hardening_profile-IsProfile_example : IsProfile whole_floats two_cpus default_profile
build_hardening_profile-IsProfile_example =
    build_hardening_profile-IsProfile whole_floats two_cpus default_profile builds_default
