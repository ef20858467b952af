-- ===== src/Policy/Hardening.antt =====
-- `_positive_int`, `_positive_float`, `build_hardening_profile`, `get_start_timeout_seconds` and
-- `public_runtime_fingerprint` of runtime_policy.py.
pub mod Profile
pub mod Tests
use Prim.Native.String.{◌++◌}
use ctf_plugin_docker_per_te.Prelude.{
  ℕ, String, Bool, true, false, not, ◌&&◌, ◌||◌, leb, nat_eq, Option, none, some, List, [], ◌∷◌,
  Dict, get, if◌then◌else◌,
}
use ctf_plugin_docker_per_te.Text.{strip, lower, or_empty, decimal}
use ctf_plugin_docker_per_te.Text.Numbers.{ℤ, int, is_positive, to_ℕ}
use ctf_plugin_docker_per_te.Regex.{Regex, chars, seq, star, fullmatch}
use ctf_plugin_docker_per_te.Result.{Result, ok, err, ◌>>=◌, ◌>>◌, raise_if}
use ctf_plugin_docker_per_te.Policy.Errors.{
  PolicyError, not_an_integer, not_a_number, not_positive, bad_log_size,
}
use ctf_plugin_docker_per_te.Policy.Identity.{RuntimeIdentity}

-- The settings, as rows of the database give them: a value may be NULL.
abbrev pub Settings : Type 0
Settings = Dict (Option String)

-- What the plugin uses of Python's floats: `float(text)`, `math.isfinite`, `x > 0` and `x <= 0`,
-- `int(x * 100000)` at a positive one, and the literal `1.0`.
pub record Floats : Type 1 where
  pub Float : Type 0
  pub float : String → Option Float
  pub is_finite : Float → Bool
  pub exceeds_zero : Float → Bool
  pub at_most_zero : Float → Bool
  pub times_100000 : Float → ℕ
  pub one : Float

-- `[1-9][0-9]*[kmg]`
abbrev pub is_digit_code : ℕ → Bool
is_digit_code n = leb b'0' n && leb n b'9'

abbrev pub log_size_pattern : Regex
log_size_pattern = seq (chars (λ n. leb b'1' n && leb n b'9')) (
    seq (star (chars is_digit_code)) (chars (λ n. nat_eq n b'k' || nat_eq n b'm' || nat_eq n b'g')))

abbrev parsed {ℓ} : {A : Type ℓ} → (String → Option A) → Option String → Option A
parsed parse none = none
parsed parse (some text) = parse text

abbrev positive_value : String → Option ℤ → Result PolicyError ℕ
positive_value key none = err (not_an_integer key)
positive_value key (some n) = if is_positive n then ok (to_ℕ n) else err (not_positive key)

-- `_positive_int`, from what the lookup found
abbrev positive_int_of : String → ℕ → Option (Option String) → Result PolicyError ℕ
positive_int_of key default none = positive_value key (some (ℤ.pos default))
positive_int_of key default (some raw) = positive_value key (parsed int raw)

unfoldable pub positive_int : Settings → String → ℕ → Result PolicyError ℕ
positive_int settings key default = positive_int_of key default (get settings key)

-- `config` of Docker's logging dictionary
pub record LogConfig : Type 0 where
  pub type_name : String
  pub max_size : String
  pub max_file : String

-- The keyword arguments that every challenge container receives.
pub record HardeningProfile : Type 0 where
  pub cap_drop : List String
  pub security_opt : List String
  pub read_only : Bool
  pub tmpfs : Dict String
  pub pids_limit : ℕ
  pub mem_limit : String
  pub memswap_limit : String
  pub cpu_period : ℕ
  pub cpu_quota : ℕ
  pub init : Bool
  pub log_config : LogConfig

unfoldable pub log_max_size_of : Settings → String
log_max_size_of settings = elim (get settings "container_log_max_size") [
  | none ↦ "10m"
  | some value ↦ lower (strip (or_empty value))
]

abbrev pub tmpfs_options : ℕ → String
tmpfs_options size_mb = "rw,noexec,nosuid,nodev,size=" ++ (decimal size_mb ++ "m,mode=1777")

module _ (floats : Floats) where
  open floats use {Float, float, is_finite, exceeds_zero, times_100000, one}

  abbrev positive_number : String → Option Float → Result PolicyError Float
  positive_number key none = err (not_a_number key)
  positive_number key (some x) =
      if is_finite x && exceeds_zero x then ok x else err (not_positive key)

  -- `_positive_float`, from what the lookup found
  abbrev positive_float_of : String → Float → Option (Option String) → Result PolicyError Float
  positive_float_of key default none = positive_number key (some default)
  positive_float_of key default (some raw) = positive_number key (parsed float raw)

  unfoldable pub positive_float : Settings → String → Float → Result PolicyError Float
  positive_float settings key default = positive_float_of key default (get settings key)

  unfoldable pub build_hardening_profile : Settings → Result PolicyError HardeningProfile
  build_hardening_profile settings = do
    memory_mb ← positive_int settings "container_maxmemory" 1024
    cpu_limit ← positive_float settings "container_maxcpu" one
    pids_limit ← positive_int settings "container_pids_limit" 512
    tmpfs_size_mb ← positive_int settings "container_tmpfs_size_mb" 256
    log_max_files ← positive_int settings "container_log_max_files" 3
    let log_max_size = log_max_size_of settings
    raise_if (not (fullmatch log_size_pattern log_max_size)) bad_log_size
    ok (record {
      cap_drop = "ALL" ∷ [];
      security_opt = "no-new-privileges:true" ∷ [];
      read_only = true;
      tmpfs = ("/tmp", tmpfs_options tmpfs_size_mb) ∷ [];
      pids_limit = pids_limit;
      mem_limit = decimal memory_mb ++ "m";
      memswap_limit = decimal memory_mb ++ "m";
      cpu_period = 100000;
      cpu_quota = times_100000 cpu_limit;
      init = true;
      log_config = record {
        type_name = "json-file";
        max_size = log_max_size;
        max_file = decimal log_max_files;
      };
    })

unfoldable pub get_start_timeout_seconds : Settings → Result PolicyError ℕ
get_start_timeout_seconds settings = positive_int settings "container_start_timeout_seconds" 60

-- What `public_runtime_fingerprint` tells of the policy.
pub record PublicPolicy : Type 0 where
  pub read_only : Bool
  pub cap_drop : List String
  pub security_opt : List String
  pub max_containers : ℕ
  pub pids_limit : ℕ
  pub memory_limit : String
  pub cpu_quota : ℕ
  pub cpu_period : ℕ
  pub tmpfs : Dict String
  pub init : Bool
  pub log_config : LogConfig

-- The fields of the identity, and the policy.
pub record Fingerprint : Type 0 where
  pub identity : RuntimeIdentity
  pub policy : PublicPolicy

unfoldable pub public_runtime_fingerprint :
    Floats → RuntimeIdentity → Settings → Result PolicyError Fingerprint
public_runtime_fingerprint floats identity settings = do
  profile ← build_hardening_profile floats settings
  max_containers ← positive_int settings "max_containers" 3
  ok (record {
    identity = identity;
    policy = record {
      read_only = profile.read_only;
      cap_drop = profile.cap_drop;
      security_opt = profile.security_opt;
      max_containers = max_containers;
      pids_limit = profile.pids_limit;
      memory_limit = profile.mem_limit;
      cpu_quota = profile.cpu_quota;
      cpu_period = profile.cpu_period;
      tmpfs = profile.tmpfs;
      init = profile.init;
      log_config = profile.log_config;
    };
  })
