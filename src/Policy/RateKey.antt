-- ===== src/Policy/RateKey.antt =====
-- `account_rate_limit_key` of runtime_policy.py.
pub mod Injective
mod Tests
use Prim.Native.String
use Prim.Native.String.{◌++◌}
use ctf_plugin_docker_per_te.Prelude.{
  String, Bool, true, false, not, Option, none, some, if◌then◌else◌,
}
use ctf_plugin_docker_per_te.Text.{strip, is_empty, or_empty, decimal}
use ctf_plugin_docker_per_te.Text.Numbers.{ℤ, is_positive, to_ℕ}
use ctf_plugin_docker_per_te.Result.{Result, ok, err, ◌>>=◌, ◌>>◌, raise_if}
use ctf_plugin_docker_per_te.Policy.Errors.{
  PolicyError, account_not_integer, account_not_positive, endpoint_required,
}

abbrev pub default_key_prefix : String
default_key_prefix = "docker-per-team:rate-v2"

abbrev pub scope : Bool → String
scope is_team = if is_team then "team" else "user"

abbrev join : String → String → String
join front rest = front ++ String.◌∷◌ ":" rest

-- `int(scope_id)`, where `none` is a value that `int` refuses
abbrev integer_or : Option ℤ → PolicyError → Result PolicyError ℤ
integer_or none e = err e
integer_or (some n) e = ok n

abbrev or_default : String → String → String
or_default default value = if is_empty value then default else value

unfoldable pub account_rate_limit_key :
    Option ℤ → Bool → Option String → Option String → Result PolicyError String
account_rate_limit_key scope_id is_team endpoint key_prefix = do
  normalized_scope_id ← integer_or scope_id account_not_integer
  raise_if (not (is_positive normalized_scope_id)) account_not_positive
  let normalized_endpoint = strip (or_empty endpoint)
  raise_if (is_empty normalized_endpoint) endpoint_required
  ok (
      join (strip (or_default default_key_prefix (or_empty key_prefix)))
        (join (scope is_team) (join (decimal (to_ℕ normalized_scope_id)) normalized_endpoint)))
