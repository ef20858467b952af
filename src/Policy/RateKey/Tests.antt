-- ===== src/Policy/RateKey/Tests.antt =====
-- A run of `account_rate_limit_key` of runtime_policy.py.
use ctf_plugin_docker_per_te.Prelude.{◌≡◌, refl, true, Option, none, some}
use ctf_plugin_docker_per_te.Result.{err}
use ctf_plugin_docker_per_te.Text.{strip, is_space, decimal}
use ctf_plugin_docker_per_te.Text.Numbers.{ℤ, pos}
use ctf_plugin_docker_per_te.Policy.Errors
use ctf_plugin_docker_per_te.Policy.RateKey.{account_rate_limit_key}
use ctf_plugin_docker_per_te.Policy.RateKey.Injective.{account_rate_limit_key_injective}

zero_is_rejected :
    account_rate_limit_key (some (pos 0)) true (some "x") none ≡ err Errors.account_not_positive
unfolding account_rate_limit_key
zero_is_rejected = refl

account_rate_limit_key_injective_example :
    (◌≡◌ {A = Option ℤ} (some (pos 7)) (some (pos 7)))
    × (true ≡ true)
    × (strip " containers.renew" ≡ strip "containers.renew")
unfolding account_rate_limit_key strip is_space decimal
account_rate_limit_key_injective_example =
    account_rate_limit_key_injective (some (pos 7)) (some (pos 7)) true true
      (some " containers.renew") (some "containers.renew") none
      "docker-per-team:rate-v2:team:7:containers.renew" refl refl
