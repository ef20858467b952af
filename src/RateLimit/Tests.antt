-- ===== src/RateLimit/Tests.antt =====
-- Counters over a few calls.
use Prim.Native.String.{◌++◌}
use ctf_plugin_docker_per_te.Prelude.{
  ℕ, ◌+◌, ◌*◌, ◌≤◌, ◌≡◌, refl, true, false, none, some, [], ◌∷◌, arith,
}
use ctf_plugin_docker_per_te.Text.{strip, is_space, decimal}
use ctf_plugin_docker_per_te.Requests.Account.{get_current_user_or_team}
use ctf_plugin_docker_per_te.Policy.RateKey.{account_rate_limit_key}
use ctf_plugin_docker_per_te.RateLimit.{
  increment_rate_limit, Request, request_key, passed, account_ratelimit,
}
use ctf_plugin_docker_per_te.RateLimit.Gate.{Gate, account_ratelimit-Gate}
use ctf_plugin_docker_per_te.RateLimit.Window.{counts, admitted, window_after}
use ctf_plugin_docker_per_te.RateLimit.Refinement.{
  Calls, as_counter, times_of, after_calls, answers, answers-counts,
}
use ctf_plugin_docker_per_te.RateLimit.Bounds.{admitted-le, reopens}
use ctf_plugin_docker_per_te.RateLimit.Fallback.{locked_out}
use ctf_plugin_docker_per_te.RateLimit.Samples.{tables, tables-IsRedis, tables-IsCache, no_counters}

-- Two accounts call in turn, and one of them once more when its minute is over.
abbrev some_calls : Calls
some_calls = ("a", 1000) ∷ ("b", 2000) ∷ ("a", 3000) ∷ ("a", 61500) ∷ []

answers-counts_example :
    (answers (tables true) 60 "a" some_calls no_counters
      ≡ counts 60000 (1000 ∷ 3000 ∷ 61500 ∷ []) none)
    × (after_calls (tables true) 60 some_calls no_counters ("ctfd:" ++ "a")
        ≡ as_counter (window_after 60000 (1000 ∷ 3000 ∷ 61500 ∷ []) none))
unfolding times_of
answers-counts_example =
    answers-counts (tables true) 60 (tables-IsRedis true) refl "a" some_calls no_counters none tt
      refl

the_counts : counts 60000 (1000 ∷ 3000 ∷ 61500 ∷ []) none ≡ 1 ∷ 2 ∷ 1 ∷ []
unfolding counts
the_counts = refl

abbrev period : Calls
period = ("a", 70000) ∷ ("b", 70001) ∷ ("a", 80000) ∷ ("a", 129999) ∷ []

admitted-le_example :
    admitted 2
      (answers (tables true) 60 "a" period (after_calls (tables true) 60 some_calls no_counters))
    ≤ 2 * 2
unfolding times_of
admitted-le_example =
    admitted-le (tables true) 60 (tables-IsRedis true) refl "a" some_calls no_counters refl 2 70000
      period (omega arith)

reopens_example :
    (increment_rate_limit (tables true) "a" 60 190000 (
      after_calls
        (tables true)
        60
        (("a", 131000) ∷ ("a", 132000) ∷ [])
        (increment_rate_limit
          (tables true)
          "a"
          60
          130000
          (after_calls (tables true) 60 [] no_counters)).1)).0
    ≡ 1
unfolding times_of increment_rate_limit after_calls
reopens_example =
    reopens (tables true) 60 (tables-IsRedis true) refl "a" [] no_counters refl 130000 190000
      (("a", 131000) ∷ ("a", 132000) ∷ []) refl (omega arith) (omega arith)

-- A call every 50 seconds.
locked_out_example :
    admitted 2 (
      answers
        (tables false)
        60
        "a"
        (("a", 0) ∷ ("a", 50000) ∷ ("b", 60000) ∷ ("a", 100000) ∷ ("a", 150000) ∷ [])
        no_counters)
    ≤ 2
unfolding times_of
locked_out_example =
    locked_out (tables false) 60 (tables-IsCache false) refl "a" 2 0
      (("a", 50000) ∷ ("b", 60000) ∷ ("a", 100000) ∷ ("a", 150000) ∷ []) no_counters refl
      (omega arith)

abbrev team_request : Request
team_request = record {
  method = "POST";
  endpoint = some "container_user.route_renew_container";
  user = some (record { id = 3; team_id = some 7 });
  is_team = true;
  now = 1000;
}

account_ratelimit-Gate_example :
    Gate
      (tables true)
      (λ w. (w + 1, w))
      "POST"
      6
      60
      team_request
      no_counters
      41
      (account_ratelimit (tables true) (λ w. (w + 1, w)) "POST" 6 60 team_request (no_counters, 41))
account_ratelimit-Gate_example =
    account_ratelimit-Gate (tables true) (λ w. (w + 1, w)) "POST" 6 60 team_request no_counters 41

first_call_passes :
    (account_ratelimit
      (tables true)
      (λ (w : ℕ). (w + 1, w))
      "POST"
      6
      60
      team_request
      (no_counters, 41)).0
    ≡ passed 42
unfolding account_ratelimit request_key get_current_user_or_team account_rate_limit_key strip
    is_space decimal increment_rate_limit
first_call_passes = refl
