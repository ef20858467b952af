-- ===== src/UserRoutes/Tests.antt =====
-- Runs of the routes, with a manager that always launches and counters in a table.
use ctf_plugin_docker_per_te.Prelude.{ℕ, ◌≤◌, ◌≡◌, ◌≢◌, refl, String, Option, true, some, [], ◌∷◌}
use ctf_plugin_docker_per_te.Result.{ok}
use ctf_plugin_docker_per_te.Text.{strip, is_space, lower, decimal}
use ctf_plugin_docker_per_te.Models.{ContainerInfo, account_owner}
use ctf_plugin_docker_per_te.Models.Queries.{find_challenge, find_info, find_account_info}
use ctf_plugin_docker_per_te.Records.{solve_exists_for_account}
use ctf_plugin_docker_per_te.Policy.RateKey.{account_rate_limit_key}
use ctf_plugin_docker_per_te.Manager.Containers.{acquired, busy}
use ctf_plugin_docker_per_te.Manager.Samples.{empty_world, red_world}
use ctf_plugin_docker_per_te.Requests.{
  prune, prune_stale_account_containers, create_container, kill_container, killed,
}
use ctf_plugin_docker_per_te.Requests.Endpoint.{build_connection_payload}
use ctf_plugin_docker_per_te.Requests.Account.{get_current_user_or_team, validate_request}
use ctf_plugin_docker_per_te.Requests.Capacity.{Admissible, refreshed}
use ctf_plugin_docker_per_te.Requests.Tests.{eager_runtime, web_payload}
use ctf_plugin_docker_per_te.RateLimit.{request_key, increment_rate_limit, account_ratelimit}
use ctf_plugin_docker_per_te.RateLimit.Gate.{Counts}
use ctf_plugin_docker_per_te.RateLimit.Samples.{tables, no_counters, stored}
use ctf_plugin_docker_per_te.RateLimit.Samples
use ctf_plugin_docker_per_te.UserRoutes.{Post, route_request_container, route_stop_container}
use ctf_plugin_docker_per_te.UserRoutes.Limits.{created_within_limit, stops_own_container}

abbrev team_post : Post
team_post = record {
  request = record {
    method = "POST";
    endpoint = some "container_user.route_request_container";
    user = some (record { id = 3; team_id = some 7 });
    is_team = true;
    now = 1000;
  };
  request_host = some "ctf.example:8000";
  body = some (("chal_id", some "1") ∷ []);
}

-- The only challenge id of these runs.
abbrev first_challenge : Option String → ℕ
first_challenge text = 1

abbrev one_counter : Samples.Table
one_counter =
    (increment_rate_limit (tables true)
      "docker-per-team:rate-v2:team:7:container_user.route_request_container" 60 1000 no_counters).1

created_within_limit_example :
    ((key : String) × (current : ℕ) × Counts
        (tables true)
        "POST"
        60
        team_post.request
        no_counters
        key
        current
        one_counter
      × (current ≤ 6))
    × ((xid : ℕ) × (get_current_user_or_team true team_post.request.user ≡ ok xid)
        × (acquired ≢ busy)
        × Admissible eager_runtime
            (some "ctf.example:8000")
            xid
            true
            1
            web_payload
            (refreshed eager_runtime (some "ctf.example:8000") xid true empty_world))
unfolding route_request_container account_ratelimit request_key get_current_user_or_team
    validate_request account_rate_limit_key increment_rate_limit create_container find_challenge
    solve_exists_for_account prune_stale_account_containers prune build_connection_payload strip
    is_space lower decimal
created_within_limit_example =
    created_within_limit (tables true) eager_runtime first_challenge acquired team_post web_payload
      no_counters one_counter empty_world empty_world refl refl

stops_own_container_example :
    ((key : String) × (current : ℕ) × Counts
        (tables true)
        "POST"
        60
        team_post.request
        no_counters
        key
        current
        one_counter
      × (current ≤ 10))
    × ((xid : ℕ) × (get_current_user_or_team true team_post.request.user ≡ ok xid)
        × ((info : ContainerInfo) × (find_account_info red_world.session.view 1
                (account_owner true xid)
              ≡ some info)
            × (info.challenge_id ≡ 1)
            × (info.owner ≡ account_owner true xid)
            × (kill_container eager_runtime info.container_id red_world ≡ (ok killed, red_world))))
unfolding route_stop_container account_ratelimit request_key get_current_user_or_team
    validate_request account_rate_limit_key increment_rate_limit kill_container find_account_info
    find_info strip is_space decimal
stops_own_container_example =
    stops_own_container (tables true) eager_runtime first_challenge team_post no_counters
      one_counter red_world red_world refl refl
