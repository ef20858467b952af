-- ===== src/Requests/Tests.antt =====
-- A run of `create_container` of helpers.py, with a manager that always launches.
use ctf_plugin_docker_per_te.Prelude.{ℕ, ◌≡◌, ◌≢◌, refl, true, none, some, [], ◌∷◌}
use ctf_plugin_docker_per_te.Result.{err}
use ctf_plugin_docker_per_te.Text.{strip, is_space, lower}
use ctf_plugin_docker_per_te.Models.Queries.{find_challenge}
use ctf_plugin_docker_per_te.Records.{solve_exists_for_account}
use ctf_plugin_docker_per_te.Manager.{return}
use ctf_plugin_docker_per_te.Manager.Containers.{acquired, busy}
use ctf_plugin_docker_per_te.Manager.Samples.{empty_world}
use ctf_plugin_docker_per_te.Requests.{
  Runtime, prune, prune_stale_account_containers, create_container,
}
use ctf_plugin_docker_per_te.Requests.Endpoint.{Payload, build_connection_payload}
use ctf_plugin_docker_per_te.Requests.Account.{
  get_current_user_or_team, validate_request, not_in_team, missing_field,
}
use ctf_plugin_docker_per_te.Requests.Capacity.{Admissible, refreshed, created-Admitted}

abbrev pub eager_runtime : Runtime ℕ
eager_runtime = record {
  is_container_running = λ container_id. return true;
  create_container = λ challenge xid is_team.
      return (record { container_id = "red"; expires = 1805; port = "32768" });
  kill_container = λ container_id. return tt;
  time = λ d. d;
}

abbrev pub web_payload : Payload
web_payload = record {
  hostname = "ctf.example";
  port = "32768";
  connect = "web";
  expires = 1805;
  endpoint = "http://ctf.example:32768";
}

created-Admitted_example :
    (acquired ≢ busy)
    × Admissible eager_runtime
        (some "ctf.example:8000")
        7
        true
        1
        web_payload
        (refreshed eager_runtime (some "ctf.example:8000") 7 true empty_world)
unfolding create_container find_challenge solve_exists_for_account prune_stale_account_containers
    prune build_connection_payload strip is_space lower
created-Admitted_example =
    created-Admitted eager_runtime (some "ctf.example:8000") 7 true acquired 1 web_payload
      empty_world empty_world refl

rejects_requests :
    (get_current_user_or_team true (some (record { id = 1; team_id = none })) ≡ err not_in_team)
    × (validate_request (some []) ("chal_id" ∷ []) ≡ err (missing_field "chal_id"))
unfolding get_current_user_or_team validate_request
rejects_requests = (refl, refl)
