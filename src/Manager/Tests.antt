-- ===== src/Manager/Tests.antt =====
-- Runs of the manager of container_manager.py.
use ctf_plugin_docker_per_te.Prelude.{
  ℕ, ◌+◌, String, ◌≡◌, ◌≢◌, refl, ◌⊎◌, true, none, some, List, [], ◌∷◌, All, one_of, arith,
}
use ctf_plugin_docker_per_te.Result.{Result, ok, err}
use ctf_plugin_docker_per_te.Text.{strip, is_space, upper, lower, rstrip_mark, decimal, split}
use ctf_plugin_docker_per_te.Models.{Challenge}
use ctf_plugin_docker_per_te.Models.Queries.{find_challenge, find_info}
use ctf_plugin_docker_per_te.Flags.Tests.{web_challenge, one_session}
use ctf_plugin_docker_per_te.Records.{cleanup_container_records}
use ctf_plugin_docker_per_te.Policy.Identity.{owns_labels}
use ctf_plugin_docker_per_te.Policy.Hardening.Tests.{whole_floats}
use ctf_plugin_docker_per_te.Manager.{
  Fault, container_exception, cut_off, duplicate_container, failed_health_check, not_owned,
  Container, Docker, Launch, World,
}
use ctf_plugin_docker_per_te.Manager.Containers.{
  get_container_port, get_owned_container, kill_container_steps,
}
use ctf_plugin_docker_per_te.Manager.Containers.Kill.{
  Kills, looked, Forgotten, kill-Kills, kill-forgets,
}
use ctf_plugin_docker_per_te.Manager.Startup.{
  validate_image_contract, judge, wait_loop, wait_until_healthy, generate_random_flag, try_flags,
  generate_unique_random_flag,
}
use ctf_plugin_docker_per_te.Manager.Startup.Health.{SawHealthy, Ticks, wait-SawHealthy, wait-ends}
use ctf_plugin_docker_per_te.Manager.Startup.Fresh.{IsNew, generate-fresh}
use ctf_plugin_docker_per_te.Manager.Options.{
  choose_flag, mounted_volumes, parse_capabilities_value, requested_capabilities,
}
use ctf_plugin_docker_per_te.Manager.Options.Granted.{
  capabilities-allowed, IsHarmless, mappings-IsHarmless,
}
use ctf_plugin_docker_per_te.Manager.Connection.{
  validate_live_runtime_boundary, get_current_container_networks, get_current_container_id,
  run_command,
}
use ctf_plugin_docker_per_te.Flags.{add_flag}
use ctf_plugin_docker_per_te.Policy.Daemon.{validate_daemon_capabilities}
use ctf_plugin_docker_per_te.Policy.Network.{
  validate_challenge_network_attributes, validate_network_labels,
}
use ctf_plugin_docker_per_te.Policy.Image.{validate_image_reference}
use ctf_plugin_docker_per_te.Manager.Launching.{
  Created, launch_of, prepare, record_launch, create_container_steps, create_container,
}
use ctf_plugin_docker_per_te.Manager.Launching.Atomic.{create_container-failed}
use ctf_plugin_docker_per_te.Manager.Launching.Recorded.{Recorded, create-Recorded}
use ctf_plugin_docker_per_te.Manager.Launching.Discarded.{Discarded, steps-Discarded}
use ctf_plugin_docker_per_te.Manager.Listing.{
  list_images, get_running_container_ids_steps, get_running_container_ids, get_images_steps,
  get_images,
}
use ctf_plugin_docker_per_te.Manager.Listing.Images.{IsOffer, get_images-IsOffer}
use ctf_plugin_docker_per_te.Manager.Samples.{
  any_netloc, no_json, red_container, small_docker, red_world, empty_world,
}

kill-Kills_example :
    Kills small_docker "red" red_world (kill_container_steps small_docker "red" red_world).1
kill-Kills_example = kill-Kills small_docker "red" red_world

red_is_killed : (kill_container_steps small_docker "red" red_world).1.killed ≡ "red" ∷ []
unfolding kill_container_steps get_owned_container owns_labels cleanup_container_records find_info
    find_challenge
red_is_killed = refl

-- A daemon whose container belongs to another event.
abbrev foreign_container : Container
foreign_container = record red_container { labels = ("ctfd.event_id", "other") ∷ [] }

abbrev foreign_docker : Docker ℕ
foreign_docker = record small_docker { container = λ container_id d. (ok foreign_container, d + 1) }

foreign_is_refused :
    kill_container_steps foreign_docker "red" red_world
    ≡ (err (container_exception not_owned), looked foreign_docker "red" red_world)
unfolding kill_container_steps get_owned_container owns_labels
foreign_is_refused = refl

kill-forgets_example :
    Forgotten small_docker "red" one_session
      (kill_container_steps small_docker "red" red_world).1.session
unfolding red_is_killed
kill-forgets_example =
    kill-forgets small_docker "red" red_world (kill_container_steps small_docker "red" red_world).1
      refl

wait-SawHealthy_example : SawHealthy small_docker "red" (record red_world { daemon = 5001 })
unfolding wait_until_healthy wait_loop judge lower
wait-SawHealthy_example =
    wait-SawHealthy small_docker "red" red_world (record red_world { daemon = 5001 }) refl

small_ticks : Ticks small_docker
small_ticks = record {
  container-monotonic = λ container_id d. omega arith;
  sleep-monotonic = λ ms d. omega arith;
}

wait-ends_example : (wait_until_healthy small_docker "red" red_world).0 ≢ err cut_off
wait-ends_example = wait-ends small_docker small_ticks "red" red_world

generate-fresh_example :
    (one_session ≡ one_session) × IsNew small_docker web_challenge one_session.view "CTF{dd}"
unfolding generate_unique_random_flag try_flags generate_random_flag
generate-fresh_example =
    generate-fresh small_docker web_challenge red_world (record red_world { daemon = 5002 })
      "CTF{dd}" refl

abbrev net_admin : Challenge
net_admin = record web_challenge { capabilities = some "net_admin, NET_RAW" }

-- Two capabilities, and a setting that allows three.
capabilities-allowed_example :
    (◌≡◌ {A = List String} ("NET_ADMIN" ∷ "NET_RAW" ∷ []) [])
    ⊎ ((names : List String) × (parse_capabilities_value no_json
            (some "NET_RAW,NET_ADMIN,SYS_PTRACE")
          ≡ some names)
        × All (λ c. one_of c names ≡ true) ("NET_ADMIN" ∷ "NET_RAW" ∷ []))
unfolding requested_capabilities parse_capabilities_value strip is_space upper split
capabilities-allowed_example =
    capabilities-allowed no_json
      (("allowed_capabilities", some "NET_RAW,NET_ADMIN,SYS_PTRACE") ∷ []) net_admin
      ("NET_ADMIN" ∷ "NET_RAW" ∷ []) refl

mappings-IsHarmless_example :
    All IsHarmless (some (record { bind = "/srv/data/"; mode = "RO" }) ∷ [])
unfolding lower rstrip_mark
mappings-IsHarmless_example =
    mappings-IsHarmless (some (record { bind = "/srv/data/"; mode = "RO" }) ∷ []) refl

-- The launch of the challenge for team 7.
abbrev launched : Result Fault Created × World ℕ
launched =
    create_container_steps whole_floats any_netloc no_json small_docker web_challenge 7 true
      empty_world

abbrev red_created : Created
red_created = record { container_id = "red"; expires = 1805; port = "32768" }

create-Recorded_example :
    Recorded whole_floats any_netloc no_json small_docker web_challenge 7 true red_created
      launched.1
unfolding create_container_steps prepare record_launch validate_live_runtime_boundary
    get_current_container_networks get_current_container_id validate_daemon_capabilities
    validate_challenge_network_attributes validate_network_labels validate_image_contract
    validate_image_reference choose_flag mounted_volumes requested_capabilities wait_until_healthy
    wait_loop judge lower generate_unique_random_flag try_flags generate_random_flag run_command
    get_container_port get_owned_container owns_labels add_flag strip is_space decimal
create-Recorded_example =
    create-Recorded whole_floats any_netloc no_json small_docker web_challenge 7 true empty_world
      launched.1 red_created refl

-- A daemon whose containers are never healthy.
abbrev sick_docker : Docker ℕ
sick_docker = record small_docker {
  container = λ container_id d. (ok (record red_container { health = "unhealthy" }), d + 1);
}

abbrev prepared : Result Fault Launch × World ℕ
prepared = prepare whole_floats any_netloc no_json sick_docker web_challenge 7 true empty_world

abbrev web_launch : Launch
web_launch =
    launch_of whole_floats any_netloc no_json sick_docker web_challenge 7 true prepared.1.manager
      "cybersea/web:1" "CTF{dd}" none []

abbrev running : World ℕ
running = record prepared.1 { daemon = prepared.1.daemon + 1 }

abbrev sick : World ℕ
sick =
    (record_launch whole_floats any_netloc no_json sick_docker web_challenge 7 true "CTF{dd}" "red"
      running).1

steps-Discarded_example :
    Discarded whole_floats any_netloc no_json sick_docker web_challenge 7 true empty_world
      (record red_container { health = "unhealthy" })
      sick.killed
      (create_container_steps whole_floats any_netloc no_json sick_docker web_challenge 7 true
        empty_world)
unfolding create_container_steps prepare record_launch validate_live_runtime_boundary
    get_current_container_networks get_current_container_id validate_daemon_capabilities
    validate_challenge_network_attributes validate_network_labels validate_image_contract
    validate_image_reference choose_flag mounted_volumes requested_capabilities wait_until_healthy
    wait_loop judge lower generate_unique_random_flag try_flags generate_random_flag strip is_space
    decimal
steps-Discarded_example =
    steps-Discarded whole_floats any_netloc no_json sick_docker web_challenge 7 true web_launch
      "red" (container_exception failed_health_check) empty_world prepared.1 running sick
      (record red_container { health = "unhealthy" }) refl refl refl tt refl refl

-- The daemon hands out an id that has a row already.
abbrev twice : Result Fault Created × World ℕ
twice = create_container whole_floats any_netloc no_json small_docker web_challenge 7 true red_world

create_container-failed_example : twice.1.session.saved ≡ one_session.saved
unfolding create_container create_container_steps prepare record_launch
    validate_live_runtime_boundary get_current_container_networks get_current_container_id
    validate_daemon_capabilities validate_challenge_network_attributes validate_network_labels
    validate_image_contract validate_image_reference choose_flag mounted_volumes
    requested_capabilities wait_until_healthy wait_loop judge lower generate_unique_random_flag
    try_flags generate_random_flag run_command get_container_port get_owned_container owns_labels
    add_flag strip is_space decimal
create_container-failed_example =
    create_container-failed whole_floats any_netloc no_json small_docker web_challenge 7 true
      red_world twice.1 (container_exception duplicate_container) refl

lists_running :
    get_running_container_ids whole_floats any_netloc small_docker red_world
    ≡ (ok ("red" ∷ []), record red_world { daemon = 5002 })
unfolding get_running_container_ids get_running_container_ids_steps run_command
lists_running = refl

-- A tag of another event is left out, and one that two images have stands there once.
get_images-IsOffer_example :
    IsOffer whole_floats any_netloc small_docker
      ("cybersea/old:7" ∷ "cybersea/web:1" ∷ [])
      red_world.manager.identity
unfolding get_images get_images_steps list_images run_command validate_image_reference strip
    is_space
get_images-IsOffer_example =
    get_images-IsOffer whole_floats any_netloc small_docker red_world
      (record red_world { daemon = 5002 }) ("cybersea/old:7" ∷ "cybersea/web:1" ∷ []) refl
