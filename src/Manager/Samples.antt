-- ===== src/Manager/Samples.antt =====
-- A small Docker daemon, whose state is the time in milliseconds, and a manager that uses it.
use ctf_plugin_docker_per_te.Prelude.{
  ℕ, ◌+◌, String, Bool, true, false, none, some, List, [], ◌∷◌, Dict,
}
use ctf_plugin_docker_per_te.Result.{ok}
use ctf_plugin_docker_per_te.Models.{Db, Session}
use ctf_plugin_docker_per_te.Flags.Tests.{one_session}
use ctf_plugin_docker_per_te.Policy.Identity.Tests.{local_identity}
use ctf_plugin_docker_per_te.Policy.Daemon.{InfoValue, flag}
use ctf_plugin_docker_per_te.Policy.Network.Tests.{event_network}
use ctf_plugin_docker_per_te.Policy.Hardening.Tests.{default_profile}
use ctf_plugin_docker_per_te.Manager.{Container, Image, ListedImage, Docker, Manager, World}
use ctf_plugin_docker_per_te.Manager.Options.{Json, not_json}

abbrev pub any_netloc : String → Bool
any_netloc s = true

abbrev pub no_json : Json
no_json = record { volumes = λ text. not_json; texts = λ text. none }

abbrev pub red_container : Container
red_container = record {
  id = "red";
  status = "running";
  health = "healthy";
  labels = ("ctfd.event_id", "cybersea26") ∷ ("ctfd.target_id", "local") ∷ [];
  networks = "cybersea26_challenge_net" ∷ [];
  host_ports = none ∷ some ("32768" ∷ []) ∷ [];
}

abbrev full_info : Dict InfoValue
full_info =
    ("MemoryLimit", flag true)
    ∷ ("SwapLimit", flag true)
    ∷ ("CpuCfsPeriod", flag true)
    ∷ ("CpuCfsQuota", flag true)
    ∷ ("PidsLimit", flag true)
    ∷ []

abbrev web_image : Image
web_image = record {
  configured_user = some "app:app";
  health_test = "CMD" ∷ "true" ∷ [];
  exposed_ports = "8080/tcp" ∷ [];
}

abbrev pub web_listed : ListedImage
web_listed = record { tags = some ("cybersea/web:1" ∷ "other/web:1" ∷ []); repo_digests = none }

abbrev pub old_listed : ListedImage
old_listed = record {
  tags = some ("cybersea/old:7" ∷ "cybersea/web:1" ∷ []);
  repo_digests = some [];
}

abbrev pub listed_images : List ListedImage
listed_images = web_listed ∷ old_listed ∷ []

-- Every call takes a millisecond.
abbrev pub small_docker : Docker ℕ
small_docker = record {
  hostnames = "ctfd" ∷ [];
  connect = λ url timeout d. (ok tt, d + 1);
  ping = λ d. (ok true, d + 1);
  info = λ d. (ok full_info, d + 1);
  network = λ name d. (ok event_network, d + 1);
  container = λ container_id d. (ok red_container, d + 1);
  image = λ name d. (ok web_image, d + 1);
  running = λ labels status d. (ok ("red" ∷ "red" ∷ []), d + 1);
  images = λ d. (ok (some listed_images), d + 1);
  run = λ launch d. (ok "red", d + 1);
  kill = λ container_id d. (ok tt, d + 1);
  monotonic = λ d. d;
  sleep = λ ms d. d + ms;
  time = λ d. d;
  choice = λ n d. (3, d + 1);
}

abbrev pub small_manager : Manager
small_manager = record {
  settings = ("challenge_network", some "cybersea26_challenge_net") ∷ [];
  identity = local_identity;
  allow_limited_local_daemon = false;
  hardening_profile = default_profile;
  start_timeout_seconds = 60;
  expiration_seconds = 1800;
  docker_timeout = 15;
  client = true;
  daemon_capabilities = [];
  connection_error = none;
  scheduler = true;
}

-- The world in which the container "red" runs, and the one before it was launched.
abbrev pub red_world : World ℕ
red_world = record { manager = small_manager; session = one_session; daemon = 5000; killed = [] }

abbrev pub empty_session : Session
empty_session =
    let db : Db = record one_session.view { infos = []; flags = []; next_flag_id = 1 } in
    record { view = db; saved = db }

abbrev pub empty_world : World ℕ
empty_world = record red_world { session = empty_session }
