-- ===== src/Manager.antt =====
-- container_manager.py: the manager that starts and stops challenge containers. This module holds
-- its state, the calls of the Docker client, and blocks that may raise.
pub mod Steady
pub mod Connection
pub mod Containers
pub mod Startup
pub mod Options
pub mod Launching
pub mod Listing
pub mod Starting
pub mod Samples
mod Tests
use ctf_plugin_docker_per_te.Prelude.{
  ◌≡◌, ◌≢◌, refl, ap, ℕ, String, Bool, true, false, Option, none, some, List, [], ◌∷◌, Dict,
}
use ctf_plugin_docker_per_te.Result.{Result, ok, err}
use ctf_plugin_docker_per_te.Models.{Session}
use ctf_plugin_docker_per_te.Policy.Errors.{PolicyError, bad_url}
use ctf_plugin_docker_per_te.Policy.Identity.{RuntimeIdentity}
use ctf_plugin_docker_per_te.Policy.Daemon.{InfoValue}
use ctf_plugin_docker_per_te.Policy.Network.{NetworkAttrs}
use ctf_plugin_docker_per_te.Policy.Hardening.{Settings, HardeningProfile}

-- Why a `ContainerException` was raised.
pub data ManagerError : Type 0 where
  policy : PolicyError → ManagerError
  bad_expiration expiration_not_positive bad_timeout network_mismatch no_network shared_network :
      ManagerError
  cannot_connect connect_timed_out no_ssh_connection ssh_authentication not_connected
        connection_lost :
      ManagerError
  not_owned image_missing root_user no_healthcheck : ManagerError
  port_not_exposed : ℕ → ManagerError
  exited_during_startup failed_health_check startup_timed_out : ManagerError
  no_unique_flag network_changed volumes_disabled volume_not_object volume_over_tmp : ManagerError
  volume_not_read_only bad_volumes bad_capabilities : ManagerError
  capabilities_not_allowed : List String → ManagerError
  no_port duplicate_container docker_api_error : ManagerError

-- What the Docker client raises. `NotFound` and `ImageNotFound` are `APIError`s, `timed_out` is the
-- `TimeoutError` of Python. Of the errors below it, `ssh_error` is paramiko's
-- `NoValidConnectionsError`, `auth_error` its `AuthenticationException`, and `transport_error` any
-- other `SSHException`, or a `ConnectionError` or `Timeout` of the HTTP client.
pub data DockerError : Type 0 where
  not_found image_not_found api_error docker_error timed_out : DockerError
  ssh_error auth_error transport_error : DockerError

pub data Fault : Type 0 where
  container_exception : ManagerError → Fault
  docker : DockerError → Fault
  integrity_error : Fault
  other_exception : Fault
  -- the `ValueError` of `urlsplit`, where a Docker endpoint is read; no command of the manager lets it
  -- out, since `run_command` catches whatever connecting again raises
  value_error : Fault
  -- no exception of the program: a loop of the model used up its fuel
  cut_off : Fault

abbrev pub policy_fault : PolicyError → Fault
policy_fault bad_url = value_error
policy_fault e = container_exception (policy e)

-- What the plugin reads of a container and of an image; a label may be missing.
pub record Container : Type 0 where
  pub id : String
  pub status : String
  pub health : String
  pub labels : Dict String
  pub networks : List String
  pub host_ports : List (Option (List String))

pub record Image : Type 0 where
  pub configured_user : Option String
  pub health_test : List String
  pub exposed_ports : List String

-- What `get_images` reads of an image; its tags and digests may be None.
pub record ListedImage : Type 0 where
  pub tags : Option (List String)
  pub repo_digests : Option (List String)

-- The arguments of `containers.run`.
pub record Launch : Type 0 where
  pub image : String
  pub port : ℕ
  pub bind_ip : String
  pub command : Option String
  pub flag : String
  pub labels : Dict String
  pub network : String
  pub profile : HardeningProfile
  pub volumes : Option String
  pub cap_add : List String

-- The Docker client, the clock and the host's names (`HOSTNAME` and /etc/hostname), over the states `D` of
-- the daemon; times are in milliseconds.
pub record Docker (D : Type 0) : Type 0 where
  pub hostnames : List String
  pub connect : String → ℕ → D → Result DockerError Unit × D
  pub ping : D → Result DockerError Bool × D
  pub info : D → Result DockerError (Dict InfoValue) × D
  pub network : String → D → Result DockerError NetworkAttrs × D
  pub container : String → D → Result DockerError Container × D
  pub image : String → D → Result DockerError Image × D
  -- `containers.list`, by labels and status: the ids
  pub running : List String → String → D → Result DockerError (List String) × D
  -- `images.list`; `none` is a KeyError or an IndexError
  pub images : D → Result DockerError (Option (List ListedImage)) × D
  pub run : Launch → D → Result DockerError String × D
  pub kill : String → D → Result DockerError Unit × D
  pub monotonic : D → ℕ
  pub sleep : ℕ → D → D
  pub time : D → ℕ
  -- `secrets.choice` of that many elements
  pub choice : ℕ → D → ℕ × D

-- `ContainerManager`; `client` is whether there is one, `scheduler` whether the expiry job runs.
pub record Manager : Type 0 where
  pub settings : Settings
  pub identity : RuntimeIdentity
  pub allow_limited_local_daemon : Bool
  pub hardening_profile : HardeningProfile
  pub start_timeout_seconds : ℕ
  pub expiration_seconds : ℕ
  pub docker_timeout : ℕ
  pub client : Bool
  pub daemon_capabilities : Dict Bool
  pub connection_error : Option ManagerError
  pub scheduler : Bool

-- `killed` are the containers that the plugin has told the daemon to kill, the last first.
pub record World (D : Type 0) : Type 0 where
  pub manager : Manager
  pub session : Session
  pub daemon : D
  pub killed : List String

abbrev pub docker_reply : {A : Type 0} → Result DockerError A → Result Fault A
docker_reply (ok a) = ok a
docker_reply (err e) = err (docker e)

-- A block that may raise and changes the world.
abbrev pub Action : Type 0 → Type 0 → Type 0
Action D A = World D → Result Fault A × World D

module _ {D : Type 0} where
  abbrev pub continue :
      {A B : Type 0} → Result Fault A × World D → (A → Action D B) → Result Fault B × World D
  continue (ok a, w) k = k a w
  continue (err e, w) k = (err e, w)

  abbrev pub recover :
      {A : Type 0} → Result Fault A × World D → (Fault → Action D A) → Result Fault A × World D
  recover (ok a, w) handler = (ok a, w)
  recover (err e, w) handler = handler e w

  infixl 5 ◌>>=◌ ◌>>◌
  abbrev pub ◌>>=◌ : {A B : Type 0} → Action D A → (A → Action D B) → Action D B
  m >>= k = λ w. continue (m w) k

  abbrev pub ◌>>◌ : {A B : Type 0} → Action D A → Action D B → Action D B
  m >> k = m >>= λ _. k

  -- `try: … except …`
  abbrev pub try_except : {A : Type 0} → Action D A → (Fault → Action D A) → Action D A
  try_except m handler = λ w. recover (m w) handler

  abbrev pub return : {A : Type 0} → A → Action D A
  return a = λ w. (ok a, w)

  abbrev pub raise : {A : Type 0} → Fault → Action D A
  raise e = λ w. (err e, w)

  abbrev pub fail : {A : Type 0} → ManagerError → Action D A
  fail e = raise (container_exception e)

  abbrev pub fail_if : Bool → ManagerError → Action D Unit
  fail_if true e = fail e
  fail_if false e = return tt

  -- `except RuntimePolicyError as err: raise ContainerException(str(err))`; the `ValueError` of
  -- `urlsplit` is no `RuntimePolicyError`
  abbrev pub checked : {A : Type 0} → Result PolicyError A → Action D A
  checked (ok a) = return a
  checked (err e) = raise (policy_fault e)

  abbrev pub call : {A : Type 0} → (D → Result DockerError A × D) → Action D A
  call f = λ w. let (r, d) = f w.daemon in (docker_reply r, record w { daemon = d })

  abbrev pub get_daemon : Action D D
  get_daemon = λ w. (ok w.daemon, w)

  abbrev pub get_session : Action D Session
  get_session = λ w. (ok w.session, w)

  abbrev pub set_session : Session → Action D Unit
  set_session s = λ w. (ok tt, record w { session = s })

  -- `container.kill()`
  abbrev pub note_kill : String → Action D Unit
  note_kill container_id = λ w. (ok tt, record w { killed = container_id ∷ w.killed })

  abbrev pub get_manager : Action D Manager
  get_manager = λ w. (ok w.manager, w)

  abbrev pub set_manager : Manager → Action D Unit
  set_manager m = λ w. (ok tt, record w { manager = m })

  -- A block that returns has gone through its first part.
  pub continue-eq-ok :
      {A B : Type 0} (m : Result Fault A × World D) (k : A → Action D B) {b : B} {w' : World D}
      → continue m k ≡ (ok b, w')
      → (a : A) × (w : World D) × (m ≡ (ok a, w)) × (k a w ≡ (ok b, w'))
  continue-eq-ok (ok a, w) k h = (a, w, refl, h)
  continue-eq-ok (err e, w) k h = cc h

  pub recover-eq-ok :
      {A : Type 0} (m : Result Fault A × World D) (handler : Fault → Action D A) {a : A}
      {w' : World D}
      → ((e : Fault) (w : World D) → (handler e w).0 ≢ ok a)
      → recover m handler ≡ (ok a, w')
      → m ≡ (ok a, w')
  recover-eq-ok (ok a, w) handler never h = h
  recover-eq-ok (err e, w) handler never h =
      absurd (never e w (ap (λ (r : Result Fault _ × World D). r.0) h))
