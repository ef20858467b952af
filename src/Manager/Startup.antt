-- ===== src/Manager/Startup.antt =====
-- container_manager.py: `_validate_image_contract`, `_wait_until_healthy`, `generate_random_flag`
-- and `_generate_unique_random_flag`: what a launch requires.
pub mod Health
pub mod Fresh
pub mod Steady
use Prim.Native.String.{◌++◌}
use ctf_plugin_docker_per_te.Prelude.{
  ℕ, zero, suc, ◌+◌, ◌*◌, String, Char, Bool, true, false, not, ◌&&◌, ◌||◌, ◌==◌, ltb, nat_eq,
  Option, none, some, List, [], ◌∷◌, first, one_of, if◌then◌else◌,
}
use ctf_plugin_docker_per_te.Text.{strip, lower, or_empty, is_empty, before, decimal, char_at}
use ctf_plugin_docker_per_te.Result.{ok, err}
use ctf_plugin_docker_per_te.Models.{Challenge, ContainerFlag, Db}
use ctf_plugin_docker_per_te.Policy.Image.{validate_image_reference}
use ctf_plugin_docker_per_te.Manager.{
  Fault, container_exception, docker, image_not_found, cut_off, image_missing, root_user,
  no_healthcheck, port_not_exposed, exited_during_startup, failed_health_check, startup_timed_out,
  no_unique_flag, Container, Image, Docker, Action, ◌>>=◌, ◌>>◌, try_except, return, raise, fail,
  fail_if, checked, call, get_daemon, get_session, get_manager,
}

-- The user name of an image's USER, without the group.
abbrev pub user_name : Image → String
user_name image = before ":" (lower (strip (or_empty image.configured_user)))

abbrev pub lacks_healthcheck : List String → Bool
lacks_healthcheck [] = true
lacks_healthcheck (test ∷ []) = test == "NONE"
lacks_healthcheck (test ∷ _ ∷ _) = false

abbrev pub port_key : ℕ → String
port_key port = decimal port ++ "/tcp"

abbrev pub stopped_states : List String
stopped_states = "dead" ∷ "exited" ∷ "removing" ∷ []

-- `string.ascii_letters + string.digits`
abbrev pub flag_alphabet : String
flag_alphabet = "abcdefghijklmnopqrstuvwxyzABCDEFGHIJKLMNOPQRSTUVWXYZ0123456789"

abbrev pub taken : Db → Challenge → String → Option ContainerFlag
taken db challenge flag = first (λ f. nat_eq f.challenge_id challenge.id && f.flag == flag) db.flags

module _ {D : Type 0} (dock : Docker D) where
  abbrev missing_image : Fault → Action D Image
  missing_image (docker image_not_found) = fail image_missing
  missing_image e = raise e

  -- `_validate_image_contract`
  unfoldable pub validate_image_contract : Challenge → Action D String
  validate_image_contract challenge = do
    m ← get_manager
    image_reference ← checked (validate_image_reference challenge.image m.identity)
    image ← try_except (call (dock.image image_reference)) missing_image
    fail_if (is_empty (user_name image) || one_of (user_name image) ("0" ∷ "root" ∷ [])) root_user
    fail_if (lacks_healthcheck image.health_test) no_healthcheck
    fail_if (not (one_of (port_key challenge.port) image.exposed_ports))
        (port_not_exposed challenge.port)
    return image_reference

  -- What one look at the container says: `true` ends the wait.
  unfoldable pub judge : Container → Action D Bool
  judge container = do
    fail_if (one_of (lower container.status) stopped_states) exited_during_startup
    if lower container.health == "healthy"
        then return true
        else fail_if (lower container.health == "unhealthy") failed_health_check >> return false

  abbrev pub doze : Action D Unit
  doze = call (λ d. (ok tt, dock.sleep 250 d))

  -- The body of the `while` of `_wait_until_healthy`: one look, and the rest of the loop.
  abbrev look : Action D Unit → ℕ → String → Action D Unit
  look again deadline container_id = get_daemon >>= λ d.
      if ltb (dock.monotonic d) deadline
      then call (dock.container container_id)
        >>= judge
        >>= (λ done. if done then return tt else doze >> again)
      else fail startup_timed_out

  -- The loop, with fuel.
  unfoldable pub wait_loop : ℕ → ℕ → String → Action D Unit
  wait_loop zero deadline container_id = raise cut_off
  wait_loop (suc fuel) deadline container_id =
      let again = wait_loop fuel deadline container_id in look again deadline container_id

  -- `_wait_until_healthy`: four looks a second, and one more
  unfoldable pub wait_until_healthy : String → Action D Unit
  wait_until_healthy container_id = do
    m ← get_manager
    d ← get_daemon
    wait_loop (suc (4 * m.start_timeout_seconds))
        (dock.monotonic d + 1000 * m.start_timeout_seconds) container_id

  -- `generate_random_flag`
  abbrev one_more : Action D String → Action D String
  one_more others = do
    i ← call (λ d. let (i, d') = dock.choice 62 d in (ok i, d'))
    rest ← others
    return (char_at flag_alphabet i ++ rest)

  abbrev pub random_part : ℕ → Action D String
  random_part zero = return ""
  random_part (suc n) = one_more (random_part n)

  unfoldable pub generate_random_flag : Challenge → Action D String
  generate_random_flag challenge = do
    part ← random_part challenge.random_flag_length
    return (challenge.flag_prefix ++ (part ++ challenge.flag_suffix))

  abbrev unless_taken : String → Action D String → Option ContainerFlag → Action D String
  unless_taken flag again none = return flag
  unless_taken flag again (some _) = again

  -- One try of `_generate_unique_random_flag`, and the others.
  abbrev try_flag : Action D String → Challenge → Action D String
  try_flag again challenge = do
    flag ← generate_random_flag challenge
    s ← get_session
    unless_taken flag again (taken s.view challenge flag)

  unfoldable pub try_flags : ℕ → Challenge → Action D String
  try_flags zero challenge = fail no_unique_flag
  try_flags (suc n) challenge = let again = try_flags n challenge in try_flag again challenge

  -- `_generate_unique_random_flag`
  unfoldable pub generate_unique_random_flag : Challenge → Action D String
  generate_unique_random_flag challenge = try_flags 10 challenge
