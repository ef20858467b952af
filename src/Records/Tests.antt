-- ===== src/Records/Tests.antt =====
-- Runs of `cleanup_container_records` and `seed_default_settings` of helpers.py.
use ctf_plugin_docker_per_te.Prelude.{
  String, ◌≡◌, refl, true, false, not, ◌==◌, Option, none, some, [], ◌∷◌, Dict, get, All, first,
}
use ctf_plugin_docker_per_te.Text.{strip, is_space}
use ctf_plugin_docker_per_te.Models.{
  Challenge, account_owner, ContainerInfo, ContainerFlag, Db, Session,
}
use ctf_plugin_docker_per_te.Models.Queries.{find_challenge, find_info}
use ctf_plugin_docker_per_te.Flags.{owned_row}
use ctf_plugin_docker_per_te.Records.{
  is_attached, detached, cleanup_container_records, seed_default_settings, settings_to_dict,
}
use ctf_plugin_docker_per_te.Records.Cleanup.{map_option, cleanup-forgets, cleanup-keeps_random}
use ctf_plugin_docker_per_te.Records.Defaults.{IsSecure, seed-IsSecure}

abbrev challenge_1 : Challenge
challenge_1 = record {
  id = 1;
  image = none;
  port = 80;
  command = none;
  volumes = none;
  capabilities = none;
  connection_type = none;
  flag_mode = "random";
  random_flag_length = 2;
  flag_prefix = "";
  flag_suffix = "";
}

abbrev info_a : ContainerInfo
info_a = record {
  container_id = "a";
  challenge_id = 1;
  owner = account_owner true 7;
  port = "32768";
  timestamp = 1;
  expires = 2;
  flag = "x";
}

abbrev flag_a : ContainerFlag
flag_a = record {
  id = 1;
  challenge_id = 1;
  container_id = some "a";
  flag = "x";
  owner = account_owner true 7;
  used = false;
}

abbrev before_cleanup : Session
before_cleanup =
    let db : Db = record {
      challenges = challenge_1 ∷ [];
      infos = info_a ∷ [];
      flags = flag_a ∷ [];
      cheat_logs = [];
      static_flags = [];
      solves = [];
      next_flag_id = 2;
    } in
    record { view = db; saved = db }

abbrev after_cleanup : Session
after_cleanup =
    let db : Db = record before_cleanup.view {
      infos = [];
      flags = record flag_a { container_id = none } ∷ [];
    } in
    record { view = db; saved = db }

cleans_up : cleanup_container_records (some info_a) true before_cleanup ≡ some after_cleanup
unfolding cleanup_container_records find_challenge
cleans_up = refl

cleanup-forgets_example :
    (find_info after_cleanup.view "a" ≡ none)
    × ((other : String)
        → ("a" == other) ≡ false
        → find_info after_cleanup.view other ≡ find_info before_cleanup.view other)
    × All (λ f. not (is_attached "a" f) ≡ true) after_cleanup.view.flags
cleanup-forgets_example = cleanup-forgets info_a true before_cleanup after_cleanup cleans_up

cleanup-keeps_random_example :
    first (owned_row challenge_1 (account_owner true 7) "x") after_cleanup.view.flags
    ≡ map_option
        (detached "a")
        (first (owned_row challenge_1 (account_owner true 7) "x") before_cleanup.view.flags)
unfolding find_challenge
cleanup-keeps_random_example =
    cleanup-keeps_random info_a true before_cleanup after_cleanup challenge_1 cleans_up refl refl
      challenge_1 (account_owner true 7) "x"

-- A table of an older version: one control is off, another is set.
abbrev old_rows : Dict (Option String)
old_rows = ("max_containers", some " 0 ") ∷ ("container_maxcpu", some "2.5") ∷ []

seeds :
    (get (seed_default_settings [] old_rows).0 "max_containers" ≡ some (some "3"))
    × (get (settings_to_dict (("CTF_CHALLENGE_NETWORK", " net ") ∷ []) old_rows) "challenge_network"
        ≡ some (some "net"))
unfolding seed_default_settings settings_to_dict strip is_space
seeds = (refl, refl)

seed-IsSecure_example : IsSecure (seed_default_settings [] old_rows).0 "max_containers"
seed-IsSecure_example = seed-IsSecure [] old_rows "max_containers" refl
