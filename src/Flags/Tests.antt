-- ===== src/Flags/Tests.antt =====
-- Runs of `get_container_flag` of helpers.py: two teams and a random-flag challenge.
use ctf_plugin_docker_per_te.Prelude.{String, ◌≡◌, refl, true, false, none, some, [], ◌∷◌}
use ctf_plugin_docker_per_te.Result.{ok, err}
use ctf_plugin_docker_per_te.Text.{strip, is_space}
use ctf_plugin_docker_per_te.Models.{
  Challenge, account_owner, ContainerInfo, ContainerFlag, User, Db, Session,
}
use ctf_plugin_docker_per_te.Flags.{
  FlagError, incorrect, owner_filters, get_xid_and_flag, get_container_flag, review_foreign,
  log_reused_flag_submission, mark_used,
}
use ctf_plugin_docker_per_te.Flags.Accepted.{IsOwnFlag, accepted-IsOwnFlag}
use ctf_plugin_docker_per_te.Flags.Reuse.{Leaves, logged, rejected-Leaves}
use ctf_plugin_docker_per_te.Flags.Repeat.{rejected_again}

abbrev no_digest : String → String
no_digest flag = "digest"

abbrev pub web_challenge : Challenge
web_challenge = record {
  id = 1;
  image = some "cybersea/web:1";
  port = 8080;
  command = none;
  volumes = none;
  capabilities = none;
  connection_type = some "web";
  flag_mode = "random";
  random_flag_length = 2;
  flag_prefix = "CTF{";
  flag_suffix = "}";
}

abbrev pub red_info : ContainerInfo
red_info = record {
  container_id = "red";
  challenge_id = 1;
  owner = account_owner true 7;
  port = "32768";
  timestamp = 100;
  expires = 1900;
  flag = "CTF{ab}";
}

abbrev pub red_flag : ContainerFlag
red_flag = record {
  id = 1;
  challenge_id = 1;
  container_id = some "red";
  flag = "CTF{ab}";
  owner = account_owner true 7;
  used = false;
}

abbrev pub red_player : User
red_player = record { id = 70; team_id = some 7 }

abbrev blue_player : User
blue_player = record { id = 80; team_id = some 8 }

abbrev pub one_container : Db
one_container = record {
  challenges = web_challenge ∷ [];
  infos = red_info ∷ [];
  flags = red_flag ∷ [];
  cheat_logs = [];
  static_flags = [];
  solves = [];
  next_flag_id = 2;
}

abbrev pub one_session : Session
one_session = record { view = one_container; saved = one_container }

submission_is_stripped :
    get_xid_and_flag true (some red_player) (some " CTF{ab}\n") ≡ ok (red_player, 7, "CTF{ab}")
unfolding get_xid_and_flag strip is_space
submission_is_stripped = refl

used_after_correct :
    (mark_used red_flag one_session).view.flags ≡ record red_flag { used = true } ∷ []
unfolding mark_used
used_after_correct = refl

accepted-IsOwnFlag_example :
    IsOwnFlag "CTF{ab}" (owner_filters true red_player) (some red_info) web_challenge red_flag
unfolding get_container_flag
accepted-IsOwnFlag_example =
    accepted-IsOwnFlag no_digest true "CTF{ab}" red_player (some red_info) web_challenge 200
      one_session one_session red_flag refl

-- The other team submits the flag.
abbrev after_reuse : Session
after_reuse = logged no_digest true red_flag blue_player 200 one_session

reuse_is_rejected :
    get_container_flag no_digest true "CTF{ab}" blue_player none web_challenge 200 one_session
    ≡ (err incorrect, after_reuse)
unfolding get_container_flag review_foreign log_reused_flag_submission
reuse_is_rejected = refl

rejected-Leaves_example :
    (◌≡◌ {A = FlagError} incorrect incorrect)
    × Leaves no_digest true web_challenge "CTF{ab}" blue_player 200 one_session after_reuse
rejected-Leaves_example =
    rejected-Leaves no_digest true "CTF{ab}" blue_player none web_challenge 200 one_session
      after_reuse incorrect reuse_is_rejected

rejected_again_example :
    get_container_flag no_digest true "CTF{ab}" blue_player none web_challenge 300 after_reuse
    ≡ (err incorrect, after_reuse)
rejected_again_example =
    rejected_again no_digest true "CTF{ab}" blue_player none web_challenge 200 300 one_session
      after_reuse incorrect reuse_is_rejected
