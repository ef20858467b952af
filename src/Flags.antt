-- ===== src/Flags.antt =====
-- helpers.py: `get_xid_and_flag`, `get_expected_static_flag`, `get_container_flag` and
-- `log_reused_flag_submission`: how a submitted flag is judged.
pub mod Accepted
pub mod Reuse
pub mod Repeat
pub mod Stored
pub mod Tests
use Prim.Native.String
use ctf_plugin_docker_per_te.Prelude.{
  ℕ, zero, suc, ◌+◌, String, Bool, true, false, not, ◌&&◌, nat_eq, ◌==◌, Option, none, some, List,
  [], ◌∷◌, ◌++◌, first, map, if◌then◌else◌,
}
use ctf_plugin_docker_per_te.Text.{strip, is_empty, or_empty}
use ctf_plugin_docker_per_te.Result.{Result, ok, err, ◌>>=◌, ◌>>◌, raise_if}
use ctf_plugin_docker_per_te.Models.{
  Challenge, Owner, ContainerInfo, ContainerFlag, CheatLog, StaticFlag, User, Db, Session, commit,
  set_view,
}
use ctf_plugin_docker_per_te.Models.Queries.{id_eq, text_eq, owner_eq}

-- The `ValueError`s: "Incorrect", and those of `get_xid_and_flag`.
pub data FlagError : Type 0 where
  incorrect not_logged_in no_team no_flag : FlagError

abbrev account_id : Bool → User → Result FlagError ℕ
account_id false user = ok user.id
account_id true user = elim user.team_id [
  | none ↦ err no_team
  | some zero ↦ err no_team
  | some (suc n) ↦ ok (suc n)
]

-- `get_xid_and_flag`; the submission is the text of the request, if it has one.
unfoldable pub get_xid_and_flag :
    Bool → Option User → Option String → Result FlagError (User × ℕ × String)
get_xid_and_flag is_team none submission = err not_logged_in
get_xid_and_flag is_team (some user) submission = do
  x_id ← account_id is_team user
  let submitted_flag = strip (or_empty submission)
  raise_if (is_empty submitted_flag) no_flag
  ok (user, x_id, submitted_flag)

-- `get_submission_owner_filters`
abbrev pub owner_filters : Bool → User → Owner
owner_filters is_team user =
    if is_team
    then record { team_id = user.team_id; user_id = none }
    else record { team_id = none; user_id = some user.id }

-- `get_expected_static_flag`
abbrev flag_content : Option StaticFlag → String
flag_content none = ""
flag_content (some flag) = flag.content

unfoldable pub get_expected_static_flag : Db → Challenge → String
get_expected_static_flag db challenge =
    let found = first (λ f. nat_eq f.challenge_id challenge.id) db.static_flags in
    String.◌++◌ challenge.flag_prefix (String.◌++◌ (flag_content found) challenge.flag_suffix)

-- A new row, with the next number of the table.
unfoldable pub add_flag : ℕ → Option String → String → Owner → Session → ContainerFlag × Session
add_flag challenge_id container_id flag owner s =
    let row : ContainerFlag = record {
      id = s.view.next_flag_id;
      challenge_id = challenge_id;
      container_id = container_id;
      flag = flag;
      owner = owner;
      used = false;
    } in
    (
      row,
      set_view s (record s.view {
        flags = s.view.flags ++ row ∷ [];
        next_flag_id = s.view.next_flag_id + 1;
      }),
    )

-- The container's info, if the submission is the flag of that container.
abbrev pub issued_here : Option ContainerInfo → String → Option ContainerInfo
issued_here none submitted = none
issued_here (some info) submitted = if submitted == info.flag then some info else none

abbrev container_id_of : Option ContainerInfo → Option String
container_id_of none = none
container_id_of (some info) = some info.container_id

-- The rows that a query returns, or a new row.
abbrev found_or_added :
    Option ContainerFlag
    → ContainerFlag × Session
    → Session
    → Result FlagError ContainerFlag × Session
found_or_added (some flag) added s = (ok flag, s)
found_or_added none (flag, s') s = (ok flag, s')

abbrev pub container_row : Challenge → ContainerInfo → String → ContainerFlag → Bool
container_row challenge info submitted f =
    nat_eq f.challenge_id challenge.id
    && text_eq f.container_id (some info.container_id)
    && f.flag == submitted

abbrev pub owned_row : Challenge → Owner → String → ContainerFlag → Bool
owned_row challenge owner submitted f =
    nat_eq f.challenge_id challenge.id && f.flag == submitted && owner_eq f.owner owner

-- `sha256` is the digest of a text, in hexadecimal.
module _ (sha256 : String → String) (is_team : Bool) where
  abbrev pub fingerprint : String → String
  fingerprint flag = String.◌++◌ "sha256:" (sha256 flag)

  abbrev pub same_reuse : ContainerFlag → User → CheatLog → Bool
  same_reuse flag user log =
      log.reused_flag == fingerprint flag.flag
      && nat_eq log.challenge_id flag.challenge_id
      && owner_eq log.original flag.owner
      && owner_eq log.second (owner_filters is_team user)

  abbrev pub reuse_log : ContainerFlag → User → ℕ → CheatLog
  reuse_log flag user now = record {
    reused_flag = fingerprint flag.flag;
    challenge_id = flag.challenge_id;
    original = flag.owner;
    second = owner_filters is_team user;
    timestamp = now;
  }

  -- `log_reused_flag_submission`, without its last `raise`, which the caller makes too
  abbrev logged_once : Option CheatLog → CheatLog → Session → Session
  logged_once (some _) log s = s
  logged_once none log s =
      commit (set_view s (record s.view { cheat_logs = s.view.cheat_logs ++ log ∷ [] }))

  unfoldable pub log_reused_flag_submission : ContainerFlag → User → ℕ → Session → Session
  log_reused_flag_submission flag user now s =
      logged_once (first (same_reuse flag user) s.view.cheat_logs) (reuse_log flag user now) s

  -- Another account's row: the column of the mode names another team or user.
  abbrev pub is_foreign : ContainerFlag → User → Bool
  is_foreign flag user =
      if is_team
      then not (id_eq flag.owner.team_id user.team_id)
      else not (id_eq flag.owner.user_id (some user.id))

  unfoldable pub review_foreign : Challenge → Option ContainerFlag → User → ℕ → Session → Session
  review_foreign challenge none user now s = s
  review_foreign challenge (some flag) user now s =
      if challenge.flag_mode == "random" && is_foreign flag user
      then log_reused_flag_submission flag user now s
      else s

  module _ (submitted : String) (user : User) (container_info : Option ContainerInfo)
      (challenge : Challenge) (now : ℕ) (s : Session) where
    -- `get_container_flag` from the end: the submission is no row of the account
    abbrev static_or_rejected : Bool → Result FlagError ContainerFlag × Session
    static_or_rejected true =
        let owner = owner_filters is_team user in
        found_or_added (first (owned_row challenge owner submitted) s.view.flags)
          (add_flag challenge.id (container_id_of container_info) submitted owner s) s
    static_or_rejected false = (
      err incorrect,
      review_foreign challenge
          (first (λ f. nat_eq f.challenge_id challenge.id && f.flag == submitted) s.view.flags) user
          now s,
    )

    -- the submission is not the flag of the container
    abbrev owned_or_static : Option ContainerFlag → Result FlagError ContainerFlag × Session
    owned_or_static (some flag) = (ok flag, s)
    owned_or_static none =
        static_or_rejected (
          challenge.flag_mode == "static" && submitted == get_expected_static_flag s.view challenge)

    abbrev container_or_owned : Option ContainerInfo → Result FlagError ContainerFlag × Session
    container_or_owned (some info) =
        found_or_added (first (container_row challenge info submitted) s.view.flags)
          (add_flag challenge.id (some info.container_id) submitted (owner_filters is_team user) s)
          s
    container_or_owned none =
        owned_or_static
          (first (owned_row challenge (owner_filters is_team user) submitted) s.view.flags)

    -- `get_container_flag`
    unfoldable pub get_container_flag : Result FlagError ContainerFlag × Session
    get_container_flag = container_or_owned (issued_here container_info submitted)

-- `container_flag.used = True`
unfoldable pub mark_used : ContainerFlag → Session → Session
mark_used flag s = set_view s (record s.view {
  flags = map (λ f. if nat_eq f.id flag.id then record f { used = true } else f) s.view.flags;
})
