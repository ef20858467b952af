-- ===== src/Models.antt =====
-- models.py: the rows of the plugin's tables, the CTFd rows that it reads, and the session that
-- holds what is not committed yet.
pub mod Queries
pub mod Accounts
use ctf_plugin_docker_per_te.Prelude.{ℕ, String, Bool, Option, none, some, List, if◌then◌else◌}

-- `ContainerChallengeModel`; a column that may be NULL is an `Option`.
pub record Challenge : Type 0 where
  pub id : ℕ
  pub image : Option String
  pub port : ℕ
  pub command : Option String
  pub volumes : Option String
  pub capabilities : Option String
  pub connection_type : Option String
  pub flag_mode : String
  pub random_flag_length : ℕ
  pub flag_prefix : String
  pub flag_suffix : String

-- The owner columns of a row: one is set, by the mode of the event.
pub record Owner : Type 0 where
  pub team_id : Option ℕ
  pub user_id : Option ℕ

-- `{"team_id": xid if is_team else None, "user_id": None if is_team else xid}`
abbrev pub account_owner : Bool → ℕ → Owner
account_owner is_team xid =
    if is_team
    then record { team_id = some xid; user_id = none }
    else record { team_id = none; user_id = some xid }

-- `ContainerInfoModel`
pub record ContainerInfo : Type 0 where
  pub container_id : String
  pub challenge_id : ℕ
  pub owner : Owner
  pub port : String
  pub timestamp : ℕ
  pub expires : ℕ
  pub flag : String

-- `ContainerFlagModel`
pub record ContainerFlag : Type 0 where
  pub id : ℕ
  pub challenge_id : ℕ
  pub container_id : Option String
  pub flag : String
  pub owner : Owner
  pub used : Bool

-- `ContainerCheatLog`
pub record CheatLog : Type 0 where
  pub reused_flag : String
  pub challenge_id : ℕ
  pub original : Owner
  pub second : Owner
  pub timestamp : ℕ

-- CTFd's `Flags` and `Solves`
pub record StaticFlag : Type 0 where
  pub challenge_id : ℕ
  pub content : String

pub record Solve : Type 0 where
  pub challenge_id : ℕ
  pub team_id : Option ℕ
  pub user_id : Option ℕ

-- CTFd's user, as far as the plugin reads it.
pub record User : Type 0 where
  pub id : ℕ
  pub team_id : Option ℕ

pub record Db : Type 0 where
  pub challenges : List Challenge
  pub infos : List ContainerInfo
  pub flags : List ContainerFlag
  pub cheat_logs : List CheatLog
  pub static_flags : List StaticFlag
  pub solves : List Solve
  pub next_flag_id : ℕ

-- `db.session`: `view` is what its queries see, `saved` what has been committed.
pub record Session : Type 0 where
  pub view : Db
  pub saved : Db

-- `db.session.commit()` and `db.session.rollback()`
abbrev pub commit : Session → Session
commit s = record s { saved = s.view }

abbrev pub rollback : Session → Session
rollback s = record s { view = s.saved }

abbrev pub set_view : Session → Db → Session
set_view s db = record s { view = db }
