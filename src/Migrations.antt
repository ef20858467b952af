-- ===== src/Migrations.antt =====
-- The migrations under src/migrations: what they add to the tables of the plugin and take away.
pub mod Completed
pub mod Upgraded
mod Tests
use ctf_plugin_docker_per_te.Prelude.{
  ℕ, String, ◌≡◌, Bool, true, false, not, ◌&&◌, ◌==◌, Option, none, some, List, [], ◌∷◌, ◌++◌, Dict,
  get, if◌then◌else◌,
}
use ctf_plugin_docker_per_te.Result.{Result, ok, ◌>>=◌, ◌>>◌}

-- The type of a column; all that are added may be NULL.
pub data Column : Type 0 where
  text_column : Column
  string_column : ℕ → Column

pub record ForeignKey : Type 0 where
  pub local_col : String
  pub remote_table : String
  pub remote_col : String
  pub ondelete : Option String

-- What the migrations read and change: names with what they stand for.
pub record Schema : Type 0 where
  pub challenge_columns : Dict Column
  pub info_columns : Dict Column
  pub info_indexes : Dict (List String)
  pub info_uniques : Dict (List String)
  pub flag_indexes : Dict (List String)
  pub cheat_keys : Dict ForeignKey

-- What the database may refuse.
pub data SchemaError : Type 0 where
  duplicate missing : String → SchemaError

module _ {V : Type 0} where
  abbrev is_some : Option V → Bool
  is_some none = false
  is_some (some v) = true

  -- `name in d`
  abbrev pub has : Dict V → String → Bool
  has d name = is_some (get d name)

-- Alembic's operations on the names of one kind, over a table that has them.
pub record Op : Type 1 where
  pub create : (V : Type 0) → String → V → Dict V → Result SchemaError (Dict V)
  pub drop : (V : Type 0) → String → Dict V → Result SchemaError (Dict V)

-- A name that is not there yet is added.
pub record IsOp (op : Op) : Type 1 where
  pub created :
      (V : Type 0) (name : String) (v : V) (d : Dict V)
      → has d name ≡ false
      → op.create V name v d ≡ ok (d ++ (name, v) ∷ [])

module _ (op : Op) {V : Type 0} where
  -- `if name not in seen: op.create_…`, for one name after the other
  abbrev pub create_missing : Dict V → Dict V → Dict V → Result SchemaError (Dict V)
  create_missing seen [] d = ok d
  create_missing seen ((name, v) ∷ wanted) d =
      (if has seen name then ok d else op.create V name v d) >>= λ d'. create_missing seen wanted d'

  -- `for name in names: if name in seen: op.drop_…`
  abbrev pub drop_present : Dict V → List String → Dict V → Result SchemaError (Dict V)
  drop_present seen [] d = ok d
  drop_present seen (name ∷ names) d =
      (if has seen name then op.drop V name d else ok d) >>= λ d'. drop_present seen names d'

abbrev pub capabilities_column : Dict Column
capabilities_column = ("capabilities", text_column) ∷ []

abbrev pub hostname_column : Dict Column
hostname_column = ("hostname", string_column 255) ∷ []

abbrev pub wanted_info_indexes : Dict (List String)
wanted_info_indexes =
    ("idx_container_info_team_challenge", "team_id" ∷ "challenge_id" ∷ [])
    ∷ ("idx_container_info_user_challenge", "user_id" ∷ "challenge_id" ∷ [])
    ∷ ("idx_container_info_expires", "expires" ∷ [])
    ∷ ("ix_container_info_model_hostname", "hostname" ∷ [])
    ∷ []

abbrev pub wanted_info_uniques : Dict (List String)
wanted_info_uniques =
    ("uq_container_info_challenge_team", "challenge_id" ∷ "team_id" ∷ [])
    ∷ ("uq_container_info_challenge_user", "challenge_id" ∷ "user_id" ∷ [])
    ∷ []

abbrev pub wanted_flag_indexes : Dict (List String)
wanted_flag_indexes =
    ("idx_container_flag_container_id", "container_id" ∷ [])
    ∷ ("idx_container_flag_team_challenge", "team_id" ∷ "challenge_id" ∷ [])
    ∷ ("idx_container_flag_user_challenge", "user_id" ∷ "challenge_id" ∷ [])
    ∷ []

-- c4a6c92f1d5b: name, local column, remote table, remote column
abbrev pub cheat_key_updates : List (String × String × String × String)
cheat_key_updates =
    ("container_cheat_log_ibfk_2", "original_team_id", "teams", "id")
    ∷ ("container_cheat_log_ibfk_3", "original_user_id", "users", "id")
    ∷ ("container_cheat_log_ibfk_4", "second_team_id", "teams", "id")
    ∷ ("container_cheat_log_ibfk_5", "second_user_id", "users", "id")
    ∷ []

abbrev pub sets_null : Option String → Bool
sets_null none = false
sets_null (some action) = action == "SET NULL"

-- `fk and (ondelete == "SET NULL") == set_null`
abbrev pub to_change : Bool → Option ForeignKey → Bool
to_change set_null none = false
to_change true (some fk) = sets_null fk.ondelete
to_change false (some fk) = not (sets_null fk.ondelete)

module _ (op : Op) where
  -- a1d6c8e9f2b3
  unfoldable pub upgrade_capabilities : Schema → Result SchemaError Schema
  upgrade_capabilities s =
      create_missing op s.challenge_columns capabilities_column s.challenge_columns >>= λ columns.
      ok (record s { challenge_columns = columns })

  unfoldable pub downgrade_capabilities : Schema → Result SchemaError Schema
  downgrade_capabilities s =
      drop_present op s.challenge_columns ("capabilities" ∷ []) s.challenge_columns >>= λ columns.
      ok (record s { challenge_columns = columns })

  -- b9f3c7a1e4d2
  unfoldable pub upgrade_indexes : Schema → Result SchemaError Schema
  upgrade_indexes s = do
    columns ← create_missing op s.info_columns hostname_column s.info_columns
    info_indexes ← create_missing op s.info_indexes wanted_info_indexes s.info_indexes
    info_uniques ← create_missing op s.info_uniques wanted_info_uniques s.info_uniques
    flag_indexes ← create_missing op s.flag_indexes wanted_flag_indexes s.flag_indexes
    ok (record s {
      info_columns = columns;
      info_indexes = info_indexes;
      info_uniques = info_uniques;
      flag_indexes = flag_indexes;
    })

  unfoldable pub downgrade_indexes : Schema → Result SchemaError Schema
  downgrade_indexes s = do
    flag_indexes ←
        drop_present op s.flag_indexes
          ("idx_container_flag_user_challenge" ∷ "idx_container_flag_team_challenge"
            ∷ "idx_container_flag_container_id" ∷ [])
          s.flag_indexes
    info_uniques ←
        drop_present op s.info_uniques
          ("uq_container_info_challenge_user" ∷ "uq_container_info_challenge_team" ∷ [])
          s.info_uniques
    info_indexes ←
        drop_present op s.info_indexes
          ("ix_container_info_model_hostname" ∷ "idx_container_info_expires"
            ∷ "idx_container_info_user_challenge" ∷ "idx_container_info_team_challenge" ∷ [])
          s.info_indexes
    columns ← drop_present op s.info_columns ("hostname" ∷ []) s.info_columns
    ok (record s {
      info_columns = columns;
      info_indexes = info_indexes;
      info_uniques = info_uniques;
      flag_indexes = flag_indexes;
    })

  -- c4a6c92f1d5b
  -- The loop over the updates, over the keys that the inspector has read.
  abbrev pub recreate_keys :
      Bool
      → Option String
      → Dict ForeignKey
      → List (String × String × String × String)
      → Dict ForeignKey
      → Result SchemaError (Dict ForeignKey)
  recreate_keys set_null ondelete fks [] keys = ok keys
  recreate_keys set_null ondelete fks ((name, local, table, remote) ∷ updates) keys =
      (if to_change set_null (get fks name)
        then op.drop ForeignKey name keys
          >>= op.create ForeignKey name (record {
            local_col = local;
            remote_table = table;
            remote_col = remote;
            ondelete = ondelete;
          })
        else ok keys)
      >>= λ keys'. recreate_keys set_null ondelete fks updates keys'

  unfoldable pub upgrade_keys : Schema → Result SchemaError Schema
  upgrade_keys s =
      recreate_keys false (some "SET NULL") s.cheat_keys cheat_key_updates s.cheat_keys >>= λ keys.
      ok (record s { cheat_keys = keys })

  unfoldable pub downgrade_keys : Schema → Result SchemaError Schema
  downgrade_keys s = recreate_keys true none s.cheat_keys cheat_key_updates s.cheat_keys >>= λ keys.
      ok (record s { cheat_keys = keys })
