-- ===== src/Migrations/Tests.antt =====
-- Runs of the migrations.
use ctf_plugin_docker_per_te.Prelude.{
  String, ◌≡◌, refl, not, ◌==◌, Option, none, some, [], ◌∷◌, ◌++◌, keep, if◌then◌else◌,
}
use ctf_plugin_docker_per_te.Result.{ok, err, ◌>>=◌}
use ctf_plugin_docker_per_te.Migrations.{
  text_column, ForeignKey, Schema, duplicate, missing, Op, IsOp, has, upgrade_capabilities,
  downgrade_capabilities, upgrade_indexes, downgrade_indexes, upgrade_keys, downgrade_keys,
}
use ctf_plugin_docker_per_te.Migrations.Upgraded.{IsUpgraded, upgrade-IsUpgraded}

-- Operations that refuse a name that is there already, and to drop one that is not.
abbrev strict_op : Op
strict_op = record {
  create = λ V name v d. if has d name then err (duplicate name) else ok (d ++ (name, v) ∷ []);
  drop = λ V name d.
      if has d name
      then ok (keep (λ (entry : String × V). not (entry.0 == name)) d)
      else err (missing name);
}

strict_is_op : IsOp strict_op
strict_is_op = record { created = λ V name v d h. rw h refl }

abbrev team_key : Option String → ForeignKey
team_key ondelete = record {
  local_col = "original_team_id";
  remote_table = "teams";
  remote_col = "id";
  ondelete = ondelete;
}

-- The tables before the migrations; somebody has already made one of the indexes.
abbrev old_schema : Schema
old_schema = record {
  challenge_columns = ("image", text_column) ∷ [];
  info_columns = ("container_id", text_column) ∷ [];
  info_indexes = ("idx_container_info_expires", "expires" ∷ "port" ∷ []) ∷ [];
  info_uniques = [];
  flag_indexes = [];
  cheat_keys = ("container_cheat_log_ibfk_2", team_key none) ∷ [];
}

capabilities_and_back :
    (upgrade_capabilities strict_op old_schema >>= downgrade_capabilities strict_op) ≡ ok old_schema
unfolding upgrade_capabilities downgrade_capabilities
capabilities_and_back = refl

keys_and_back :
    (upgrade_keys strict_op old_schema
      ≡ ok (record old_schema {
        cheat_keys = ("container_cheat_log_ibfk_2", team_key (some "SET NULL")) ∷ [];
      }))
    × ((upgrade_keys strict_op old_schema >>= downgrade_keys strict_op) ≡ ok old_schema)
unfolding upgrade_keys downgrade_keys
keys_and_back = (refl, refl)

-- The downgrade also drops the index that was there before.
indexes_and_back :
    (upgrade_indexes strict_op old_schema >>= downgrade_indexes strict_op)
    ≡ ok (record old_schema { info_indexes = [] })
unfolding upgrade_indexes downgrade_indexes
indexes_and_back = refl

upgrade-IsUpgraded_example :
    (s' : Schema) × (upgrade_indexes strict_op old_schema ≡ ok s')
    × IsUpgraded strict_op strict_is_op old_schema s'
upgrade-IsUpgraded_example = upgrade-IsUpgraded strict_op strict_is_op old_schema
