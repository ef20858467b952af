-- ===== src/Migrations/Upgraded.antt =====
-- migrations/: the tables before and after the upgrade of b9f3c7a1e4d2.
use ctf_plugin_docker_per_te.Prelude.{or_else, ◌≡◌, refl, String, get}
use ctf_plugin_docker_per_te.Result.{ok}
use ctf_plugin_docker_per_te.Migrations.{
  Schema, Op, IsOp, upgrade_indexes, hostname_column, wanted_info_indexes, wanted_info_uniques,
  wanted_flag_indexes,
}
use ctf_plugin_docker_per_te.Migrations.Completed.{
  completed, get-completed, completing, completing_again,
}

abbrev completed_schema : Schema → Schema
completed_schema s = record s {
  info_columns = completed hostname_column s.info_columns;
  info_indexes = completed wanted_info_indexes s.info_indexes;
  info_uniques = completed wanted_info_uniques s.info_uniques;
  flag_indexes = completed wanted_flag_indexes s.flag_indexes;
}

module _ (op : Op) (is_op : IsOp op) where
  upgrade_completes : (s : Schema) → upgrade_indexes op s ≡ ok (completed_schema s)
  unfolding upgrade_indexes
  upgrade_completes s =
      rw
        (
          completing op is_op hostname_column s.info_columns refl,
          completing op is_op wanted_info_indexes s.info_indexes refl,
          completing op is_op wanted_info_uniques s.info_uniques refl,
          completing op is_op wanted_flag_indexes s.flag_indexes refl,
        )
        refl

  upgrade_repeats : (s : Schema) → upgrade_indexes op (completed_schema s) ≡ ok (completed_schema s)
  unfolding upgrade_indexes
  upgrade_repeats s =
      rw
        (
          completing_again op is_op hostname_column s.info_columns refl (refl, tt),
          completing_again op is_op wanted_info_indexes s.info_indexes refl
              (refl, (refl, (refl, (refl, tt)))),
          completing_again op is_op wanted_info_uniques s.info_uniques refl (refl, (refl, tt)),
          completing_again op is_op wanted_flag_indexes s.flag_indexes refl
              (refl, (refl, (refl, tt))),
        )
        refl

  -- What was there is as it was, what was wanted is there, and the upgrade can be made again.
  pub record IsUpgraded (s s' : Schema) : Type 0 where
    pub columns :
        (name : String)
        → get s'.info_columns name ≡ or_else (get s.info_columns name) (get hostname_column name)
    pub info_indexes :
        (name : String)
        → get s'.info_indexes name
          ≡ or_else (get s.info_indexes name) (get wanted_info_indexes name)
    pub info_uniques :
        (name : String)
        → get s'.info_uniques name
          ≡ or_else (get s.info_uniques name) (get wanted_info_uniques name)
    pub flag_indexes :
        (name : String)
        → get s'.flag_indexes name
          ≡ or_else (get s.flag_indexes name) (get wanted_flag_indexes name)
    pub challenge_columns : s'.challenge_columns ≡ s.challenge_columns
    pub cheat_keys : s'.cheat_keys ≡ s.cheat_keys
    pub again : upgrade_indexes op s' ≡ ok s'

  -- If creating a name that is not there adds it, the upgrade always returns: what was there stays as it was, each missing column, index and
  -- constraint is added with its columns, and a second upgrade changes nothing.
  pub upgrade-IsUpgraded :
      (s : Schema) → (s' : Schema) × (upgrade_indexes op s ≡ ok s') × IsUpgraded s s'
  upgrade-IsUpgraded s = (
    completed_schema s,
    upgrade_completes s,
    record {
      columns = get-completed hostname_column s.info_columns;
      info_indexes = get-completed wanted_info_indexes s.info_indexes;
      info_uniques = get-completed wanted_info_uniques s.info_uniques;
      flag_indexes = get-completed wanted_flag_indexes s.flag_indexes;
      challenge_columns = refl;
      cheat_keys = refl;
      again = upgrade_repeats s;
    },
  )
