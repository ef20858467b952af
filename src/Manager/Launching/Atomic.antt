-- ===== src/Manager/Launching/Atomic.antt =====
-- container_manager.py: the database after a `create_container` that raises.
use ctf_plugin_docker_per_te.Prelude.{
  ◌≡◌, refl, sym, ap, ℕ, String, Bool, true, false, Option, none, some, any, if◌then◌else◌,
}
use ctf_plugin_docker_per_te.Models.{Challenge, ContainerInfo, commit}
use ctf_plugin_docker_per_te.Policy.Hardening.{Floats}
use ctf_plugin_docker_per_te.Result.{Result, err}
use ctf_plugin_docker_per_te.Manager.{
  World, note_kill, Fault, ◌>>◌, raise, set_session, container_exception, docker, not_found,
  image_not_found, api_error, docker_error, timed_out, ssh_error, auth_error, transport_error,
  integrity_error, other_exception, value_error, cut_off, Docker,
}
use ctf_plugin_docker_per_te.Manager.Steady.{
  IsSteady, IsAtomic, steady_rules, bind-IsAtomic, try-IsAtomic, then_return-IsAtomic,
}
use ctf_plugin_docker_per_te.Manager.Connection.Steady.{
  lift-IsSteady, validate_live_runtime_boundary-IsSteady, run_command-IsAtomic,
}
use ctf_plugin_docker_per_te.Manager.Containers.Steady.{get_container_port-IsSteady}
use ctf_plugin_docker_per_te.Manager.Startup.Steady.{
  validate_image_contract-IsSteady, wait_until_healthy-IsSteady,
}
use ctf_plugin_docker_per_te.Manager.Options.{Json}
use ctf_plugin_docker_per_te.Manager.Options.Steady.{mounted_volumes-IsSteady, choose_flag-IsSteady}
use ctf_plugin_docker_per_te.Flags.{add_flag}
use ctf_plugin_docker_per_te.Manager.Launching.{
  known_port, commit_info, roll_back, not_launched, discard, abandoned, with_rows, clashes, prepare,
  record_launch, create_container_steps, create_container,
}

module _ {D : Type 0} where
  known_port-IsSteady : (port : Option String) → IsSteady {D = D} (known_port port)
  known_port-IsSteady none = search steady_rules
  known_port-IsSteady (some port) = search steady_rules

  roll_back-IsSteady : IsSteady {D = D} roll_back
  roll_back-IsSteady = record { at = λ w. refl }

  note_kill-IsSteady : (id : String) → IsSteady {D = D} (note_kill id)
  note_kill-IsSteady id = record { at = λ w. refl }

  -- A refused commit leaves the database as it is.
  commit_info-IsAtomic : (info : ContainerInfo) → IsAtomic {D = D} (commit_info info)
  unfolding add_flag
  commit_info-IsAtomic info = record {
    failed = λ w w' e h. go w w' e (any (clashes info) w.session.view.infos) h;
  }
    where
      go :
          (w w' : World D) (e : Fault) (clash : Bool)
          → (if clash
                then set_session (with_rows info w.session) >> raise integrity_error
                else set_session (commit (with_rows info w.session)))
              w
            ≡ (err e, w')
          → w'.session.saved ≡ w.session.saved
      go w w' e true h = ap (λ (r : Result Fault Unit × World D). r.1.session.saved) (sym h)
      go w w' e false h = cc h

  not_launched-IsSteady : (e : Fault) → IsSteady {D = D} (not_launched e)
  not_launched-IsSteady (docker image_not_found) = search (steady_rules, roll_back-IsSteady)
  not_launched-IsSteady (docker not_found) = search (steady_rules, roll_back-IsSteady)
  not_launched-IsSteady (docker api_error) = search (steady_rules, roll_back-IsSteady)
  not_launched-IsSteady (docker docker_error) = search steady_rules
  not_launched-IsSteady (docker timed_out) = search steady_rules
  not_launched-IsSteady (docker ssh_error) = search steady_rules
  not_launched-IsSteady (docker auth_error) = search steady_rules
  not_launched-IsSteady (docker transport_error) = search steady_rules
  not_launched-IsSteady (container_exception e) = search (steady_rules, roll_back-IsSteady)
  not_launched-IsSteady integrity_error = search steady_rules
  not_launched-IsSteady other_exception = search steady_rules
  not_launched-IsSteady value_error = search steady_rules
  not_launched-IsSteady cut_off = search steady_rules

module _ {D : Type 0} (floats : Floats) (netloc_ok : String → Bool) (json : Json)
    (dock : Docker D) where
  discard-IsSteady : (id : String) → IsSteady (discard floats netloc_ok json dock id)
  discard-IsSteady id = search (steady_rules, note_kill-IsSteady) depth 30

  ruleset handler_rules = (steady_rules, roll_back-IsSteady, discard-IsSteady)

  abandoned-IsSteady :
      (id : String) (e : Fault) → IsSteady (abandoned floats netloc_ok json dock id e)
  abandoned-IsSteady id (docker image_not_found) = search handler_rules
  abandoned-IsSteady id (docker not_found) = search handler_rules
  abandoned-IsSteady id (docker api_error) = search handler_rules
  abandoned-IsSteady id (docker docker_error) = search handler_rules
  abandoned-IsSteady id (docker timed_out) = search handler_rules
  abandoned-IsSteady id (docker ssh_error) = search handler_rules
  abandoned-IsSteady id (docker auth_error) = search handler_rules
  abandoned-IsSteady id (docker transport_error) = search handler_rules
  abandoned-IsSteady id (container_exception e) = search handler_rules
  abandoned-IsSteady id integrity_error = search handler_rules
  abandoned-IsSteady id other_exception = search handler_rules
  abandoned-IsSteady id value_error = search handler_rules
  abandoned-IsSteady id cut_off = search handler_rules

  module _ (challenge : Challenge) (xid : ℕ) (is_team : Bool) where
    prepare-IsSteady : IsSteady (prepare floats netloc_ok json dock challenge xid is_team)
    unfolding prepare
    prepare-IsSteady =
        search
          (
            steady_rules, lift-IsSteady, validate_live_runtime_boundary-IsSteady,
            validate_image_contract-IsSteady, choose_flag-IsSteady, mounted_volumes-IsSteady,
          )
          depth 40

    record_launch-IsAtomic :
        (flag id : String)
        → IsAtomic (record_launch floats netloc_ok json dock challenge xid is_team flag id)
    unfolding record_launch
    record_launch-IsAtomic flag id =
        search
          (
            steady_rules, bind-IsAtomic, then_return-IsAtomic, commit_info-IsAtomic,
            known_port-IsSteady, wait_until_healthy-IsSteady, get_container_port-IsSteady,
          )
          depth 40

    pub steps-IsAtomic :
        IsAtomic (create_container_steps floats netloc_ok json dock challenge xid is_team)
    unfolding create_container_steps
    steps-IsAtomic =
        search
          (
            steady_rules, bind-IsAtomic, try-IsAtomic, prepare-IsSteady, not_launched-IsSteady,
            record_launch-IsAtomic, abandoned-IsSteady,
          )
          depth 40

    -- When a launch raises, whatever was raised and at whatever step, the committed database is
    -- what it was before: no info row and no flag is committed for a container that was not handed
    -- out.
    pub create_container-failed :
        (w w' : World D) (e : Fault)
        → create_container floats netloc_ok json dock challenge xid is_team w ≡ (err e, w')
        → w'.session.saved ≡ w.session.saved
    unfolding create_container
    create_container-failed w w' e h =
        (run_command-IsAtomic floats netloc_ok dock _ steps-IsAtomic).failed w w' e h
