-- ===== src/Manager/Connection/Steady.antt =====
-- container_manager.py: the database while the manager connects and runs a command.
use ctf_plugin_docker_per_te.Prelude.{refl, String, Bool, true, false, Option, none, some}
use ctf_plugin_docker_per_te.Result.{Result, ok, err}
use ctf_plugin_docker_per_te.Policy.Hardening.{Settings, Floats}
use ctf_plugin_docker_per_te.Manager.{
  ManagerError, Fault, container_exception, docker, not_found, image_not_found, api_error,
  docker_error, timed_out, ssh_error, auth_error, transport_error, integrity_error, other_exception,
  value_error, cut_off, Docker, Manager, Action,
}
use ctf_plugin_docker_per_te.Manager.Steady.{
  IsSteady, IsAtomic, steady_rules, bind-IsAtomic, try-IsAtomic, IsSteady-IsAtomic,
}
use ctf_plugin_docker_per_te.Manager.Connection.{
  lift, mark_connection_failure, no_networks, networks_of, get_current_container_networks,
  check_network, network_gone, validate_live_runtime_boundary, apply_settings, connect_daemon,
  connection_fault, reported, report_failure, initialize_connection, reconnect, when_pinged,
  lost_connection, run_command,
}

module _ {D : Type 0} where
  pub lift-IsSteady : {A : Type 0} (r : Result ManagerError A) → IsSteady {D = D} (lift r)
  lift-IsSteady (ok a) = record { at = λ w. refl }
  lift-IsSteady (err e) = record { at = λ w. refl }

module _ {D : Type 0} (floats : Floats) (netloc_ok : String → Bool) (dock : Docker D) where
  no_networks-IsSteady : (e : Fault) → IsSteady (no_networks floats netloc_ok dock e)
  no_networks-IsSteady (docker not_found) = search steady_rules
  no_networks-IsSteady (docker image_not_found) = search steady_rules
  no_networks-IsSteady (docker api_error) = search steady_rules
  no_networks-IsSteady (docker docker_error) = search steady_rules
  no_networks-IsSteady (docker timed_out) = search steady_rules
  no_networks-IsSteady (docker ssh_error) = search steady_rules
  no_networks-IsSteady (docker auth_error) = search steady_rules
  no_networks-IsSteady (docker transport_error) = search steady_rules
  no_networks-IsSteady (container_exception e) = search steady_rules
  no_networks-IsSteady integrity_error = search steady_rules
  no_networks-IsSteady other_exception = search steady_rules
  no_networks-IsSteady value_error = search steady_rules
  no_networks-IsSteady cut_off = search steady_rules

  networks_of-IsSteady : (id : Option String) → IsSteady (networks_of floats netloc_ok dock id)
  networks_of-IsSteady none = search steady_rules
  networks_of-IsSteady (some id) = search (steady_rules, no_networks-IsSteady)

  get_current_container_networks-IsSteady :
      IsSteady (get_current_container_networks floats netloc_ok dock)
  unfolding get_current_container_networks
  get_current_container_networks-IsSteady = networks_of-IsSteady _

  check_network-IsSteady : (m : Manager) → IsSteady (check_network floats netloc_ok dock m)
  check_network-IsSteady m = search (steady_rules, get_current_container_networks-IsSteady)

  network_gone-IsSteady : (e : Fault) → IsSteady (network_gone floats netloc_ok dock e)
  network_gone-IsSteady (docker not_found) = search steady_rules
  network_gone-IsSteady (docker image_not_found) = search steady_rules
  network_gone-IsSteady (docker api_error) = search steady_rules
  network_gone-IsSteady (docker docker_error) = search steady_rules
  network_gone-IsSteady (docker timed_out) = search steady_rules
  network_gone-IsSteady (docker ssh_error) = search steady_rules
  network_gone-IsSteady (docker auth_error) = search steady_rules
  network_gone-IsSteady (docker transport_error) = search steady_rules
  network_gone-IsSteady (container_exception e) = search steady_rules
  network_gone-IsSteady integrity_error = search steady_rules
  network_gone-IsSteady other_exception = search steady_rules
  network_gone-IsSteady value_error = search steady_rules
  network_gone-IsSteady cut_off = search steady_rules

  pub validate_live_runtime_boundary-IsSteady :
      IsSteady (validate_live_runtime_boundary floats netloc_ok dock)
  unfolding validate_live_runtime_boundary
  validate_live_runtime_boundary-IsSteady =
      search (steady_rules, network_gone-IsSteady, check_network-IsSteady) depth 30

  apply_settings-IsSteady :
      (given : Settings) → IsSteady (apply_settings floats netloc_ok dock given)
  apply_settings-IsSteady given = search (steady_rules, lift-IsSteady) depth 30

  connect_daemon-IsSteady :
      (endpoint : String) → IsSteady (connect_daemon floats netloc_ok dock endpoint)
  connect_daemon-IsSteady endpoint = search (steady_rules, check_network-IsSteady) depth 30

  reported-IsSteady :
      (e : Fault) (error : Option ManagerError) → IsSteady (reported floats netloc_ok dock e error)
  unfolding mark_connection_failure
  reported-IsSteady e none = search steady_rules depth 30
  reported-IsSteady e (some error) = search steady_rules depth 30

  report_failure-IsSteady : (e : Fault) → IsSteady (report_failure floats netloc_ok dock e)
  report_failure-IsSteady e = reported-IsSteady e (connection_fault e)

  initialize_connection-IsSteady :
      (settings : Settings) → IsSteady (initialize_connection floats netloc_ok dock settings)
  unfolding initialize_connection
  initialize_connection-IsSteady settings =
      search
        (steady_rules, apply_settings-IsSteady, connect_daemon-IsSteady, report_failure-IsSteady)
        depth 30

  reconnect-IsSteady :
      (m : Manager) (connected : Bool) → IsSteady (reconnect floats netloc_ok dock m connected)
  reconnect-IsSteady m true = search steady_rules depth 30
  reconnect-IsSteady m false = search (steady_rules, initialize_connection-IsSteady) depth 30

  lost_connection-IsSteady :
      {A : Type 0} (e : Fault) → IsSteady (lost_connection floats netloc_ok dock {A = A} e)
  lost_connection-IsSteady (docker not_found) =
      search (steady_rules, initialize_connection-IsSteady) depth 30
  lost_connection-IsSteady (docker image_not_found) =
      search (steady_rules, initialize_connection-IsSteady) depth 30
  lost_connection-IsSteady (docker api_error) =
      search (steady_rules, initialize_connection-IsSteady) depth 30
  lost_connection-IsSteady (docker docker_error) =
      search (steady_rules, initialize_connection-IsSteady) depth 30
  lost_connection-IsSteady (docker ssh_error) =
      search (steady_rules, initialize_connection-IsSteady) depth 30
  lost_connection-IsSteady (docker auth_error) =
      search (steady_rules, initialize_connection-IsSteady) depth 30
  lost_connection-IsSteady (docker transport_error) =
      search (steady_rules, initialize_connection-IsSteady) depth 30
  lost_connection-IsSteady (docker timed_out) =
      search (steady_rules, initialize_connection-IsSteady) depth 30
  lost_connection-IsSteady (container_exception e) = search steady_rules depth 30
  lost_connection-IsSteady integrity_error = search steady_rules depth 30
  lost_connection-IsSteady other_exception = search steady_rules depth 30
  lost_connection-IsSteady value_error = search steady_rules depth 30
  lost_connection-IsSteady cut_off = search steady_rules depth 30

  module _ {A : Type 0} (func : Action D A) where
    when_pinged-IsSteady :
        IsSteady func → (answers : Bool) → IsSteady (when_pinged floats netloc_ok dock func answers)
    when_pinged-IsSteady k true = k
    when_pinged-IsSteady k false = search steady_rules depth 30

    -- The wrapper adds no commit to the call that it makes.
    pub run_command-IsSteady : IsSteady func → IsSteady (run_command floats netloc_ok dock func)
    unfolding run_command
    run_command-IsSteady k =
        search (steady_rules, reconnect-IsSteady, when_pinged-IsSteady, lost_connection-IsSteady)
          depth 30

    when_pinged-IsAtomic :
        IsAtomic func → (answers : Bool) → IsAtomic (when_pinged floats netloc_ok dock func answers)
    when_pinged-IsAtomic k true = k
    when_pinged-IsAtomic k false = search (steady_rules, IsSteady-IsAtomic) depth 30

    pub run_command-IsAtomic : IsAtomic func → IsAtomic (run_command floats netloc_ok dock func)
    unfolding run_command
    run_command-IsAtomic k =
        search
          (
            steady_rules, bind-IsAtomic, try-IsAtomic, reconnect-IsSteady, when_pinged-IsAtomic,
            lost_connection-IsSteady,
          )
          depth 30
