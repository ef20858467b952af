-- ===== src/Manager/Containers/Steady.antt =====
-- container_manager.py: the database while a container is looked at.
use ctf_plugin_docker_per_te.Prelude.{String, Bool}
use ctf_plugin_docker_per_te.Policy.Hardening.{Floats}
use ctf_plugin_docker_per_te.Manager.{
  Fault, container_exception, docker, not_found, image_not_found, api_error, docker_error,
  timed_out, ssh_error, auth_error, transport_error, integrity_error, other_exception, value_error,
  cut_off, Docker,
}
use ctf_plugin_docker_per_te.Manager.Steady.{IsSteady, steady_rules}
use ctf_plugin_docker_per_te.Manager.Connection.Steady.{run_command-IsSteady}
use ctf_plugin_docker_per_te.Manager.Containers.{absent, get_owned_container, get_container_port}

module _ {D : Type 0} (dock : Docker D) where
  absent-IsSteady : (e : Fault) → IsSteady (absent dock e)
  absent-IsSteady (docker image_not_found) = search steady_rules
  absent-IsSteady (docker not_found) = search steady_rules
  absent-IsSteady (docker api_error) = search steady_rules
  absent-IsSteady (docker docker_error) = search steady_rules
  absent-IsSteady (docker timed_out) = search steady_rules
  absent-IsSteady (docker ssh_error) = search steady_rules
  absent-IsSteady (docker auth_error) = search steady_rules
  absent-IsSteady (docker transport_error) = search steady_rules
  absent-IsSteady (container_exception e) = search steady_rules
  absent-IsSteady integrity_error = search steady_rules
  absent-IsSteady other_exception = search steady_rules
  absent-IsSteady value_error = search steady_rules
  absent-IsSteady cut_off = search steady_rules

  pub get_owned_container-IsSteady :
      (container_id : String) → IsSteady (get_owned_container dock container_id)
  unfolding get_owned_container
  get_owned_container-IsSteady container_id = search (steady_rules, absent-IsSteady) depth 30

  pub get_container_port-IsSteady :
      (floats : Floats) (netloc_ok : String → Bool) (container_id : String)
      → IsSteady (get_container_port dock floats netloc_ok container_id)
  unfolding get_container_port
  get_container_port-IsSteady floats netloc_ok container_id =
      search (steady_rules, run_command-IsSteady, get_owned_container-IsSteady) depth 30
