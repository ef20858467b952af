-- ===== src/Manager/Options/Steady.antt =====
-- container_manager.py: the database while the flag, volumes and capabilities are chosen.
use ctf_plugin_docker_per_te.Prelude.{String, Option, none, some}
use ctf_plugin_docker_per_te.Models.{Challenge}
use ctf_plugin_docker_per_te.Policy.Hardening.{Settings}
use ctf_plugin_docker_per_te.Manager.{Docker}
use ctf_plugin_docker_per_te.Manager.Steady.{IsSteady, steady_rules}
use ctf_plugin_docker_per_te.Manager.Connection.Steady.{lift-IsSteady}
use ctf_plugin_docker_per_te.Manager.Startup.Steady.{generate_unique_random_flag-IsSteady}
use ctf_plugin_docker_per_te.Manager.Options.{
  Json, VolumesJson, not_json, not_object, mappings, parsed_volumes, given_volumes, mounted_volumes,
  choose_flag,
}

module _ {D : Type 0} where
  parsed_volumes-IsSteady :
      (text : String) (found : VolumesJson) → IsSteady {D = D} (parsed_volumes text found)
  parsed_volumes-IsSteady text not_json = search steady_rules
  parsed_volumes-IsSteady text not_object = search steady_rules
  parsed_volumes-IsSteady text (mappings volumes) = search (steady_rules, lift-IsSteady)

  given_volumes-IsSteady :
      (json : Json) (settings : Settings) (volumes : Option String)
      → IsSteady {D = D} (given_volumes json settings volumes)
  given_volumes-IsSteady json settings none = search steady_rules
  given_volumes-IsSteady json settings (some text) =
      search (steady_rules, parsed_volumes-IsSteady) depth 30

  pub mounted_volumes-IsSteady :
      (json : Json) (settings : Settings) (volumes : Option String)
      → IsSteady {D = D} (mounted_volumes json settings volumes)
  unfolding mounted_volumes
  mounted_volumes-IsSteady json settings volumes = given_volumes-IsSteady json settings _

  pub choose_flag-IsSteady :
      (dock : Docker D) (challenge : Challenge) → IsSteady (choose_flag dock challenge)
  unfolding choose_flag
  choose_flag-IsSteady dock challenge =
      search (steady_rules, generate_unique_random_flag-IsSteady) depth 30
