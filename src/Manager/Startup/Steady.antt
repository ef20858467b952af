-- ===== src/Manager/Startup/Steady.antt =====
-- container_manager.py: the database during the checks of a launch.
use ctf_plugin_docker_per_te.Prelude.{ℕ, zero, suc, String, Option, none, some}
use ctf_plugin_docker_per_te.Models.{Challenge, ContainerFlag}
use ctf_plugin_docker_per_te.Manager.{
  Fault, container_exception, docker, not_found, image_not_found, api_error, docker_error,
  timed_out, ssh_error, auth_error, transport_error, integrity_error, other_exception, value_error,
  cut_off, Container, Docker, Action,
}
use ctf_plugin_docker_per_te.Manager.Steady.{IsSteady, steady_rules}
use ctf_plugin_docker_per_te.Manager.Startup.{
  missing_image, validate_image_contract, judge, look, one_more, try_flag, wait_loop,
  wait_until_healthy, random_part, generate_random_flag, unless_taken, try_flags,
  generate_unique_random_flag,
}

module _ {D : Type 0} (dock : Docker D) where
  missing_image-IsSteady : (e : Fault) → IsSteady (missing_image dock e)
  missing_image-IsSteady (docker image_not_found) = search steady_rules
  missing_image-IsSteady (docker not_found) = search steady_rules
  missing_image-IsSteady (docker api_error) = search steady_rules
  missing_image-IsSteady (docker docker_error) = search steady_rules
  missing_image-IsSteady (docker timed_out) = search steady_rules
  missing_image-IsSteady (docker ssh_error) = search steady_rules
  missing_image-IsSteady (docker auth_error) = search steady_rules
  missing_image-IsSteady (docker transport_error) = search steady_rules
  missing_image-IsSteady (container_exception e) = search steady_rules
  missing_image-IsSteady integrity_error = search steady_rules
  missing_image-IsSteady other_exception = search steady_rules
  missing_image-IsSteady value_error = search steady_rules
  missing_image-IsSteady cut_off = search steady_rules

  pub validate_image_contract-IsSteady :
      (challenge : Challenge) → IsSteady (validate_image_contract dock challenge)
  unfolding validate_image_contract
  validate_image_contract-IsSteady challenge =
      search (steady_rules, missing_image-IsSteady) depth 30

  judge-IsSteady : (container : Container) → IsSteady (judge dock container)
  unfolding judge
  judge-IsSteady container = search steady_rules depth 30

  look-IsSteady :
      (again : Action D Unit) (deadline : ℕ) (container_id : String)
      → IsSteady again
      → IsSteady (look dock again deadline container_id)
  look-IsSteady again deadline container_id k = search (steady_rules, judge-IsSteady) depth 30

  wait_loop-IsSteady :
      (fuel deadline : ℕ) (container_id : String)
      → IsSteady (wait_loop dock fuel deadline container_id)
  unfolding wait_loop
  wait_loop-IsSteady zero deadline container_id = search steady_rules
  wait_loop-IsSteady (suc fuel) deadline container_id =
      look-IsSteady _ deadline container_id (wait_loop-IsSteady fuel deadline container_id)

  pub wait_until_healthy-IsSteady :
      (container_id : String) → IsSteady (wait_until_healthy dock container_id)
  unfolding wait_until_healthy
  wait_until_healthy-IsSteady container_id = search (steady_rules, wait_loop-IsSteady) depth 30

  one_more-IsSteady : (others : Action D String) → IsSteady others → IsSteady (one_more dock others)
  one_more-IsSteady others k = search steady_rules depth 30

  random_part-IsSteady : (n : ℕ) → IsSteady (random_part dock n)
  random_part-IsSteady zero = search steady_rules
  random_part-IsSteady (suc n) = one_more-IsSteady _ (random_part-IsSteady n)

  generate_random_flag-IsSteady :
      (challenge : Challenge) → IsSteady (generate_random_flag dock challenge)
  unfolding generate_random_flag
  generate_random_flag-IsSteady challenge = search (steady_rules, random_part-IsSteady) depth 30

  unless_taken-IsSteady :
      (flag : String) (again : Action D String)
      → IsSteady again
      → (found : Option ContainerFlag) → IsSteady (unless_taken dock flag again found)
  unless_taken-IsSteady flag again k none = search steady_rules
  unless_taken-IsSteady flag again k (some f) = k

  try_flag-IsSteady :
      (again : Action D String) (challenge : Challenge)
      → IsSteady again
      → IsSteady (try_flag dock again challenge)
  try_flag-IsSteady again challenge k =
      search (steady_rules, generate_random_flag-IsSteady, unless_taken-IsSteady) depth 30

  try_flags-IsSteady : (n : ℕ) (challenge : Challenge) → IsSteady (try_flags dock n challenge)
  unfolding try_flags
  try_flags-IsSteady zero challenge = search steady_rules
  try_flags-IsSteady (suc n) challenge =
      try_flag-IsSteady _ challenge (try_flags-IsSteady n challenge)

  pub generate_unique_random_flag-IsSteady :
      (challenge : Challenge) → IsSteady (generate_unique_random_flag dock challenge)
  unfolding generate_unique_random_flag
  generate_unique_random_flag-IsSteady challenge = try_flags-IsSteady 10 challenge
