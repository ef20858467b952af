-- ===== src/Policy/Endpoint/Tests.antt =====
-- Runs of `validate_docker_endpoint` of runtime_policy.py.
use Prim.Native.String.{◌++◌}
use ctf_plugin_docker_per_te.Prelude.{String, ◌≡◌, refl, inl, Bool, true, some}
use ctf_plugin_docker_per_te.Result.{ok, err}
use ctf_plugin_docker_per_te.Text.{strip, is_space}
use ctf_plugin_docker_per_te.Policy.Errors
use ctf_plugin_docker_per_te.Policy.Identity.{RuntimeIdentity}
use ctf_plugin_docker_per_te.Policy.Identity.Tests.{local_identity}
use ctf_plugin_docker_per_te.Policy.Endpoint.{
  split_url, validate_docker_endpoint, validate_ssh_endpoint, is_malformed,
}
use ctf_plugin_docker_per_te.Policy.Endpoint.Accepts.{IsKeyLogin, enforced_endpoint}

abbrev any_netloc : String → Bool
any_netloc s = true

abbrev staging : RuntimeIdentity
staging = record local_identity { target_id = "staging" }

socket_is_local :
    (validate_docker_endpoint any_netloc (some "unix:///var/run/docker.sock") local_identity
      ≡ ok "unix:///var/run/docker.sock")
    × (validate_docker_endpoint any_netloc (some "unix:///var/run/docker.sock") staging
        ≡ err Errors.endpoint_not_ssh)
unfolding validate_docker_endpoint strip is_space
socket_is_local = (refl, refl)

ssh_is_accepted :
    validate_docker_endpoint any_netloc (some "ssh://ctf@worker:22/") staging
    ≡ ok "ssh://ctf@worker:22/"
unfolding validate_docker_endpoint validate_ssh_endpoint split_url is_malformed strip is_space
ssh_is_accepted = refl

enforced_endpoint_example :
    (rest : String) × ("ssh://ctf@worker:22/" ≡ "ssh://" ++ rest) × IsKeyLogin (split_url rest)
enforced_endpoint_example =
    enforced_endpoint any_netloc (some "ssh://ctf@worker:22/") staging "ssh://ctf@worker:22/"
      (inl refl) ssh_is_accepted

password_is_refused :
    validate_docker_endpoint any_netloc (some "ssh://ctf:pw@worker") staging
    ≡ err Errors.endpoint_malformed
unfolding validate_docker_endpoint validate_ssh_endpoint split_url is_malformed strip is_space
password_is_refused = refl
