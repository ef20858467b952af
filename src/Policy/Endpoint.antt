-- ===== src/Policy/Endpoint.antt =====
-- `validate_docker_endpoint` of runtime_policy.py, with what it uses of `urllib.parse.urlsplit`.
pub mod Accepts
pub mod Logins
mod Tests
use ctf_plugin_docker_per_te.Prelude.{
  String, Char, code, Bool, true, false, not, ◌&&◌, ◌||◌, ◌==◌, nat_eq, Option, none, some, List,
  [], ◌∷◌, if◌then◌else◌, one_of,
}
use ctf_plugin_docker_per_te.Text.{
  strip, starts_with, is_empty, or_empty, before, after, after_last, before_last, has_char,
  take_until, drop_until, without, drop_prefix,
}
use ctf_plugin_docker_per_te.Result.{Result, ok, err, ◌>>=◌, ◌>>◌, raise_if}
use ctf_plugin_docker_per_te.Policy.Errors.{
  PolicyError, endpoint_missing, endpoint_not_ssh, endpoint_malformed, bad_url,
}
use ctf_plugin_docker_per_te.Policy.Identity.{RuntimeIdentity, egress_enforced_target_ids}

-- What `urlsplit` finds in an `ssh://` text; a part that is missing is empty.
pub record Url : Type 0 where
  pub netloc : String
  pub username : String
  pub password : String
  pub hostname : String
  pub path : String
  pub query : String
  pub fragment : String

-- `urlsplit` leaves these characters out.
abbrev is_unsafe : Char → Bool
is_unsafe c = nat_eq (code c) 9 || nat_eq (code c) 10 || nat_eq (code c) 13

abbrev ends_netloc : Char → Bool
ends_netloc c = nat_eq (code c) b'/' || nat_eq (code c) b'?' || nat_eq (code c) b'#'

abbrev user_info : String → String
user_info netloc = if has_char "@" netloc then before_last "@" netloc else ""

abbrev host_name : String → String
host_name host = if has_char "[" host then before "]" (after "[" host) else before ":" host

-- The parts of `ssh://rest`.
unfoldable pub split_url : String → Url
split_url rest =
    let text = without is_unsafe rest in
    let netloc = take_until ends_netloc text in
    let tail = drop_until ends_netloc text in
    record {
      netloc = netloc;
      username = before ":" (user_info netloc);
      password = after ":" (user_info netloc);
      hostname = host_name (after_last "@" netloc);
      path = before "?" (before "#" tail);
      query = after "?" (before "#" tail);
      fragment = after "#" tail;
    }

-- `not hostname or not username or password or query or fragment or path not in {"", "/"}`
unfoldable pub is_malformed : Url → Bool
is_malformed url =
    is_empty url.hostname
    || is_empty url.username
    || not (is_empty url.password)
    || not (is_empty url.query)
    || not (is_empty url.fragment)
    || not (is_empty url.path || url.path == "/")

-- `netloc_ok` says for which host parts `urlsplit` raises no ValueError: brackets that enclose an IP
-- address, and no character that Unicode normalisation takes for a delimiter.
module _ (netloc_ok : String → Bool) where
  unfoldable pub validate_ssh_endpoint : String → Result PolicyError String
  validate_ssh_endpoint endpoint = do
    let url = split_url (drop_prefix endpoint "ssh://")
    raise_if (not (netloc_ok url.netloc)) bad_url
    raise_if (is_malformed url) endpoint_malformed
    ok endpoint

  unfoldable pub validate_docker_endpoint :
      Option String → RuntimeIdentity → Result PolicyError String
  validate_docker_endpoint value identity =
      let endpoint = strip (or_empty value) in
      if is_empty endpoint
      then err endpoint_missing
      else if identity.target_id == "local" && endpoint == "unix:///var/run/docker.sock"
      then ok endpoint
      else if not (starts_with endpoint "ssh://")
      then (if one_of identity.target_id egress_enforced_target_ids
          then err endpoint_not_ssh
          else ok endpoint)
      else validate_ssh_endpoint endpoint
