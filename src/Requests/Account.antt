-- ===== src/Requests/Account.antt =====
-- helpers.py: `get_current_user_or_team` and `validate_request`.
use ctf_plugin_docker_per_te.Prelude.{
  ℕ, String, Bool, true, false, Option, none, some, List, [], ◌∷◌, Dict,
}
use ctf_plugin_docker_per_te.Result.{Result, ok, err}
use ctf_plugin_docker_per_te.Models.{User}
use ctf_plugin_docker_per_te.Manager.Connection.{setting}

-- The `ValueError`s of the two helpers below.
pub data RequestError : Type 0 where
  user_not_found not_in_team invalid_request : RequestError
  missing_field : String → RequestError

-- `get_current_user_or_team`
unfoldable pub get_current_user_or_team : Bool → Option User → Result RequestError ℕ
get_current_user_or_team is_team none = err user_not_found
get_current_user_or_team false (some user) = ok user.id
get_current_user_or_team true (some user) = elim user.team_id [
  | none ↦ err not_in_team
  | some team ↦ ok team
]

abbrev check_fields : Dict (Option String) → List String → Result RequestError Unit
check_fields json_data [] = ok tt
check_fields json_data (field ∷ fields) =
    let rest = check_fields json_data fields in
    elim (setting json_data field) [ none ↦ err (missing_field field) | some _ ↦ rest ]

-- `validate_request`
unfoldable pub validate_request :
    Option (Dict (Option String)) → List String → Result RequestError Unit
validate_request none required_fields = err invalid_request
validate_request (some json_data) required_fields = check_fields json_data required_fields
