-- ===== src/ChallengeType/Store.antt =====
-- __init__.py: `ContainerChallenge.read`, `create` and `update`, over the columns of a challenge.
pub mod Created
use ctf_plugin_docker_per_te.Prelude.{
  String, true, false, Option, none, some, List, [], ◌∷◌, ◌++◌, map, Dict, get, put,
}
use ctf_plugin_docker_per_te.Text.Numbers.{ℤ}
use ctf_plugin_docker_per_te.Result.{Result, ok, err, ◌>>=◌}
use ctf_plugin_docker_per_te.Policy.Hardening.{Settings}
use ctf_plugin_docker_per_te.Manager.Options.{Json}
use ctf_plugin_docker_per_te.ChallengeType.{
  Value, text, number, PayloadError, normalize_challenge_payload,
}

-- The columns that `read` shows, `type_data` apart.
abbrev pub shown_columns : List String
shown_columns =
    "id" ∷ "name" ∷ "value" ∷ "image" ∷ "port" ∷ "command" ∷ "volumes" ∷ "capabilities"
    ∷ "connection_type" ∷ "initial" ∷ "decay" ∷ "minimum" ∷ "description" ∷ "connection_info"
    ∷ "category" ∷ "state" ∷ "max_attempts" ∷ "flag_mode" ∷ "flag_prefix" ∷ "flag_suffix"
    ∷ "random_flag_length" ∷ "type" ∷ []

-- What the class takes from settings.json.
pub record TypeData : Type 0 where
  pub id : String
  pub name : String
  pub templates : Dict String
  pub scripts : Dict String

-- `read`: each column with its value, NULL being `none`
unfoldable pub read : TypeData → Dict Value → Dict (Option Value) × TypeData
read type_data challenge = (map (λ column. (column, get challenge column)) shown_columns, type_data)

-- The rows of the challenges: what queries see, and what is committed.
pub record Rows : Type 0 where
  pub view : List (Dict Value)
  pub saved : List (Dict Value)

-- The defaults of the columns.
abbrev pub column_defaults : Dict Value
column_defaults =
    ("command", text "")
    ∷ ("volumes", text "")
    ∷ ("capabilities", text "")
    ∷ ("initial", number (ℤ.pos 0))
    ∷ ("minimum", number (ℤ.pos 0))
    ∷ ("decay", number (ℤ.pos 0))
    ∷ ("flag_mode", text "static")
    ∷ ("random_flag_length", number (ℤ.pos 10))
    ∷ ("flag_prefix", text "")
    ∷ ("flag_suffix", text "")
    ∷ []

abbrev put_missing : Dict Value → String × Value → Option Value → Dict Value
put_missing row (column, value) none = put row column value
put_missing row (column, value) (some _) = row

abbrev pub with_defaults : Dict Value → Dict Value → Dict Value
with_defaults row [] = row
with_defaults row ((column, value) ∷ defaults) =
    with_defaults (put_missing row (column, value) (get row column)) defaults

abbrev value_or_zero : Option Value → Value
value_or_zero none = number (ℤ.pos 0)
value_or_zero (some v) = v

-- `ContainerChallengeModel(**kwargs)`: the value starts as the initial one
abbrev pub new_row : Dict Value → Dict Value
new_row kwargs = put kwargs "value" (value_or_zero (get kwargs "initial"))

-- `for attr, value in normalized.items(): setattr(challenge, attr, value)`
abbrev pub set_all : Dict Value → Dict Value → Dict Value
set_all challenge [] = challenge
set_all challenge ((attr, value) ∷ items) = set_all (put challenge attr value) items

module _ (json : Json) (settings : Settings) (inherited : List String) where
  abbrev stored : Rows → Result PayloadError (Dict Value) → Result PayloadError (Dict Value) × Rows
  stored rows (err e) = (err e, rows)
  stored rows (ok normalized) =
      let challenge = with_defaults (new_row normalized) column_defaults in
      let all = rows.view ++ challenge ∷ [] in (ok challenge, record { view = all; saved = all })

  -- `create`
  unfoldable pub create : Dict Value → Rows → Result PayloadError (Dict Value) × Rows
  create items rows = stored rows (normalize_challenge_payload json settings inherited true items)

  -- `update` of a challenge, before `calculate_value`
  unfoldable pub update : Dict Value → Dict Value → Result PayloadError (Dict Value)
  update challenge items =
      normalize_challenge_payload json settings inherited false items >>= λ normalized.
      ok (set_all challenge normalized)
