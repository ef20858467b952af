-- ===== src/ChallengeType/Tests.antt =====
-- Payloads of challenges, and an attempt.
use ctf_plugin_docker_per_te.Prelude.{
  ℕ, ◌≡◌, refl, String, true, false, some, List, [], ◌∷◌, All, Dict,
}
use ctf_plugin_docker_per_te.Result.{ok, err}
use ctf_plugin_docker_per_te.Text.{strip, is_space, lower, upper, split}
use ctf_plugin_docker_per_te.Text.Numbers.{ℤ, int}
use ctf_plugin_docker_per_te.Policy.Hardening.{Settings}
use ctf_plugin_docker_per_te.Manager.Options.{parse_capabilities_value}
use ctf_plugin_docker_per_te.Models.Queries.{find_account_info}
use ctf_plugin_docker_per_te.Flags.{get_xid_and_flag, get_container_flag, mark_used}
use ctf_plugin_docker_per_te.Flags.Tests.{web_challenge, red_player}
use ctf_plugin_docker_per_te.Manager.{World}
use ctf_plugin_docker_per_te.Requests.Tests.{eager_runtime}
use ctf_plugin_docker_per_te.ChallengeType.Attempt.{attempt}
use ctf_plugin_docker_per_te.ChallengeType.Attempt.Outcome.{IsCorrect, attempt-IsCorrect}
use ctf_plugin_docker_per_te.Manager.Samples.{no_json, red_world}
use ctf_plugin_docker_per_te.ChallengeType.{
  Value, text, number, raise_first, check_options, normalize_value, normalize_items, is_allowed,
  normalize_challenge_payload, missing_fields,
}
use ctf_plugin_docker_per_te.ChallengeType.Ranges.{InRange}
use ctf_plugin_docker_per_te.ChallengeType.Accepted.{IsPermitted, payload-accepted}
use ctf_plugin_docker_per_te.ChallengeType.RoundTrip.{resubmitted}
use ctf_plugin_docker_per_te.ChallengeType.Store.{create, with_defaults, new_row, column_defaults}
use ctf_plugin_docker_per_te.ChallengeType.Store.Created.{IsCreated, create-IsCreated}

abbrev ctfd_columns : List String
ctfd_columns = "name" ∷ "category" ∷ "description" ∷ "state" ∷ "type" ∷ "value" ∷ []

abbrev net_raw : Settings
net_raw = ("allowed_capabilities", some "NET_RAW") ∷ []

-- A form, as a browser sends it.
abbrev form : Dict Value
form =
    ("name", text " Web ")
    ∷ ("nonce", text "0")
    ∷ ("category", text "web")
    ∷ ("description", text "find it")
    ∷ ("state", text "visible")
    ∷ ("type", text "container")
    ∷ ("image", text "registry.example/web:1 ")
    ∷ ("port", text "8080")
    ∷ ("connection_type", text "Web")
    ∷ ("initial", text "500")
    ∷ ("minimum", text "100")
    ∷ ("decay", text "20")
    ∷ ("flag_mode", text "random")
    ∷ ("capabilities", text " net_raw")
    ∷ []

abbrev normal_form : Dict Value
normal_form =
    ("name", text "Web")
    ∷ ("category", text "web")
    ∷ ("description", text "find it")
    ∷ ("state", text "visible")
    ∷ ("type", text "container")
    ∷ ("image", text "registry.example/web:1")
    ∷ ("port", number (ℤ.pos 8080))
    ∷ ("connection_type", text "web")
    ∷ ("initial", number (ℤ.pos 500))
    ∷ ("minimum", number (ℤ.pos 100))
    ∷ ("decay", number (ℤ.pos 20))
    ∷ ("flag_mode", text "random")
    ∷ ("capabilities", text "net_raw")
    ∷ []

payload-accepted_example :
    InRange true normal_form
    × IsPermitted no_json net_raw normal_form
    × All (λ e. is_allowed no_json net_raw ctfd_columns e.0 ≡ true) normal_form
unfolding normalize_challenge_payload normalize_items normalize_value raise_first check_options
    parse_capabilities_value strip is_space lower upper split int
payload-accepted_example = payload-accepted no_json net_raw ctfd_columns true form normal_form refl

resubmitted_example :
    normalize_challenge_payload no_json net_raw ctfd_columns false normal_form ≡ ok normal_form
unfolding normalize_challenge_payload normalize_items normalize_value raise_first check_options
    parse_capabilities_value strip is_space lower upper split int
resubmitted_example =
    resubmitted no_json net_raw ctfd_columns true form normal_form
      (
        refl,
        (
          refl,
          (
            refl,
            (
              refl,
              (refl, (refl, (refl, (refl, (refl, (refl, (refl, (refl, (refl, (refl, tt)))))))))),
            ),
          ),
        ),
      )
      (λ e. cc e) refl

abbrev web_row : Dict Value
web_row = with_defaults (new_row normal_form) column_defaults

create-IsCreated_example :
    IsCreated no_json net_raw ctfd_columns form web_row
      (record { view = []; saved = [] })
      (record { view = web_row ∷ []; saved = web_row ∷ [] })
unfolding create normalize_challenge_payload normalize_items normalize_value raise_first
    check_options parse_capabilities_value strip is_space lower upper split int
create-IsCreated_example =
    create-IsCreated no_json net_raw ctfd_columns form web_row (record { view = []; saved = [] })
      (record { view = web_row ∷ []; saved = web_row ∷ [] }) refl

-- An initial value of zero counts as missing when the challenge is created.
zero_is_missing :
    normalize_challenge_payload no_json net_raw ctfd_columns true
      (("name", text "Web") ∷ ("initial", text "0") ∷ [])
    ≡ err (
        missing_fields (
          "category" ∷ "connection_type" ∷ "decay" ∷ "description" ∷ "flag_mode" ∷ "image"
          ∷ "initial" ∷ "minimum" ∷ "port" ∷ "state" ∷ "type" ∷ []))
unfolding normalize_challenge_payload normalize_items normalize_value raise_first check_options
    parse_capabilities_value strip is_space lower upper split int
zero_is_missing = refl

-- The team's own flag, with or without spaces, while its container runs.
abbrev attempted : World ℕ
attempted =
    (attempt eager_runtime (λ flag. "digest") true (some red_player) (some " CTF{ab}") web_challenge
      true red_world).1

attempt-IsCorrect_example :
    IsCorrect eager_runtime
      (λ flag. "digest")
      true
      (some red_player)
      (some " CTF{ab}")
      web_challenge
      red_world
      attempted
unfolding attempt get_xid_and_flag get_container_flag mark_used find_account_info strip is_space
attempt-IsCorrect_example =
    attempt-IsCorrect eager_runtime (λ flag. "digest") true (some red_player) (some " CTF{ab}")
      web_challenge true red_world attempted refl
