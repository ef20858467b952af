-- ===== src/Admin/Routes/Saved.antt =====
-- admin_routes.py: which settings `route_update_settings` saves.
use ctf_plugin_docker_per_te.Prelude.{
  ℕ, ◌<◌, ◌*◌, ◌≡◌, refl, sym, ap, subst, ◌∙◌, String, Bool, ◌==◌, eq_iff, none, [], ◌∷◌, ◌++◌, All,
  Dict, get, put, get-put, or_else, Distinct, Bool-cases, inl, inr,
}
use ctf_plugin_docker_per_te.Result.{Result, ok, err, bind-eq-ok}
use ctf_plugin_docker_per_te.Records.{settings_to_dict}
use ctf_plugin_docker_per_te.Policy.Hardening.{
  Settings, Floats, HardeningProfile, positive_int, positive_float, build_hardening_profile,
}
use ctf_plugin_docker_per_te.Manager.{
  Fault, container_exception, docker, integrity_error, other_exception, value_error, cut_off,
  Docker, World,
}
use ctf_plugin_docker_per_te.Manager.Connection.{get_expiration_seconds}
use ctf_plugin_docker_per_te.Manager.Starting.{validate_settings}
use ctf_plugin_docker_per_te.Manager.Starting.Valid.{IsValid, validate_settings-IsValid}
use ctf_plugin_docker_per_te.ChallengeType.{Value}
use ctf_plugin_docker_per_te.Admin.{
  SettingsError, integer_settings, payload_of, base_fields, advanced_fields,
  normalize_settings_payload,
}
use ctf_plugin_docker_per_te.Admin.Positive.{ReadsPositive}
use ctf_plugin_docker_per_te.Admin.Accepted.{policy-accepts, parts}
use ctf_plugin_docker_per_te.Admin.Routes.{
  UpdateReply, bad_value, invalid, refused, saved_unavailable, crashed, crashed_late, saved,
  refusal, late_reply, stored_settings, store_if_valid, validated, route_update_settings,
}

payload_of-Distinct :
    (form : Dict Value) (defaults : Settings)
    → Distinct (payload_of form defaults (base_fields ++ advanced_fields))
payload_of-Distinct form defaults = (
  refl,
  (
    refl,
    (
      refl,
      (
        refl,
        (refl, (refl, (refl, (refl, (refl, (refl, (refl, (refl, (refl, (refl, (refl, tt))))))))))),
      ),
    ),
  ),
)

-- Storing a payload gives each of its settings its value, and leaves the others alone.
get-stored_settings :
    (payload rows : Settings)
    → Distinct payload
    → (key : String)
    → get (stored_settings payload rows) key ≡ or_else (get payload key) (get rows key)
get-stored_settings [] rows h key = refl
get-stored_settings ((name, value) ∷ payload) rows (fresh, h) key =
    get-stored_settings payload (put rows name value) h key ∙ elim (Bool-cases (name == key)) [
      | inl same ↦
          let absent : get payload key ≡ none =
            ap (get payload) (sym ((eq_iff name key).0 same)) ∙ fresh in
          rw (absent, same) (get-put rows name key value ∙ rw same refl)
      | inr other ↦
          rw other (ap (or_else (get payload key)) (get-put rows name key value ∙ rw other refl))
    ]

cpu_of_profile :
    (floats : Floats) (settings : Settings) (profile : HardeningProfile)
    → build_hardening_profile floats settings ≡ ok profile
    → (x : floats.Float) × (positive_float floats settings "container_maxcpu" floats.one ≡ ok x)
unfolding build_hardening_profile
cpu_of_profile floats settings profile h =
    let (m, e, h1) = bind-eq-ok (positive_int settings "container_maxmemory" 1024) _ h in
    let (x, e', h2) =
      bind-eq-ok (positive_float floats settings "container_maxcpu" floats.one) _ h1 in
    (x, e')

module _ {D : Type 0} (is_ipv6 : String → Bool) (floats : Floats) (netloc_ok : String → Bool)
    (dock : Docker D) (environment : Dict String) (form : Dict Value) (rows : Settings)
    (w : World D) where
  -- Each setting of a payload that the form accepts, that fits the process and whose whole numbers
  -- are positive, has the payload's value, and each other setting has the value that it had.
  pub record IsSaved (rows' : Settings) : Type 0 where
    pub payload : Settings
    pub accepted :
        normalize_settings_payload floats form (settings_to_dict environment rows) ≡ ok payload
    pub rows_lem : (key : String) → get rows' key ≡ or_else (get payload key) (get rows key)
    pub valid : IsValid is_ipv6 floats netloc_ok environment payload
    pub positive : All (ReadsPositive payload) integer_settings
    pub minutes : ℕ
    pub minutes_positive : 0 < minutes
    pub expiration : get_expiration_seconds payload ≡ ok (minutes * 60)

  abbrev pub Outcome : UpdateReply × Settings × World D → Type 0
  Outcome (invalid e, rows', w') =
      (normalize_settings_payload floats form (settings_to_dict environment rows) ≡ err e)
      × (rows' ≡ rows)
      × (w' ≡ w)
  Outcome (refused e, rows', w') = rows' ≡ rows
  Outcome (bad_value, rows', w') = rows' ≡ rows
  Outcome (crashed e, rows', w') = rows' ≡ rows
  Outcome (saved_unavailable e, rows', w') = IsSaved rows'
  Outcome (crashed_late e, rows', w') = IsSaved rows'
  Outcome (saved, rows', w') = IsSaved rows'

  payload-Distinct :
      (payload : Settings)
      → normalize_settings_payload floats form (settings_to_dict environment rows) ≡ ok payload
      → Distinct payload
  payload-Distinct payload accepted =
      let p = parts floats form (settings_to_dict environment rows) payload accepted in
      subst Distinct p.same (payload_of-Distinct form (settings_to_dict environment rows))

  payload-IsSaved :
      (payload : Settings)
      → normalize_settings_payload floats form (settings_to_dict environment rows) ≡ ok payload
      → IsValid is_ipv6 floats netloc_ok environment payload
      → IsSaved (stored_settings payload rows)
  payload-IsSaved payload accepted valid =
      let (x, cpu) = cpu_of_profile floats payload valid.profile valid.profile_lem in
      let (positive, profile, start, expiration) =
        policy-accepts floats form (settings_to_dict environment rows) payload x accepted cpu in
      record {
        payload = payload;
        accepted = accepted;
        rows_lem = get-stored_settings payload rows (payload-Distinct payload accepted);
        valid = valid;
        positive = positive;
        minutes = expiration.0;
        minutes_positive = expiration.1;
        expiration = expiration.2;
      }

  refusal-Outcome : (e : Fault) (w' : World D) → Outcome (refusal e, rows, w')
  refusal-Outcome (container_exception e) w' = refl
  refusal-Outcome (docker e) w' = refl
  refusal-Outcome integrity_error w' = refl
  refusal-Outcome other_exception w' = refl
  refusal-Outcome value_error w' = refl
  refusal-Outcome cut_off w' = refl

  late-Outcome :
      (r : Result Fault Unit) (rows' : Settings) (w' : World D)
      → IsSaved rows'
      → Outcome (late_reply r, rows', w')
  late-Outcome (ok u) rows' w' h = h
  late-Outcome (err (container_exception e)) rows' w' h = h
  late-Outcome (err (docker e)) rows' w' h = h
  late-Outcome (err integrity_error) rows' w' h = h
  late-Outcome (err other_exception) rows' w' h = h
  late-Outcome (err value_error) rows' w' h = h
  late-Outcome (err cut_off) rows' w' h = h

  store-Outcome :
      (payload : Settings)
      → normalize_settings_payload floats form (settings_to_dict environment rows) ≡ ok payload
      → (found : Result Fault Unit × World D)
      → validate_settings is_ipv6 floats netloc_ok dock environment payload w ≡ found
      → Outcome (store_if_valid is_ipv6 floats netloc_ok dock environment payload rows found)
  store-Outcome payload accepted (err e, w1) h = refusal-Outcome e w1
  store-Outcome payload accepted (ok u, w1) h = late-Outcome _ _ _ (
      payload-IsSaved payload accepted
        (validate_settings-IsValid is_ipv6 floats netloc_ok dock environment payload u w w1 h))

  validated-Outcome :
      (found : Result SettingsError Settings)
      → normalize_settings_payload floats form (settings_to_dict environment rows) ≡ found
      → Outcome (validated is_ipv6 floats netloc_ok dock environment rows w found)
  validated-Outcome (err e) h = (h, refl, refl)
  validated-Outcome (ok payload) h = store-Outcome payload h _ refl

  -- The table of settings changes only by the values of a payload that the form accepts and that fits
  -- the process, each setting of it being stored with its value: it makes a hardening profile and a start timeout, its endpoint is accepted, its network is the
  -- process's, and its whole numbers are positive. On every refusal the table stays as it is.
  pub update-Outcome :
      Outcome (route_update_settings is_ipv6 floats netloc_ok dock environment form rows w)
  unfolding route_update_settings
  update-Outcome = validated-Outcome _ refl
