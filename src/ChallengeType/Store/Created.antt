-- ===== src/ChallengeType/Store/Created.antt =====
-- What `create` stores.
use ctf_plugin_docker_per_te.Prelude.{
  ◌≡◌, refl, sym, ap, ◌∙◌, ◌&&◌, not, one_of, subst, String, Bool, true, false, ◌==◌, inl, inr,
  Option, none, some, List, [], ◌∷◌, ◌++◌, All, Dict, get, get-put, Bool-cases, Option-cases,
  eq_iff,
}
use ctf_plugin_docker_per_te.Result.{Result, ok, err}
use ctf_plugin_docker_per_te.Policy.Hardening.{Settings}
use ctf_plugin_docker_per_te.Manager.Options.{Json}
use ctf_plugin_docker_per_te.ChallengeType.{
  Value, PayloadError, is_allowed, is_true, normalize_challenge_payload,
}
use ctf_plugin_docker_per_te.ChallengeType.Ranges.{InRange}
use ctf_plugin_docker_per_te.ChallengeType.Accepted.{payload-accepted}
use ctf_plugin_docker_per_te.ChallengeType.Store.{
  Rows, put_missing, with_defaults, value_or_zero, new_row, column_defaults, stored, create,
}

put_missing-keeps :
    (row : Dict Value) (column key : String) (value v : Value)
    → get row key ≡ some v
    → get (put_missing row (column, value) (get row column)) key ≡ some v
put_missing-keeps row column key value v h = elim (Option-cases (get row column)) [
  | inl missing ↦ rw missing (
      get-put row column key value ∙ elim (Bool-cases (column == key)) [
        | inl same ↦ cc (missing, ap (get row) ((eq_iff column key).0 same), h)
        | inr differ ↦ rw differ h
      ])
  | inr (u, there) ↦ rw there h
]

with_defaults-keeps :
    (defaults row : Dict Value) (key : String) (v : Value)
    → get row key ≡ some v
    → get (with_defaults row defaults) key ≡ some v
with_defaults-keeps [] row key v h = h
with_defaults-keeps ((column, value) ∷ defaults) row key v h =
    with_defaults-keeps defaults (put_missing row (column, value) (get row column)) key v
      (put_missing-keeps row column key value v h)

-- A key that a dict holds passes what holds of every key.
held-All :
    (P : String → Type 0) (n : Dict Value) (key : String) (v : Value)
    → All (λ e. P e.0) n
    → get n key ≡ some v
    → P key
held-All P [] key v all h = cc h
held-All P ((k, u) ∷ n) key v (here, all) h = elim (Bool-cases (k == key)) [
  | inl same ↦ subst P ((eq_iff k key).0 same) here
  | inr differ ↦ held-All P n key v all (rw differ at h)
]

new_row-keeps :
    (n : Dict Value) (key : String) (v : Value)
    → ("value" == key) ≡ false
    → get n key ≡ some v
    → get (new_row n) key ≡ some v
new_row-keeps n key v differ h =
    get-put n "value" key (value_or_zero (get n "initial")) ∙ rw differ h

is_true-some : (o : Option Value) → is_true o ≡ true → (v : Value) × (o ≡ some v)
is_true-some none h = cc h
is_true-some (some v) h = (v, refl)

excluded : (a b : Bool) → (a && not b) ≡ true → b ≡ false
excluded true true h = cc h
excluded true false h = refl
excluded false b h = cc h

-- The value of a challenge is no column that a payload can set.
allowed-ne_value :
    (json : Json) (settings : Settings) (inherited : List String) (key : String)
    → is_allowed json settings inherited key ≡ true
    → ("value" == key) ≡ false
allowed-ne_value json settings inherited key fine = elim (Bool-cases ("value" == key)) [
  | inl same ↦
      let hidden : one_of "value" ("id" ∷ "value" ∷ []) ≡ true = refl in
      cc (
        excluded _ _ fine,
        subst (λ k. one_of k ("id" ∷ "value" ∷ []) ≡ true) ((eq_iff "value" key).0 same) hidden,
      )
  | inr differ ↦ differ
]

module _ (json : Json) (settings : Settings) (inherited : List String) where
  -- What `create` leaves of a payload.
  pub record IsCreated (items challenge : Dict Value) (rows rows' : Rows) : Type 0 where
    pub normalized : Dict Value
    pub accepted : normalize_challenge_payload json settings inherited true items ≡ ok normalized
    pub ranges : InRange true normalized
    pub columns :
        (key : String) (v : Value) → get normalized key ≡ some v → get challenge key ≡ some v
    pub value_lem : get challenge "value" ≡ get challenge "initial"
    pub view_lem : rows'.view ≡ rows.view ++ challenge ∷ []
    pub saved_lem : rows'.saved ≡ rows.view ++ challenge ∷ []

  moved :
      (items c challenge : Dict Value) (rows r rows' : Rows)
      → ◌≡◌ {A = Result PayloadError (Dict Value) × Rows} (ok c, r) (ok challenge, rows')
      → IsCreated items c rows r
      → IsCreated items challenge rows rows'
  moved items c challenge rows r rows' h made =
      let row : c ≡ challenge = cc h in
      let table : r ≡ rows' = cc h in
      subst (λ t. IsCreated items challenge rows t) table
        (subst (λ d. IsCreated items d rows r) row made)

  stored-IsCreated :
      (items : Dict Value) (found : Result PayloadError (Dict Value)) (rows rows' : Rows)
      (challenge : Dict Value)
      → normalize_challenge_payload json settings inherited true items ≡ found
      → stored json settings inherited rows found ≡ (ok challenge, rows')
      → IsCreated items challenge rows rows'
  stored-IsCreated items (err e) rows rows' challenge made h = cc h
  stored-IsCreated items (ok n) rows rows' challenge made h =
      let (ranges, permitted, known) = payload-accepted json settings inherited true items n made in
      let challenge_row = with_defaults (new_row n) column_defaults in
      let columns : (key : String) (v : Value)
          → get n key ≡ some v
          → get challenge_row key ≡ some v =
        λ key v there. with_defaults-keeps column_defaults (new_row n) key v (
          new_row-keeps n key v
            (allowed-ne_value json settings inherited key
              (held-All (λ k. is_allowed json settings inherited k ≡ true) n key v known there))
            there) in
      let (v, initial) = is_true-some (get n "initial") (ranges.required refl).1.1.1.1.1.1.0 in
      let value_row = with_defaults-keeps column_defaults (new_row n) "value" v (
        get-put n "value" "value" (value_or_zero (get n "initial"))
        ∙ ap (λ o. some (value_or_zero o)) initial) in
      let result : IsCreated items challenge_row rows (record {
        view = rows.view ++ challenge_row ∷ [];
        saved = rows.view ++ challenge_row ∷ [];
      }) =
        record {
          normalized = n;
          accepted = made;
          ranges = ranges;
          columns = columns;
          value_lem = value_row ∙ sym (columns "initial" v initial);
          view_lem = refl;
          saved_lem = refl;
        } in
      moved items challenge_row challenge rows _ rows' h result

  -- A challenge is created only from a payload that is accepted, with every required field filled
  -- and all numbers in range; its row has every column of the payload, starts with the initial value
  -- as its value, and is the one row that is added and committed.
  pub create-IsCreated :
      (items challenge : Dict Value) (rows rows' : Rows)
      → create json settings inherited items rows ≡ (ok challenge, rows')
      → IsCreated items challenge rows rows'
  unfolding create
  create-IsCreated items challenge rows rows' h =
      stored-IsCreated items _ rows rows' challenge refl h
