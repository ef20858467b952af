-- ===== src/Manager/Startup/Fresh.antt =====
-- `_generate_unique_random_flag` of container_manager.py: a flag that no account has.
use Prim.Native.String.{◌++◌}
use ctf_plugin_docker_per_te.Text.{char_at}
use ctf_plugin_docker_per_te.Prelude.{
  inl, inr, ℕ, zero, suc, String, ◌≡◌, refl, sym, ap, ap₂, ◌∙◌, none, Option-cases, All, true,
  false, nat_eq_iff, eq_iff, arith,
}
use ctf_plugin_docker_per_te.Result.{Result, ok}
use ctf_plugin_docker_per_te.Models.{Challenge, ContainerFlag, Db, Session}
use ctf_plugin_docker_per_te.Models.Queries.{first-eq-none, All-map}
use ctf_plugin_docker_per_te.Manager.{Fault, Docker, World}
use ctf_plugin_docker_per_te.Manager.Startup.{
  flag_alphabet, taken, generate_random_flag, try_flags, generate_unique_random_flag, random_part,
}

no_bool : true ≡ false → ⊥
no_bool h = cc h

module _ {D : Type 0} (dock : Docker D) (challenge : Challenge) where
  random_part-ok :
      (n : ℕ) (w : World D)
      → (text : String) × (w' : World D) × (random_part dock n w ≡ (ok text, w'))
        × (w'.session ≡ w.session)
  random_part-ok zero w = ("", w, refl, refl)
  random_part-ok (suc n) w =
      let (text, w', e, same) =
        random_part-ok n (record w { daemon = (dock.choice 62 w.daemon).1 }) in
      (char_at flag_alphabet (dock.choice 62 w.daemon).0 ++ text, w', rw e refl, same)

  generate-ok :
      (w : World D)
      → (flag : String) × (w' : World D) × (generate_random_flag dock challenge w ≡ (ok flag, w'))
        × (w'.session ≡ w.session)
  unfolding generate_random_flag
  generate-ok w =
      let (text, w', e, same) = random_part-ok challenge.random_flag_length w in
      (challenge.flag_prefix ++ (text ++ challenge.flag_suffix), w', rw e refl, same)

  try_flags-fresh :
      (n : ℕ) (w w' : World D) (flag : String)
      → try_flags dock n challenge w ≡ (ok flag, w')
      → (w'.session ≡ w.session) × (taken w.session.view challenge flag ≡ none)
  unfolding try_flags
  try_flags-fresh zero w w' flag h = cc h
  try_flags-fresh (suc n) w w' flag h =
      let (found, w1, e, same) = generate-ok w in
      elim (Option-cases (taken w1.session.view challenge found)) [
        | inl free ↦
            let done : ◌≡◌ {A = Result Fault String × World D} (ok found, w1) (ok flag, w') =
              rw (e, free) at h in
            let here : w1.session ≡ w'.session =
              ap (λ (r : Result Fault String × World D). r.1.session) done in
            let this : found ≡ flag = cc (ap (λ (r : Result Fault String × World D). r.0) done) in
            (
              sym here ∙ same,
              ap₂ (λ (s : Session) f. taken s.view challenge f) (sym same) (sym this) ∙ free,
            )
        | inr (f, used) ↦
            let rest : try_flags dock n challenge w1 ≡ (ok flag, w') = rw (e, used) at h in
            let (kept, fresh) = try_flags-fresh n w1 w' flag rest in
            (kept ∙ same, ap (λ (s : Session). taken s.view challenge flag) (sym same) ∙ fresh)
      ]

  -- No row of the challenge, used or not and of whatever account, has the flag.
  abbrev pub IsNew : Db → String → Type 0
  IsNew db flag =
      All (λ (f : ContainerFlag). (f.challenge_id ≡ challenge.id) × (f.flag ≡ flag) → ⊥) db.flags

  free-IsNew : (db : Db) (flag : String) → taken db challenge flag ≡ none → IsNew db flag
  free-IsNew db flag h =
      All-map _ _ db.flags
        (λ (f : ContainerFlag) fails (here, same). no_bool (
          ground (
            arith,
            fails,
            (nat_eq_iff f.challenge_id challenge.id).1 here,
            (eq_iff f.flag flag).1 same,
          )))
        (first-eq-none _ db.flags h)

  -- A random flag that is handed out is no flag of the challenge in the table yet, used or not and
  -- whichever account the others belong to; choosing it changes nothing in the database.
  pub generate-fresh :
      (w w' : World D) (flag : String)
      → generate_unique_random_flag dock challenge w ≡ (ok flag, w')
      → (w'.session ≡ w.session) × IsNew w.session.view flag
  unfolding generate_unique_random_flag
  generate-fresh w w' flag h =
      let (same, free) = try_flags-fresh 10 w w' flag h in
      (same, free-IsNew w.session.view flag free)
