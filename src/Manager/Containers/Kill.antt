-- ===== src/Manager/Containers/Kill.antt =====
-- What `kill_container` of container_manager.py tells the daemon to kill.
use ctf_plugin_docker_per_te.Prelude.{
  String, ◌≡◌, refl, sym, ap, ◌∙◌, ◌⊎◌, inl, inr, true, false, Option, none, some, ◌∷◌, ◌==◌,
  eq_iff, Bool-cases, All, ◌≢◌, subst,
}
use ctf_plugin_docker_per_te.Result.{Result, ok, err}
use ctf_plugin_docker_per_te.Models.{ContainerInfo, Db, Session}
use ctf_plugin_docker_per_te.Models.Queries.{
  find_info, find_challenge, first-eq-some, first-eq-none, All-map,
}
use ctf_plugin_docker_per_te.Records.{cleanup_container_records, release, commit_if}
use ctf_plugin_docker_per_te.Records.Cleanup.{cleanup-forgets}
use ctf_plugin_docker_per_te.Policy.Identity.{owns_labels}
use ctf_plugin_docker_per_te.Manager.{
  DockerError, Fault, container_exception, not_found, image_not_found, api_error, docker_error,
  timed_out, ssh_error, auth_error, transport_error, not_owned, Container, Docker, World, recover,
  continue,
}
use ctf_plugin_docker_per_te.Manager.Containers.{
  cleanup, store_cleanup, rethrow_api, get_owned_container, kill_found, kill_container_steps,
}

no_bool : true ≡ false → ⊥
no_bool h = cc h

some_injective : {A : Type 0} {a b : A} → ◌≡◌ {A = Option A} (some a) (some b) → a ≡ b
some_injective h = cc h

committed :
    (pending : Option Session) (s : Session) → commit_if true pending ≡ some s → s.saved ≡ s.view
committed none s h = cc h
committed (some t) s h = subst (λ (u : Session). u.saved ≡ u.view) (some_injective h) refl

module _ {D : Type 0} (dock : Docker D) where
  -- A container of the plugin's own event and target answers to the id.
  abbrev pub IsOwned : String → World D → Container → Type 0
  IsOwned container_id w c =
      ((dock.container container_id w.daemon).0 ≡ ok c)
      × (owns_labels w.manager.identity c.labels ≡ true)

  abbrev pub Found : String → World D → Result Fault (Option Container) → Type 0
  Found container_id w (ok none) = Unit
  Found container_id w (ok (some c)) = IsOwned container_id w c
  Found container_id w (err e) = Unit

  -- Looking for a container changes nothing but the state of the daemon.
  abbrev pub looked : String → World D → World D
  looked container_id w = record w { daemon = (dock.container container_id w.daemon).1 }

  pub owned-Found :
      (container_id : String) (w : World D)
      → let r = get_owned_container dock container_id w in
        Found container_id w r.0 × (r.1 ≡ looked container_id w)
  unfolding get_owned_container
  owned-Found container_id w = go (dock.container container_id w.daemon).0 refl
    where
      go :
          (reply : Result DockerError Container)
          → (dock.container container_id w.daemon).0 ≡ reply
          → let r = get_owned_container dock container_id w in
            Found container_id w r.0 × (r.1 ≡ looked container_id w)
      go (err not_found) e = rw e (tt, refl)
      go (err image_not_found) e = rw e (tt, refl)
      go (err api_error) e = rw e (tt, refl)
      go (err docker_error) e = rw e (tt, refl)
      go (err timed_out) e = rw e (tt, refl)
      go (err ssh_error) e = rw e (tt, refl)
      go (err auth_error) e = rw e (tt, refl)
      go (err transport_error) e = rw e (tt, refl)
      go (ok c) e = elim (Bool-cases (owns_labels w.manager.identity c.labels)) [
        | inl own ↦ rw (e, own) ((e, own), refl)
        | inr foreign ↦ rw (e, foreign) (tt, refl)
      ]

  -- The daemon is told nothing, or to kill a container that is owned.
  abbrev pub Kills : String → World D → World D → Type 0
  Kills container_id w w' =
      (w'.killed ≡ w.killed)
      ⊎ ((c : Container) × IsOwned container_id w c × (w'.killed ≡ c.id ∷ w.killed))

  kill_found-Kills :
      (container_id : String) (w : World D) (r : Result Fault (Option Container)) (w1 : World D)
      → Found container_id w r
      → w1 ≡ looked container_id w
      → Kills container_id w (continue (r, w1) (kill_found dock)).1
  kill_found-Kills container_id w (ok none) w1 found same =
      inl (ap (λ (t : World D). t.killed) same)
  kill_found-Kills container_id w (err e) w1 found same = inl (ap (λ (t : World D). t.killed) same)
  kill_found-Kills container_id w (ok (some c)) w1 found same =
      inr (c, found, ap (λ (t : World D). c.id ∷ t.killed) same)

  store_cleanup-killed :
      (s : Option Session) (w : World D) → (store_cleanup s w).1.killed ≡ w.killed
  store_cleanup-killed none w = refl
  store_cleanup-killed (some s) w = refl

  finish-killed :
      (info : Option ContainerInfo) (m : Result Fault Unit × World D)
      → (continue (recover m rethrow_api) (λ _. cleanup info true)).1.killed ≡ m.1.killed
  finish-killed info (ok tt, w) =
      store_cleanup-killed (cleanup_container_records info true w.session) w
  finish-killed info (err e, w) = refl

  Kills-same :
      (container_id : String) (w a b : World D)
      → b.killed ≡ a.killed
      → Kills container_id w a
      → Kills container_id w b
  Kills-same container_id w a b same (inl e) = inl (same ∙ e)
  Kills-same container_id w a b same (inr (c, own, e)) = inr (c, own, same ∙ e)

  -- `kill_container` tells the daemon to kill at most one container, the one that the daemon has
  -- under the id, and only if its labels name the event and the target of this process.
  pub kill-Kills :
      (container_id : String) (w : World D)
      → Kills container_id w (kill_container_steps dock container_id w).1
  unfolding kill_container_steps
  kill-Kills container_id w =
      let (found, same) = owned-Found container_id w in
      Kills-same container_id w
        (continue (get_owned_container dock container_id w) (kill_found dock)).1
        (kill_container_steps dock container_id w).1
        (finish-killed (find_info w.session.view container_id)
          (continue (get_owned_container dock container_id w) (kill_found dock)))
        (kill_found-Kills container_id w (get_owned_container dock container_id w).0
          (get_owned_container dock container_id w).1 found same)

  -- A container of another event, or without labels, is refused: nothing is killed and the database
  -- is as before.
  kill_refuses :
      (container_id : String) (w : World D) (c : Container)
      → (dock.container container_id w.daemon).0 ≡ ok c
      → owns_labels w.manager.identity c.labels ≡ false
      → kill_container_steps dock container_id w
        ≡ (err (container_exception not_owned), looked container_id w)
  unfolding kill_container_steps get_owned_container
  kill_refuses container_id w c e foreign = rw (e, foreign) refl

  store_cleanup-forgets :
      (info : ContainerInfo) (w w' : World D)
      → (s : Option Session) → cleanup_container_records (some info) true w.session ≡ s
      → store_cleanup s w ≡ (ok tt, w')
      → (find_info w'.session.view info.container_id ≡ none) × (w'.session.saved ≡ w'.session.view)
  unfolding cleanup_container_records
  store_cleanup-forgets info w w' none e h = cc h
  store_cleanup-forgets info w w' (some s) e h =
      let same : s ≡ w'.session = ap (λ (r : Result Fault Unit × World D). r.1.session) h in
      (
        (cleanup-forgets info true w.session w'.session (e ∙ ap some same)).0,
        subst (λ (t : Session). t.saved ≡ t.view) same
            (committed (release (find_challenge w.session.view info.challenge_id) info w.session) s
              e),
      )

  -- No row of the id is in the table.
  abbrev pub IsGone : String → Db → Type 0
  IsGone container_id db = All (λ (i : ContainerInfo). i.container_id ≢ container_id) db.infos

  missing-IsGone :
      (container_id : String) (db : Db) → find_info db container_id ≡ none → IsGone container_id db
  unfolding find_info
  missing-IsGone container_id db h =
      All-map _ _ db.infos
        (λ (i : ContainerInfo) other same.
          no_bool (sym ((eq_iff i.container_id container_id).1 same) ∙ other))
        (first-eq-none _ db.infos h)

  -- What `kill_container` leaves of the rows: none that its queries see, and if there was one, none
  -- that is committed; if there was none, the database is as it was.
  abbrev pub Forgotten : String → Session → Session → Type 0
  Forgotten container_id s s' =
      IsGone container_id s'.view
      × ((IsGone container_id s.view × (s' ≡ s)) ⊎ IsGone container_id s'.saved)

  found_id :
      (container_id : String) (db : Db) (info : ContainerInfo)
      → find_info db container_id ≡ some info
      → info.container_id ≡ container_id
  unfolding find_info
  found_id container_id db info h =
      (eq_iff info.container_id container_id).0
        (first-eq-some (λ (i : ContainerInfo). i.container_id == container_id) db.infos info h)

  finish-forgets :
      (container_id : String) (found : Option ContainerInfo) (m : Result Fault Unit × World D)
      (w' : World D)
      → find_info m.1.session.view container_id ≡ found
      → continue (recover m rethrow_api) (λ _. cleanup found true) ≡ (ok tt, w')
      → Forgotten container_id m.1.session w'.session
  unfolding cleanup_container_records
  finish-forgets container_id found (err e, w) w' here h = cc h
  finish-forgets container_id none (ok tt, w) w' here h =
      let same : w.session ≡ w'.session = ap (λ (r : Result Fault Unit × World D). r.1.session) h in
      let gone = missing-IsGone container_id w.session.view here in
      (subst (λ (s : Session). IsGone container_id s.view) same gone, inl (gone, sym same))
  finish-forgets container_id (some info) (ok tt, w) w' here h =
      let (missing, saved) =
        store_cleanup-forgets info w w' (cleanup_container_records (some info) true w.session) refl
          h in
      let gone = missing-IsGone container_id w'.session.view (
        ap (find_info w'.session.view) (sym (found_id container_id w.session.view info here))
        ∙ missing) in
      (gone, inr (subst (IsGone container_id) (sym saved) gone))

  kill_found-session :
      (r : Result Fault (Option Container) × World D)
      → (continue r (kill_found dock)).1.session ≡ r.1.session
  kill_found-session (ok none, w) = refl
  kill_found-session (ok (some c), w) = refl
  kill_found-session (err e, w) = refl

  -- When `kill_container` returns, its queries see no row of the container any more, whether the
  -- daemon still knew the container or not; if there was a row, none is left among the committed
  -- ones, and if there was none, the database is as before.
  pub kill-forgets :
      (container_id : String) (w w' : World D)
      → kill_container_steps dock container_id w ≡ (ok tt, w')
      → Forgotten container_id w.session w'.session
  unfolding kill_container_steps
  kill-forgets container_id w w' h =
      let m = continue (get_owned_container dock container_id w) (kill_found dock) in
      let same : m.1.session ≡ w.session =
        kill_found-session (get_owned_container dock container_id w)
        ∙ ap (λ (t : World D). t.session) (owned-Found container_id w).1 in
      subst (λ (s : Session). Forgotten container_id s w'.session) same
        (finish-forgets container_id (find_info w.session.view container_id) m w'
          (ap (λ (s : Session). find_info s.view container_id) same) h)
