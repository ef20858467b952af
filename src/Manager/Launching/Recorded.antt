-- ===== src/Manager/Launching/Recorded.antt =====
-- What a launch that succeeds leaves in the database.
use ctf_plugin_docker_per_te.Prelude.{
  ℕ, ◌+◌, ◌/◌, String, ◌≡◌, ◌≢◌, refl, sym, ap, subst, ◌∙◌, inl, inr, Bool, false, any, Bool-cases,
  some, [], ◌∷◌, ◌++◌, All,
}
use ctf_plugin_docker_per_te.Result.{Result, ok, err}
use ctf_plugin_docker_per_te.Models.{
  Challenge, Owner, account_owner, ContainerInfo, ContainerFlag, Db, Session, commit,
}
use ctf_plugin_docker_per_te.Models.Queries.{All-map, any-eq-false}
use ctf_plugin_docker_per_te.Models.Accounts.{Belongs, account_owner-Belongs}
use ctf_plugin_docker_per_te.Flags.{add_flag}
use ctf_plugin_docker_per_te.Policy.Hardening.{Floats}
use ctf_plugin_docker_per_te.Manager.{
  ManagerError, fail, duplicate_container, image_missing, docker_api_error, ◌>>◌, Fault, Launch,
  Docker, World, call, continue, recover, continue-eq-ok, recover-eq-ok, container_exception,
  docker, not_found, image_not_found, api_error, docker_error, timed_out, ssh_error, auth_error,
  transport_error, integrity_error, other_exception, value_error, cut_off,
}
use ctf_plugin_docker_per_te.Manager.Containers.{get_container_port}
use ctf_plugin_docker_per_te.Manager.Startup.{wait_until_healthy}
use ctf_plugin_docker_per_te.Manager.Startup.Health.{SawHealthy, wait-SawHealthy}
use ctf_plugin_docker_per_te.Manager.Options.{Json}
use ctf_plugin_docker_per_te.Manager.Launching.{
  clashes, with_rows, commit_info, abandoned, not_launched, prepare, record_launch,
  create_container_steps, Created, known_port, info_of, discard, roll_back,
}
use ctf_plugin_docker_per_te.Manager.Launching.Clash.{Clash, no-Clash}

module _ {D : Type 0} where
  commit_info-ok :
      (info : ContainerInfo) (w w' : World D)
      → commit_info info w ≡ (ok tt, w')
      → (any (clashes info) w.session.view.infos ≡ false)
        × (w' ≡ record w { session = commit (with_rows info w.session) })
  commit_info-ok info w w' h = elim (Bool-cases (any (clashes info) w.session.view.infos)) [
    | inl clash ↦ cc (rw clash at h)
    | inr free ↦ (free, sym (ap (λ (r : Result Fault Unit × World D). r.1) (rw free at h)))
  ]

module _ {D : Type 0} where
  fails_after :
      {A : Type 0} {a : A} (m : Result Fault Unit × World D) (e : ManagerError)
      → (continue m (λ _. fail e)).0 ≢ ok a
  fails_after (ok tt, w) e h = cc h
  fails_after (err f, w) e h = cc h

module _ {D : Type 0} where
  not_launched-fails : (e : Fault) (w : World D) (id : String) → (not_launched e w).0 ≢ ok id
  not_launched-fails (docker image_not_found) w id = λ h. cc h
  not_launched-fails (docker not_found) w id = λ h. cc h
  not_launched-fails (docker api_error) w id = λ h. cc h
  not_launched-fails (docker docker_error) w id = λ h. cc h
  not_launched-fails (docker timed_out) w id = λ h. cc h
  not_launched-fails (docker ssh_error) w id = λ h. cc h
  not_launched-fails (docker auth_error) w id = λ h. cc h
  not_launched-fails (docker transport_error) w id = λ h. cc h
  not_launched-fails (container_exception e) w id = λ h. cc h
  not_launched-fails integrity_error w id = λ h. cc h
  not_launched-fails other_exception w id = λ h. cc h
  not_launched-fails value_error w id = λ h. cc h
  not_launched-fails cut_off w id = λ h. cc h

ok_of : {A : Type 0} {a b : A} → ◌≡◌ {A = Result Fault A} (ok a) (ok b) → a ≡ b
ok_of h = cc h

module _ {D : Type 0} (floats : Floats) (netloc_ok : String → Bool) (json : Json) (dock : Docker D)
    (challenge : Challenge) (xid : ℕ) (is_team : Bool) where
  -- The rows of the launch are committed, and clash with no row that was there.
  abbrev Stored : String → String → Created → World D → World D → Type 0
  Stored flag container_id created w w' =
      (created.container_id ≡ container_id)
      × (info : ContainerInfo) × (s : Session) × (w'.session ≡ commit (with_rows info s))
      × (any (clashes info) s.view.infos ≡ false)
      × (info
          ≡ info_of challenge xid is_team created.container_id created.port flag info.timestamp
              w'.manager.expiration_seconds)
      × (created.expires ≡ info.timestamp + w'.manager.expiration_seconds)
      × ((seen : World D) × (wait_until_healthy dock created.container_id w ≡ (ok tt, seen)))

  record_launch-Stored :
      (flag container_id : String) (w w' : World D) (created : Created)
      → record_launch floats netloc_ok json dock challenge xid is_team flag container_id w
        ≡ (ok created, w')
      → Stored flag container_id created w w'
  unfolding record_launch
  record_launch-Stored flag container_id w w' created h =
      let (_, w1, waited, h1) = continue-eq-ok (wait_until_healthy dock container_id w) _ h in
      let (found, w2, asked, h2) =
        continue-eq-ok (get_container_port dock floats netloc_ok container_id w1) _ h1 in
      let (port, w3, known, h3) = continue-eq-ok (known_port found w2) _ h2 in
      let (_, w4, committed, h4) =
        continue-eq-ok
          (commit_info
            (info_of challenge xid is_team container_id port flag (dock.time w3.daemon / 1000)
              w3.manager.expiration_seconds)
            w3)
          _ h3 in
      let (free, done) =
        commit_info-ok
          (info_of challenge xid is_team container_id port flag (dock.time w3.daemon / 1000)
            w3.manager.expiration_seconds)
          w3 w4 committed in
      let info =
        info_of challenge xid is_team container_id port flag (dock.time w3.daemon / 1000)
          w3.manager.expiration_seconds in
      let result : Created = record {
        container_id = container_id;
        expires = info.expires;
        port = port;
      } in
      let base : Stored flag container_id result w
          (record w3 { session = commit (with_rows info w3.session) }) =
        (refl, info, w3.session, refl, free, refl, refl, (w1, waited)) in
      subst (λ c. Stored flag container_id c w w')
        (ok_of (ap (λ (r : Result Fault Created × World D). r.0) h4))
        (subst (λ v. Stored flag container_id result w v)
          (sym done ∙ ap (λ (r : Result Fault Created × World D). r.1) h4) base)

  abandoned-fails :
      (container_id : String) (e : Fault) (w : World D) (created : Created)
      → (abandoned floats netloc_ok json dock container_id e w).0 ≢ ok created
  abandoned-fails container_id integrity_error w created =
      fails_after ((roll_back >> discard floats netloc_ok json dock container_id) w)
        duplicate_container
  abandoned-fails container_id (docker image_not_found) w created =
      fails_after (roll_back w) image_missing
  abandoned-fails container_id (docker not_found) w created =
      fails_after ((roll_back >> discard floats netloc_ok json dock container_id) w)
        docker_api_error
  abandoned-fails container_id (docker api_error) w created =
      fails_after ((roll_back >> discard floats netloc_ok json dock container_id) w)
        docker_api_error
  abandoned-fails container_id (container_exception e) w created =
      fails_after ((roll_back >> discard floats netloc_ok json dock container_id) w) e
  abandoned-fails container_id (docker docker_error) w created = λ h. cc h
  abandoned-fails container_id (docker timed_out) w created = λ h. cc h
  abandoned-fails container_id (docker ssh_error) w created = λ h. cc h
  abandoned-fails container_id (docker auth_error) w created = λ h. cc h
  abandoned-fails container_id (docker transport_error) w created = λ h. cc h
  abandoned-fails container_id other_exception w created = λ h. cc h
  abandoned-fails container_id value_error w created = λ h. cc h
  abandoned-fails container_id cut_off w created = λ h. cc h

  own : {o : Owner} → o ≡ account_owner is_team xid → Belongs is_team xid o
  own same = subst (Belongs is_team xid) (sym same) (account_owner-Belongs is_team xid)

  -- What a successful launch has done: the daemon has run the container, with a flag; it was then
  -- seen healthy; and the info row and the flag row with that flag have been added to the rows of the
  -- session and committed, both for the account and the challenge. No other row has the container's
  -- id, and none for the challenge has the account's column.
  pub record Recorded (created : Created) (w' : World D) : Type 0 where
    pub launch : Launch
    pub started : World D
    pub launched : World D
    pub seen : World D
    pub before : Db
    pub info : ContainerInfo
    pub row : ContainerFlag
    pub run : call (dock.run launch) started ≡ (ok created.container_id, launched)
    pub waited : wait_until_healthy dock created.container_id launched ≡ (ok tt, seen)
    pub healthy : SawHealthy dock created.container_id seen
    pub infos : w'.session.saved.infos ≡ before.infos ++ info ∷ []
    pub flags : w'.session.saved.flags ≡ before.flags ++ row ∷ []
    pub committed : w'.session.view ≡ w'.session.saved
    pub container_id : info.container_id ≡ created.container_id
    pub challenge_id : info.challenge_id ≡ challenge.id
    pub owner : Belongs is_team xid info.owner
    pub port : info.port ≡ created.port
    pub flag : info.flag ≡ launch.flag
    pub expires : info.expires ≡ info.timestamp + w'.manager.expiration_seconds
    pub answer : created.expires ≡ info.expires
    pub row_container : row.container_id ≡ some created.container_id
    pub row_challenge : row.challenge_id ≡ challenge.id
    pub row_owner : Belongs is_team xid row.owner
    pub row_flag : row.flag ≡ launch.flag
    pub row_used : row.used ≡ false
    pub free :
        All
          (λ (other : ContainerInfo). Clash is_team xid created.container_id challenge.id other → ⊥)
          before.infos

  Stored-Recorded :
      (launch : Launch) (container_id : String) (created : Created) (w1 w2 w' : World D)
      → call (dock.run launch) w1 ≡ (ok container_id, w2)
      → Stored launch.flag container_id created w2 w'
      → Recorded created w'
  unfolding add_flag
  Stored-Recorded launch container_id created w1 w2 w' ran
        (same, info, s, session, free, made, expires, (seen, waited)) =
      record {
        launch = launch;
        started = w1;
        launched = w2;
        seen = seen;
        before = s.view;
        info = info;
        row = (add_flag info.challenge_id (some info.container_id) info.flag info.owner s).0;
        run = ran ∙ ap (λ (id : String). (ok id, w2)) (sym same);
        waited = waited;
        healthy = wait-SawHealthy dock created.container_id w2 seen waited;
        infos = ap (λ (t : Session). t.saved.infos) session;
        flags = ap (λ (t : Session). t.saved.flags) session;
        committed =
            ap (λ (t : Session). t.view) session ∙ sym (ap (λ (t : Session). t.saved) session);
        container_id = ap (λ (i : ContainerInfo). i.container_id) made;
        challenge_id = ap (λ (i : ContainerInfo). i.challenge_id) made;
        owner = own (ap (λ (i : ContainerInfo). i.owner) made);
        port = ap (λ (i : ContainerInfo). i.port) made;
        flag = ap (λ (i : ContainerInfo). i.flag) made;
        expires = ap (λ (i : ContainerInfo). i.expires) made;
        answer = expires ∙ sym (ap (λ (i : ContainerInfo). i.expires) made);
        row_container = ap (λ (i : ContainerInfo). some i.container_id) made;
        row_challenge = ap (λ (i : ContainerInfo). i.challenge_id) made;
        row_owner = own (ap (λ (i : ContainerInfo). i.owner) made);
        row_flag = ap (λ (i : ContainerInfo). i.flag) made;
        row_used = refl;
        free =
            All-map _ _ s.view.infos
              (λ (other : ContainerInfo) apart.
                no-Clash is_team xid info other apart (ap (λ (i : ContainerInfo). i.owner) made)
                  (ap (λ (i : ContainerInfo). i.container_id) made)
                  (ap (λ (i : ContainerInfo). i.challenge_id) made))
              (any-eq-false (clashes info) s.view.infos free);
      }

  -- A launch that succeeds has had the daemon run the container with a flag, has then seen it
  -- healthy, and has committed an info row and an unused flag row with that flag together, both for
  -- the challenge and the account that asked for it; the info row clashes with no other in the
  -- unique columns, and expires after the expiration time of the settings.
  pub create-Recorded :
      (w w' : World D) (created : Created)
      → create_container_steps floats netloc_ok json dock challenge xid is_team w ≡ (ok created, w')
      → Recorded created w'
  unfolding create_container_steps
  create-Recorded w w' created h =
      let (launch, w1, _, h1) =
        continue-eq-ok (prepare floats netloc_ok json dock challenge xid is_team w) _ h in
      let (container_id, w2, ran, h2) =
        continue-eq-ok (recover (call (dock.run launch) w1) not_launched) _ h1 in
      let recorded =
        recover-eq-ok
          (record_launch floats netloc_ok json dock challenge xid is_team launch.flag container_id
            w2)
          (abandoned floats netloc_ok json dock container_id)
          (λ e w. abandoned-fails container_id e w created) h2 in
      let started =
        recover-eq-ok (call (dock.run launch) w1) not_launched
          (λ e v. not_launched-fails e v container_id) ran in
      Stored-Recorded launch container_id created w1 w2 w' started
        (record_launch-Stored launch.flag container_id w2 w' created recorded)
