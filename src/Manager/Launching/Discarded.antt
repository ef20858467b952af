-- ===== src/Manager/Launching/Discarded.antt =====
-- What `create_container` of container_manager.py does with a container that it cannot use.
use ctf_plugin_docker_per_te.Prelude.{
  ℕ, String, ◌≡◌, refl, sym, ap, subst, ◌∙◌, Bool, true, List, ◌∷◌,
}
use ctf_plugin_docker_per_te.Result.{Result, ok, err}
use ctf_plugin_docker_per_te.Models.{Challenge, Session, rollback}
use ctf_plugin_docker_per_te.Policy.Hardening.{Floats}
use ctf_plugin_docker_per_te.Manager.{
  DockerError, Fault, container_exception, docker, not_found, image_not_found, api_error,
  docker_error, timed_out, ssh_error, auth_error, transport_error, integrity_error, other_exception,
  value_error, cut_off, Container, Docker, World, Launch, call,
}
use ctf_plugin_docker_per_te.Manager.Options.{Json}
use ctf_plugin_docker_per_te.Manager.Launching.{
  Created, abandoned, prepare, record_launch, create_container_steps,
}
use ctf_plugin_docker_per_te.Manager.Launching.Atomic.{steps-IsAtomic}

-- The exceptions for which the handlers kill the container again.
abbrev pub IsDiscarding : Fault → Type 0
IsDiscarding (container_exception e) = Unit
IsDiscarding (docker not_found) = Unit
IsDiscarding (docker api_error) = Unit
IsDiscarding (docker image_not_found) = ⊥
IsDiscarding (docker docker_error) = ⊥
IsDiscarding (docker timed_out) = ⊥
IsDiscarding (docker ssh_error) = ⊥
IsDiscarding (docker auth_error) = ⊥
IsDiscarding (docker transport_error) = ⊥
IsDiscarding integrity_error = Unit
IsDiscarding other_exception = ⊥
IsDiscarding value_error = ⊥
IsDiscarding cut_off = ⊥

module _ {D : Type 0} (floats : Floats) (netloc_ok : String → Bool) (json : Json)
    (dock : Docker D) where
  -- The handlers roll the pending rows back, have the daemon kill the container and raise.
  abbrev Handled : String → Fault → World D → Container → Type 0
  Handled container_id e w c =
      let (r, w') = abandoned floats netloc_ok json dock container_id e w in
      (w'.session ≡ rollback w.session)
      × (w'.killed ≡ c.id ∷ w.killed)
      × ((f : Fault) × (r ≡ err f))

  abandoned-Handled :
      (container_id : String) (e : Fault) (w : World D) (c : Container)
      → IsDiscarding e
      → w.manager.client ≡ true
      → (dock.container container_id w.daemon).0 ≡ ok c
      → Handled container_id e w c
  abandoned-Handled container_id e w c discarding client known =
      go (dock.kill c.id (dock.container container_id w.daemon).1).0 refl e discarding
    where
      go :
          (reply : Result DockerError Unit)
          → (dock.kill c.id (dock.container container_id w.daemon).1).0 ≡ reply
          → (e : Fault) → IsDiscarding e
          → Handled container_id e w c
      go (ok u) said (container_exception e) d = rw (client, known, said) (refl, refl, (_, refl))
      go (ok u) said (docker not_found) d = rw (client, known, said) (refl, refl, (_, refl))
      go (ok u) said (docker api_error) d = rw (client, known, said) (refl, refl, (_, refl))
      go (ok u) said integrity_error d = rw (client, known, said) (refl, refl, (_, refl))
      go (err f) said (container_exception e) d = rw (client, known, said) (refl, refl, (_, refl))
      go (err f) said (docker not_found) d = rw (client, known, said) (refl, refl, (_, refl))
      go (err f) said (docker api_error) d = rw (client, known, said) (refl, refl, (_, refl))
      go (err f) said integrity_error d = rw (client, known, said) (refl, refl, (_, refl))
      go reply said (docker image_not_found) d = absurd d
      go reply said (docker docker_error) d = absurd d
      go reply said (docker timed_out) d = absurd d
      go reply said (docker ssh_error) d = absurd d
      go reply said (docker auth_error) d = absurd d
      go reply said (docker transport_error) d = absurd d
      go reply said other_exception d = absurd d
      go reply said value_error d = absurd d
      go reply said cut_off d = absurd d

module _ {D : Type 0} (floats : Floats) (netloc_ok : String → Bool) (json : Json) (dock : Docker D)
    (challenge : Challenge) (xid : ℕ) (is_team : Bool) where
  -- The launch raises, its session is what was committed before the launch and nothing else, and the
  -- last kill is that of the container; `killed` are the kills before the handlers.
  pub record Discarded (w : World D) (c : Container) (killed : List String)
      (r : Result Fault Created × World D) : Type 0 where
    pub raised : Fault
    pub failed : r.0 ≡ err raised
    pub saved : r.1.session.saved ≡ w.session.saved
    pub view : r.1.session.view ≡ w.session.saved
    pub kills : r.1.killed ≡ c.id ∷ killed

  given_up :
      (w w3 : World D) (c : Container) (r : Result Fault Created × World D)
      → create_container_steps floats netloc_ok json dock challenge xid is_team w ≡ r
      → r.1.session ≡ rollback w3.session
      → r.1.killed ≡ c.id ∷ w3.killed
      → ((f : Fault) × (r.0 ≡ err f))
      → Discarded w c w3.killed r
  given_up w w3 c (r, w') steps session killed (f, failed) =
      let saved : w'.session.saved ≡ w.session.saved =
        (steps-IsAtomic floats netloc_ok json dock challenge xid is_team).failed w w' f
          (steps ∙ ap (λ (q : Result Fault Created). (q, w')) failed) in
      record {
        raised = f;
        failed = failed;
        saved = saved;
        view =
            ap (λ (s : Session). s.view) session
            ∙ sym (ap (λ (s : Session). s.saved) session)
            ∙ saved;
        kills = killed;
      }

  -- When the daemon has run the container of a launch and what follows (the wait, the port, the
  -- unique columns) raises one of these exceptions, the launch raises, the session is left with what
  -- was committed before the launch and nothing else, and the daemon is told to kill the container,
  -- if there is a client and the daemon still knows the container.
  pub steps-Discarded :
      (launch : Launch) (container_id : String) (e : Fault) (w w1 w2 w3 : World D) (c : Container)
      → prepare floats netloc_ok json dock challenge xid is_team w ≡ (ok launch, w1)
      → call (dock.run launch) w1 ≡ (ok container_id, w2)
      → record_launch floats netloc_ok json dock challenge xid is_team launch.flag container_id w2
        ≡ (err e, w3)
      → IsDiscarding e
      → w3.manager.client ≡ true
      → (dock.container container_id w3.daemon).0 ≡ ok c
      → Discarded w c w3.killed
          (create_container_steps floats netloc_ok json dock challenge xid is_team w)
  unfolding create_container_steps
  steps-Discarded launch container_id e w w1 w2 w3 c prepared ran raised discarding client known =
      let (session, killed, failed) =
        abandoned-Handled floats netloc_ok json dock container_id e w3 c discarding client known in
      let r = abandoned floats netloc_ok json dock container_id e w3 in
      let steps : create_container_steps floats netloc_ok json dock challenge xid is_team w ≡ r =
        rw (prepared, ran, raised) refl in
      subst (Discarded w c w3.killed) (sym steps) (given_up w w3 c r steps session killed failed)
