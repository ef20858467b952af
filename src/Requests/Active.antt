-- ===== src/Requests/Active.antt =====
-- helpers.py: which containers `prune_stale_account_containers` counts as active.
use ctf_plugin_docker_per_te.Prelude.{
  ℕ, String, ◌≡◌, ap, subst, ◌∙◌, inl, inr, Bool, true, false, Option, some, List, [], ◌∷◌, keep,
  Bool-cases, if◌then◌else◌,
}
use ctf_plugin_docker_per_te.Result.{Result, ok, err, ok_injective}
use ctf_plugin_docker_per_te.Models.{account_owner, ContainerInfo}
use ctf_plugin_docker_per_te.Models.Queries.{owner_eq}
use ctf_plugin_docker_per_te.Models.Accounts.{Belongs, own-Belongs, other-Belongs}
use ctf_plugin_docker_per_te.Manager.{
  Fault, World, ◌>>=◌, ◌>>◌, return, continue-eq-ok, recover-eq-ok,
}
use ctf_plugin_docker_per_te.Manager.Containers.{cleanup}
use ctf_plugin_docker_per_te.Requests.{
  Runtime, prune, prune_stale_account_containers, active_or_failed, account_infos, commit_now,
}

-- Of the rows of the table, those of the account whose container the manager has found running, in
-- their order; of each other row of the account it has said that its container does not run.
pub data Active {D : Type 0} (runtime : Runtime D) (is_team : Bool) (xid : ℕ)
    : List ContainerInfo → List ContainerInfo → Type 0 where
  of_none : Active runtime is_team xid [] []
  of_other :
      {info : ContainerInfo} {infos active : List ContainerInfo}
      → (Belongs is_team xid info.owner → ⊥)
      → Active runtime is_team xid infos active
      → Active runtime is_team xid (info ∷ infos) active
  of_running :
      {info : ContainerInfo} {infos active : List ContainerInfo} {w w' : World D}
      → Belongs is_team xid info.owner
      → runtime.is_container_running info.container_id w ≡ (ok true, w')
      → Active runtime is_team xid infos active
      → Active runtime is_team xid (info ∷ infos) (info ∷ active)
  of_stopped :
      {info : ContainerInfo} {infos active : List ContainerInfo} {w w' : World D}
      → Belongs is_team xid info.owner
      → runtime.is_container_running info.container_id w ≡ (ok false, w')
      → Active runtime is_team xid infos active
      → Active runtime is_team xid (info ∷ infos) active

module _ {D : Type 0} (runtime : Runtime D) (is_team : Bool) (xid : ℕ) where
  abbrev IsActive : List ContainerInfo → Result Fault (List ContainerInfo × Bool) → Type 0
  IsActive infos (ok r) = Active runtime is_team xid infos r.0
  IsActive infos (err e) = Unit

  -- What a pair of results says of the first, once they are equal.
  carried :
      (infos : List ContainerInfo) (a b : List ContainerInfo × Bool) (w w' : World D)
      → ◌≡◌ {A = Result Fault (List ContainerInfo × Bool) × World D} (ok a, w) (ok b, w')
      → Active runtime is_team xid infos a.0
      → Active runtime is_team xid infos b.0
  carried infos a b w w' h =
      subst (IsActive infos)
        (ap (λ (r : Result Fault (List ContainerInfo × Bool) × World D). r.0) h)

  abbrev own : ContainerInfo → Bool
  own info = owner_eq info.owner (account_owner is_team xid)

  answered-Active :
      (info : ContainerInfo) (infos : List ContainerInfo) (running : Bool) (w w1 w' : World D)
      (r : List ContainerInfo × Bool)
      → ((v v' : World D) (q : List ContainerInfo × Bool)
          → prune runtime (keep own infos) v ≡ (ok q, v')
          → Active runtime is_team xid infos q.0)
      → Belongs is_team xid info.owner
      → runtime.is_container_running info.container_id w ≡ (ok running, w1)
      → (if running
            then (prune runtime (keep own infos) >>= λ r. return (info ∷ r.0, r.1))
            else (cleanup (some info) false >> prune runtime (keep own infos) >>= λ r.
                return (r.0, true)))
          w1
        ≡ (ok r, w')
      → Active runtime is_team xid (info ∷ infos) r.0
  answered-Active info infos true w w1 w' r rest mine said h =
      let (r1, w2, e, done) = continue-eq-ok (prune runtime (keep own infos) w1) _ h in
      carried (info ∷ infos) (info ∷ r1.0, r1.1) r w2 w' done
        (of_running mine said (rest w1 w2 r1 e))
  answered-Active info infos false w w1 w' r rest mine said h =
      let (r1, w2, e, done) =
        continue-eq-ok ((cleanup (some info) false >> prune runtime (keep own infos)) w1) _ h in
      let (u, w3, _, e') = continue-eq-ok (cleanup (some info) false w1) _ e in
      carried (info ∷ infos) (r1.0, true) r w2 w' done (of_stopped mine said (rest w3 w2 r1 e'))

  prune-Active :
      (infos : List ContainerInfo) (w w' : World D) (r : List ContainerInfo × Bool)
      → prune runtime (keep own infos) w ≡ (ok r, w')
      → Active runtime is_team xid infos r.0
  unfolding prune
  prune-Active [] w w' r h = carried [] ([], false) r w w' h of_none
  prune-Active (info ∷ infos) w w' r h = elim (Bool-cases (own info)) [
    | inr other ↦
        of_other (other-Belongs is_team xid info.owner other)
          (prune-Active infos w w' r (rw other at h))
    | inl mine ↦
        let (running, w1, said, h1) =
          continue-eq-ok (runtime.is_container_running info.container_id w) _ (rw mine at h) in
        answered-Active info infos running w w1 w' r (prune-Active infos)
          (own-Belongs is_team xid info.owner mine) said h1
  ]

  commit_after :
      (r : List ContainerInfo × Bool) (stale : Bool) (w w' : World D) (active : List ContainerInfo)
      → ((if stale then commit_now runtime else return tt) >>= λ _. return r.0) w ≡ (ok active, w')
      → r.0 ≡ active
  commit_after r true w w' active h =
      ok_injective (ap (λ (q : Result Fault (List ContainerInfo) × World D). q.0) h)
  commit_after r false w w' active h =
      ok_injective (ap (λ (q : Result Fault (List ContainerInfo) × World D). q.0) h)

  pub counted-Active :
      (request_host : Option String) (w w' : World D) (active : List ContainerInfo)
      → active_or_failed runtime request_host xid is_team w ≡ (ok (ok active), w')
      → Active runtime is_team xid w.session.view.infos active
  unfolding prune_stale_account_containers
  counted-Active request_host w w' active h =
      let tried =
        recover-eq-ok
          ((prune_stale_account_containers runtime xid is_team >>= λ active. return (ok active)) w)
          _ (λ e v bad. cc bad) h in
      let (found, w1, e, done) =
        continue-eq-ok (prune_stale_account_containers runtime xid is_team w) _ tried in
      let (r, w2, pruned, rest) =
        continue-eq-ok (prune runtime (account_infos w.session.view (account_owner is_team xid)) w)
          _ e in
      let same : found ≡ active = ok_injective (
        ok_injective
          (ap (λ (q : Result Fault (Result Fault (List ContainerInfo)) × World D). q.0) done)) in
      subst (Active runtime is_team xid w.session.view.infos)
        (commit_after r r.1 w2 w1 found rest ∙ same)
        (prune-Active w.session.view.infos w w2 r pruned)
