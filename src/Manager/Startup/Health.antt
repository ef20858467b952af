-- ===== src/Manager/Startup/Health.antt =====
-- `_wait_until_healthy` of container_manager.py: what it waits for, and that the wait ends.
use ctf_plugin_docker_per_te.Prelude.{
  ℕ, zero, suc, ◌+◌, ◌*◌, ◌≤◌, String, ◌≡◌, ◌≢◌, refl, sym, ap, ◌∙◌, ◌⊎◌, inl, inr, true, false,
  ◌==◌, eq_iff, ltb, one_of, arith, Bool-cases,
}
use ctf_plugin_docker_per_te.Text.{lower}
use ctf_plugin_docker_per_te.Result.{Result, ok, err}
use ctf_plugin_docker_per_te.Manager.{
  ManagerError, DockerError, exited_during_startup, failed_health_check, startup_timed_out, Fault,
  container_exception, docker, cut_off, Container, Docker, World,
}
use ctf_plugin_docker_per_te.Manager.Startup.{stopped_states, judge, wait_loop, wait_until_healthy}

ok_not_err : {e : Fault} {a : Unit} → ◌≡◌ {A = Result Fault Unit} (ok a) (err e) → ⊥
ok_not_err h = cc h

err_injective : {e f : Fault} → ◌≡◌ {A = Result Fault Unit} (err e) (err f) → e ≡ f
err_injective h = cc h

-- The arithmetic of the loop: now, after the look, and after the rest.
too_late : (now deadline : ℕ) → ltb now deadline ≡ true → deadline ≤ now + 250 * 0 → ⊥
too_late now deadline before soon = absurd (ground arith)

nearer :
    (fuel deadline now seen rested : ℕ)
    → deadline ≤ now + 250 * suc fuel
    → now ≤ seen
    → seen + 250 ≤ rested
    → deadline ≤ rested + 250 * fuel
nearer fuel deadline now seen rested soon looked slept = omega arith

four_a_second : (now seconds : ℕ) → now + 1000 * seconds ≤ now + 250 * (4 * seconds)
four_a_second now seconds = omega arith

-- A container that is ready for its players.
abbrev pub IsHealthy : Container → Type 0
IsHealthy c = (lower c.health ≡ "healthy") × (one_of (lower c.status) stopped_states ≡ false)

module _ {D : Type 0} (dock : Docker D) where
  abbrev Judged : Container → World D → Type 0
  Judged c w =
      ((judge dock c w ≡ (ok true, w)) × IsHealthy c)
      ⊎ ((judge dock c w ≡ (ok false, w))
          ⊎ ((e : ManagerError) × (judge dock c w ≡ (err (container_exception e), w))))

  judge-Judged : (c : Container) (w : World D) → Judged c w
  unfolding judge
  judge-Judged c w = elim (Bool-cases (one_of (lower c.status) stopped_states)) [
    | inl stopped ↦ inr (inr (exited_during_startup, rw stopped refl))
    | inr running ↦ elim (Bool-cases (lower c.health == "healthy")) [
      | inl healthy ↦
          inl (rw (running, healthy) refl, ((eq_iff (lower c.health) "healthy").0 healthy, running))
      | inr not_yet ↦ elim (Bool-cases (lower c.health == "unhealthy")) [
        | inl unhealthy ↦ inr (inr (failed_health_check, rw (running, not_yet, unhealthy) refl))
        | inr starting ↦ inr (inl (rw (running, not_yet, starting) refl))
      ]
    ]
  ]

  abbrev looked_at : String → World D → World D
  looked_at container_id w = record w { daemon = (dock.container container_id w.daemon).1 }

  abbrev rested : String → World D → World D
  rested container_id w = record w {
    daemon = dock.sleep 250 (dock.container container_id w.daemon).1;
  }

  -- Some look at the container found it healthy, and that look was the last.
  abbrev pub SawHealthy : String → World D → Type 0
  SawHealthy container_id w' =
      (w : World D) × (c : Container) × ((dock.container container_id w.daemon).0 ≡ ok c)
      × (w' ≡ looked_at container_id w)
      × IsHealthy c

  -- What one turn of the loop does.
  abbrev Turn : ℕ → ℕ → String → World D → Type 0
  Turn fuel deadline container_id w =
      let r = wait_loop dock (suc fuel) deadline container_id w in
      ((r ≡ (ok tt, looked_at container_id w))
        × (c : Container) × ((dock.container container_id w.daemon).0 ≡ ok c)
        × IsHealthy c)
      ⊎ (((e : Fault) × (e ≢ cut_off) × (w' : World D) × (r ≡ (err e, w')))
          ⊎ ((ltb (dock.monotonic w.daemon) deadline ≡ true)
              × (r ≡ wait_loop dock fuel deadline container_id (rested container_id w))))

  no_cut : (e : ManagerError) → container_exception e ≢ cut_off
  no_cut e h = cc h

  no_cut_docker : (e : DockerError) → docker e ≢ cut_off
  no_cut_docker e h = cc h

  turn :
      (fuel deadline : ℕ) (container_id : String) (w : World D) → Turn fuel deadline container_id w
  unfolding wait_loop
  turn fuel deadline container_id w = elim (Bool-cases (ltb (dock.monotonic w.daemon) deadline)) [
    | inr over ↦ inr (inl (container_exception startup_timed_out, no_cut _, w, rw over refl))
    | inl before ↦ go before (dock.container container_id w.daemon).0 refl
  ]
    where
      go :
          (ltb (dock.monotonic w.daemon) deadline ≡ true)
          → (reply : Result DockerError Container)
          → (dock.container container_id w.daemon).0 ≡ reply
          → Turn fuel deadline container_id w
      go before (err e) seen =
          inr (inl (docker e, no_cut_docker e, looked_at container_id w, rw (before, seen) refl))
      go before (ok c) seen = elim (judge-Judged c (looked_at container_id w)) [
        | inl (done, healthy) ↦ inl (rw (before, seen, done) refl, c, seen, healthy)
        | inr (inl again) ↦ inr (inr (before, rw (before, seen, again) refl))
        | inr (inr (e, failed)) ↦ inr (
            inl (
              container_exception e,
              no_cut e,
              looked_at container_id w,
              rw (before, seen, failed) refl,
            ))
      ]

  out_of_fuel :
      (deadline : ℕ) (container_id : String) (w w' : World D)
      → wait_loop dock zero deadline container_id w ≡ (ok tt, w')
      → ⊥
  unfolding wait_loop
  out_of_fuel deadline container_id w w' h = cc h

  wait_loop-SawHealthy :
      (fuel deadline : ℕ) (container_id : String) (w w' : World D)
      → wait_loop dock fuel deadline container_id w ≡ (ok tt, w')
      → SawHealthy container_id w'
  wait_loop-SawHealthy zero deadline container_id w w' h =
      absurd (out_of_fuel deadline container_id w w' h)
  wait_loop-SawHealthy (suc fuel) deadline container_id w w' h =
      elim (turn fuel deadline container_id w) [
        | inl (done, c, seen, healthy) ↦
            (w, c, seen, ap (λ (r : Result Fault Unit × World D). r.1) (sym h ∙ done), healthy)
        | inr (inl (e, _, w1, failed)) ↦
            absurd (ok_not_err (ap (λ (r : Result Fault Unit × World D). r.0) (sym h ∙ failed)))
        | inr (inr (_, again)) ↦
            wait_loop-SawHealthy fuel deadline container_id (rested container_id w) w'
              (sym again ∙ h)
      ]

  -- A launch goes on only when a look at the container found it healthy and not stopped; nothing
  -- happens to it after that look.
  pub wait-SawHealthy :
      (container_id : String) (w w' : World D)
      → wait_until_healthy dock container_id w ≡ (ok tt, w')
      → SawHealthy container_id w'
  unfolding wait_until_healthy
  wait-SawHealthy container_id w w' h =
      wait_loop-SawHealthy (suc (4 * w.manager.start_timeout_seconds))
        (dock.monotonic w.daemon + 1000 * w.manager.start_timeout_seconds) container_id w w' h

  -- The clock does not run backwards, and a sleep lasts as long as it is asked to.
  pub record Ticks : Type 0 where
    pub container-monotonic :
        (container_id : String) (d : D)
        → dock.monotonic d ≤ dock.monotonic (dock.container container_id d).1
    pub sleep-monotonic :
        (ms : ℕ) (d : D) → dock.monotonic d + ms ≤ dock.monotonic (dock.sleep ms d)

  wait_loop-ends :
      Ticks
      → (fuel deadline : ℕ) (container_id : String) (w : World D)
      → deadline ≤ dock.monotonic w.daemon + 250 * fuel
      → (wait_loop dock (suc fuel) deadline container_id w).0 ≢ err cut_off
  wait_loop-ends ticks zero deadline container_id w soon h =
      elim (turn zero deadline container_id w) [
        | inl (done, _, _, _) ↦
            ok_not_err (sym (ap (λ (r : Result Fault Unit × World D). r.0) done) ∙ h)
        | inr (inl (e, sane, w1, failed)) ↦
            sane (err_injective (sym (ap (λ (r : Result Fault Unit × World D). r.0) failed) ∙ h))
        | inr (inr (before, again)) ↦ too_late (dock.monotonic w.daemon) deadline before soon
      ]
  wait_loop-ends ticks (suc fuel) deadline container_id w soon h =
      elim (turn (suc fuel) deadline container_id w) [
        | inl (done, _, _, _) ↦
            ok_not_err (sym (ap (λ (r : Result Fault Unit × World D). r.0) done) ∙ h)
        | inr (inl (e, sane, w1, failed)) ↦
            sane (err_injective (sym (ap (λ (r : Result Fault Unit × World D). r.0) failed) ∙ h))
        | inr (inr (before, again)) ↦
            let seen = ticks.container-monotonic container_id w.daemon in
            let slept = ticks.sleep-monotonic 250 (dock.container container_id w.daemon).1 in
            wait_loop-ends ticks fuel deadline container_id (rested container_id w)
              (nearer fuel deadline _ _ _ soon seen slept)
              (sym (ap (λ (r : Result Fault Unit × World D). r.0) again) ∙ h)
      ]

  -- The wait ends within its fuel: four looks for each second of the timeout, and one more, if
  -- the clock does not run backwards and a sleep lasts as long as it is asked to.
  pub wait-ends :
      Ticks
      → (container_id : String) (w : World D)
      → (wait_until_healthy dock container_id w).0 ≢ err cut_off
  unfolding wait_until_healthy
  wait-ends ticks container_id w =
      wait_loop-ends ticks (4 * w.manager.start_timeout_seconds)
        (dock.monotonic w.daemon + 1000 * w.manager.start_timeout_seconds) container_id w
        (four_a_second (dock.monotonic w.daemon) w.manager.start_timeout_seconds)
