-- ===== src/Manager/Steady.antt =====
-- Blocks of the manager that commit nothing to the database, one rule for each way to build one.
use ctf_plugin_docker_per_te.Prelude.{◌≡◌, refl, sym, ap, ◌∙◌, Bool, true, false, if◌then◌else◌}
use ctf_plugin_docker_per_te.Result.{Result, ok, err}
use ctf_plugin_docker_per_te.Policy.Errors.{PolicyError}
use ctf_plugin_docker_per_te.Manager.{
  ManagerError, DockerError, Fault, World, Action, continue, recover, ◌>>=◌, try_except, return,
  raise, Manager, get_manager, set_manager, get_daemon, get_session, fail_if, checked, call,
}

-- Whether it returns or raises, what is committed stays as it is.
pub record IsSteady {D A : Type 0} (m : Action D A) : Type 0 where
  pub at : (w : World D) → (m w).1.session.saved ≡ w.session.saved

-- It commits something only if it returns.
pub record IsAtomic {D A : Type 0} (m : Action D A) : Type 0 where
  pub failed : (w w' : World D) (e : Fault) → m w ≡ (err e, w') → w'.session.saved ≡ w.session.saved

module _ {D : Type 0} where
  pub fail_if-IsSteady : (b : Bool) (e : ManagerError) → IsSteady {D = D} (fail_if b e)
  fail_if-IsSteady true e = record { at = λ w. refl }
  fail_if-IsSteady false e = record { at = λ w. refl }

  pub get_manager-IsSteady : IsSteady {D = D} get_manager
  get_manager-IsSteady = record { at = λ w. refl }

  pub set_manager-IsSteady : (m : Manager) → IsSteady {D = D} (set_manager m)
  set_manager-IsSteady m = record { at = λ w. refl }

  pub get_daemon-IsSteady : IsSteady {D = D} get_daemon
  get_daemon-IsSteady = record { at = λ w. refl }

  pub get_session-IsSteady : IsSteady {D = D} get_session
  get_session-IsSteady = record { at = λ w. refl }

module _ {D A : Type 0} where
  pub return-IsSteady : (a : A) → IsSteady {D = D} (return a)
  return-IsSteady a = record { at = λ w. refl }

  pub raise-IsSteady : (e : Fault) → IsSteady {D = D} {A = A} (raise e)
  raise-IsSteady e = record { at = λ w. refl }

  pub steady_lem :
      (m : Action D A) → ((w : World D) → (m w).1.session.saved ≡ w.session.saved) → IsSteady m
  steady_lem m h = record { at = h }

  pub checked-IsSteady : (r : Result PolicyError A) → IsSteady {D = D} (checked r)
  checked-IsSteady (ok a) = record { at = λ w. refl }
  checked-IsSteady (err e) = record { at = λ w. refl }

  pub call-IsSteady : (f : D → Result DockerError A × D) → IsSteady (call f)
  call-IsSteady f = record { at = λ w. refl }

  pub if-IsSteady :
      (b : Bool) (m n : Action D A) → IsSteady m → IsSteady n → IsSteady (if b then m else n)
  if-IsSteady true m n km kn = km
  if-IsSteady false m n km kn = kn

  pub try-IsSteady :
      (m : Action D A) (handler : Fault → Action D A)
      → IsSteady m
      → ((e : Fault) → IsSteady (handler e))
      → IsSteady (try_except m handler)
  try-IsSteady m handler km kh = record { at = λ w. go (m w) ∙ km.at w }
    where
      go : (r : Result Fault A × World D) → (recover r handler).1.session.saved ≡ r.1.session.saved
      go (ok a, w) = refl
      go (err e, w) = (kh e).at w

  -- A steady block commits nothing when it raises.
  pub IsSteady-IsAtomic : (m : Action D A) → IsSteady m → IsAtomic m
  IsSteady-IsAtomic m km = record {
    failed = λ w w' e h. ap (λ (r : Result Fault A × World D). r.1.session.saved) (sym h) ∙ km.at w;
  }

  pub try-IsAtomic :
      (m : Action D A) (handler : Fault → Action D A)
      → IsAtomic m
      → ((e : Fault) → IsSteady (handler e))
      → IsAtomic (try_except m handler)
  try-IsAtomic m handler km kh = record { failed = λ w w' e h. go w w' e (m w) refl h }
    where
      go :
          (w w' : World D) (e : Fault) (r : Result Fault A × World D)
          → m w ≡ r
          → recover r handler ≡ (err e, w')
          → w'.session.saved ≡ w.session.saved
      go w w' e (ok a, w1) same h = cc h
      go w w' e (err f, w1) same h =
          ap (λ (r : Result Fault A × World D). r.1.session.saved) (sym h)
          ∙ (kh f).at w1
          ∙ km.failed w w1 f same

module _ {D A B : Type 0} where
  pub bind-IsSteady :
      (m : Action D A) (f : A → Action D B)
      → IsSteady m
      → ((a : A) → IsSteady (f a))
      → IsSteady (m >>= f)
  bind-IsSteady m f km kf = record { at = λ w. go (m w) ∙ km.at w }
    where
      go : (r : Result Fault A × World D) → (continue r f).1.session.saved ≡ r.1.session.saved
      go (ok a, w) = (kf a).at w
      go (err e, w) = refl

  -- The commit may stand in the rest of a block whose first part is steady,
  pub bind-IsAtomic :
      (m : Action D A) (f : A → Action D B)
      → IsSteady m
      → ((a : A) → IsAtomic (f a))
      → IsAtomic (m >>= f)
  bind-IsAtomic m f km kf = record { failed = λ w w' e h. go w w' e (m w) refl h }
    where
      go :
          (w w' : World D) (e : Fault) (r : Result Fault A × World D)
          → m w ≡ r
          → continue r f ≡ (err e, w')
          → w'.session.saved ≡ w.session.saved
      go w w' e (ok a, w1) same h =
          (kf a).failed w1 w' e h
          ∙ ap (λ (r : Result Fault A × World D). r.1.session.saved) (sym same)
          ∙ km.at w
      go w w' e (err f', w1) same h =
          ap (λ (r : Result Fault B × World D). r.1.session.saved) (sym h)
          ∙ ap (λ (r : Result Fault A × World D). r.1.session.saved) (sym same)
          ∙ km.at w

  -- or be followed by steps that cannot raise.
  pub then_return-IsAtomic :
      (m : Action D A) (f : A → B) → IsAtomic m → IsAtomic (m >>= λ a w. (ok (f a), w))
  then_return-IsAtomic m f km = record { failed = λ w w' e h. go w w' e (m w) refl h }
    where
      go :
          (w w' : World D) (e : Fault) (r : Result Fault A × World D)
          → m w ≡ r
          → continue r (λ a w. (ok (f a), w)) ≡ (err e, w')
          → w'.session.saved ≡ w.session.saved
      go w w' e (ok a, w1) same h = cc h
      go w w' e (err f', w1) same h =
          ap (λ (r : Result Fault B × World D). r.1.session.saved) (sym h) ∙ km.failed w w1 f' same

-- What `search` uses to follow a block.
pub ruleset steady_rules = (
  return-IsSteady, raise-IsSteady, get_manager-IsSteady, set_manager-IsSteady, get_daemon-IsSteady,
  get_session-IsSteady, fail_if-IsSteady, checked-IsSteady, call-IsSteady, if-IsSteady,
  try-IsSteady, bind-IsSteady,
)
