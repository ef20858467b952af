-- ===== src/Models/Queries.antt =====
-- The queries and changes of rows that the modules above share.
use ctf_plugin_docker_per_te.Prelude.{
  ℕ, String, ◌≡◌, refl, ◌↔◌, Bool, true, false, ◌&&◌, nat_eq, nat_eq_iff, ◌==◌, Option, none, some,
  List, [], ◌∷◌, ◌++◌, first, any, All, In, if◌then◌else◌, arith, ap, Bool-cases, inl, inr,
}
use ctf_plugin_docker_per_te.Models.{Challenge, Owner, ContainerInfo, Db}

-- `column = value` and `column IS NULL`
abbrev pub id_eq : Option ℕ → Option ℕ → Bool
id_eq none none = true
id_eq (some m) (some n) = nat_eq m n
id_eq _ _ = false

abbrev pub text_eq : Option String → Option String → Bool
text_eq none none = true
text_eq (some s) (some t) = s == t
text_eq _ _ = false

abbrev pub owner_eq : Owner → Owner → Bool
owner_eq a b = id_eq a.team_id b.team_id && id_eq a.user_id b.user_id

pub id_eq_iff : (a b : Option ℕ) → (id_eq a b ≡ true) ↔ (a ≡ b)
id_eq_iff none none = ((λ h. refl), λ e. refl)
id_eq_iff (some m) (some n) =
    ((λ h. ap some ((nat_eq_iff m n).0 h)), λ e. (nat_eq_iff m n).1 (ground arith))
id_eq_iff none (some n) = ((λ h. cc h), λ e. cc e)
id_eq_iff (some m) none = ((λ h. cc h), λ e. cc e)

pub owner_eq_iff : (a b : Owner) → (owner_eq a b ≡ true) ↔ (a ≡ b)
owner_eq_iff a b = (
  (λ h i. record {
    team_id = (id_eq_iff a.team_id b.team_id).0 (ground arith) i;
    user_id = (id_eq_iff a.user_id b.user_id).0 (ground arith) i;
  }),
  λ e. rw e (rw ((id_eq_iff b.team_id b.team_id).1 refl) ((id_eq_iff b.user_id b.user_id).1 refl)),
)

-- `ContainerChallengeModel.query.filter_by(id=chal_id).first()`
unfoldable pub find_challenge : Db → ℕ → Option Challenge
find_challenge db chal_id = first (λ c. nat_eq c.id chal_id) db.challenges

-- `ContainerInfoModel.query.filter_by(container_id=…).first()`
unfoldable pub find_info : Db → String → Option ContainerInfo
find_info db container_id = first (λ i. i.container_id == container_id) db.infos

-- `ContainerInfoModel.query.filter_by(challenge_id=…, team_id=…, user_id=…).first()`
unfoldable pub find_account_info : Db → ℕ → Owner → Option ContainerInfo
find_account_info db challenge_id owner =
    first (λ i. nat_eq i.challenge_id challenge_id && owner_eq i.owner owner) db.infos

-- What `.first()` returns passes the query's test, and it returns nothing only if nothing does.
pub first-eq-some {ℓ} :
    {A : Type ℓ} (test : A → Bool) (xs : List A) (x : A) → first test xs ≡ some x → test x ≡ true
first-eq-some test [] x h = cc h
first-eq-some test (y ∷ ys) x h = elim (Bool-cases (test y)) [
  | inl hit ↦ let same : y ≡ x = cc (rw hit at h) in rw (← same) hit
  | inr miss ↦ first-eq-some test ys x (rw miss at h)
]

pub first-In :
    {A : Type 0} (test : A → Bool) (xs : List A) (x : A) → first test xs ≡ some x → In x xs
first-In test [] x h = absurd (cc h)
first-In test (y ∷ ys) x h = elim (Bool-cases (test y)) [
  | inl hit ↦ inl (cc (rw hit at h))
  | inr miss ↦ inr (first-In test ys x (rw miss at h))
]

pub first-eq-none :
    {A : Type 0} (test : A → Bool) (xs : List A)
    → first test xs ≡ none
    → All (λ x. test x ≡ false) xs
first-eq-none test [] h = tt
first-eq-none test (y ∷ ys) h = elim (Bool-cases (test y)) [
  | inl hit ↦ cc (rw hit at h)
  | inr miss ↦ (miss, first-eq-none test ys (rw miss at h))
]

pub any-eq-false :
    {A : Type 0} (test : A → Bool) (xs : List A)
    → any test xs ≡ false
    → All (λ x. test x ≡ false) xs
any-eq-false test [] h = tt
any-eq-false test (y ∷ ys) h = elim (Bool-cases (test y)) [
  | inl hit ↦ cc (rw hit at h)
  | inr miss ↦ (miss, any-eq-false test ys (rw miss at h))
]

pub All-map :
    {A : Type 0} (P Q : A → Type 0) (xs : List A) → ((x : A) → P x → Q x) → All P xs → All Q xs
All-map P Q [] f h = tt
All-map P Q (x ∷ xs) f (h, hs) = (f x h, All-map P Q xs f hs)

pub first-append {ℓ} :
    {A : Type ℓ} (test : A → Bool) (xs : List A) (x : A)
    → first test xs ≡ none
    → first test (xs ++ x ∷ []) ≡ (if test x then some x else none)
first-append test [] x h = refl
first-append test (y ∷ ys) x h = elim (Bool-cases (test y)) [
  | inl hit ↦ cc (rw hit at h)
  | inr miss ↦ rw miss (first-append test ys x (rw miss at h))
]

both : (a b : Bool) → (a && b) ≡ true → (a ≡ true) × (b ≡ true)
both true b h = (refl, h)
both false b h = cc h

-- The row that the account's query finds is the account's, for the challenge.
pub find_account_info-Owned :
    (db : Db) (challenge_id : ℕ) (owner : Owner) (info : ContainerInfo)
    → find_account_info db challenge_id owner ≡ some info
    → (info.challenge_id ≡ challenge_id) × (info.owner ≡ owner)
unfolding find_account_info
find_account_info-Owned db challenge_id owner info h =
    let passes =
      first-eq-some (λ i. nat_eq i.challenge_id challenge_id && owner_eq i.owner owner) db.infos
        info h in
    (
      (nat_eq_iff info.challenge_id challenge_id).0 (both _ _ passes).0,
      (owner_eq_iff info.owner owner).0 (both _ _ passes).1,
    )
