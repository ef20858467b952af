-- ===== src/Models/Accounts.antt =====
-- models.py: whose row it is, said by the owner columns, and the account's queries in these words.
use ctf_plugin_docker_per_te.Prelude.{
  ℕ, ◌≡◌, refl, sym, ◌∙◌, Bool, true, false, ◌&&◌, nat_eq_iff, Option, none, some, All, In, arith,
}
use ctf_plugin_docker_per_te.Models.{Owner, account_owner, Challenge, ContainerInfo, Solve, Db}
use ctf_plugin_docker_per_te.Models.Queries.{
  id_eq_iff, owner_eq, owner_eq_iff, first-In, first-eq-some, first-eq-none, All-map,
  find_account_info, find_challenge,
}
use ctf_plugin_docker_per_te.Records.{solve_exists_for_account}

-- In team mode the team column alone names the account, else the user column alone.
abbrev pub Belongs : Bool → ℕ → Owner → Type 0
Belongs true xid owner = (owner.team_id ≡ some xid) × (owner.user_id ≡ none)
Belongs false xid owner = (owner.team_id ≡ none) × (owner.user_id ≡ some xid)

pub account_owner-Belongs :
    (is_team : Bool) (xid : ℕ) → Belongs is_team xid (account_owner is_team xid)
account_owner-Belongs true xid = (refl, refl)
account_owner-Belongs false xid = (refl, refl)

Belongs-eq :
    (is_team : Bool) (xid : ℕ) (owner : Owner)
    → Belongs is_team xid owner
    → owner ≡ account_owner is_team xid
Belongs-eq true xid owner (t, u) i = record { team_id = t i; user_id = u i }
Belongs-eq false xid owner (t, u) i = record { team_id = t i; user_id = u i }

pub own-Belongs :
    (is_team : Bool) (xid : ℕ) (owner : Owner)
    → owner_eq owner (account_owner is_team xid) ≡ true
    → Belongs is_team xid owner
own-Belongs is_team xid owner h =
    rw ((owner_eq_iff owner (account_owner is_team xid)).0 h) (account_owner-Belongs is_team xid)

no_bool : true ≡ false → ⊥
no_bool h = cc h

pub other-Belongs :
    (is_team : Bool) (xid : ℕ) (owner : Owner)
    → owner_eq owner (account_owner is_team xid) ≡ false
    → Belongs is_team xid owner
    → ⊥
other-Belongs is_team xid owner h own = no_bool (
    sym ((owner_eq_iff owner (account_owner is_team xid)).1 (Belongs-eq is_team xid owner own)) ∙ h)

-- A row of the account for the challenge.
abbrev pub IsAccountRow : Bool → ℕ → ℕ → ContainerInfo → Type 0
IsAccountRow is_team xid challenge_id info =
    (info.challenge_id ≡ challenge_id) × Belongs is_team xid info.owner

-- The container of the account for the challenge: a row of the table, or none if there is no row.
abbrev pub ActiveContainer : Db → Bool → ℕ → ℕ → Option ContainerInfo → Type 0
ActiveContainer db is_team xid challenge_id none =
    All (λ (info : ContainerInfo). IsAccountRow is_team xid challenge_id info → ⊥) db.infos
ActiveContainer db is_team xid challenge_id (some info) =
    In info db.infos × IsAccountRow is_team xid challenge_id info

both : (a b : Bool) → (a && b) ≡ true → (a ≡ true) × (b ≡ true)
both a b h = ground arith

not_both : (a b : Bool) → (a && b) ≡ false → a ≡ true → b ≡ false
not_both a b h k = ground arith

pub found-ActiveContainer :
    (db : Db) (is_team : Bool) (xid challenge_id : ℕ) (found : Option ContainerInfo)
    → find_account_info db challenge_id (account_owner is_team xid) ≡ found
    → ActiveContainer db is_team xid challenge_id found
unfolding find_account_info
found-ActiveContainer db is_team xid challenge_id none h =
    All-map _ _ db.infos
      (λ (info : ContainerInfo) fails (here, own).
        other-Belongs is_team xid info.owner
          (not_both _ _ fails ((nat_eq_iff info.challenge_id challenge_id).1 here)) own)
      (first-eq-none _ db.infos h)
found-ActiveContainer db is_team xid challenge_id (some info) h =
    let (here, own) = both _ _ (first-eq-some _ db.infos info h) in
    (
      first-In _ db.infos info h,
      ((nat_eq_iff info.challenge_id challenge_id).0 here, own-Belongs is_team xid info.owner own),
    )

-- A challenge of the table with that number.
pub found-challenge :
    (db : Db) (challenge_id : ℕ) (challenge : Challenge)
    → find_challenge db challenge_id ≡ some challenge
    → In challenge db.challenges × (challenge.id ≡ challenge_id)
unfolding find_challenge
found-challenge db challenge_id challenge h = (
  first-In _ db.challenges challenge h,
  (nat_eq_iff challenge.id challenge_id).0 (first-eq-some _ db.challenges challenge h),
)

-- A solve of the challenge by the account.
abbrev pub IsSolve : Bool → ℕ → ℕ → Solve → Type 0
IsSolve true xid challenge_id solve =
    (solve.challenge_id ≡ challenge_id) × (solve.team_id ≡ some xid)
IsSolve false xid challenge_id solve =
    (solve.challenge_id ≡ challenge_id) × (solve.user_id ≡ some xid)

pub unsolved-All :
    (db : Db) (is_team : Bool) (xid challenge_id : ℕ)
    → solve_exists_for_account is_team challenge_id xid db ≡ none
    → All (λ (solve : Solve). IsSolve is_team xid challenge_id solve → ⊥) db.solves
unfolding solve_exists_for_account
unsolved-All db true xid challenge_id h =
    All-map _ _ db.solves
      (λ (s : Solve) fails (here, own). no_bool (
        sym ((id_eq_iff s.team_id (some xid)).1 own)
        ∙ not_both _ _ fails ((nat_eq_iff s.challenge_id challenge_id).1 here)))
      (first-eq-none _ db.solves h)
unsolved-All db false xid challenge_id h =
    All-map _ _ db.solves
      (λ (s : Solve) fails (here, own). no_bool (
        sym ((id_eq_iff s.user_id (some xid)).1 own)
        ∙ not_both _ _ fails ((nat_eq_iff s.challenge_id challenge_id).1 here)))
      (first-eq-none _ db.solves h)
