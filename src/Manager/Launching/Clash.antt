-- ===== src/Manager/Launching/Clash.antt =====
-- models.py: the unique columns of the info rows, in words.
use ctf_plugin_docker_per_te.Prelude.{
  ℕ, String, ◌≡◌, refl, sym, ap, ◌∙◌, inl, inr, ◌⊎◌, Bool, true, false, some, nat_eq, nat_eq_iff,
  eq_iff, arith,
}
use ctf_plugin_docker_per_te.Models.{Owner, account_owner, ContainerInfo}
use ctf_plugin_docker_per_te.Manager.Launching.{clashes}

-- The account's column of the mode names the account.
abbrev pub InColumn : Bool → ℕ → Owner → Type 0
InColumn true xid owner = owner.team_id ≡ some xid
InColumn false xid owner = owner.user_id ≡ some xid

-- A row with the same id, or of the account for the same challenge.
abbrev pub Clash : Bool → ℕ → String → ℕ → ContainerInfo → Type 0
Clash is_team xid container_id challenge_id other =
    (other.container_id ≡ container_id)
    ⊎ ((other.challenge_id ≡ challenge_id) × InColumn is_team xid other.owner)

no_bool : true ≡ false → ⊥
no_bool h = cc h

same_column :
    (is_team : Bool) (xid : ℕ) (info other : ContainerInfo)
    → clashes info other ≡ false
    → info.owner ≡ account_owner is_team xid
    → nat_eq info.challenge_id other.challenge_id ≡ true
    → InColumn is_team xid other.owner
    → ⊥
same_column true xid info other free own here column =
    let mine : info.owner.team_id ≡ some xid = ap (λ (o : Owner). o.team_id) own in
    no_bool (ground (arith, rw (mine, column) at free, here, (nat_eq_iff xid xid).1 refl))
same_column false xid info other free own here column =
    let mine : info.owner.user_id ≡ some xid = ap (λ (o : Owner). o.user_id) own in
    no_bool (ground (arith, rw (mine, column) at free, here, (nat_eq_iff xid xid).1 refl))

pub no-Clash :
    (is_team : Bool) (xid : ℕ) {container_id : String} {challenge_id : ℕ}
    (info other : ContainerInfo)
    → clashes info other ≡ false
    → info.owner ≡ account_owner is_team xid
    → info.container_id ≡ container_id
    → info.challenge_id ≡ challenge_id
    → Clash is_team xid container_id challenge_id other
    → ⊥
no-Clash is_team xid info other free own id here = λ clash. elim clash [
  | inl same ↦
      no_bool
        (ground (arith, free, (eq_iff info.container_id other.container_id).1 (id ∙ sym same)))
  | inr (there, column) ↦
      same_column is_team xid info other free own
        ((nat_eq_iff info.challenge_id other.challenge_id).1 (here ∙ sym there)) column
]
