-- ===== src/Privileges/Dropping.antt =====
-- `drop_privileges`, on a kernel that keeps to setreuid(2), seteuid(2) and their like.
use koho.Prelude.{
  ℕ, String, ◌≡◌, refl, sym, ap, ◌∙◌, ◌⊎◌, inl, inr, subst, Bool, true, false, Option, none, some,
  arith, ◌==◌, Bool-cases, Option-cases, ok, pure, ◌>>>◌, >>>-eq-ok, Outcome,
}
use koho.Privileges.{
  Kernel, Ending, returned, drop_privileges, change_group, change_user, verify, regained,
  unless_exit, checked,
}

module _ {K : Type 0} (kernel : Kernel K) where
  -- the ids of the users and of the groups
  abbrev pub SameUsers : K → K → Type 0
  SameUsers k t = (kernel.getuid t ≡ kernel.getuid k) × (kernel.geteuid t ≡ kernel.geteuid k)

  abbrev pub SameGroups : K → K → Type 0
  SameGroups k t = (kernel.getgid t ≡ kernel.getgid k) × (kernel.getegid t ≡ kernel.getegid k)

  -- What the manual pages say: a call that fails changes nothing, one that succeeds sets the ids that
  -- it is given, and neither kind touches the ids of the other.
  pub record IsDocumented : Type 0 where
    pub setregid_sets :
        (k : K) (g n : ℕ)
        → (kernel.setregid g g k).0 ≡ some n
        → let t = (kernel.setregid g g k).1 in
          (kernel.getgid t ≡ g) × (kernel.getegid t ≡ g) × SameUsers k t
    pub setreuid_sets :
        (k : K) (u n : ℕ)
        → (kernel.setreuid u u k).0 ≡ some n
        → let t = (kernel.setreuid u u k).1 in
          (kernel.getuid t ≡ u) × (kernel.geteuid t ≡ u) × SameGroups k t
    pub setegid_fails : (k : K) (g : ℕ) → (kernel.setegid g k).0 ≡ none → (kernel.setegid g k).1 ≡ k
    pub seteuid_fails : (k : K) (u : ℕ) → (kernel.seteuid u k).0 ≡ none → (kernel.seteuid u k).1 ≡ k

  -- The effective group is the real one of before, and if it was another, that cannot be set again.
  abbrev pub GroupDropped : K → K → Type 0
  GroupDropped k t =
      (kernel.getgid t ≡ kernel.getgid k)
      × (kernel.getegid t ≡ kernel.getgid k)
      × ((kernel.getegid k ≡ kernel.getgid k) ⊎ ((kernel.setegid (kernel.getegid k) t).0 ≡ none))

  abbrev pub UserDropped : K → K → Type 0
  UserDropped k t =
      (kernel.getuid t ≡ kernel.getuid k)
      × (kernel.geteuid t ≡ kernel.getuid k)
      × ((kernel.geteuid k ≡ kernel.getuid k) ⊎ ((kernel.seteuid (kernel.geteuid k) t).0 ≡ none))

  checked_lem :
      (attempt : String) (call : Option ℕ × K) {u : Unit {0}} {t : K}
      → checked kernel attempt call ≡ (ok u, t)
      → (n : ℕ) × (call.0 ≡ some n) × (call.1 ≡ t)
  checked_lem attempt (some n, k) e = (n, refl, ap (λ p. p.1) e)
  checked_lem attempt (none, k) e = cc (ap (λ p. p.0) e)

  module _ (documented : IsDocumented) where
    open documented use {setregid_sets, setreuid_sets, setegid_fails, seteuid_fails}

    change_group_lem :
        (k : K) {u : Unit {0}} {t : K}
        → change_group kernel (kernel.getgid k) (kernel.getegid k) k ≡ (ok u, t)
        → (kernel.getgid t ≡ kernel.getgid k) × (kernel.getegid t ≡ kernel.getgid k) × SameUsers k t
    unfolding change_group
    change_group_lem k e = elim (Bool-cases (kernel.getgid k == kernel.getegid k)) [
      | inl same ↦
          let stays = ap (λ p. p.1) (rw same at e) in
          subst
            (λ t.
              (kernel.getgid t ≡ kernel.getgid k)
              × (kernel.getegid t ≡ kernel.getgid k)
              × SameUsers k t)
            stays (refl, ground arith, (refl, refl))
      | inr other ↦
          let (n, success, state) = checked_lem "setregid" _ (rw other at e) in
          subst
            (λ t.
              (kernel.getgid t ≡ kernel.getgid k)
              × (kernel.getegid t ≡ kernel.getgid k)
              × SameUsers k t)
            state (setregid_sets k (kernel.getgid k) n success)
    ]

    change_user_lem :
        (k s : K) {u : Unit {0}} {t : K}
        → SameUsers k s
        → change_user kernel (kernel.getuid k) (kernel.geteuid k) s ≡ (ok u, t)
        → (kernel.getuid t ≡ kernel.getuid k)
          × (kernel.geteuid t ≡ kernel.getuid k)
          × SameGroups s t
    unfolding change_user
    change_user_lem k s same e = elim (Bool-cases (kernel.getuid k == kernel.geteuid k)) [
      | inl equal ↦
          let stays = ap (λ p. p.1) (rw equal at e) in
          subst
            (λ t.
              (kernel.getuid t ≡ kernel.getuid k)
              × (kernel.geteuid t ≡ kernel.getuid k)
              × SameGroups s t)
            stays (same.0, ground arith, (refl, refl))
      | inr other ↦
          let (n, success, state) = checked_lem "setreuid" _ (rw other at e) in
          subst
            (λ t.
              (kernel.getuid t ≡ kernel.getuid k)
              × (kernel.geteuid t ≡ kernel.getuid k)
              × SameGroups s t)
            state (setreuid_sets s (kernel.getuid k) n success)
    ]

    unless_exit_lem :
        (tried : Bool × K) (next : K → Outcome Ending × K) {t : K}
        → unless_exit kernel tried next ≡ (ok returned, t)
        → (tried.0 ≡ false) × (next tried.1 ≡ (ok returned, t))
    unless_exit_lem (true, k) next e = cc (ap (λ p. p.0) e)
    unless_exit_lem (false, k) next e = (refl, e)

    not_regained :
        (real eff : ℕ) (set : ℕ → K → Option ℕ × K) (get : K → ℕ) (k : K)
        → ((s : K) (g : ℕ) → (set g s).0 ≡ none → (set g s).1 ≡ s)
        → (regained kernel real eff set get k).0 ≡ false
        → ((regained kernel real eff set get k).1 ≡ k) × ((eff ≡ real) ⊎ ((set eff k).0 ≡ none))
    not_regained real eff set get k fails e = elim (Bool-cases (real == eff)) [
      | inl same ↦ rw same (refl, inl (ground arith))
      | inr other ↦ elim (Option-cases (set eff k).0) [
        | inl refused ↦ rw other (fails k eff refused, inr refused)
        | inr (n, accepted) ↦ cc (rw (other, accepted) at e)
      ]
    ]

    verify_lem :
        (real_gid eff_gid real_uid eff_uid : ℕ) (k : K) {t : K}
        → verify kernel real_gid eff_gid real_uid eff_uid k ≡ (ok returned, t)
        → (k ≡ t)
          × ((eff_gid ≡ real_gid) ⊎ ((kernel.setegid eff_gid k).0 ≡ none))
          × ((eff_uid ≡ real_uid) ⊎ ((kernel.seteuid eff_uid k).0 ≡ none))
    unfolding verify
    verify_lem real_gid eff_gid real_uid eff_uid k {t} e =
        let (group_kept, user_run) = unless_exit_lem group_try user_check e in
        let (same, group_gone) =
          not_regained real_gid eff_gid kernel.setegid kernel.getegid k setegid_fails group_kept in
        let (user_kept, end) =
          unless_exit_lem (user_try k) (pure returned)
            (subst (λ s. user_check s ≡ (ok returned, t)) same user_run) in
        let (still, user_gone) =
          not_regained real_uid eff_uid kernel.seteuid kernel.geteuid k seteuid_fails user_kept in
        (sym still ∙ ap (λ p. p.1) end, group_gone, user_gone)
      where
        group_try : Bool × K
        group_try = regained kernel real_gid eff_gid kernel.setegid kernel.getegid k

        user_try : K → Bool × K
        user_try = regained kernel real_uid eff_uid kernel.seteuid kernel.geteuid

        user_check : K → Outcome Ending × K
        user_check s = unless_exit kernel (user_try s) (pure returned)

    -- On a kernel whose calls set the ids that they are given if they succeed, change nothing if they
    -- fail, and leave the ids of the other kind: if `drop_privileges` returns, the effective ids are
    -- the real ones, which have not changed, and each effective id that was another cannot be set again.
    pub drop_privileges_lem :
        (k : K) {t : K}
        → drop_privileges kernel k ≡ (ok returned, t)
        → GroupDropped k t × UserDropped k t
    unfolding drop_privileges
    drop_privileges_lem k {t} e =
        let (_, group_run, after_group) = >>>-eq-ok group_step (λ _ s. user_step s >>> last) e in
        let (_, user_run, end) = >>>-eq-ok (user_step group_step.1) last after_group in
        let (gid, egid, users) = change_group_lem k (ap (λ o. (o, group_step.1)) group_run) in
        let (uid, euid, groups) =
          change_user_lem k group_step.1 users
            (ap (λ o. (o, (user_step group_step.1).1)) user_run) in
        let (same, group_gone, user_gone) = verify_lem _ _ _ _ _ end in
        subst (λ s. GroupDropped k s × UserDropped k s) same
          ((groups.0 ∙ gid, groups.1 ∙ egid, group_gone), (uid, euid, user_gone))
      where
        group_step : Outcome (Unit {0}) × K
        group_step = change_group kernel (kernel.getgid k) (kernel.getegid k) k

        user_step : K → Outcome (Unit {0}) × K
        user_step = change_user kernel (kernel.getuid k) (kernel.geteuid k)

        last : Unit {0} → K → Outcome Ending × K
        last _ =
            verify kernel (kernel.getgid k) (kernel.getegid k) (kernel.getuid k) (kernel.geteuid k)
