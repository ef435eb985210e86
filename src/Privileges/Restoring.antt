-- ===== src/Privileges/Restoring.antt =====
-- What an unprivileged user's process may do with its ids, and what follows for both ways of giving
-- privileges up.
use koho.Prelude.{
  ℕ, ◌≡◌, refl, sym, ap, ◌∙◌, ◌≢◌, ◌⊎◌, inl, inr, false, Option, none, some, arith, ◌==◌,
  Bool-cases, ok, Outcome, ◌>>>◌, >>>-ok,
}
use koho.Privileges.{
  Kernel, Ending, returned, Unprivileged, construct, destroy, drop_privileges, change_group,
  change_user, verify, regained,
}

module _ {K : Type 0} (kernel : Kernel K) where
  -- The manual pages of setreuid(2) and seteuid(2), with the saved ids that they tell of: a process
  -- may make its real ids its effective ones, and so its saved ones; it may make an effective id of
  -- its real or its saved one, which leaves both; and without privileges it may make one of no other.
  pub record IsLinux : Type 0 where
    pub saved_uid : K → ℕ
    pub saved_gid : K → ℕ
    pub setegid_allowed :
        (k : K) (g : ℕ)
        → (g ≡ kernel.getgid k) ⊎ (g ≡ saved_gid k)
        → let (answer, t) = kernel.setegid g k in
          (answer ≡ some 0)
          × (kernel.getegid t ≡ g)
          × (saved_gid t ≡ saved_gid k)
          × (kernel.getuid t ≡ kernel.getuid k)
          × (kernel.geteuid t ≡ kernel.geteuid k)
          × (saved_uid t ≡ saved_uid k)
    pub seteuid_allowed :
        (k : K) (u : ℕ)
        → (u ≡ kernel.getuid k) ⊎ (u ≡ saved_uid k)
        → let (answer, t) = kernel.seteuid u k in
          (answer ≡ some 0)
          × (kernel.geteuid t ≡ u)
          × (saved_uid t ≡ saved_uid k)
          × (kernel.getgid t ≡ kernel.getgid k)
          × (kernel.getegid t ≡ kernel.getegid k)
          × (saved_gid t ≡ saved_gid k)
    pub setregid_real :
        (k : K)
        → let (answer, t) = kernel.setregid (kernel.getgid k) (kernel.getgid k) k in
          (answer ≡ some 0)
          × (kernel.getgid t ≡ kernel.getgid k)
          × (kernel.getegid t ≡ kernel.getgid k)
          × (saved_gid t ≡ kernel.getgid k)
          × (kernel.getuid t ≡ kernel.getuid k)
          × (kernel.geteuid t ≡ kernel.geteuid k)
    pub setreuid_real :
        (k : K)
        → let (answer, t) = kernel.setreuid (kernel.getuid k) (kernel.getuid k) k in
          (answer ≡ some 0)
          × (kernel.getuid t ≡ kernel.getuid k)
          × (kernel.geteuid t ≡ kernel.getuid k)
          × (saved_uid t ≡ kernel.getuid k)
          × (kernel.getgid t ≡ kernel.getgid k)
          × (kernel.getegid t ≡ kernel.getegid k)
          × (saved_gid t ≡ saved_gid k)
    pub setegid_refused :
        (k : K) (g : ℕ)
        → kernel.geteuid k ≢ 0
        → g ≢ kernel.getgid k
        → g ≢ saved_gid k
        → kernel.setegid g k ≡ (none, k)
    pub seteuid_refused :
        (k : K) (u : ℕ)
        → kernel.geteuid k ≢ 0
        → u ≢ kernel.getuid k
        → u ≢ saved_uid k
        → kernel.seteuid u k ≡ (none, k)

  module _ (linux : IsLinux) where
    open linux use {
      saved_uid, saved_gid, setegid_allowed, seteuid_allowed, setregid_real, setreuid_real,
      setegid_refused, seteuid_refused,
    }

    -- In a process whose saved ids are its effective ones, as after the start of a setuid program:
    -- the constructor of TemporarilyUnprivileged succeeds and makes the effective ids the real ones,
    -- and after it the destructor succeeds and makes them what they were.
    pub destroy-construct :
        (k : K)
        → saved_uid k ≡ kernel.geteuid k
        → saved_gid k ≡ kernel.getegid k
        → (s : Unprivileged) × (t u : K) × (construct kernel k ≡ (ok s, t))
          × (kernel.geteuid t ≡ kernel.getuid k)
          × (kernel.getegid t ≡ kernel.getgid k)
          × (destroy kernel s t ≡ (ok tt, u))
          × (kernel.geteuid u ≡ kernel.geteuid k)
          × (kernel.getegid u ≡ kernel.getegid k)
    unfolding construct destroy
    destroy-construct k user group =
        let k1 = (kernel.setegid (kernel.getgid k) k).1 in
        let k2 = (kernel.seteuid (kernel.getuid k1) k1).1 in
        let k3 = (kernel.seteuid (kernel.geteuid k) k2).1 in
        let k4 = (kernel.setegid (kernel.getegid k) k3).1 in
        let (a1, egid1, sgid1, uid1, euid1, suid1) =
          setegid_allowed k (kernel.getgid k) (inl refl) in
        let (a2, euid2, suid2, gid2, egid2, sgid2) =
          seteuid_allowed k1 (kernel.getuid k1) (inl refl) in
        let (a3, euid3, suid3, gid3, egid3, sgid3) =
          seteuid_allowed k2 (kernel.geteuid k) (inr (sym user ∙ sym suid1 ∙ sym suid2)) in
        let (a4, egid4, sgid4, uid4, euid4, suid4) =
          setegid_allowed k3 (kernel.getegid k)
            (inr (sym group ∙ sym sgid1 ∙ sym sgid2 ∙ sym sgid3)) in
        (
          record { orig_euid = kernel.geteuid k; orig_egid = kernel.getegid k },
          k2,
          k4,
          rw (a1, a2),
          euid2 ∙ uid1,
          egid2 ∙ egid1,
          rw (a3, a4),
          euid4 ∙ euid3,
          egid4,
        )

    group_changed :
        (k : K)
        → let (r, t) = change_group kernel (kernel.getgid k) (kernel.getegid k) k in
          (r ≡ ok tt)
          × (kernel.getgid t ≡ kernel.getgid k)
          × (kernel.getegid t ≡ kernel.getgid k)
          × ((kernel.getgid k ≡ kernel.getegid k) ⊎ (saved_gid t ≡ kernel.getgid k))
          × (kernel.getuid t ≡ kernel.getuid k)
          × (kernel.geteuid t ≡ kernel.geteuid k)
    unfolding change_group
    group_changed k = elim (Bool-cases (kernel.getgid k == kernel.getegid k)) [
      | inl same ↦ rw same (refl, refl, ground arith, inl (ground arith), refl, refl)
      | inr other ↦
          let (answer, gid, egid, sgid, uid, euid) = setregid_real k in
          rw (other, answer) (refl, gid, egid, inr sgid, uid, euid)
    ]

    user_changed :
        (k s : K)
        → kernel.getuid s ≡ kernel.getuid k
        → kernel.geteuid s ≡ kernel.geteuid k
        → let (r, t) = change_user kernel (kernel.getuid k) (kernel.geteuid k) s in
          (r ≡ ok tt)
          × (kernel.getuid t ≡ kernel.getuid k)
          × (kernel.geteuid t ≡ kernel.getuid k)
          × ((kernel.getuid k ≡ kernel.geteuid k) ⊎ (saved_uid t ≡ kernel.getuid k))
          × (kernel.getgid t ≡ kernel.getgid s)
          × (kernel.getegid t ≡ kernel.getegid s)
          × (saved_gid t ≡ saved_gid s)
    unfolding change_user
    user_changed k s uids euids = elim (Bool-cases (kernel.getuid k == kernel.geteuid k)) [
      | inl same ↦ rw same (refl, uids, euids ∙ ground arith, inl (ground arith), refl, refl, refl)
      | inr other ↦
          let (answer, uid, euid, suid, gid, egid, sgid) = setreuid_real s in
          rw (other, sym uids, answer) (refl, uid, euid, inr suid, gid, egid, sgid)
    ]

    not_regained :
        (real eff : ℕ) (set : ℕ → K → Option ℕ × K) (get : K → ℕ) (k : K)
        → get k ≡ real
        → (real ≢ eff → set eff k ≡ (none, k))
        → regained kernel real eff set get k ≡ (false, k)
    not_regained real eff set get k now refused = elim (Bool-cases (real == eff)) [
      | inl same ↦ rw same refl
      | inr other ↦ rw (other, refused (ground arith)) (ground arith)
    ]

    verified :
        (real_gid eff_gid real_uid eff_uid : ℕ) (k : K)
        → real_uid ≢ 0
        → kernel.getgid k ≡ real_gid
        → kernel.getegid k ≡ real_gid
        → (real_gid ≡ eff_gid) ⊎ (saved_gid k ≡ real_gid)
        → kernel.getuid k ≡ real_uid
        → kernel.geteuid k ≡ real_uid
        → (real_uid ≡ eff_uid) ⊎ (saved_uid k ≡ real_uid)
        → verify kernel real_gid eff_gid real_uid eff_uid k ≡ (ok returned, k)
    unfolding verify
    verified real_gid eff_gid real_uid eff_uid k user gid egid sgid uid euid suid =
        let privileged_not : kernel.geteuid k ≢ 0 = λ z. user (sym euid ∙ z) in
        let group = not_regained real_gid eff_gid kernel.setegid kernel.getegid k egid (λ d.
          setegid_refused k eff_gid privileged_not (λ e. d (sym (e ∙ gid)))
            (λ e. elim sgid [ inl same ↦ d same | inr saved ↦ d (sym (e ∙ saved)) ])) in
        let own = not_regained real_uid eff_uid kernel.seteuid kernel.geteuid k euid (λ d.
          seteuid_refused k eff_uid privileged_not (λ e. d (sym (e ∙ uid)))
            (λ e. elim suid [ inl same ↦ d same | inr saved ↦ d (sym (e ∙ saved)) ])) in
        rw (group, own)

    -- A process of a user that is not root: `drop_privileges` returns, without an exception and
    -- without leaving the program.
    pub drop_privileges_returns :
        (k : K) → kernel.getuid k ≢ 0 → (drop_privileges kernel k).0 ≡ ok returned
    unfolding drop_privileges
    drop_privileges_returns k user =
        let (done1, gid1, egid1, sgid1, uid1, euid1) = group_changed k in
        let (done2, uid2, euid2, suid2, gid2, egid2, sgid2) =
          user_changed k group_step.1 uid1 euid1 in
        let checks =
          verified (kernel.getgid k) (kernel.getegid k) (kernel.getuid k) (kernel.geteuid k)
            (user_step group_step.1).1 user (gid2 ∙ gid1) (egid2 ∙ egid1)
            (elim sgid1 [ inl same ↦ inl same | inr saved ↦ inr (sgid2 ∙ saved) ]) uid2 euid2
            suid2 in
        ap (λ p. p.0)
          (>>>-ok group_step (λ _ t. user_step t >>> last) done1
            ∙ >>>-ok (user_step group_step.1) last done2
            ∙ checks)
      where
        group_step : Outcome (Unit {0}) × K
        group_step = change_group kernel (kernel.getgid k) (kernel.getegid k) k

        user_step : K → Outcome (Unit {0}) × K
        user_step = change_user kernel (kernel.getuid k) (kernel.geteuid k)

        last : Unit {0} → K → Outcome Ending × K
        last _ =
            verify kernel (kernel.getgid k) (kernel.getegid k) (kernel.getuid k) (kernel.geteuid k)
