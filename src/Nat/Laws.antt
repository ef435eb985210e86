-- ===== src/Nat/Laws.antt =====
-- What the rules of a NAT do to the table of the machine.
use koho.Prelude.{
  ℕ, ◌≡◌, refl, sym, ap, ap₂, subst, ◌∙◌, ◌≢◌, List, [], ◌∷◌, ◌++◌, append_assoc, append-nil, All,
  Exception, Outcome, ok, thrown, aborted, undefined, running, M, ◌>>>◌, >>>-eq-ok, >>>-eq-thrown,
  >>>-ok, inl, inr, catching-ok,
}
use koho.Text.{bytes}
use koho.Address
use koho.Address.{Address, Resolver}
use koho.Nat.{
  NatRule, Runner, command, add_rule, delete_rule, Nat, pre_rule, post_rule, or_undo, construct,
  destroy,
}

abbrev pub Absent : NatRule → List NatRule → Type 0
Absent rule = All (λ other. rule ≢ other)

-- What iptables(8) says of -A and -D on the table nat: a rule is appended to the rules, or nothing
-- changes; and the first of the rules that match is deleted.
pub record IsIptables {W : Type 0} (run : Runner W) (iptables : List ℕ) (rules : W → List NatRule)
    : Type 0 where
  pub appends :
      (rule : NatRule) (w : W)
      → (run (command run iptables (bytes "-A") rule) w).0 ≡ ok tt
      → rules (run (command run iptables (bytes "-A") rule) w).1 ≡ rules w ++ rule ∷ []
  pub refuses :
      (rule : NatRule) (w : W) (e : Exception)
      → (run (command run iptables (bytes "-A") rule) w).0 ≡ thrown e
      → rules (run (command run iptables (bytes "-A") rule) w).1 ≡ rules w
  pub deletes :
      (rule : NatRule) (front back : List NatRule) (w : W)
      → rules w ≡ front ++ rule ∷ back
      → Absent rule front
      → let (r, v) = run (command run iptables (bytes "-D") rule) w in
        (r ≡ ok tt) × (rules v ≡ front ++ back)

Absent-append :
    (rule other : NatRule) (front : List NatRule)
    → Absent rule front
    → rule ≢ other
    → Absent rule (front ++ other ∷ [])
Absent-append rule other [] h d = (d, tt)
Absent-append rule other (x ∷ front) h d = (h.0, Absent-append rule other front h.1 d)

module _ {W : Type 0} (run : Runner W) (iptables : List ℕ) (rules : W → List NatRule)
    (documented : IsIptables run iptables rules) where
  open documented use {appends, refuses, deletes}

  add_rule_lem :
      (args : NatRule) (w : W) {rule : NatRule} {v : W}
      → add_rule run iptables args w ≡ (ok rule, v)
      → (args ≡ rule) × (rules v ≡ rules w ++ rule ∷ [])
  unfolding add_rule
  add_rule_lem args w {rule} {v} e =
      let (done, ran, end) =
        >>>-eq-ok (run (command run iptables (bytes "-A") args) w) (λ _ u. (ok args, u)) e in
      let same : args ≡ rule = out (ap (λ p. p.0) end) in
      (same, sym (ap (λ p. rules p.1) end) ∙ appends args w ran ∙ ap (λ a. rules w ++ a ∷ []) same)
    where
      out : {a b : NatRule} → ok a ≡ ok b → a ≡ b
      out h = cc h

  add_rule_fails :
      (args : NatRule) (w : W) {e : Exception} {v : W}
      → add_rule run iptables args w ≡ (thrown e, v)
      → rules v ≡ rules w
  unfolding add_rule
  add_rule_fails args w {e} {v} h =
      elim (>>>-eq-thrown (run (command run iptables (bytes "-A") args) w) (λ _ u. (ok args, u))
        h) [
          | inl ran ↦ sym (ap (λ p. rules p.1) ran) ∙ refuses args w e (ap (λ p. p.0) ran)
          | inr (done, ran, end) ↦ cc (ap (λ p. p.0) end)
        ]

  delete_rule_lem :
      (rule : NatRule) (front back : List NatRule) (w : W)
      → rules w ≡ front ++ rule ∷ back
      → Absent rule front
      → let (r, v) = delete_rule run iptables rule w in (r ≡ ok tt) × (rules v ≡ front ++ back)
  unfolding delete_rule
  delete_rule_lem rule front back w there absent =
      let (done, gone) = deletes rule front back w there absent in
      rw (catching-ok (run (command run iptables (bytes "-D") rule) w) (λ _ v. (ok tt, v)) done)
        (done, gone)

  or_undo_ok :
      (pre : NatRule) (m : Outcome NatRule × W) {s : Nat run iptables} {v : W}
      → or_undo run iptables pre m ≡ (ok s, v)
      → (m ≡ (ok s.post, v)) × (s.pre ≡ pre)
  unfolding or_undo
  or_undo_ok pre (ok post, w) {s} {v} e = (
    ap₂ (λ r u. (ok (Nat.post r), u)) (out (ap (λ p. p.0) e)) (ap (λ p. p.1) e),
    sym (ap Nat.pre (out (ap (λ p. p.0) e))),
  )
    where
      out : {a b : Nat run iptables} → ok a ≡ ok b → a ≡ b
      out h = cc h
  or_undo_ok pre (thrown x, w) e =
      let (_, _, end) = >>>-eq-ok (delete_rule run iptables pre w) (λ _ v. (thrown x, v)) e in
      cc (ap (λ p. p.0) end)
  or_undo_ok pre (aborted, w) e = cc (ap (λ p. p.0) e)
  or_undo_ok pre (undefined, w) e = cc (ap (λ p. p.0) e)
  or_undo_ok pre (running, w) e = cc (ap (λ p. p.0) e)

  or_undo_thrown :
      (pre : NatRule) (table : List NatRule) (m : Outcome NatRule × W) {e : Exception} {v : W}
      → ((x : Exception) → m.0 ≡ thrown x → rules m.1 ≡ table ++ pre ∷ [])
      → Absent pre table
      → or_undo run iptables pre m ≡ (thrown e, v)
      → rules v ≡ table
  unfolding or_undo
  or_undo_thrown pre table (ok post, w) there absent h = cc (ap (λ p. p.0) h)
  or_undo_thrown pre table (thrown x, w) there absent h =
      let (done, gone) = delete_rule_lem pre table [] w (there x refl) absent in
      let run' = >>>-ok (delete_rule run iptables pre w) (λ _ v. (thrown x, v)) done in
      sym (ap (λ p. rules p.1) h) ∙ ap (λ p. rules p.1) run' ∙ gone ∙ append-nil table
  or_undo_thrown pre table (aborted, w) there absent h = cc (ap (λ p. p.0) h)
  or_undo_thrown pre table (undefined, w) there absent h = cc (ap (λ p. p.0) h)
  or_undo_thrown pre table (running, w) there absent h = cc (ap (λ p. p.0) h)

  module _ (names : Resolver) (pid : ℕ) (ingress : Address) (w : W) where
    abbrev of_pid : List ℕ → NatRule
    of_pid ip = pre_rule run iptables ip pid

    with_pre : NatRule → M W (Nat run iptables)
    with_pre pre u = or_undo run iptables pre (add_rule run iptables (post_rule run iptables pid) u)

    with_ip : List ℕ → M W (Nat run iptables)
    unfolding with_pre
    with_ip ip u = add_rule run iptables (of_pid ip) u >>> with_pre

    -- A NAT that has been made has put its two rules behind those of the machine.
    construct_lem :
        {s : Nat run iptables} {v : W}
        → construct run iptables names pid ingress w ≡ (ok s, v)
        → (ip : List ℕ) × (Address.ip names ingress ≡ ok ip)
          × (s.pre ≡ of_pid ip)
          × (s.post ≡ post_rule run iptables pid)
          × (rules v ≡ rules w ++ s.pre ∷ s.post ∷ [])
    unfolding construct with_ip with_pre
    construct_lem {s} {v} e =
        let (ip, known, after) = >>>-eq-ok (Address.ip names ingress, w) with_ip e in
        let (pre, added, last) = >>>-eq-ok (add_rule run iptables (of_pid ip) w) with_pre after in
        let w1 = (add_rule run iptables (of_pid ip) w).1 in
        let (first, table) = add_rule_lem (of_pid ip) w (ap (λ o. (o, w1)) added) in
        let (both, mine) =
          or_undo_ok pre (add_rule run iptables (post_rule run iptables pid) w1) last in
        let (second, whole) = add_rule_lem (post_rule run iptables pid) w1 both in
        (
          ip,
          known,
          mine ∙ sym first,
          sym second,
          whole
              ∙ ap (λ l. l ++ s.post ∷ []) (table ∙ ap (λ a. rules w ++ a ∷ []) (sym mine))
              ∙ append_assoc (rules w) (s.pre ∷ []) (s.post ∷ []),
        )

    -- On a machine whose iptables appends and deletes as iptables(8) says, where no rule is there
    -- already that marks what comes from the address: when the constructor of a NAT throws, at
    -- whatever point, the table is as it was.
    pub construct_throws :
        {e : Exception} {v : W}
        → ((ip : List ℕ) → Address.ip names ingress ≡ ok ip → Absent (of_pid ip) (rules w))
        → construct run iptables names pid ingress w ≡ (thrown e, v)
        → rules v ≡ rules w
    unfolding construct with_ip with_pre
    construct_throws {e} {v} absent h =
        elim (>>>-eq-thrown (Address.ip names ingress, w) with_ip h) [
          | inl unknown ↦ sym (ap (λ p. rules p.1) unknown)
          | inr (ip, known, after) ↦
              elim (>>>-eq-thrown (add_rule run iptables (of_pid ip) w) with_pre after) [
                | inl refused ↦ add_rule_fails (of_pid ip) w refused
                | inr (pre, added, last) ↦
                    let w1 = (add_rule run iptables (of_pid ip) w).1 in
                    let (first, table) = add_rule_lem (of_pid ip) w (ap (λ o. (o, w1)) added) in
                    let second = add_rule run iptables (post_rule run iptables pid) w1 in
                    or_undo_thrown pre (rules w) second
                      (λ x bad.
                        add_rule_fails (post_rule run iptables pid) w1 (ap (λ o. (o, second.1)) bad)
                        ∙ table)
                      (subst (λ r. Absent r (rules w)) first (absent ip known)) last
              ]
        ]

    -- On a machine whose iptables appends and deletes as iptables(8) says, where neither rule of a NAT
    -- is there already: when one has been made, and the table is left alone until its destructor, or is as it was left by then, the destructor succeeds
    -- and leaves the table as it was before the NAT.
    pub destroy-construct_table :
        {s : Nat run iptables} {v u : W}
        → construct run iptables names pid ingress w ≡ (ok s, v)
        → rules u ≡ rules v
        → Absent s.pre (rules w)
        → Absent s.post (rules w)
        → let (r, t) = destroy run iptables s u in (r ≡ ok tt) × (rules t ≡ rules w)
    unfolding destroy
    destroy-construct_table {s} {v} {u} made left no_pre no_post =
        let (ip, _, pre, post, table) = construct_lem made in
        let (done, without_post) =
          delete_rule_lem s.post (rules w ++ s.pre ∷ []) [] u
            (left ∙ table ∙ sym (append_assoc (rules w) (s.pre ∷ []) (s.post ∷ [])))
            (Absent-append s.post s.pre (rules w) no_post (λ same. cc (sym post ∙ same ∙ pre))) in
        let next = (delete_rule run iptables s.post u).1 in
        let (done', clean) =
          delete_rule_lem s.pre (rules w) [] next
            (without_post ∙ append-nil (rules w ++ s.pre ∷ [])) no_pre in
        let ran =
          >>>-ok (delete_rule run iptables s.post u) (λ _ t. delete_rule run iptables s.pre t)
            done in
        rw ran (done', clean ∙ append-nil (rules w))
