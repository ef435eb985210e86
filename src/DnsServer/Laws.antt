-- ===== src/DnsServer/Laws.antt =====
-- The wait for dnsmasq ends.
use koho.Prelude.{
  ℕ, zero, suc, ◌+◌, ◌<◌, ◌≡◌, refl, sym, subst, ◌∙◌, ◌⊎◌, inl, inr, true, false, ◌++◌, arith, leb,
  increment, Exception, runtime_text, Outcome, ok, thrown, ◌>>>◌, >>>-ok, >>>-thrown, M, List,
  Bool-cases,
}
use koho.Text.{bytes, to_string}
use koho.FileDescriptor
use koho.FileDescriptor.{Os, Sink}
use koho.FileDescriptor.Writes.{IsPosix, write_lem}
use koho.DnsServer.{is_write_error, knock, wait_loop, wait_until_started}

-- The attempts behind `i` up to `n` have failed with errors of write(2), and left the socket as `t`.
pub data Refused (os : ℕ → Os × Os) (n : ℕ) (t : Sink) : ℕ → Sink → Type 0 where
  no_attempt : Refused os n t n t
  one_more :
      {i : ℕ} {s : Sink} (e : Exception) (u : Sink)
      → knock (os (suc i)) s ≡ (thrown e, u)
      → is_write_error e ≡ true
      → Refused os n t (suc i) u
      → Refused os n t i s

abbrev pub gave_up : Exception
gave_up =
    runtime_text (bytes "dnsmasq: did not start after " ++ (to_string 20 ++ bytes " attempts"))

-- How the wait ends: at some attempt before the twentieth dnsmasq takes both datagrams, or something
-- else fails than a write; or nineteen attempts have been refused.
pub data Ended (os : ℕ → Os × Os) (i : ℕ) (s : Sink) (run : Outcome (Unit {0}) × Sink)
    : Type 0 where
  started :
      (n : ℕ) (t u : Sink)
      → Refused os n t i s
      → n < 19
      → knock (os (suc n)) t ≡ (ok tt, u)
      → run ≡ (ok tt, u)
      → Ended os i s run
  failed :
      (n : ℕ) (t u : Sink) (e : Exception)
      → Refused os n t i s
      → n < 19
      → knock (os (suc n)) t ≡ (thrown e, u)
      → is_write_error e ≡ false
      → run ≡ (thrown e, u)
      → Ended os i s run
  exhausted : (t : Sink) → Refused os 19 t i s → run ≡ (thrown gave_up, t) → Ended os i s run

refused_first :
    {os : ℕ → Os × Os} {i : ℕ} {s u : Sink} {run : Outcome (Unit {0}) × Sink} (e : Exception)
    → knock (os (suc i)) s ≡ (thrown e, u)
    → is_write_error e ≡ true
    → Ended os (suc i) u run
    → Ended os i s run
refused_first {u} e first its (started n t v before early answered end) =
    started n t v (one_more e u first its before) early answered end
refused_first {u} e first its (failed n t v f before early other kind end) =
    failed n t v f (one_more e u first its before) early other kind end
refused_first {u} e first its (exhausted t before end) =
    exhausted t (one_more e u first its before) end

knock_cases :
    (os : Os × Os) (s : Sink)
    → IsPosix os.0
    → IsPosix os.1
    → ((u : Sink) × (knock os s ≡ (ok tt, u)))
      ⊎ ((e : Exception) × (u : Sink) × (knock os s ≡ (thrown e, u)))
unfolding knock
knock_cases os s posix posix' =
    let (_, _, ends) = write_lem os.0 posix true (bytes "x") s in
    let t = (write_x os.0 s).1 in
    let (_, _, ends') = write_lem os.1 posix' true (bytes "x") t in
    let u = (write_x os.1 t).1 in
    elim ends [
      | inl (e, bad) ↦ inr (e, t, >>>-thrown (write_x os.0 s) second bad)
      | inr (good, _) ↦ elim ends' [
        | inl (e, bad) ↦
            inr (e, u, >>>-ok (write_x os.0 s) second good ∙ >>>-thrown (write_x os.1 t) done bad)
        | inr (good', _) ↦
            inl (u, >>>-ok (write_x os.0 s) second good ∙ >>>-ok (write_x os.1 t) done good')
      ]
    ]
  where
    write_x : Os → M Sink (List ℕ)
    write_x kernel = FileDescriptor.write kernel (bytes "x") true

    done : List ℕ → M Sink (Unit {0})
    done rest v = (ok tt, v)

    second : List ℕ → M Sink (Unit {0})
    second rest v = write_x os.1 v >>> done

wait_loop_ends :
    (fuel i : ℕ) (os : ℕ → Os × Os) (s : Sink)
    → ((n : ℕ) → IsPosix (os n).0 × IsPosix (os n).1)
    → fuel + i ≡ 20
    → i < 20
    → Ended os i s (wait_loop fuel os i s)
unfolding wait_loop
wait_loop_ends zero i os s posix count early = absurd (omega arith)
wait_loop_ends (suc fuel) i os s posix count early =
    let next : increment i ≡ suc i = omega arith in
    elim (Bool-cases (leb 20 (suc i))) [
      | inl last ↦
          let at_end : i ≡ 19 = ground arith in
          exhausted s (subst (λ n. Refused os 19 s n s) (sym at_end) no_attempt)
            (rw (next, at_end) refl)
      | inr more ↦ elim (knock_cases (os (suc i)) s (posix (suc i)).0 (posix (suc i)).1) [
        | inl (u, answered) ↦
            rw (next, more, answered) (started i s u no_attempt (ground arith) answered refl)
        | inr (e, u, refused) ↦ elim (Bool-cases (is_write_error e)) [
          | inl its ↦
              rw (next, more, refused, its)
                (refused_first e refused its
                  (wait_loop_ends fuel (suc i) os u posix (omega arith) (ground arith)))
          | inr other ↦
              rw (next, more, refused, other)
                (failed i s u e no_attempt (ground arith) refused other refl)
        ]
      ]
    ]

-- On a kernel that keeps to write(2), the wait ends: at an attempt in which dnsmasq takes both
-- datagrams, at one in which something else fails than a write, whose exception it passes on, or with
-- an exception of its own after nineteen attempts have been refused.
pub wait_until_started_ends :
    (os : ℕ → Os × Os) (s : Sink)
    → ((n : ℕ) → IsPosix (os n).0 × IsPosix (os n).1)
    → Ended os 0 s (wait_until_started os s)
unfolding wait_until_started
wait_until_started_ends os s posix = wait_loop_ends 20 0 os s posix refl (omega arith)
