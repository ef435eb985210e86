-- ===== src/FileDescriptor/Writes.antt =====
-- What reads and writes do to a descriptor, with a kernel that keeps to read(2) and write(2).
use koho.Prelude.{
  ℕ, zero, suc, ◌≤◌, ◌<◌, min, ◌≡◌, refl, sym, ap, ◌∙◌, ◌≢◌, ◌⊎◌, inl, inr, Bool, true, false, not,
  ◌&&◌, ◌||◌, some, List, [], ◌∷◌, ◌++◌, append-nil, append_assoc, arith, Bool-cases, Option-cases,
  ◌==◌, length, is_empty, length-drop, take, drop, take-append-drop, Exception, runtime_error,
  unix_error, Outcome, ok, thrown, increment,
}
use koho.FileDescriptor.{
  FileDescriptor, Os, Sink, buffer_size, wrote, read, write_some, write_loop, write,
}

-- read(2) brings no more than it was asked for, and write(2) takes no more than it was given.
pub record IsPosix (os : Os) : Type 0 where
  pub read_bounded : (fd n : ℕ) (bytes : List ℕ) → os.read fd n ≡ some bytes → length bytes ≤ n
  pub write_bounded : (fd n : ℕ) (bytes : List ℕ) → os.write fd bytes ≡ some n → n ≤ length bytes

-- Where a write stands: of the buffer, `taken` is with the kernel and `rest` is not.
abbrev pub Splits : List ℕ → Sink → Sink → List ℕ → Type 0
Splits buffer s t rest =
    (taken : List ℕ) × (buffer ≡ taken ++ rest)
    × (t.accepted ≡ s.accepted ++ taken)
    × (t.descriptor.fd ≡ s.descriptor.fd)

pub write_some_lem :
    (os : Os) (buffer : List ℕ) (s : Sink)
    → ((e : Exception) × (write_some os buffer s ≡ (thrown e, s)))
      ⊎ ((n : ℕ) × (n ≢ 0)
          × (0 < length buffer)
          × (os.write s.descriptor.fd buffer ≡ some n)
          × (write_some os buffer s ≡ (ok (drop n buffer), wrote s n buffer)))
unfolding write_some
write_some_lem os [] s = inl (runtime_error "nothing to write", refl)
write_some_lem os (x ∷ xs) s = elim (Option-cases (os.write s.descriptor.fd (x ∷ xs))) [
  | inl e ↦ inl (unix_error "write", rw e)
  | inr (n, e) ↦ elim (Bool-cases (n == 0)) [
    | inl z ↦ inl (runtime_error "write returned 0", rw (e, z))
    | inr z ↦ inr (n, ground arith, omega arith, e, rw (e, z))
  ]
]

-- How a write ends, with what it leaves to be written: by an exception, or with `rest`.
abbrev pub Ends : Bool → Outcome (List ℕ) → List ℕ → Type 0
Ends write_all r rest =
    ((e : Exception) × (r ≡ thrown e)) ⊎ ((r ≡ ok rest) × ((write_all ≡ false) ⊎ (rest ≡ [])))

module _ (os : Os) (posix : IsPosix os) (write_all : Bool) where
  write_loop_stops :
      (fuel : ℕ) (buffer rest : List ℕ) (s t : Sink)
      → (write_all && not (is_empty rest)) ≡ false
      → write_some os buffer s ≡ (ok rest, t)
      → (write_loop (suc fuel) os write_all buffer s ≡ (ok rest, t))
        × ((write_all ≡ false) ⊎ (rest ≡ []))
  unfolding write_loop
  write_loop_stops fuel buffer [] s t done e = (rw (e, done), inr refl)
  write_loop_stops fuel buffer (x ∷ rest) s t done e = (rw (e, done), inl (ground arith))

  write_loop_goes_on :
      (fuel : ℕ) (buffer rest : List ℕ) (s t : Sink)
      → (write_all && not (is_empty rest)) ≡ true
      → write_some os buffer s ≡ (ok rest, t)
      → write_loop (suc fuel) os write_all buffer s ≡ write_loop fuel os write_all rest t
  unfolding write_loop
  write_loop_goes_on fuel buffer rest s t more e = rw (e, more)

  write_loop_fails :
      (fuel : ℕ) (buffer : List ℕ) (s : Sink) (e : Exception)
      → write_some os buffer s ≡ (thrown e, s)
      → write_loop (suc fuel) os write_all buffer s ≡ (thrown e, s)
  unfolding write_loop
  write_loop_fails fuel buffer s e h = rw h

  write_loop_lem :
      (fuel : ℕ) (buffer : List ℕ) (s : Sink)
      → length buffer < fuel
      → let (r, t) = write_loop fuel os write_all buffer s in
        (rest : List ℕ) × Splits buffer s t rest × Ends write_all r rest
  write_loop_lem zero buffer s h = absurd (omega arith)
  write_loop_lem (suc fuel) buffer s h = elim (write_some_lem os buffer s) [
    | inl (e, failed) ↦
        rw (write_loop_fails fuel buffer s e failed)
          (buffer, ([], refl, sym (append-nil s.accepted), refl), inl (e, refl))
    | inr (n, ne, nonempty, taken, wrote_n) ↦
        elim (Bool-cases (write_all && not (is_empty (drop n buffer)))) [
          | inl more ↦
              let (rest, (then', split, grown, same), ends) =
                write_loop_lem fuel (drop n buffer) (wrote s n buffer)
                  (omega (arith, length-drop n buffer)) in
              rw (write_loop_goes_on fuel buffer (drop n buffer) s (wrote s n buffer) more wrote_n)
                (
                  rest,
                  (
                    take n buffer ++ then',
                    sym (take-append-drop n buffer)
                        ∙ ap (λ l. take n buffer ++ l) split
                        ∙ sym (append_assoc (take n buffer) then' rest),
                    grown ∙ append_assoc s.accepted (take n buffer) then',
                    same,
                  ),
                  ends,
                )
          | inr done ↦
              let (stopped, finished) =
                write_loop_stops fuel buffer (drop n buffer) s (wrote s n buffer) done wrote_n in
              rw stopped (
                drop n buffer,
                (take n buffer, sym (take-append-drop n buffer), refl, refl),
                inr (refl, finished),
              )
        ]
  ]

  -- On a kernel that keeps to read(2) and write(2), `write` ends, and what the kernel took is the
  -- front of the buffer, in order, whatever pieces it was taken in; the descriptor keeps its
  -- number. It ends by an exception, or returns the place behind what was taken, which is the end
  -- of the buffer if everything was to be written.
  pub write_lem :
      (buffer : List ℕ) (s : Sink)
      → let (r, t) = write os buffer write_all s in
        (rest : List ℕ) × Splits buffer s t rest × Ends write_all r rest
  unfolding write
  write_lem buffer s = write_loop_lem (suc (length buffer)) buffer s (omega arith)

-- Nothing can be written from an empty string: it throws, and counts as no write.
pub write-nil :
    (os : Os) (write_all : Bool) (s : Sink)
    → write os [] write_all s ≡ (thrown (runtime_error "nothing to write"), s)
unfolding write
write-nil os write_all s = refl

-- On a kernel that keeps to read(2), a read that succeeds brings at most the limit and at most 1
-- MiB, counts once, and marks the end of the file if it brings nothing, and leaves the mark as it
-- was otherwise; a read that fails changes nothing.
pub read_lem :
    (os : Os) (limit : ℕ) (s : FileDescriptor)
    → IsPosix os
    → let (r, t) = read os limit s in
      ((r ≡ thrown (unix_error "read")) × (t ≡ s))
      ⊎ ((bytes : List ℕ) × (r ≡ ok bytes)
          × (length bytes ≤ limit)
          × (length bytes ≤ buffer_size)
          × (t.read_count ≡ increment s.read_count)
          × (((bytes ≡ []) × (t.eof ≡ true)) ⊎ ((bytes ≢ []) × (t.eof ≡ s.eof))))
unfolding read
read_lem os limit s posix = elim (Option-cases (os.read s.fd (min buffer_size limit))) [
  | inl e ↦ rw e (inl (refl, refl))
  | inr (bytes, e) ↦
      let bound : length bytes ≤ min buffer_size limit =
        posix.read_bounded s.fd (min buffer_size limit) bytes e in
      rw e (inr (bytes, refl, omega arith, omega arith, refl, ends bytes))
]
  where
    ends :
        (b : List ℕ)
        → ((b ≡ []) × ((is_empty b || s.eof) ≡ true)) ⊎ ((b ≢ []) × ((is_empty b || s.eof) ≡ s.eof))
    ends [] = inl (refl, refl)
    ends (x ∷ b) = inr (λ h. cc, refl)

-- A descriptor on which the kernel takes a byte at least of whatever is written, and never fails.
abbrev pub TakesBytes : Os → ℕ → Type 0
TakesBytes os fd =
    (buffer : List ℕ) → is_empty buffer ≡ false → (n : ℕ) × (n ≢ 0) × (os.write fd buffer ≡ some n)

emptied : (buffer : List ℕ) → is_empty buffer ≡ true → buffer ≡ []
emptied [] h = refl
emptied (x ∷ xs) h = cc h

write_loop_returns :
    (fuel : ℕ) (os : Os) (buffer : List ℕ) (s : Sink)
    → TakesBytes os s.descriptor.fd
    → length buffer < fuel
    → is_empty buffer ≡ false
    → (write_loop fuel os true buffer s).0 ≡ ok []
unfolding write_loop write_some
write_loop_returns zero os buffer s takes enough nonempty = absurd (omega arith)
write_loop_returns (suc fuel) os [] s takes enough nonempty = cc nonempty
write_loop_returns (suc fuel) os (x ∷ xs) s takes enough nonempty =
    let (n, nonzero, taken) = takes (x ∷ xs) refl in
    let some_taken : (n == 0) ≡ false = ground arith in
    elim (Bool-cases (is_empty (drop n (x ∷ xs)))) [
      | inl done ↦ rw (taken, some_taken, done) (ap ok (emptied (drop n (x ∷ xs)) done))
      | inr more ↦
          rw (taken, some_taken, more)
            (write_loop_returns fuel os (drop n (x ∷ xs)) (wrote s n (x ∷ xs)) takes
              (omega (arith, enough, nonzero, length-drop n (x ∷ xs))) more)
    ]

-- There, a write of all of a buffer that is not empty returns.
pub write_returns :
    (os : Os) (buffer : List ℕ) (s : Sink)
    → TakesBytes os s.descriptor.fd
    → is_empty buffer ≡ false
    → (write os buffer true s).0 ≡ ok []
unfolding write
write_returns os buffer s takes nonempty =
    write_loop_returns (suc (length buffer)) os buffer s takes (omega arith) nonempty
