-- ===== src/ByteStreamQueue/Pop.antt =====
-- `pop` against a queue of bytes: the oldest bytes leave, and the others stay.
use koho.Prelude.{
  ℕ, ◌+◌, ◌-◌, ◌≤◌, ◌<◌, ◌≡◌, refl, sym, ap, ◌∙◌, inl, inr, ◌≢◌, List, [], ◌++◌, append-nil,
  append_assoc, arith, leb, lt→ltb, le→leb, true, length, length-take, length-drop, take, drop,
  drop_all, take-append-drop, take-take, take-take-drop, drop-drop, some, Exception, Outcome, ok,
  thrown, aborted,
}
use koho.FileDescriptor.{Os, Sink, wrote, write_some}
use koho.FileDescriptor.Writes.{IsPosix, write_some_lem}
use koho.ByteStreamQueue.{
  ByteStreamQueue, available_to_pop, non_empty, contiguous_space_to_pop, wrap, pop,
}
use koho.ByteStreamQueue.Invariant.{IsValid, contents, contiguous_space_to_pop_lem}

-- The ring after `n` bytes have been taken.
abbrev popped : ℕ → ByteStreamQueue → ByteStreamQueue
popped n q = record q { next_byte_to_pop = wrap q (q.next_byte_to_pop + n) }

module _ {q : ByteStreamQueue} (v : IsValid q) (n : ℕ) (fits : n ≤ contiguous_space_to_pop q) where
  open q use {buffer, next_byte_to_push as i, next_byte_to_pop as p}

  popped-IsValid : IsValid (popped n q)
  popped-IsValid = ground (arith, contiguous_space_to_pop_lem v)

  -- what is written, and what stays
  contents-popped : contents q ≡ take n (drop p buffer) ++ contents (popped n q)
  unfolding available_to_pop
  contents-popped = ground (
    arith,
    contiguous_space_to_pop_lem v,
    take-take-drop n (i - (p + n)) (drop p buffer),
    drop-drop p n buffer,
    take-append-drop n (drop p buffer),
    append_assoc (take n (drop p buffer)) (drop (p + n) buffer) (take i buffer),
    drop_all (p + n) buffer,
    append-nil (take n (drop p buffer)),
  )

-- How a pop from a ring into a sink can end. In `gave` the bytes `out` went to the kernel.
pub data Popped (q : ByteStreamQueue) (sink : Sink) (r : Outcome (Unit {0})) (q' : ByteStreamQueue)
    (sink' : Sink) : Type 0 where
  write_failed : (e : Exception) → r ≡ thrown e → q' ≡ q → sink' ≡ sink → Popped q sink r q' sink'
  gave :
      (out : List ℕ)
      → out ≢ []
      → r ≡ ok tt
      → IsValid q'
      → contents q ≡ out ++ contents q'
      → sink'.accepted ≡ sink.accepted ++ out
      → length q'.buffer ≡ length q.buffer
      → Popped q sink r q' sink'

module _ (os : Os) (q : ByteStreamQueue) (sink : Sink) (posix : IsPosix os) (v : IsValid q) where
  open q use {buffer, next_byte_to_pop as p}

  size : ℕ
  size = contiguous_space_to_pop q

  piece : List ℕ
  piece = take size (drop p buffer)

  length-piece : length piece ≡ size
  unfolding piece size
  length-piece =
      omega (
        arith,
        length-take size (drop p buffer),
        length-drop p buffer,
        contiguous_space_to_pop_lem v,
      )

  pop_gives :
      (n : ℕ)
      → n ≢ 0
      → non_empty q ≡ true
      → os.write sink.descriptor.fd piece ≡ some n
      → write_some os piece sink ≡ (ok (drop n piece), wrote sink n piece)
      → let (r, (q', sink')) = pop os (q, sink) in Popped q sink r q' sink'
  unfolding pop piece size
  pop_gives n ne full taken written =
      rw (full, ahead, written, advance, inside)
        (gave (take n piece) front refl (popped-IsValid v n fits)
          (contents-popped v n fits ∙ ap (λ l. l ++ contents (popped n q)) shorter) refl refl)
    where
      fits : n ≤ size
      fits = omega (arith, length-piece, posix.write_bounded _ n piece taken)

      shorter : take n (drop p buffer) ≡ take n piece
      shorter = sym (take-take n size (drop p buffer) fits)

      front : take n piece ≢ []
      front e = omega (arith, ap length e, length-take n piece, posix.write_bounded _ n piece taken)

      ahead : leb p (p + size) ≡ true
      ahead = ground arith

      advance : p + (size - length (drop n piece)) ≡ p + n
      advance = omega (arith, fits, length-drop n piece, length-piece)

      inside : leb (p + n) (length buffer) ≡ true
      inside = le→leb _ _ (omega (arith, fits, contiguous_space_to_pop_lem v))

  pop_fails :
      (e : Exception)
      → non_empty q ≡ true
      → write_some os piece sink ≡ (thrown e, sink)
      → let (r, (q', sink')) = pop os (q, sink) in Popped q sink r q' sink'
  unfolding pop piece size
  pop_fails e full failed = rw (full, ahead, failed) (write_failed e refl refl refl)
    where
      ahead : leb p (p + size) ≡ true
      ahead = ground arith

  -- On a kernel that keeps to read(2) and write(2), a pop from a valid ring that holds something
  -- fails no assertion. If the write fails, nothing has changed; otherwise one byte or more leave
  -- the ring, the oldest first, and are exactly what the kernel has taken, and the ring is valid
  -- again.
  pub pop_lem :
      0 < available_to_pop q → let (r, (q', sink')) = pop os (q, sink) in Popped q sink r q' sink'
  pop_lem something = elim (write_some_lem os piece sink) [
    | inl (e, failed) ↦ pop_fails e full failed
    | inr (n, ne, nonempty, taken, written) ↦ pop_gives n ne full taken written
  ]
    where
      full : non_empty q ≡ true
      full = unfold non_empty in lt→ltb 0 _ something

-- An empty ring is not popped from: the assertion fails before anything is written.
pub pop_empty :
    (os : Os) (q : ByteStreamQueue) (sink : Sink)
    → available_to_pop q ≡ 0
    → pop os (q, sink) ≡ (aborted, (q, sink))
unfolding pop
pop_empty os q sink none_left = unfold non_empty in rw none_left
