-- ===== src/ByteStreamQueue/Push.antt =====
-- `push` against a queue of bytes: what read(2) brings comes behind what the ring holds.
use koho.Prelude.{
  ℕ, ◌+◌, ◌-◌, ◌≤◌, ◌<◌, ◌≡◌, refl, sym, ap, ◌∙◌, inl, inr, ◌≢◌, List, [], ◌∷◌, ◌++◌, append-nil,
  append_assoc, arith, ltb, leb, ◌==◌, if◌then◌else◌, Bool-cases, ltb→lt, lt→ltb, true, false,
  length, is_empty, length-append, length-pos, length-drop, take, drop, take_all, min, none, some,
  Option-cases, unix_error, Outcome, ok, thrown, aborted, add_size, sub_size,
}
use koho.FileDescriptor.{FileDescriptor, Os, buffer_size, read}
use koho.FileDescriptor.Writes.{IsPosix}
use koho.ByteStreamQueue.{
  ByteStreamQueue, Result, success, end_of_file, available_to_push, space_available, non_empty,
  contiguous_space_to_push, splice, store, push,
}
use koho.ByteStreamQueue.Splice.{length-splice, take-splice, drop-splice_after, drop-splice_before}
use koho.ByteStreamQueue.Invariant.{
  IsValid, contents, available_to_pop_lem, contiguous_space_to_push_lem,
}

-- The ring after a chunk has been stored.
abbrev stored : List ℕ → ByteStreamQueue → ByteStreamQueue
stored c q = record q {
  buffer = splice q.next_byte_to_push c q.buffer;
  next_byte_to_push =
      if q.next_byte_to_push + length c == length q.buffer
      then 0
      else q.next_byte_to_push + length c;
}

module _ {q : ByteStreamQueue} (v : IsValid q) (c : List ℕ)
    (room : length c ≤ contiguous_space_to_push q) where
  open q use {buffer, next_byte_to_push as i, next_byte_to_pop as p}

  stored-IsValid : IsValid (stored c q)
  stored-IsValid = ground (arith, contiguous_space_to_push_lem v, length-splice i c buffer)

  -- the free part lies before the place to pop
  contents-stored_split : i < p → contents (stored c q) ≡ contents q ++ c
  unfolding available_to_push
  contents-stored_split h = ground (
    arith,
    contiguous_space_to_push_lem v,
    drop-splice_after i p c buffer,
    take-splice i (i + length c) c buffer,
    append_assoc (drop p buffer) (take i buffer) c,
  )

  -- the new bytes follow the old ones in the buffer
  in_line :
      p ≤ i
      → take (i + length c - p) (drop p (splice i c buffer)) ≡ take (i - p) (drop p buffer) ++ c
  in_line h =
      ap (take (i + length c - p)) (drop-splice_before i p c buffer h)
      ∙ take-splice (i - p) (i + length c - p) c (drop p buffer) (omega arith)
          (omega (arith, length-drop p buffer, contiguous_space_to_push_lem v))

  to_the_end :
      p ≤ i
      → i + length c ≡ length buffer
      → drop p (splice i c buffer) ≡ take (i - p) (drop p buffer) ++ c
  to_the_end h e =
      sym (
        take_all (i + length c - p) (drop p (splice i c buffer))
          (omega (arith, length-drop p (splice i c buffer), length-splice i c buffer)))
      ∙ in_line h

  contents-stored : contents (stored c q) ≡ contents q ++ c
  unfolding available_to_push
  contents-stored = elim (Bool-cases (ltb i p)) [
    | inl split ↦ contents-stored_split (ltb→lt i p split)
    | inr line ↦ ground (
      arith,
      in_line (ground arith),
      to_the_end (ground arith),
      append-nil (drop p (splice i c buffer)),
      contiguous_space_to_push_lem v,
    )
  ]

  non_empty-stored : is_empty c ≡ false → non_empty (stored c q) ≡ true
  unfolding non_empty
  non_empty-stored ne = lt→ltb 0 _ (
      omega (
        arith,
        available_to_pop_lem stored-IsValid,
        ap length contents-stored,
        length-append (contents q) c,
        length-pos c ne,
      ))

  store_lem : is_empty c ≡ false → store c q ≡ (ok success, stored c q)
  unfolding store
  store_lem ne = rw (fits, in_range, no_wrap, within, length-splice i c buffer, non_empty-stored ne)
    where
      fits : leb (length c) (sub_size (length buffer) i) ≡ true
      fits = ground (arith, contiguous_space_to_push_lem v)

      in_range : leb (length buffer) i ≡ false
      in_range = ground (arith, v)

      no_wrap : add_size i (length c) ≡ i + length c
      no_wrap = omega (arith, contiguous_space_to_push_lem v)

      within : leb (i + length c) (length buffer) ≡ true
      within = ground (arith, contiguous_space_to_push_lem v)

-- How a push on a ring and a descriptor can end. In `took` the bytes `c` are those that read(2)
-- brought when asked for the contiguous space.
pub data Pushed (os : Os) (q : ByteStreamQueue) (fd : FileDescriptor) (r : Outcome Result)
    (q' : ByteStreamQueue) (fd' : FileDescriptor) : Type 0 where
  read_failed :
      os.read fd.fd (min buffer_size (contiguous_space_to_push q)) ≡ none
      → r ≡ thrown (unix_error "read")
      → q' ≡ q
      → fd' ≡ fd
      → Pushed os q fd r q' fd'
  at_end :
      os.read fd.fd (min buffer_size (contiguous_space_to_push q)) ≡ some []
      → r ≡ ok end_of_file
      → q' ≡ q
      → fd'.eof ≡ true
      → Pushed os q fd r q' fd'
  took :
      (c : List ℕ)
      → os.read fd.fd (min buffer_size (contiguous_space_to_push q)) ≡ some c
      → c ≢ []
      → r ≡ ok success
      → IsValid q'
      → contents q' ≡ contents q ++ c
      → length q'.buffer ≡ length q.buffer
      → Pushed os q fd r q' fd'

push_chunk :
    (os : Os) (q : ByteStreamQueue) (fd : FileDescriptor)
    → IsPosix os
    → IsValid q
    → space_available q ≡ true
    → ltb 0 (contiguous_space_to_push q) ≡ true
    → (c : List ℕ) → os.read fd.fd (min buffer_size (contiguous_space_to_push q)) ≡ some c
    → let (r, (q', fd')) = push os (q, fd) in Pushed os q fd r q' fd'
unfolding push read
push_chunk os q fd posix v space contiguous [] e =
    rw (space, contiguous, e) (at_end e refl refl refl)
push_chunk os q fd posix v space contiguous (x ∷ c) e =
    rw (space, contiguous, e, store_lem v (x ∷ c) fits refl)
      (took (x ∷ c) e (λ h. cc) refl (stored-IsValid v (x ∷ c) fits)
        (contents-stored v (x ∷ c) fits) (length-splice q.next_byte_to_push (x ∷ c) q.buffer))
  where
    fits : length (x ∷ c) ≤ contiguous_space_to_push q
    fits = omega (arith, posix.read_bounded fd.fd _ (x ∷ c) e)

-- On a kernel that keeps to read(2) and write(2), a push on a valid ring with room fails no
-- assertion. If read(2) fails, nothing has changed; if it brings nothing, the ring is as it was,
-- the descriptor is at its end of file and the result says so; otherwise exactly the bytes that it
-- brought are behind those that the ring held, and the ring is valid again.
pub push_lem :
    (os : Os) (q : ByteStreamQueue) (fd : FileDescriptor)
    → IsPosix os
    → IsValid q
    → 0 < available_to_push q
    → let (r, (q', fd')) = push os (q, fd) in Pushed os q fd r q' fd'
push_lem os q fd posix v room = elim (Option-cases (os.read fd.fd (min buffer_size n))) [
  | inr (c, e) ↦ push_chunk os q fd posix v space contiguous c e
  | inl e ↦ unfold push read in rw (space, contiguous, e) (read_failed e refl refl refl)
]
  where
    n : ℕ
    n = contiguous_space_to_push q

    space : space_available q ≡ true
    space = unfold space_available in lt→ltb 0 _ room

    contiguous : ltb 0 n ≡ true
    contiguous = lt→ltb 0 n (omega (arith, contiguous_space_to_push_lem v))

-- A full ring is not pushed to: the assertion fails before anything is read.
pub push_full :
    (os : Os) (q : ByteStreamQueue) (fd : FileDescriptor)
    → available_to_push q ≡ 0
    → push os (q, fd) ≡ (aborted, (q, fd))
unfolding push
push_full os q fd full = unfold space_available in rw full
