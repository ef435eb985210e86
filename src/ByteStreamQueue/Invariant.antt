-- ===== src/ByteStreamQueue/Invariant.antt =====
-- The representation invariant of the ring, and what the two counts mean under it.
use koho.Prelude.{
  ℕ, zero, suc, ◌+◌, ◌-◌, ◌^◌, ◌≤◌, ◌<◌, ◌≡◌, ◌⊎◌, refl, ap, List, [], ◌++◌, arith, ltb,
  if◌then◌else◌, length, length-append, length-take, length-drop, take, drop, ok,
}
use koho.ByteStreamQueue.{
  ByteStreamQueue, zeros, construct, available_to_pop, available_to_push, contiguous_space_to_push,
  contiguous_space_to_pop,
}

pub record IsValid (q : ByteStreamQueue) : Type 0 where
  pub large : 1 < length q.buffer
  pub small : length q.buffer < 2 ^ 63
  pub push_in : q.next_byte_to_push < length q.buffer
  pub pop_in : q.next_byte_to_pop < length q.buffer

-- The bytes pushed and not yet popped, oldest first.
abbrev pub contents : ByteStreamQueue → List ℕ
contents q =
    if ltb q.next_byte_to_push q.next_byte_to_pop
    then drop q.next_byte_to_pop q.buffer ++ take q.next_byte_to_push q.buffer
    else take (q.next_byte_to_push - q.next_byte_to_pop) (drop q.next_byte_to_pop q.buffer)

length-zeros : (n : ℕ) → length (zeros n) ≡ n
unfolding zeros
length-zeros zero = refl
length-zeros (suc n) = ap suc (length-zeros n)

-- The constructor makes a valid empty queue of any size above 1 that a string can have.
pub construct_lem :
    (size : ℕ)
    → 1 < size
    → size < 2 ^ 63
    → (q : ByteStreamQueue) × (construct size ≡ ok q)
      × IsValid q
      × (contents q ≡ [])
      × (length q.buffer ≡ size)
unfolding construct
construct_lem size h k = (
  record { buffer = zeros size; next_byte_to_push = 0; next_byte_to_pop = 0 },
  ground arith,
  omega (arith, length-zeros size),
  refl,
  length-zeros size,
)

-- What may be popped is what the ring holds.
pub available_to_pop_lem :
    {q : ByteStreamQueue} → IsValid q → available_to_pop q ≡ length (contents q)
unfolding available_to_pop
available_to_pop_lem {q} v = ground (
  arith,
  length-append (drop q.next_byte_to_pop q.buffer) (take q.next_byte_to_push q.buffer),
  length-take q.next_byte_to_push q.buffer,
  length-drop q.next_byte_to_pop q.buffer,
  length-take (q.next_byte_to_push - q.next_byte_to_pop) (drop q.next_byte_to_pop q.buffer),
)

-- In a valid ring, room and contents together are one less than the size of the buffer, the
-- subtractions of size_t notwithstanding.
pub available_to_push-available_to_pop :
    {q : ByteStreamQueue}
    → IsValid q
    → available_to_push q + available_to_pop q + 1 ≡ length q.buffer
unfolding available_to_push available_to_pop
available_to_push-available_to_pop v = ground arith

-- The piece that `push` asks for lies in the free part of the buffer, and is empty only if that is.
pub contiguous_space_to_push_lem :
    {q : ByteStreamQueue}
    → IsValid q
    → let n = contiguous_space_to_push q in
      (n ≤ available_to_push q)
      × (q.next_byte_to_push + n ≤ length q.buffer)
      × ((available_to_push q ≡ 0) ⊎ (0 < n))
unfolding available_to_push
contiguous_space_to_push_lem v = ground arith

-- So for the piece that `pop` writes.
pub contiguous_space_to_pop_lem :
    {q : ByteStreamQueue}
    → IsValid q
    → let n = contiguous_space_to_pop q in
      (n ≤ available_to_pop q)
      × (q.next_byte_to_pop + n ≤ length q.buffer)
      × ((available_to_pop q ≡ 0) ⊎ (0 < n))
unfolding available_to_pop
contiguous_space_to_pop_lem v = ground arith
