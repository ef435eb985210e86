-- ===== src/ByteStreamQueue.antt =====
-- src/util/bytestream_queue.{hh,cc}: a ring of bytes between two file descriptors.
pub mod Splice
pub mod Invariant
pub mod Push
pub mod Pop
pub mod Stream
use koho.Prelude.{
  ℕ, zero, suc, ◌+◌, ◌-◌, Bool, List, [], ◌∷◌, ltb, leb, ◌==◌, if◌then◌else◌, length, is_empty,
  take, drop, add_size, sub_size, out_of_range, Outcome, ok, assert, throw_if, M, ◌>>=◌, ◌>>◌,
  ◌>>>◌,
}
use koho.FileDescriptor.{FileDescriptor, Os, Sink, read, write_some}

pub record ByteStreamQueue : Type 0 where
  pub buffer : List ℕ
  pub next_byte_to_push : ℕ
  pub next_byte_to_pop : ℕ

pub data Result : Type 0 where
  success end_of_file : Result

abbrev pub eof : Result → Bool
eof success = Bool.false
eof end_of_file = Bool.true

-- `string( size, 0 )`
pub zeros : ℕ → List ℕ
zeros zero = []
zeros (suc n) = 0 ∷ zeros n

-- The members are initialised before the body asserts the size.
unfoldable pub construct : ℕ → Outcome ByteStreamQueue
construct size = do
  assert (ltb 1 size)
  ok (record { buffer = zeros size; next_byte_to_push = 0; next_byte_to_pop = 0 })

unfoldable pub available_to_pop : ByteStreamQueue → ℕ
available_to_pop q =
    add_size (sub_size next_byte_to_push next_byte_to_pop)
      (if ltb next_byte_to_push next_byte_to_pop then length buffer else 0)
  where
    open q use {buffer, next_byte_to_push, next_byte_to_pop}

unfoldable pub available_to_push : ByteStreamQueue → ℕ
available_to_push q =
    add_size (sub_size (sub_size next_byte_to_pop next_byte_to_push) 1)
      (if ltb next_byte_to_push next_byte_to_pop then 0 else length buffer)
  where
    open q use {buffer, next_byte_to_push, next_byte_to_pop}

unfoldable pub space_available : ByteStreamQueue → Bool
unfolding available_to_push
space_available q = ltb 0 (available_to_push q)

unfoldable pub non_empty : ByteStreamQueue → Bool
unfolding available_to_pop
non_empty q = ltb 0 (available_to_pop q)

-- what of `available` bytes from `next` on lies before the end of the buffer
abbrev pub contiguous : ByteStreamQueue → ℕ → ℕ → ℕ
contiguous q next available =
    if leb (length q.buffer) (add_size next available)
    then sub_size (length q.buffer) next
    else available

abbrev pub contiguous_space_to_push : ByteStreamQueue → ℕ
contiguous_space_to_push q = contiguous q q.next_byte_to_push (available_to_push q)

abbrev pub contiguous_space_to_pop : ByteStreamQueue → ℕ
contiguous_space_to_pop q = contiguous q q.next_byte_to_pop (available_to_pop q)

-- `if ( next == buffer_.size() ) next = 0`
abbrev pub wrap : ByteStreamQueue → ℕ → ℕ
wrap q next = if next == length q.buffer then 0 else next

-- `memcpy` of the chunk into the buffer from index `i` on
pub splice : ℕ → List ℕ → List ℕ → List ℕ
splice i chunk [] = []
splice zero [] (b ∷ buffer) = b ∷ buffer
splice zero (c ∷ chunk) (b ∷ buffer) = c ∷ splice zero chunk buffer
splice (suc i) chunk (b ∷ buffer) = b ∷ splice i chunk buffer

-- The part of `push` that follows a read which brought something.
store : List ℕ → ByteStreamQueue → Outcome Result × ByteStreamQueue
store new_chunk q =
    (
      do
        assert (leb (length new_chunk) (sub_size (length buffer) next_byte_to_push))
        throw_if (leb (length buffer) next_byte_to_push) out_of_range,
      q,
    )
    >>> λ _ t.
        (
          assert (leb (add_size next_byte_to_push (length new_chunk)) (length buffer)),
          record t {
            buffer = splice next_byte_to_push new_chunk buffer;
            next_byte_to_push = add_size next_byte_to_push (length new_chunk);
          },
        )
        >>> λ _ t.
            (
              assert (non_empty (record t { next_byte_to_push = wrap t t.next_byte_to_push })),
              record t { next_byte_to_push = wrap t t.next_byte_to_push },
            )
            >>> λ _ t. (ok success, t)
  where
    open q use {buffer, next_byte_to_push}

unfoldable pub push : Os → M (ByteStreamQueue × FileDescriptor) Result
unfolding store
push os (q, fd) =
    (do assert (space_available q); assert (ltb 0 (contiguous_space_to_push q)), (q, fd)) >>> λ _ _.
    let (r, fd') = read os (contiguous_space_to_push q) fd in
    (r, (q, fd')) >>> λ new_chunk _.
    if is_empty new_chunk
    then (ok end_of_file, (q, fd'))
    else (let (r, q') = store new_chunk q in (r, (q', fd')))

unfoldable pub pop : Os → M (ByteStreamQueue × Sink) (Unit {0})
pop os (q, sink) =
    (do assert (non_empty q); assert (leb next_byte_to_pop (next_byte_to_pop + size)), (q, sink))
    >>> λ _ _.
        let (r, sink') = write_some os (take size (drop next_byte_to_pop buffer)) sink in
        (r, (q, sink')) >>> λ rest _.
        let next = next_byte_to_pop + (size - length rest) in
        (assert (leb next (length buffer)), (record q { next_byte_to_pop = next }, sink'))
        >>> λ _ _. (ok tt, (record q { next_byte_to_pop = wrap q next }, sink'))
  where
    open q use {buffer, next_byte_to_pop}

    size : ℕ
    size = contiguous_space_to_pop q
