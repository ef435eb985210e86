-- ===== src/Tests/Queues.antt =====
-- Descriptors and rings at concrete inputs.
use koho.Prelude.{
  ℕ, ◌+◌, ◌<◌, ◌≤◌, ◌≡◌, ◌⊎◌, ◌≢◌, refl, false, true, List, [], ◌∷◌, arith, length, ok, thrown,
  unix_error, increment, All,
}
use koho.FileDescriptor
use koho.FileDescriptor.{FileDescriptor, Os, Sink, buffer_size}
use koho.FileDescriptor.Writes.{IsPosix, Splits, Ends, write_lem, read_lem}
use koho.ByteStreamQueue
use koho.ByteStreamQueue.{
  ByteStreamQueue, available_to_push, available_to_pop, contiguous_space_to_push,
  contiguous_space_to_pop,
}
use koho.ByteStreamQueue.Invariant.{IsValid}
use koho.ByteStreamQueue.Push.{Pushed, push_lem}
use koho.ByteStreamQueue.Pop.{Popped, pop_lem}
use koho.ByteStreamQueue.Stream
use koho.ByteStreamQueue.Stream.{Pipe, Call, pushes, pops, run, Inv, run-Inv, run_lag}
use koho.Text.{bytes}
use koho.Tests.World.{os_with, os_with-IsPosix, descriptor}

abbrev hello : Os
hello = os_with (bytes "hello")

abbrev sink : Sink
sink = record { descriptor = descriptor 9; accepted = [] }

write_lem_example :
    let (r, t) = FileDescriptor.write hello (bytes "abc") true sink in
    (rest : List ℕ) × Splits (bytes "abc") sink t rest × Ends true r rest
write_lem_example = write_lem hello (os_with-IsPosix (bytes "hello")) true (bytes "abc") sink

read_lem_test :
    let (r, t) = FileDescriptor.read hello 3 (descriptor 9) in
    ((r ≡ thrown (unix_error "read")) × (t ≡ descriptor 9))
    ⊎ ((bytes : List ℕ) × (r ≡ ok bytes)
        × (length bytes ≤ 3)
        × (length bytes ≤ buffer_size)
        × (t.read_count ≡ increment 0)
        × (((bytes ≡ []) × (t.eof ≡ true)) ⊎ ((bytes ≢ []) × (t.eof ≡ false))))
read_lem_test = read_lem hello 3 (descriptor 9) (os_with-IsPosix (bytes "hello"))

-- a ring of four bytes whose contents, 7 and 8, lie round its end
abbrev ring : ByteStreamQueue
ring = record { buffer = 8 ∷ 0 ∷ 0 ∷ 7 ∷ []; next_byte_to_push = 1; next_byte_to_pop = 3 }

ring-IsValid : IsValid ring
ring-IsValid = omega arith

push_lem_test :
    let (r, (q, fd)) = ByteStreamQueue.push hello (ring, descriptor 5) in
    Pushed hello ring (descriptor 5) r q fd
unfolding available_to_push
push_lem_test =
    push_lem hello ring (descriptor 5) (os_with-IsPosix (bytes "hello")) ring-IsValid (omega arith)

pop_lem_test : let (r, (q, t)) = ByteStreamQueue.pop hello (ring, sink) in Popped ring sink r q t
unfolding available_to_pop
pop_lem_test = pop_lem hello ring sink (os_with-IsPosix (bytes "hello")) ring-IsValid (omega arith)

abbrev pipe : Pipe
pipe = record { queue = ring; source = descriptor 5; sink = sink; received = 7 ∷ 8 ∷ [] }

abbrev calls : List Call
calls = pushes hello ∷ pops hello ∷ pops hello ∷ []

calls-IsPosix : All (λ c. IsPosix (Stream.os_of c)) calls
calls-IsPosix = (
  os_with-IsPosix (bytes "hello"),
  (os_with-IsPosix (bytes "hello"), (os_with-IsPosix (bytes "hello"), tt)),
)

pipe-Inv : Inv pipe
pipe-Inv = record { valid = ring-IsValid; conserved = refl }

run-Inv_example : Inv (run calls pipe)
run-Inv_example = run-Inv calls pipe calls-IsPosix pipe-Inv

run_lag_test :
    let t = run calls pipe in length t.received < length t.sink.accepted + length t.queue.buffer
run_lag_test = run_lag calls pipe calls-IsPosix pipe-Inv
