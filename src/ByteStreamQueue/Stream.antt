-- ===== src/ByteStreamQueue/Stream.antt =====
-- A ring between an incoming and an outgoing descriptor, over any run of pushes and pops.
use koho.Prelude.{
  ℕ, ◌+◌, ◌<◌, ◌≡◌, ap, ◌∙◌, Option, none, some, List, [], ◌∷◌, ◌++◌, append-nil, append_assoc,
  arith, inl, inr, Bool-cases, ltb→lt, if◌then◌else◌, min, length, length-append, All, Outcome,
}
use koho.FileDescriptor.{FileDescriptor, Os, Sink, buffer_size}
use koho.FileDescriptor.Writes.{IsPosix}
use koho.ByteStreamQueue.{
  ByteStreamQueue, Result, space_available, non_empty, contiguous_space_to_push, push, pop,
}
use koho.ByteStreamQueue.Invariant.{
  IsValid, contents, available_to_pop_lem, available_to_push-available_to_pop,
}
use koho.ByteStreamQueue.Push.{Pushed, read_failed, at_end, took, push_lem}
use koho.ByteStreamQueue.Pop.{Popped, write_failed, gave, pop_lem}

-- One direction of a proxied connection, with all that read(2) has brought for it.
pub record Pipe : Type 0 where
  pub queue : ByteStreamQueue
  pub source : FileDescriptor
  pub sink : Sink
  pub received : List ℕ

abbrev pub or_nothing : Option (List ℕ) → List ℕ
or_nothing none = []
or_nothing (some c) = c

-- what read(2) brings when `push` calls it
abbrev pub brought : Os → ByteStreamQueue → FileDescriptor → List ℕ
brought os q fd = or_nothing (os.read fd.fd (min buffer_size (contiguous_space_to_push q)))

-- The two actions that dns_proxy.cc registers with its poller for each ring, each with the answers of
-- the kernel, under the condition that the poller tests before it polls for the action.
pub data Call : Type 0 where
  pushes pops : Os → Call

pub step : Call → Pipe → Pipe
step (pushes os) s =
    if space_available s.queue
    then (let (r, (q, fd)) = push os (s.queue, s.source) in
        record s { queue = q; source = fd; received = s.received ++ brought os s.queue s.source })
    else s
step (pops os) s =
    if non_empty s.queue
    then (let (r, (q, sink)) = pop os (s.queue, s.sink) in record s { queue = q; sink = sink })
    else s

pub run : List Call → Pipe → Pipe
run [] s = s
run (c ∷ cs) s = run cs (step c s)

abbrev pub os_of : Call → Os
os_of (pushes os) = os
os_of (pops os) = os

-- Nothing is lost, changed, doubled or put out of order: what was received is what was passed on,
-- followed by what the ring still holds.
pub record Inv (s : Pipe) : Type 0 where
  pub valid : IsValid s.queue
  pub conserved : s.received ≡ s.sink.accepted ++ contents s.queue

Pushed-Inv :
    (os : Os) (s : Pipe) {r : Outcome Result} {q : ByteStreamQueue} {fd : FileDescriptor}
    → Inv s
    → Pushed os s.queue s.source r q fd
    → Inv
        (record s { queue = q; source = fd; received = s.received ++ brought os s.queue s.source })
Pushed-Inv os s v (read_failed e _ same _) =
    rw (e, same, append-nil) (record { valid = v.valid; conserved = v.conserved })
Pushed-Inv os s v (at_end e _ same _) =
    rw (e, same, append-nil) (record { valid = v.valid; conserved = v.conserved })
Pushed-Inv os s v (took c e _ _ valid grown _) = record {
  valid = valid;
  conserved =
      rw (e, grown)
        (ap (λ l. l ++ c) v.conserved ∙ append_assoc s.sink.accepted (contents s.queue) c);
}

Popped-Inv :
    (s : Pipe) {r : Outcome (Unit {0})} {q : ByteStreamQueue} {sink : Sink}
    → Inv s
    → Popped s.queue s.sink r q sink
    → Inv (record s { queue = q; sink = sink })
Popped-Inv s v (write_failed e _ same idle) =
    rw (same, idle) (record { valid = v.valid; conserved = v.conserved })
Popped-Inv s v (gave out _ _ valid shrunk taken _) = record {
  valid = valid;
  conserved = v.conserved ∙ ap (λ l. s.sink.accepted ++ l) shrunk ∙ rw (taken, append_assoc);
}

step-Inv : (c : Call) (s : Pipe) → IsPosix (os_of c) → Inv s → Inv (step c s)
unfolding step
step-Inv (pushes os) s posix v = elim (Bool-cases (space_available s.queue)) [
  | inl room ↦ rw room (
      Pushed-Inv os s v
        (push_lem os s.queue s.source posix v.valid (unfold space_available in ltb→lt 0 _ room)))
  | inr full ↦ rw full v
]
step-Inv (pops os) s posix v = elim (Bool-cases (non_empty s.queue)) [
  | inl some_bytes ↦ rw some_bytes (
      Popped-Inv s v
        (pop_lem os s.queue s.sink posix v.valid (unfold non_empty in ltb→lt 0 _ some_bytes)))
  | inr empty ↦ rw empty v
]

-- On a kernel that keeps to read(2) and write(2), any run of guarded pushes and pops keeps the
-- invariant: the ring is valid, and what the sink's kernel has taken, followed by what the ring
-- still holds, is all that the source's kernel has brought, byte for byte and in order.
pub run-Inv : (cs : List Call) (s : Pipe) → All (λ c. IsPosix (os_of c)) cs → Inv s → Inv (run cs s)
unfolding run
run-Inv [] s posix v = v
run-Inv (c ∷ cs) s posix v = run-Inv cs (step c s) posix.1 (step-Inv c s posix.0 v)

-- On a kernel that keeps to read(2) and write(2), after any run of guarded pushes and pops from a
-- state that satisfies the invariant, fewer bytes have been received and not passed on than the
-- buffer has.
pub run_lag :
    (cs : List Call) (s : Pipe)
    → All (λ c. IsPosix (os_of c)) cs
    → Inv s
    → let t = run cs s in length t.received < length t.sink.accepted + length t.queue.buffer
run_lag cs s posix v =
    let t = run cs s in
    let w : Inv t = run-Inv cs s posix v in
    omega (
      arith,
      ap length w.conserved,
      length-append t.sink.accepted (contents t.queue),
      available_to_pop_lem w.valid,
      available_to_push-available_to_pop w.valid,
    )
