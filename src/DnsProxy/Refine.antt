-- ===== src/DnsProxy/Refine.antt =====
-- The thread of `handle_tcp` implements the two channels.
use koho.Prelude.{
  ℕ, ◌≤◌, ◌<◌, ◌≡◌, refl, sym, ap, ◌∙◌, inl, inr, List, [], ◌∷◌, ◌++◌, append-nil, arith, length,
  length-append, All, Bool-cases, ltb→lt, lt→ltb, ok, M, >>>-keeps,
}
use koho.FileDescriptor.{FileDescriptor, Os, Sink}
use koho.FileDescriptor.Writes.{IsPosix}
use koho.ByteStreamQueue.{
  ByteStreamQueue, available_to_pop, available_to_push, space_available, non_empty,
  contiguous_space_to_push, push, pop,
}
use koho.ByteStreamQueue.Invariant.{
  IsValid, contents, construct_lem, available_to_pop_lem, available_to_push-available_to_pop,
  contiguous_space_to_push_lem,
}
use koho.ByteStreamQueue.Push.{read_failed, at_end, took, push_lem, push_full}
use koho.ByteStreamQueue.Pop.{write_failed, gave, pop_lem, pop_empty}
use koho.Epoller.{continue, PollResult, poll_success, poll_timeout, poll_exit}
use koho.Poller.{PollOs}
use koho.Poller.Keeps.{poll_keeps}
use koho.DnsProxy.Relay.{
  Relay, Round, Task, read_server, read_client, write_server, write_client, pushed, invoke, fd_of,
  interested, put, push_server, push_client, pop_server, pop_client, result_of, start, start_with,
  ring_size, poll_once, poll_loop, or_return,
}
use koho.DnsProxy.Channel.{
  Channel, Duplex, Step, arrive, depart, upwards, downwards, Reach, here, then_move, IsFaithful,
  Reach-IsFaithful,
}

-- What a relay is to those who look at its sockets only.
abbrev pub view : Relay → Duplex
view s = record {
  up = record {
    arrived = s.client_received;
    departed = s.dns_server.accepted;
    waiting = contents s.from_client;
  };
  down = record {
    arrived = s.server_received;
    departed = s.client.accepted;
    waiting = contents s.from_server;
  };
}

-- Both rings are valid and of one size, and the channels have come from `before` by their own moves.
pub record Refines (size : ℕ) (before : Duplex) (s : Relay) : Type 0 where
  pub up_valid : IsValid s.from_client
  pub down_valid : IsValid s.from_server
  pub up_size : length s.from_client.buffer ≡ size
  pub down_size : length s.from_server.buffer ≡ size
  pub reached : Reach size before (view s)

-- A push, whether there is room or not, brings what it read behind what was there.
push_arrives :
    (os : Os) (q : ByteStreamQueue) (fd : FileDescriptor)
    → IsPosix os
    → IsValid q
    → let q' = (push os (q, fd)).1.0 in
      IsValid q'
      × (length q'.buffer ≡ length q.buffer)
      × (contents q' ≡ contents q ++ pushed os q fd)
push_arrives os q fd posix v = elim (Bool-cases (space_available q)) [
  | inr full ↦
      rw (full, push_full os q fd (unfold space_available in ground (arith, full)))
        (v, refl, sym (append-nil (contents q)))
  | inl room ↦
      let positive : 0 < available_to_push q = unfold space_available in ltb→lt 0 _ room in
      let ahead =
        lt→ltb 0 (contiguous_space_to_push q) (omega (arith, contiguous_space_to_push_lem v)) in
      rw (room, ahead)
        (elim (push_lem os q fd posix v positive) [
          | read_failed e _ same _ ↦ rw (same, e) (v, refl, sym (append-nil (contents q)))
          | at_end e _ same _ ↦ rw (same, e) (v, refl, sym (append-nil (contents q)))
          | took c e _ _ valid grown size ↦ rw e (valid, size, grown)
        ])
]

pop_departs :
    (os : Os) (q : ByteStreamQueue) (sink : Sink)
    → IsPosix os
    → IsValid q
    → let (q', sink') = (pop os (q, sink)).1 in
      IsValid q'
      × (length q'.buffer ≡ length q.buffer)
      × ((out : List ℕ) × (contents q ≡ out ++ contents q')
          × (sink'.accepted ≡ sink.accepted ++ out))
pop_departs os q sink posix v = elim (Bool-cases (non_empty q)) [
  | inr empty ↦
      rw (pop_empty os q sink (unfold non_empty in ground (arith, empty)))
        (v, refl, ([], refl, sym (append-nil sink.accepted)))
  | inl full ↦
      let positive : 0 < available_to_pop q = unfold non_empty in ltb→lt 0 _ full in
      elim (pop_lem os q sink posix v positive) [
        | write_failed e _ same idle ↦
            rw (same, idle) (v, refl, ([], refl, sym (append-nil sink.accepted)))
        | gave out _ _ valid shrunk taken size ↦ (valid, size, (out, shrunk, taken))
      ]
]

module _ (size : ℕ) where
  arrives :
      (c : Channel) (bytes waiting : List ℕ)
      → waiting ≡ c.waiting ++ bytes
      → length waiting ≤ size
      → Step size c (record c { arrived = c.arrived ++ bytes; waiting = waiting })
  arrives c bytes waiting grown small =
      rw grown (arrive bytes (omega (arith, ap length grown, length-append c.waiting bytes)))

  departs :
      (c : Channel) (bytes rest out : List ℕ)
      → c.waiting ≡ bytes ++ rest
      → out ≡ c.departed ++ bytes
      → Step size c (record c { departed = out; waiting = rest })
  departs c bytes rest out split grown = rw grown (depart bytes rest split)

  holds : {q : ByteStreamQueue} → IsValid q → length q.buffer ≡ size → length (contents q) ≤ size
  holds v same = omega (arith, available_to_pop_lem v, available_to_push-available_to_pop v)

  module _ (before : Duplex) (os : Os) (posix : IsPosix os) where
    invoke-Refines :
        (task : Task) (s : Relay) → Refines size before s → Refines size before (invoke os task s).1
    unfolding invoke push_server push_client pop_server pop_client
    invoke-Refines read_server s h =
        let (valid, same, grown) =
          push_arrives os s.from_server s.dns_server.descriptor posix h.down_valid in
        >>>-keeps (Refines size before) (push_server os s) (λ r t. (ok (result_of r), t))
          (record {
            up_valid = h.up_valid;
            down_valid = valid;
            up_size = h.up_size;
            down_size = same ∙ h.down_size;
            reached =
                then_move h.reached (
                  downwards _ (arrives (view s).down _ _ grown (holds valid (same ∙ h.down_size))));
          })
          (λ _ t k. k)
    invoke-Refines read_client s h =
        let (valid, same, grown) =
          push_arrives os s.from_client s.client.descriptor posix h.up_valid in
        >>>-keeps (Refines size before) (push_client os s) (λ r t. (ok (result_of r), t))
          (record {
            up_valid = valid;
            down_valid = h.down_valid;
            up_size = same ∙ h.up_size;
            down_size = h.down_size;
            reached =
                then_move h.reached
                  (upwards _ (arrives (view s).up _ _ grown (holds valid (same ∙ h.up_size))));
          })
          (λ _ t k. k)
    invoke-Refines write_server s h =
        let (valid, same, (out, split, taken)) =
          pop_departs os s.from_client s.dns_server posix h.up_valid in
        >>>-keeps (Refines size before) (pop_server os s) (λ _ t. (ok continue, t))
          (record {
            up_valid = valid;
            down_valid = h.down_valid;
            up_size = same ∙ h.up_size;
            down_size = h.down_size;
            reached = then_move h.reached (upwards _ (departs (view s).up out _ _ split taken));
          })
          (λ _ t k. k)
    invoke-Refines write_client s h =
        let (valid, same, (out, split, taken)) =
          pop_departs os s.from_server s.client posix h.down_valid in
        >>>-keeps (Refines size before) (pop_client os s) (λ _ t. (ok continue, t))
          (record {
            up_valid = h.up_valid;
            down_valid = valid;
            up_size = h.up_size;
            down_size = same ∙ h.down_size;
            reached = then_move h.reached (downwards _ (departs (view s).down out _ _ split taken));
          })
          (λ _ t k. k)

    poll_once-Refines :
        (polling : PollOs) (s : Relay)
        → Refines size before s
        → Refines size before (poll_once (record { os = os; polling = polling }) s).1
    unfolding poll_once
    poll_once-Refines polling =
        poll_keeps Relay.poller put (invoke os) fd_of interested (Refines size before)
          (λ p s h. record {
            up_valid = h.up_valid;
            down_valid = h.down_valid;
            up_size = h.up_size;
            down_size = h.down_size;
            reached = h.reached;
          })
          invoke-Refines polling

  or_return-Refines :
      {before : Duplex} (r : PollResult) (next : M Relay (Unit {0})) (t : Relay)
      → Refines size before (next t).1
      → Refines size before t
      → Refines size before (or_return r next t).1
  or_return-Refines poll_success next t h k = h
  or_return-Refines poll_timeout next t h k = h
  or_return-Refines (poll_exit status) next t h k = k

  -- On a kernel that keeps to read(2) and write(2): whatever the rounds of the loop bring, and
  -- however it ends, what it does to both sockets is what two channels do that hold no more than the
  -- rings are large, and the rings stay valid.
  pub poll_loop-Refines :
      (before : Duplex) (rounds : List Round) (s : Relay)
      → All (λ r. IsPosix r.os) rounds
      → Refines size before s
      → Refines size before (poll_loop rounds s).1
  unfolding poll_loop
  poll_loop-Refines before [] s posix h = h
  poll_loop-Refines before (round ∷ rounds) s posix h =
      >>>-keeps (Refines size before) (poll_once round s) (λ r t. or_return r (poll_loop rounds) t)
        (poll_once-Refines before round.os posix.0 round.polling s h)
        (λ r t k. or_return-Refines r _ t (poll_loop-Refines before rounds t posix.1 k) k)

start-Refines :
    (client dns_server : FileDescriptor)
    → (s : Relay) × (start client dns_server ≡ ok s)
      × (IsFaithful ring_size (view s).up)
      × (IsFaithful ring_size (view s).down)
      × Refines ring_size (view s) s
unfolding start start_with
start-Refines client dns_server =
    let (q, made, valid, empty, size) =
      construct_lem ring_size (unfold ring_size in omega arith) (unfold ring_size in omega arith) in
    (
      start_with q q client dns_server,
      rw made refl,
      (sym empty, holds ring_size valid size),
      (sym empty, holds ring_size valid size),
      record {
        up_valid = valid;
        down_valid = valid;
        up_size = size;
        down_size = size;
        reached = here;
      },
    )

-- Between a client and a name server, on a kernel that keeps to read(2) and write(2): the rings can be
-- made, and from then on, whatever the rounds of the loop bring and however it ends, in each direction
-- what has been read is what has been written, byte for byte and in order, followed by at most a
-- ring's size of bytes that wait.
pub relay_conserves :
    (client dns_server : FileDescriptor) (rounds : List Round)
    → All (λ r. IsPosix r.os) rounds
    → (s : Relay) × (start client dns_server ≡ ok s)
      × (let t = (poll_loop rounds s).1 in
          IsFaithful ring_size (view t).up × IsFaithful ring_size (view t).down)
relay_conserves client dns_server rounds posix =
    let (s, made, up, down, refines) = start-Refines client dns_server in
    let after = poll_loop-Refines ring_size (view s) rounds s posix refines in
    (s, made, Reach-IsFaithful after.reached (up, down))
