-- ===== src/Splitter/Client/Accepting.antt =====
-- New connections at the client.
use koho.Prelude.{
  ℕ, ◌+◌, ◌%◌, ◌^◌, ◌<◌, ◌≡◌, refl, ◌∙◌, true, false, none, some, List, [], ◌∷◌, ◌++◌, ◌==◌, arith,
  is_empty, length, take_all, drop_all, lookup, insert, Exception, Outcome, ok, thrown, undefined,
  ◌>>>◌, >>>-keeps, increment, inl, inr, Option-cases, catching,
}
use koho.FileDescriptor
use koho.FileDescriptor.{FileDescriptor, Os, Sink, buffer_size}
use koho.Packet
use koho.Packet.{SplitTcpPacket}
use koho.Packet.Laws.{length-to_string}
use koho.Address
use koho.Address.{Address, Resolver}
use koho.Text.{bytes}
use koho.Socket
use koho.Socket.{Net}
use koho.Epoller
use koho.Epoller.{EpollOs, incoming}
use koho.Splitter.{Splitter, packet, lock, unlock, send, add_action}
use koho.Splitter.Invariant.{IsValid, Linked-insert, action_for}
use koho.Splitter.Client.{
  Client, Callback, connection, ServerSocket, server_socket, on_splitter, get_connection_uid,
  try_new_tcp_connection, handle_new_tcp_connection, accept_connection, emplace,
}
use koho.Splitter.Client.Handlers.{connection-injective}

-- The state after the kernel has taken a datagram for the server.
abbrev pub after_send : List ℕ → ServerSocket → ServerSocket
after_send datagram s = record {
  descriptor = record s.descriptor { write_count = increment s.descriptor.write_count };
  datagrams = s.datagrams ++ datagram ∷ [];
}

pub write_datagram :
    (os : Os) (datagram : List ℕ) (s : ServerSocket)
    → is_empty datagram ≡ false
    → os.write s.descriptor.fd datagram ≡ some (length datagram)
    → (server_socket os).write datagram s ≡ (ok tt, after_send datagram s)
unfolding FileDescriptor.write FileDescriptor.write_some
write_datagram os [] s nonempty taken = cc
write_datagram os (x ∷ xs) s nonempty taken =
    let nonzero : (length (x ∷ xs) == 0) ≡ false = ground arith in
    rw
      (taken, nonzero, take_all (length xs) xs (omega arith), drop_all (length xs) xs (omega arith))

pub to_string_nonempty : (p : SplitTcpPacket) → is_empty (Packet.to_string p) ≡ false
to_string_nonempty p = nonempty (Packet.to_string p) (omega (arith, length-to_string p))
  where
    nonempty : (xs : List ℕ) → 0 < length xs → is_empty xs ≡ false
    nonempty [] h = absurd (omega arith)
    nonempty (x ∷ xs) h = refl

add_action_locked :
    (epoll : EpollOs) (fd : ℕ) (callback : Callback) (s : Splitter Callback ServerSocket)
    → (add_action epoll fd callback s).1.locked ≡ s.locked
unfolding add_action
add_action_locked epoll fd callback s =
    >>>-keeps (λ t. t.locked ≡ s.locked)
      (let (r, epoller) =
          Epoller.add_action epoll fd (record { direction = incoming; callback = callback })
            s.epoller in
        (r, record s { epoller = epoller }))
      _ refl λ _ t h. h

module _ (names : Resolver) (net : Net) (epoll : EpollOs) where
  emplace_locked :
      (uid : ℕ) (c : FileDescriptor) (s : Splitter Callback ServerSocket)
      → (emplace uid c s).1.locked ≡ s.locked
  unfolding emplace
  emplace_locked uid c s = elim (Option-cases (lookup uid s.connections)) [
    | inl e ↦ rw e
    | inr (d, e) ↦ rw e
  ]

  -- The `try` block never unlocks the mutex.
  pub try-locked :
      (s : Client) → s.locked ≡ true → (try_new_tcp_connection names net epoll s).1.locked ≡ true
  unfolding try_new_tcp_connection send add_action
  try-locked s locked =
      >>>-keeps IsLocked (accept_connection net (get_connection_uid s).1) _ locked λ c s₂ h₂.
        >>>-keeps IsLocked (on_splitter (emplace s.next_connection_uid c) s₂) _
          (emplace_locked s.next_connection_uid c s₂.splitter ∙ h₂)
          λ d s₃ h₃.
            >>>-keeps IsLocked (Socket.original_dest net d, s₃) _ h₃
              λ dest s₄ h₄.
                >>>-keeps IsLocked (Address.str names dest (bytes ":"), s₄) _ h₄
                  λ text s₅ h₅.
                    >>>-keeps IsLocked
                      (on_splitter
                        (send (server_socket net.os) (packet true s.next_connection_uid text)) s₅)
                      _ h₅
                      λ _ s₆ h₆.
                        add_action_locked epoll d.fd (connection s.next_connection_uid) s₆.splitter
                        ∙ h₆
    where
      IsLocked : Client → Type 0
      IsLocked t = t.locked ≡ true

pub unlocked_twice :
    (m : Outcome (Unit {0}) × Client) (e : Exception)
    → m.0 ≡ thrown e
    → m.1.locked ≡ true
    → (catching m (λ _. on_splitter unlock) >>> λ _. on_splitter unlock).0 ≡ undefined
unfolding unlock
unlocked_twice (o, t) e failed locked = rw (failed, locked)

-- When the mutex is free and setting up a new connection throws, the handler ends in undefined
-- behaviour: the catch block unlocks the mutex, and then the mutex, which is free, is unlocked once
-- more.
pub handle_new_exception :
    (names : Resolver) (net : Net) (epoll : EpollOs) (s : Client) (e : Exception)
    → s.locked ≡ false
    → (try_new_tcp_connection names net epoll
        (record s { splitter = record s.splitter { locked = true } })).0
      ≡ thrown e
    → (handle_new_tcp_connection names net epoll s).0 ≡ undefined
unfolding handle_new_tcp_connection lock
handle_new_exception names net epoll s e free failed = rw free (
    unlocked_twice
      (try_new_tcp_connection names net epoll
        (record s { splitter = record s.splitter { locked = true } }))
      e failed (try-locked names net epoll _ refl))

-- The state with a new connection: it has the next id, its action is registered, and the server has
-- been told its destination.
abbrev pub with_connection : FileDescriptor → FileDescriptor → List ℕ → Client → Client
with_connection c listener text s = record {
  listener = listener;
  next_connection_uid = (s.next_connection_uid + 1) % 2 ^ 64;
  splitter = record s.splitter {
    connections = insert s.next_connection_uid c s.connections;
    epoller = record s.epoller {
      actions = insert c.fd (action_for connection s.next_connection_uid) s.epoller.actions;
    };
    other_side =
        after_send (Packet.to_string (packet true s.next_connection_uid text)) s.other_side;
  };
}

-- A new connection whose system calls all succeed.
module _ (names : Resolver) (net : Net) (epoll : EpollOs) (s : Client) (c listener : FileDescriptor)
    (dest : Address) (text : List ℕ) (n : ℕ) (valid : IsValid connection s.splitter)
    (fresh : lookup s.next_connection_uid s.connections ≡ none)
    (accepted : Socket.accept net (s.listener, s.closed) ≡ (ok c, (listener, s.closed)))
    (new_fd : lookup c.fd s.epoller.actions ≡ none)
    (found_dest : Socket.original_dest net c ≡ ok dest)
    (printed : Address.str names dest (bytes ":") ≡ ok text)
    (taken : let datagram = Packet.to_string (packet true s.next_connection_uid text) in
      net.write s.other_side.descriptor.fd datagram ≡ some (length datagram))
    (added : epoll.ctl_add c.fd ≡ some n) where
  new_connection_run :
      handle_new_tcp_connection names net epoll s ≡ (ok tt, with_connection c listener text s)
  unfolding handle_new_tcp_connection send add_action lock unlock Epoller.add_action
  new_connection_run = rw (
    valid.free,
    accepted,
    fresh,
    found_dest,
    printed,
    write_datagram net.os (Packet.to_string (packet true s.next_connection_uid text)) s.other_side
        (to_string_nonempty _) taken,
    new_fd,
    added,
  )

  -- A new connection whose system calls all succeed gets the next id, is watched under it, and is
  -- announced to the server with the text of its original destination; the invariant holds after it.
  pub handle_new_ok :
      (handle_new_tcp_connection names net epoll s ≡ (ok tt, with_connection c listener text s))
      × IsValid connection (with_connection c listener text s).splitter
  handle_new_ok = (
    new_connection_run,
    record {
      free = valid.free;
      linked =
          Linked-insert connection connection-injective valid.linked s.next_connection_uid c fresh
            new_fd;
    },
  )
