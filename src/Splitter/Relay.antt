-- ===== src/Splitter/Relay.antt =====
-- What the shared handlers of the splitter do, for either end.
use koho.Prelude.{
  ℕ, ◌≡◌, refl, sym, ap, subst, ◌∙◌, inl, inr, true, false, Option, none, some, List, [], ◌∷◌, ◌++◌,
  Option-cases, is_empty, lookup, insert, erase, lookup-insert_self, erase-insert, increment, ok,
  thrown, ◌>>>◌, >>>-eq-ok, unix_error,
}
use koho.FileDescriptor
use koho.FileDescriptor.{FileDescriptor, Os, Sink, buffer_size}
use koho.Packet.{SplitTcpPacket}
use koho.Epoller
use koho.Epoller.{Epoller, EpollOs, ResultType, continue, cancel}
use koho.Splitter.{
  Splitter, OtherSide, packet, lock, unlock, send, close_connection, read_limit,
  receive_bytes_from_tcp_connection,
}
use koho.Splitter.Invariant.{IsValid, Linked, Linked-erase, Linked-update}

-- The connection's socket after a read that brought something.
abbrev pub after_read : FileDescriptor → FileDescriptor
after_read c = record c { read_count = increment c.read_count }

-- The state without the connection, its action and its socket.
abbrev pub without : {H P : Type 0} → Splitter H P → ℕ → FileDescriptor → Splitter H P
without s uid c = record s {
  connections = erase uid s.connections;
  epoller = record s.epoller { actions = erase c.fd s.epoller.actions };
  closed = s.closed ++ FileDescriptor.destroy c;
}

module _ {H P : Type 0} (os : Os) (epoll : EpollOs) (w : OtherSide P) (s : Splitter H P)
    (uid : ℕ) where
  -- An action whose connection is gone changes nothing, and reads nothing either.
  pub receive_bytes_unknown :
      s.locked ≡ false
      → lookup uid s.connections ≡ none
      → receive_bytes_from_tcp_connection os epoll w uid s ≡ (ok continue, s)
  unfolding receive_bytes_from_tcp_connection lock unlock
  receive_bytes_unknown free gone = rw (free, gone)

  -- When the mutex is free, the id is known and a read brings bytes: they go to the other side as
  -- one packet with the id, and nothing else changes but the counter of the connection's socket.
  pub receive_bytes_data :
      (c : FileDescriptor) (body : List ℕ)
      → s.locked ≡ false
      → lookup uid s.connections ≡ some c
      → is_empty body ≡ false
      → os.read c.fd read_limit ≡ some body
      → receive_bytes_from_tcp_connection os epoll w uid s ≡ (
          send w
            (packet false uid body)
            (record s { connections = insert uid (after_read c) s.connections })
          >>> λ _ t. (ok continue, t))
  unfolding receive_bytes_from_tcp_connection FileDescriptor.read lock unlock
  receive_bytes_data c body free known more e = rw (free, known, e, more)

  -- When the mutex is free, the id is known, a read brings nothing and the kernel stops watching
  -- the descriptor: the connection's action, its entry and its socket are gone, the mutex is free
  -- again, and an empty packet with the id goes to the other side.
  pub receive_bytes_eof :
      (c : FileDescriptor) (n : ℕ)
      → s.locked ≡ false
      → lookup uid s.connections ≡ some c
      → os.read c.fd read_limit ≡ some []
      → epoll.ctl_del c.fd ≡ some n
      → receive_bytes_from_tcp_connection os epoll w uid s
        ≡ (send w (packet false uid []) (without s uid c) >>> λ _ t. (ok cancel, t))
  unfolding receive_bytes_from_tcp_connection FileDescriptor.read FileDescriptor.destroy lock unlock
      close_connection Epoller.remove_action
  receive_bytes_eof c n free known e removed =
      rw (free, known, e, lookup-insert_self, removed, erase-insert)

  -- When the mutex is free, the id is known and the read of its connection fails: the handler
  -- throws, and the mutex stays locked.
  pub receive_bytes_read_fails :
      (c : FileDescriptor)
      → s.locked ≡ false
      → lookup uid s.connections ≡ some c
      → os.read c.fd read_limit ≡ none
      → let (r, t) = receive_bytes_from_tcp_connection os epoll w uid s in
        (r ≡ thrown (unix_error "read")) × (t.locked ≡ true)
  unfolding receive_bytes_from_tcp_connection FileDescriptor.read lock
  receive_bytes_read_fails c free known e = rw (free, known, e) (refl, refl)

  -- So does a failure to end the polling of a connection that is at its end.
  pub receive_bytes_removal_fails :
      (c : FileDescriptor)
      → s.locked ≡ false
      → lookup uid s.connections ≡ some c
      → os.read c.fd read_limit ≡ some []
      → epoll.ctl_del c.fd ≡ none
      → let (r, t) = receive_bytes_from_tcp_connection os epoll w uid s in
        (r ≡ thrown (unix_error "epoll_ctl del")) × (t.locked ≡ true)
  unfolding receive_bytes_from_tcp_connection FileDescriptor.read lock close_connection
      Epoller.remove_action
  receive_bytes_removal_fails c free known e kept =
      rw (free, known, e, lookup-insert_self, kept) (refl, refl)

sent_lem :
    {H P : Type 0} (w : OtherSide P) (p : SplitTcpPacket) (r r' : ResultType) (s t : Splitter H P)
    → (send w p s >>> λ _ u. (ok r, u)) ≡ (ok r', t)
    → (t.locked ≡ s.locked) × (t.connections ≡ s.connections) × (t.epoller ≡ s.epoller)
unfolding send
sent_lem w p r r' s t e =
    let (_, _, e') = >>>-eq-ok (send w p s) (λ _ u. (ok r, u)) e in
    let t-is = sym (ap (λ x. x.1) e') in
    (ap (λ x. x.locked) t-is, ap (λ x. x.connections) t-is, ap (λ x. x.epoller) t-is)

module _ {H P : Type 0} (conn : ℕ → H) (conn-injective : (a b : ℕ) → conn a ≡ conn b → a ≡ b)
    (os : Os) (epoll : EpollOs) (w : OtherSide P) where
  sent-IsValid :
      (s t : Splitter H P)
      → s.locked ≡ false
      → Linked conn s.connections s.epoller.actions
      → (t.locked ≡ s.locked) × (t.connections ≡ s.connections) × (t.epoller ≡ s.epoller)
      → IsValid conn t
  sent-IsValid s t free linked (l, c, e) = record {
    free = l ∙ free;
    linked = rw (c, ap (λ x. x.actions) e) linked;
  }

  -- From a state of either end that satisfies the invariant: whatever the kernel answers, and
  -- whatever the id, if the handler returns, the mutex is free, every connection is still watched
  -- under its id, and every action has its connection.
  pub receive_bytes-IsValid :
      (s t : Splitter H P) (uid : ℕ) (r : ResultType)
      → IsValid conn s
      → receive_bytes_from_tcp_connection os epoll w uid s ≡ (ok r, t)
      → IsValid conn t
  receive_bytes-IsValid s t uid r v e = elim (Option-cases (lookup uid s.connections)) [
    | inl gone ↦
        subst (λ u. IsValid conn u)
          (ap (λ x. x.1) (sym (receive_bytes_unknown os epoll w s uid v.free gone) ∙ e)) v
    | inr (c, known) ↦ known_case c known (os.read c.fd read_limit) refl
  ]
    where
      eof_case :
          (c : FileDescriptor)
          → lookup uid s.connections ≡ some c
          → os.read c.fd read_limit ≡ some []
          → (o : Option ℕ) → epoll.ctl_del c.fd ≡ o
          → IsValid conn t
      eof_case c known read none failed = cc (
        ap (λ x. x.0) e,
        (receive_bytes_removal_fails os epoll w s uid c v.free known read failed).0,
      )
      eof_case c known read (some n) removed =
          sent-IsValid (without s uid c) t v.free
            (Linked-erase conn conn-injective v.linked uid c known)
            (sent_lem w (packet false uid []) cancel r _ t
              (sym (receive_bytes_eof os epoll w s uid c n v.free known read removed) ∙ e))

      known_case :
          (c : FileDescriptor)
          → lookup uid s.connections ≡ some c
          → (o : Option (List ℕ)) → os.read c.fd read_limit ≡ o
          → IsValid conn t
      known_case c known none failed =
          cc (ap (λ x. x.0) e, (receive_bytes_read_fails os epoll w s uid c v.free known failed).0)
      known_case c known (some []) read = eof_case c known read (epoll.ctl_del c.fd) refl
      known_case c known (some (x ∷ xs)) read =
          sent-IsValid (record s { connections = insert uid (after_read c) s.connections }) t v.free
            (Linked-update conn conn-injective v.linked uid c (after_read c) known refl)
            (sent_lem w (packet false uid (x ∷ xs)) continue r _ t
              (sym (receive_bytes_data os epoll w s uid c (x ∷ xs) v.free known refl read) ∙ e))
