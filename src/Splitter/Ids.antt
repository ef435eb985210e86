-- ===== src/Splitter/Ids.antt =====
-- No handler for bytes or datagrams makes a new id: the ids of the connections stay below a bound.
use koho.Prelude.{
  ◌++◌, [], ◌∷◌, ℕ, ◌<◌, ◌≡◌, refl, subst, inl, inr, true, false, Option, none, some, List, lookup,
  insert, erase, lookup_of_insert, lookup_of_erase, Bool-cases, >>>-keeps, if-keeps, is_empty, when,
}
use koho.FileDescriptor
use koho.FileDescriptor.{FileDescriptor, Os}
use koho.Epoller
use koho.Epoller.{EpollOs, ResultType}
use koho.Splitter.{
  Splitter, OtherSide, lock, unlock, send, packet, close_found, close_connection, read_connection,
  write_connection, deliver, receive_found, receive_bytes_from_tcp_connection, read_limit,
}
use koho.Splitter.Invariant.{Connections}

abbrev pub AllBelow : ℕ → Connections → Type 0
AllBelow n connections = (uid : ℕ) (c : FileDescriptor) → lookup uid connections ≡ some c → uid < n

AllBelow-insert :
    (n uid : ℕ) (c : FileDescriptor) (connections : Connections)
    → uid < n
    → AllBelow n connections
    → AllBelow n (insert uid c connections)
AllBelow-insert n uid c connections known h u d found =
    elim (lookup_of_insert uid u c d connections found) [
      | inl (same, _) ↦ subst (λ k. k < n) same known
      | inr (_, old) ↦ h u d old
    ]

AllBelow-erase :
    (n uid : ℕ) (connections : Connections)
    → AllBelow n connections
    → AllBelow n (erase uid connections)
AllBelow-erase n uid connections h u d found = h u d (lookup_of_erase uid u d connections found).1

module _ {H P : Type 0} (n : ℕ) where
  abbrev pub HasBelow : Splitter H P → Type 0
  HasBelow s = AllBelow n s.connections

  pub lock-HasBelow : (s : Splitter H P) → HasBelow s → HasBelow (lock s).1
  unfolding lock
  lock-HasBelow s h = if-keeps HasBelow s.locked _ _ h h

  pub unlock-HasBelow : (s : Splitter H P) → HasBelow s → HasBelow (unlock s).1
  unfolding unlock
  unlock-HasBelow s h = if-keeps HasBelow s.locked _ _ h h

  close_found-HasBelow :
      (epoll : EpollOs) (uid : ℕ) (found : Option FileDescriptor) (s : Splitter H P)
      → HasBelow s
      → HasBelow (close_found epoll uid found s).1
  unfolding close_found
  close_found-HasBelow epoll uid none s h = h
  close_found-HasBelow epoll uid (some c) s h =
      let (r, epoller) = Epoller.remove_action epoll c.fd s.epoller in
      >>>-keeps HasBelow (r, record s { epoller = epoller }) _ h
        (λ _ t k. AllBelow-erase n uid t.connections k)

  close_connection-HasBelow :
      (epoll : EpollOs) (uid : ℕ) (s : Splitter H P)
      → HasBelow s
      → HasBelow (close_connection epoll uid s).1
  unfolding close_connection
  close_connection-HasBelow epoll uid s h = close_found-HasBelow epoll uid _ s h

  read_connection-HasBelow :
      (os : Os) (uid : ℕ) (c : FileDescriptor) (s : Splitter H P)
      → uid < n
      → HasBelow s
      → HasBelow (read_connection os uid c s).1
  unfolding read_connection
  read_connection-HasBelow os uid c s known h =
      AllBelow-insert n uid (FileDescriptor.read os read_limit c).1 s.connections known h

  write_connection-HasBelow :
      (os : Os) (uid : ℕ) (c : FileDescriptor) (body : List ℕ) (s : Splitter H P)
      → uid < n
      → HasBelow s
      → HasBelow (write_connection os uid c body s).1
  unfolding write_connection
  write_connection-HasBelow os uid c body s known h =
      let (r, t) = FileDescriptor.write os body true (record { descriptor = c; accepted = [] }) in
      >>>-keeps HasBelow
        (
          r,
          record s {
            connections = insert uid t.descriptor s.connections;
            delivered = s.delivered ++ (uid, t.accepted) ∷ [];
          },
        )
        _ (AllBelow-insert n uid t.descriptor s.connections known h) (λ _ _ k. k)

  module _ (os : Os) (epoll : EpollOs) (w : OtherSide P) where
    pub deliver-HasBelow :
        (uid : ℕ) (c : FileDescriptor) (body : List ℕ) (s : Splitter H P)
        → uid < n
        → HasBelow s
        → HasBelow (deliver os epoll w uid c body s).1
    unfolding deliver
    deliver-HasBelow uid c body s known h = elim (Bool-cases (is_empty body)) [
      | inl eof ↦ rw eof (close_connection-HasBelow epoll uid s h)
      | inr more ↦ rw more (write_connection-HasBelow os uid c body s known h)
    ]

    send-HasBelow :
        (body : List ℕ) (uid : ℕ) (s : Splitter H P)
        → HasBelow s
        → HasBelow (send w (packet false uid body) s).1
    unfolding send
    send-HasBelow body uid s h = h

    after_read :
        (uid : ℕ) (body : List ℕ) (s : Splitter H P)
        → HasBelow s
        → HasBelow (when (is_empty body) (close_connection epoll uid) s).1
    after_read uid [] s h = close_connection-HasBelow epoll uid s h
    after_read uid (x ∷ xs) s h = h

    receive_found-HasBelow :
        (uid : ℕ) (found : Option FileDescriptor) (s : Splitter H P)
        → lookup uid s.connections ≡ found
        → HasBelow s
        → HasBelow (receive_found os epoll w uid found s).1
    unfolding receive_found
    receive_found-HasBelow uid none s known h =
        >>>-keeps HasBelow (unlock s) _ (unlock-HasBelow s h) (λ _ _ k. k)
    receive_found-HasBelow uid (some c) s known h =
        >>>-keeps HasBelow (read_connection os uid c s) _
          (read_connection-HasBelow os uid c s (h uid c known) h)
          (λ body t k.
            >>>-keeps HasBelow (when (is_empty body) (close_connection epoll uid) t) _
              (after_read uid body t k)
              (λ _ u l. >>>-keeps HasBelow (unlock u) _ (unlock-HasBelow u l) (λ _ v m.
                >>>-keeps HasBelow (send w (packet false uid body) v) _ (send-HasBelow body uid v m)
                  (λ _ _ o. o))))

    pub receive_bytes-HasBelow :
        (uid : ℕ) (s : Splitter H P)
        → HasBelow s
        → HasBelow (receive_bytes_from_tcp_connection os epoll w uid s).1
    unfolding receive_bytes_from_tcp_connection
    receive_bytes-HasBelow uid s h =
        >>>-keeps HasBelow (lock s) _ (lock-HasBelow s h)
          (λ _ t k. receive_found-HasBelow uid (lookup uid t.connections) t refl k)
