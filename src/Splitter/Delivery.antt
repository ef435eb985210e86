-- ===== src/Splitter/Delivery.antt =====
-- What a packet for a known connection does, at either end.
use koho.Prelude.{
  is_empty, append-nil, ℕ, ◌≡◌, refl, sym, ap, subst, ◌∙◌, ◌⊎◌, inl, inr, true, false, Option, none,
  some, List, [], ◌∷◌, ◌++◌, lookup, insert, Exception, Outcome, ok, thrown, ◌>>>◌, >>>-eq-ok,
}
use koho.FileDescriptor.{FileDescriptor, Os, Sink, write}
use koho.FileDescriptor.Writes.{IsPosix, Splits, Ends, write_lem, TakesBytes, write_returns}
use koho.Epoller
use koho.Epoller.{EpollOs, ResultType}
use koho.Splitter.{Splitter, OtherSide, unlock, deliver, write_connection, close_connection}
use koho.Splitter.Invariant.{IsValid, unlocked, Linked, Linked-erase, Linked-update}
use koho.Splitter.Relay.{without}

-- How the delivery of `body` to a connection ends: all of it is with the kernel, or an exception has
-- cut it short. Nothing else has changed but the connection's socket.
pub record Delivered {H P : Type 0} (s : Splitter H P) (uid : ℕ) (c : FileDescriptor)
    (body : List ℕ) (r : Outcome (Unit {0})) (t : Splitter H P) : Type 0 where
  pub taken : List ℕ
  pub left : List ℕ
  pub splits : body ≡ taken ++ left
  pub ends : ((r ≡ ok tt) × (left ≡ [])) ⊎ ((e : Exception) × (r ≡ thrown e))
  pub socket : FileDescriptor
  pub number : socket.fd ≡ c.fd
  pub state : t ≡ record s {
    connections = insert uid socket s.connections;
    delivered = s.delivered ++ (uid, taken) ∷ [];
  }

all_of : {rest : List ℕ} → (true ≡ false) ⊎ (rest ≡ []) → rest ≡ []
all_of (inl h) = cc
all_of (inr h) = h

written :
    {H P : Type 0} (s : Splitter H P) (uid : ℕ) (c : FileDescriptor) (body rest : List ℕ)
    (r : Outcome (List ℕ)) (sink : Sink)
    → Splits body (record { descriptor = c; accepted = [] }) sink rest
    → Ends true r rest
    → let (r', t) =
        (
          r,
          record s {
            connections = insert uid sink.descriptor s.connections;
            delivered = s.delivered ++ (uid, sink.accepted) ∷ [];
          },
        )
        >>> λ _ u. (ok tt, u) in
      Delivered s uid c body r' t
written s uid c body rest r sink (taken, split, grown, same) (inl (e, q)) = rw q (record {
  taken = taken;
  left = rest;
  splits = split;
  ends = inr (e, refl);
  socket = sink.descriptor;
  number = same;
  state = rw grown;
})
written s uid c body rest r sink (taken, split, grown, same) (inr (q, done)) = rw q (record {
  taken = taken;
  left = rest;
  splits = split;
  ends = inl (refl, all_of done);
  socket = sink.descriptor;
  number = same;
  state = rw grown;
})

nothing_left : {r : Outcome (List ℕ)} {rest : List ℕ} → Ends true r rest → r ≡ ok [] → rest ≡ []
nothing_left (inl (e, failed)) h = cc (sym failed ∙ h)
nothing_left (inr (returned, done)) h = all_of done

module _ {H P : Type 0} (os : Os) (epoll : EpollOs) (w : OtherSide P) (s : Splitter H P) (uid : ℕ)
    (c : FileDescriptor) (known : lookup uid s.connections ≡ some c) where
  -- When the kernel stops watching the descriptor, an empty body closes its connection: its action,
  -- its entry and its socket are gone.
  pub deliver_eof :
      (n : ℕ)
      → epoll.ctl_del c.fd ≡ some n
      → deliver os epoll w uid c [] s ≡ (ok tt, without s uid c)
  unfolding deliver close_connection Epoller.remove_action
  deliver_eof n removed = rw (known, removed)

  -- On a kernel that keeps to read(2) and write(2), a body that is not empty is written to its
  -- connection in order, whole unless an exception cuts it short, and nothing else changes.
  pub deliver_data :
      (x : ℕ) (xs : List ℕ)
      → IsPosix os
      → let (r, t) = deliver os epoll w uid c (x ∷ xs) s in Delivered s uid c (x ∷ xs) r t
  unfolding deliver write_connection
  deliver_data x xs posix =
      let body : List ℕ = x ∷ xs in
      let (rest, split, ends) =
        write_lem os posix true body (record { descriptor = c; accepted = [] }) in
      written s uid c body rest _ _ split ends

  -- On such a kernel that takes a byte at least at each write, all of the body is delivered.
  pub deliver_whole :
      (body : List ℕ)
      → is_empty body ≡ false
      → IsPosix os
      → TakesBytes os c.fd
      → (socket : FileDescriptor) × (socket.fd ≡ c.fd)
        × (deliver os epoll w uid c body s ≡ (
          ok tt,
          record s {
            connections = insert uid socket s.connections;
            delivered = s.delivered ++ (uid, body) ∷ [];
          },
        ))
  unfolding deliver write_connection
  deliver_whole [] more posix takes = cc more
  deliver_whole (x ∷ xs) more posix takes =
      let body : List ℕ = x ∷ xs in
      let before : Sink = record { descriptor = c; accepted = [] } in
      let (rest, (taken, split, grown, same), ends) = write_lem os posix true body before in
      let returned = write_returns os body before takes more in
      let after = (write os body true before).1 in
      let whole : after.accepted ≡ body =
        grown
        ∙ sym (append-nil taken)
        ∙ ap (λ l. taken ++ l) (sym (nothing_left ends returned))
        ∙ sym split in
      (after.descriptor, same, rw (returned, whole))

  -- Either way the maps still belong together, and the mutex is as it was.
  pub deliver-IsValid :
      (conn : ℕ → H)
      → ((a b : ℕ) → conn a ≡ conn b → a ≡ b)
      → (body : List ℕ) (t : Splitter H P) → IsPosix os
      → Linked conn s.connections s.epoller.actions
      → deliver os epoll w uid c body s ≡ (ok tt, t)
      → (t.locked ≡ s.locked) × Linked conn t.connections t.epoller.actions
  deliver-IsValid conn injective [] t posix linked e = closed (epoll.ctl_del c.fd) refl
    where
      closed :
          (o : Option ℕ)
          → epoll.ctl_del c.fd ≡ o
          → (t.locked ≡ s.locked) × Linked conn t.connections t.epoller.actions
      closed none failed =
          unfold deliver close_connection Epoller.remove_action in
          cc (ap (λ x. x.0) e, known, failed)
      closed (some n) removed =
          subst (λ u. (u.locked ≡ s.locked) × Linked conn u.connections u.epoller.actions)
            (ap (λ x. x.1) (sym (deliver_eof n removed) ∙ e))
            (refl, Linked-erase conn injective linked uid c known)
  deliver-IsValid conn injective (x ∷ xs) t posix linked e =
      let d = deliver_data x xs posix in
      subst (λ u. (u.locked ≡ s.locked) × Linked conn u.connections u.epoller.actions)
        (sym d.state ∙ ap (λ y. y.1) e)
        (refl, Linked-update conn injective linked uid c d.socket known d.number)

module _ {H P : Type 0} (conn : ℕ → H) (conn-injective : (a b : ℕ) → conn a ≡ conn b → a ≡ b)
    (os : Os) (epoll : EpollOs) (w : OtherSide P) (posix : IsPosix os) where
  -- The mutex is taken before a delivery, and free after it.
  pub deliver_unlocked-IsValid :
      (s t : Splitter H P) (uid : ℕ) (c : FileDescriptor) (body : List ℕ) (r r' : ResultType)
      → s.locked ≡ true
      → lookup uid s.connections ≡ some c
      → Linked conn s.connections s.epoller.actions
      → (deliver os epoll w uid c body s >>> λ _ u. unlock u >>> λ _ v. (ok r, v)) ≡ (ok r', t)
      → IsValid conn t
  deliver_unlocked-IsValid s t uid c body r r' locked known linked e =
      let m = deliver os epoll w uid c body s in
      let (_, returned, e') = >>>-eq-ok m (λ _ u. unlock u >>> λ _ v. (ok r, v)) e in
      let (same, linked') =
        deliver-IsValid os epoll w s uid c known conn conn-injective body m.1 posix linked
          (λ i. (returned i, m.1)) in
      unlocked conn m.1 t r r' (same ∙ locked) e' linked'
