-- ===== src/Socket/Options.antt =====
-- The rest of src/util/socket.cc: the peer's address, datagrams to it, and options. Each system call
-- is a parameter of its own.
use koho.Prelude.{
  ℕ, not, Option, List, [], ◌∷◌, ◌++◌, ◌==◌, length, take, Outcome, ok, thrown, throw_if,
  runtime_error, unix_error, ◌≡◌, ◌≢◌, ◌⊎◌, inl, inr, refl, ap, arith, Bool-cases, Option-cases,
  take_all, system_call, increment, M, ◌>>=◌, ◌>>>◌,
}
use koho.FileDescriptor.{FileDescriptor}
use koho.Address.{Address, of_sockaddr}

unfoldable pub peer_address : (ℕ → Option (List ℕ × ℕ)) → FileDescriptor → Outcome Address
unfolding of_sockaddr
peer_address getpeername s =
    system_call "getpeername" (getpeername s.fd) >>= λ a. of_sockaddr a.0 a.1

-- a connected UDP socket, with the datagrams that the kernel has taken from it
pub record Connected : Type 0 where
  pub descriptor : FileDescriptor
  pub sent : List (List ℕ)

unfoldable pub send : (ℕ → List ℕ → Option ℕ) → List ℕ → M Connected (Unit {0})
send os_send payload s =
    (system_call "send" (os_send s.descriptor.fd payload), s) >>> λ bytes_sent t. (
      throw_if (not (bytes_sent == length payload))
          (runtime_error "datagram payload too big for send()"),
      record {
        descriptor = record t.descriptor { write_count = increment t.descriptor.write_count };
        sent = t.sent ++ take bytes_sent payload ∷ [];
      },
    )

-- SOL_SOCKET with SO_REUSEADDR and with SO_TIMESTAMPNS, each set to true
pub data SocketOption : Type 0 where
  so_reuseaddr so_timestampns : SocketOption

abbrev set_true :
    (ℕ → SocketOption → ℕ → Option ℕ) → SocketOption → FileDescriptor → Outcome (Unit {0})
set_true setsockopt option s = system_call "setsockopt" (setsockopt s.fd option 1) >>= λ _. ok tt

unfoldable pub set_reuseaddr :
    (ℕ → SocketOption → ℕ → Option ℕ) → FileDescriptor → Outcome (Unit {0})
set_reuseaddr setsockopt s = set_true setsockopt so_reuseaddr s

unfoldable pub set_timestamps :
    (ℕ → SocketOption → ℕ → Option ℕ) → FileDescriptor → Outcome (Unit {0})
set_timestamps setsockopt s = set_true setsockopt so_timestampns s

-- On a connected socket a datagram is sent whole, or what the kernel took of it is sent and the call
-- throws, or the call fails and nothing has changed.
pub send_cases :
    (os_send : ℕ → List ℕ → Option ℕ) (payload : List ℕ) (s : Connected)
    → let (r, t) = send os_send payload s in
      ((r ≡ ok tt) × (t.sent ≡ s.sent ++ payload ∷ []))
      ⊎ (((n : ℕ) × (n ≢ length payload)
            × (t.sent ≡ s.sent ++ take n payload ∷ [])
            × (r ≡ thrown (runtime_error "datagram payload too big for send()")))
          ⊎ ((t ≡ s) × (r ≡ thrown (unix_error "send"))))
unfolding send
send_cases os_send payload s = elim (Option-cases (os_send s.descriptor.fd payload)) [
  | inl failed ↦ rw failed (inr (inr (refl, refl)))
  | inr (n, answer) ↦ elim (Bool-cases (n == length payload)) [
    | inl whole ↦
        let same : n ≡ length payload = ground arith in
        rw (answer, whole)
          (inl (refl, ap (λ l. s.sent ++ l ∷ []) (take_all n payload (omega (arith, same)))))
    | inr part ↦ rw (answer, part) (inr (inl (n, ground arith, refl, refl)))
  ]
]
