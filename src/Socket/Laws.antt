-- ===== src/Socket/Laws.antt =====
-- The socket of the splitter's server, which answers whoever sent to it last.
use koho.Prelude.{
  ℕ, ◌≤◌, ◌≡◌, true, false, some, List, [], ◌∷◌, ◌++◌, arith, ltb, ◌==◌, length, take_all,
  increment, ok, ◌>>>◌,
}
use koho.Address.{Address, Resolver, of_sockaddr, default_address, address_eq, str}
use koho.Text.{bytes}
use koho.Socket.{Net, AutoSocket, auto_read, auto_write, recvfrom, sendto, receive_mtu}

module _ (names : Resolver) (net : Net) (s : AutoSocket) (unset : Address) (buffer : List ℕ)
    (no_address : default_address names ≡ ok unset) where
  -- A datagram with nobody to answer is dropped, which counts as a write and is no error.
  pub auto_write_dropped :
      address_eq s.saved_address unset ≡ true
      → auto_write names net buffer s ≡ (
        ok tt,
        record s {
          socket = record s.socket {
            descriptor = record s.socket.descriptor {
              write_count = increment s.socket.descriptor.write_count;
            };
          };
        },
      )
  unfolding auto_write
  auto_write_dropped nobody = rw (no_address, nobody)

  -- When a datagram of at most 65536 bytes comes in from an address that can be printed and is not
  -- the unset one, and sendto(2) takes all bytes: what is written next goes to that address, whole,
  -- and is all that is sent.
  pub auto_read-auto_write :
      (source : Address) (raw payload text : List ℕ) (size : ℕ)
      → net.recvfrom s.socket.descriptor.fd ≡ some ((raw, size), payload)
      → length payload ≤ receive_mtu
      → of_sockaddr raw size ≡ ok source
      → str names source (bytes ":") ≡ ok text
      → address_eq source unset ≡ false
      → net.sendto s.socket.descriptor.fd source buffer ≡ some (length buffer)
      → (auto_read names net s >>> λ _ t. auto_write names net buffer t) ≡ (
        ok tt,
        record {
          socket = record {
            descriptor = record s.socket.descriptor {
              read_count = increment s.socket.descriptor.read_count;
              write_count = increment s.socket.descriptor.write_count;
            };
            sent = s.socket.sent ++ (source, buffer) ∷ [];
          };
          saved_address = source;
        },
      )
  unfolding auto_read auto_write recvfrom sendto
  auto_read-auto_write source raw payload text size came fits from printed somebody taken =
      let small : ltb receive_mtu (length payload) ≡ false = ground arith in
      let whole : (length buffer == length buffer) ≡ true = ground arith in
      rw (
        came,
        small,
        from,
        printed,
        no_address,
        somebody,
        taken,
        whole,
        take_all (length buffer) buffer (omega arith),
      )
