-- ===== src/Socket.antt =====
-- src/util/socket.{hh,cc} and src/util/autosocket.hh: sockets over a network that answers each call.
pub mod Laws
pub mod Options
use koho.Prelude.{
  ℕ, ◌+◌, Bool, true, false, ◌||◌, not, Option, none, some, List, [], ◌∷◌, ◌++◌, ltb, ◌==◌,
  if◌then◌else◌, length, take, increment, Outcome, ok, thrown, throw_if, runtime_error, system_call,
  M, ◌>>=◌, ◌>>◌, ◌>>>◌, catching,
}
use koho.FileDescriptor
use koho.FileDescriptor.{FileDescriptor, Os}
use koho.Address.{Address, Resolver, of_sockaddr, default_address, address_eq, sizeof_raw, str}
use koho.Text.{bytes}

-- AF_INET, SOCK_STREAM, SOCK_DGRAM
abbrev pub af_inet : ℕ
af_inet = 2

abbrev pub sock_stream : ℕ
sock_stream = 1

abbrev pub sock_dgram : ℕ
sock_dgram = 2

abbrev pub sizeof_int : ℕ
sizeof_int = 4

-- The system calls on sockets; `none` is the return value -1. Options come with their length, and
-- addresses as a sockaddr with its length.
pub record Net : Type 0 where
  pub os : Os
  pub open os use *
  pub socket : ℕ → ℕ → Option ℕ
  pub fcntl : ℕ → Option ℕ
  pub accept : ℕ → Option ℕ
  pub connect : ℕ → Address → Option ℕ
  pub bind : ℕ → Address → Option ℕ
  pub listen : ℕ → ℕ → Option ℕ
  pub so_domain : ℕ → Option (ℕ × ℕ)
  pub so_type : ℕ → Option (ℕ × ℕ)
  pub so_original_dst : ℕ → Option (List ℕ × ℕ)
  pub getsockname : ℕ → Option (List ℕ × ℕ)
  pub sendto : ℕ → Address → List ℕ → Option ℕ
  pub recvfrom : ℕ → Option ((List ℕ × ℕ) × List ℕ)

module _ (net : Net) where
  -- `Socket( domain, type )`
  unfoldable pub new_socket : ℕ → ℕ → Outcome FileDescriptor
  unfolding FileDescriptor.construct
  new_socket domain type = do
    fd ← system_call "socket" (net.socket domain type)
    FileDescriptor.construct fd (net.fcntl fd)

  abbrev mismatch : ℕ × ℕ → ℕ → Bool
  mismatch (actual, len) expected = not (len == sizeof_int) || not (actual == expected)

  -- `Socket( FileDescriptor &&, domain, type )`
  unfoldable pub of_descriptor : FileDescriptor → ℕ → ℕ → Outcome FileDescriptor
  of_descriptor s domain type = do
    actual_domain ← system_call "getsockopt" (net.so_domain s.fd)
    throw_if (mismatch actual_domain domain) (runtime_error "socket domain mismatch")
    actual_type ← system_call "getsockopt" (net.so_type s.fd)
    throw_if (mismatch actual_type type) (runtime_error "socket type mismatch")
    ok s

  unfoldable pub bind : FileDescriptor → Address → Outcome ℕ
  bind s address = system_call "bind" (net.bind s.fd address)

  unfoldable pub connect : FileDescriptor → Address → Outcome ℕ
  connect s address = system_call "connect" (net.connect s.fd address)

  unfoldable pub listen : FileDescriptor → ℕ → Outcome ℕ
  listen s backlog = system_call "listen" (net.listen s.fd backlog)

  unfoldable pub local_address : FileDescriptor → Outcome Address
  unfolding of_sockaddr
  local_address s = system_call "getsockname" (net.getsockname s.fd) >>= λ a. of_sockaddr a.0 a.1

  unfoldable pub original_dest : FileDescriptor → Outcome Address
  unfolding of_sockaddr
  original_dest s = system_call "getsockopt" (net.so_original_dst s.fd) >>= λ a. of_sockaddr a.0 a.1

  -- The check of the kind of a socket; one that it refuses is closed.
  unfoldable pub checked : FileDescriptor → M (FileDescriptor × List ℕ) FileDescriptor
  unfolding of_descriptor FileDescriptor.destroy
  checked s (listener, closed) =
      catching (of_descriptor s af_inet sock_stream, (listener, closed))
        λ e _. (thrown e, (listener, closed ++ FileDescriptor.destroy s))

  -- With the descriptors that have been closed. The read is counted before the call.
  unfoldable pub accept : M (FileDescriptor × List ℕ) FileDescriptor
  unfolding FileDescriptor.construct checked
  accept (listener, closed) =
      (
        do
          fd ← system_call "accept" (net.accept listener.fd)
          FileDescriptor.construct fd (net.fcntl fd),
        (record listener { read_count = increment listener.read_count }, closed),
      )
      >>> checked

-- A UDP socket with the datagrams that the kernel has taken from it, each with where it went.
pub record UdpSocket : Type 0 where
  pub descriptor : FileDescriptor
  pub sent : List (Address × List ℕ)

abbrev pub receive_mtu : ℕ
receive_mtu = 65536

abbrev count_write : FileDescriptor → FileDescriptor
count_write s = record s { write_count = increment s.write_count }

abbrev count_read : FileDescriptor → FileDescriptor
count_read s = record s { read_count = increment s.read_count }

module _ (net : Net) where
  unfoldable pub sendto : Address → List ℕ → M UdpSocket (Unit {0})
  sendto destination payload s =
      (system_call "sendto" (net.sendto s.descriptor.fd destination payload), s) >>> λ bytes_sent _.
      (
        throw_if (not (bytes_sent == length payload))
            (runtime_error "datagram payload too big for sendto()"),
        record {
          descriptor = count_write s.descriptor;
          sent = s.sent ++ (destination, take bytes_sent payload) ∷ [];
        },
      )

  -- The kernel tells the whole length of a datagram (MSG_TRUNC).
  unfoldable pub recvfrom : M UdpSocket (Address × List ℕ)
  unfolding of_sockaddr
  recvfrom s =
      (
        do
          received ← system_call "recvfrom" (net.recvfrom s.descriptor.fd)
          throw_if (ltb receive_mtu (length received.1))
              (runtime_error "recvfrom (oversized datagram)")
          ok received,
        s,
      )
      >>> λ received _. (
        of_sockaddr received.0.0 received.0.1 >>= λ source. ok (source, received.1),
        record s { descriptor = count_read s.descriptor },
      )

-- autosocket.hh
pub record AutoSocket : Type 0 where
  pub socket : UdpSocket
  pub saved_address : Address

module _ (names : Resolver) (net : Net) where
  -- The address is saved before it is printed to the log, which can throw.
  unfoldable pub auto_read : M AutoSocket (List ℕ)
  unfolding recvfrom
  auto_read s =
      let (r, socket) = recvfrom net s.socket in
      (r, record s { socket = socket }) >>> λ received t. (
        str names received.0 (bytes ":") >>= λ _. ok received.1,
        record t { saved_address = received.0 },
      )

  -- Without a reply address the datagram is dropped, and counted as written.
  unfoldable pub auto_write : List ℕ → M AutoSocket (Unit {0})
  unfolding sendto
  auto_write buffer s = (default_address names, s) >>> λ unset _.
      if address_eq s.saved_address unset
      then (
        ok tt,
        record s { socket = record s.socket { descriptor = count_write s.socket.descriptor } },
      )
      else (let (r, socket) = sendto net s.saved_address buffer s.socket in
          (r, record s { socket = socket }))
