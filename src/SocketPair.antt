-- ===== src/SocketPair.antt =====
-- src/util/socketpair.{hh,cc}: descriptors that are passed over a pair of sockets. sendmsg(2) and
-- recvmsg(2) are parameters; a message has no data, and a control message.
pub mod Laws
use koho.Prelude.{
  ℕ, ◌+◌, ◌*◌, Bool, true, false, not, ◌||◌, Option, none, some, List, [], ◌∷◌, ◌++◌, ◌==◌,
  if◌then◌else◌, increment, Outcome, ok, thrown, runtime_error, throw_if, system_call, M, ◌>>=◌,
  ◌>>◌, ◌>>>◌,
}
use koho.FileDescriptor
use koho.FileDescriptor.{FileDescriptor}

-- SOL_SOCKET, SCM_RIGHTS, and CMSG_LEN( sizeof( int ) )
abbrev pub sol_socket : ℕ
sol_socket = 1

abbrev pub scm_rights : ℕ
scm_rights = 1

abbrev pub cmsg_len_int : ℕ
cmsg_len_int = 20

-- a control message that carries an int
pub record Control : Type 0 where
  pub cmsg_level : ℕ
  pub cmsg_type : ℕ
  pub cmsg_len : ℕ
  pub cmsg_data : ℕ

-- what recvmsg(2) brings: how much data, whether MSG_CTRUNC is set, and the first control message
pub record Received : Type 0 where
  pub size : ℕ
  pub truncated : Bool
  pub control : Option Control

-- A socket with the control messages that the kernel has taken from it.
pub record UnixDomainSocket : Type 0 where
  pub descriptor : FileDescriptor
  pub sent : List Control

-- `none` is the return value -1.
pub record Messages : Type 0 where
  pub sendmsg : ℕ → Control → Option ℕ
  pub recvmsg : ℕ → Option Received
  pub fcntl : ℕ → Option ℕ

unfoldable pub make_pair :
    Option (ℕ × ℕ) → (ℕ → Option ℕ) → Outcome (UnixDomainSocket × UnixDomainSocket)
unfolding FileDescriptor.construct
make_pair socketpair fcntl = do
  pipe ← system_call "socketpair" socketpair
  first ← FileDescriptor.construct pipe.0 (fcntl pipe.0)
  second ← FileDescriptor.construct pipe.1 (fcntl pipe.1)
  ok (record { descriptor = first; sent = [] }, record { descriptor = second; sent = [] })

-- the control message that carries a descriptor
unfoldable pub rights : ℕ → Control
rights fd = record {
  cmsg_level = sol_socket;
  cmsg_type = scm_rights;
  cmsg_len = cmsg_len_int;
  cmsg_data = fd;
}

-- A send that fails to check has still gone out.
unfoldable pub send_fd : Messages → FileDescriptor → M UnixDomainSocket (Unit {0})
unfolding rights
send_fd os fd s = (system_call "sendmsg" (os.sendmsg s.descriptor.fd (rights fd.fd)), s) >>> λ n t.
    let u = record t { sent = t.sent ++ rights fd.fd ∷ [] } in
    (throw_if (not (n == 0)) (runtime_error "send_fd: sendmsg unexpectedly sent data"), u)
    >>> λ _ _. (
      ok tt,
      record u {
        descriptor = record u.descriptor { write_count = increment u.descriptor.write_count };
      },
    )

-- the checks of a control message, and the int that it carries
received_int : Option Control → Outcome ℕ
received_int none = thrown (runtime_error "recvmsg: unexpected control message")
received_int (some c) = do
  throw_if (not (c.cmsg_level == sol_socket) || not (c.cmsg_type == scm_rights))
      (runtime_error "recvmsg: unexpected control message")
  throw_if (not (c.cmsg_len == cmsg_len_int))
      (runtime_error "recvmsg: unexpected control message length")
  ok c.cmsg_data

-- The result is converted to a FileDescriptor after the read has been counted.
unfoldable pub recv_fd : Messages → M UnixDomainSocket FileDescriptor
unfolding received_int FileDescriptor.construct
recv_fd os s =
    (
      do
        message ← system_call "recvmsg" (os.recvmsg s.descriptor.fd)
        throw_if (not (message.size == 0))
            (runtime_error "recv_fd: recvmsg unexpectedly received data")
        throw_if message.truncated (runtime_error "recvmsg: control data was truncated")
        received_int message.control,
      s,
    )
    >>> λ fd t. (
      FileDescriptor.construct fd (os.fcntl fd),
      record t {
        descriptor = record t.descriptor { read_count = increment t.descriptor.read_count };
      },
    )
