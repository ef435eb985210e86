-- ===== src/DnsProxy.antt =====
-- src/util/dns_proxy.{hh,cc}: a name server that takes requests over UDP and TCP and asks another one
-- over TCP. Each request has a thread of its own, which is modelled alone.
pub mod Udp
pub mod Relay
pub mod Channel
pub mod Refine
pub mod Registration
use koho.Prelude.{
  ℕ, zero, suc, ◌+◌, ◌*◌, ◌%◌, ◌^◌, Bool, true, false, not, Option, List, [], ◌∷◌, ◌++◌, ltb, ◌==◌,
  if◌then◌else◌, length, is_empty, Outcome, ok, thrown, undefined, running, runtime_error, throw_if,
  M, ◌>>=◌, ◌>>◌, ◌>>>◌, catching,
}
use koho.FileDescriptor
use koho.FileDescriptor.{FileDescriptor, Os, Sink, buffer_size}
use koho.Address.{Address, Resolver, default_address, address_eq}
use koho.Packet.{to_big_endian, from_big_endian}
use koho.Socket
use koho.Socket.{Net, UdpSocket, af_inet, sock_stream, sock_dgram}

pub record DnsProxy : Type 0 where
  pub udp_listener : UdpSocket
  pub tcp_listener : FileDescriptor
  pub tcp_target : Address

module _ (names : Resolver) (net : Net) where
  -- `make_bound_socket`, for either type of socket
  unfoldable pub make_bound_socket : ℕ → Address → Outcome FileDescriptor
  unfolding Socket.new_socket Socket.bind
  make_bound_socket type listen_address = do
    sock ← Socket.new_socket net af_inet type
    _ ← Socket.bind net sock listen_address
    ok sock

  -- a socket's address is that of no socket that is bound
  abbrev pub is_unbound : FileDescriptor → Outcome Bool
  is_unbound s = do
    address ← Socket.local_address net s
    unset ← default_address names
    ok (address_eq address unset)

  -- from sockets that are bound already
  unfoldable pub of_sockets : FileDescriptor → FileDescriptor → Address → Outcome DnsProxy
  unfolding Socket.local_address Socket.listen default_address address_eq
  of_sockets udp tcp target = do
    udp_unbound ← is_unbound udp
    throw_if udp_unbound
        (runtime_error "DNSProxy_UDPtoTCP internal error: udp_listener must be bound")
    tcp_unbound ← is_unbound tcp
    throw_if tcp_unbound
        (runtime_error "DNSProxy_UDPtoTCP internal error: tcp_listener must be bound")
    _ ← Socket.listen net tcp 16
    ok (record {
      udp_listener = record { descriptor = udp; sent = [] };
      tcp_listener = tcp;
      tcp_target = target;
    })

  unfoldable pub construct : Address → Address → Outcome DnsProxy
  unfolding make_bound_socket of_sockets
  construct listen_address target = do
    udp ← make_bound_socket sock_dgram listen_address
    tcp ← make_bound_socket sock_stream listen_address
    of_sockets udp tcp target

-- `htobe16( request.length() )`, in memory, and the request behind it
unfoldable pub tcpify : List ℕ → List ℕ
unfolding to_big_endian
tcpify request = to_big_endian 2 (length request % 2 ^ 16) ++ request

-- `be16toh` of the first two bytes at `data()`, which has a 0 behind its last byte and nothing behind
-- that
unfoldable pub response_length : List ℕ → Outcome ℕ
unfolding from_big_endian
response_length [] = undefined
response_length (high ∷ []) = ok (from_big_endian 0 (high ∷ 0 ∷ []))
response_length (high ∷ low ∷ rest) = ok (from_big_endian 0 (high ∷ low ∷ []))

-- `while ( response.length() < response_length )`, over the kernel of each read
unfoldable pub read_response : List Os → ℕ → List ℕ → M FileDescriptor (List ℕ)
unfolding FileDescriptor.read
read_response [] expected response s =
    (if ltb (length response) expected then running else ok response, s)
read_response (os ∷ rounds) expected response s =
    let once = FileDescriptor.read os buffer_size s >>> λ this_chunk t.
    if is_empty this_chunk
    then (ok response, t)
    else read_response rounds expected (response ++ this_chunk) t in
    if ltb (length response) expected then once else (ok response, s)

-- What a thread for a datagram works on: the listener, and its connection to the name server.
pub record Exchange : Type 0 where
  pub udp_listener : UdpSocket
  pub dns_server : Sink

unfoldable pub on_server : {A : Type 0} → M FileDescriptor A → M Exchange A
on_server call s =
    let (r, d) = call s.dns_server.descriptor in
    (r, record s { dns_server = record s.dns_server { descriptor = d } })

-- The answers of the kernel while a request is answered: when the connection is made, to the read of
-- the length, and to the reads after it.
pub record Rounds : Type 0 where
  pub connecting : Net
  pub prefix : Os
  pub chunks : List Os

unfoldable pub send_request : Rounds → List ℕ → M Exchange (List ℕ)
unfolding tcpify FileDescriptor.write
send_request rounds request s =
    let (r, sink) = FileDescriptor.write rounds.connecting.os (tcpify request) true s.dns_server in
    (r, record s { dns_server = sink })

unfoldable pub read_length : Rounds → M Exchange ℕ
unfolding response_length on_server FileDescriptor.read
read_length rounds s =
    on_server (FileDescriptor.read rounds.prefix 2) s >>> λ raw t. (response_length raw, t)

-- the check of the length, and `udp_listener_.sendto( source, response )`
unfoldable pub pass_on : Net → Address → ℕ → List ℕ → M Exchange (Unit {0})
unfolding Socket.sendto
pass_on net source expected response s =
    (
      throw_if (not (length response == expected))
          (runtime_error "TCP DNS response length mismatch"),
      s,
    )
    >>> λ _ t.
        let (r, udp) = Socket.sendto net source response t.udp_listener in
        (r, record t { udp_listener = udp })

-- the body of the thread, once it is connected
unfoldable pub exchange : Rounds → Address × List ℕ → M Exchange (Unit {0})
unfolding send_request read_length read_response on_server pass_on
exchange rounds (source, request) s = send_request rounds request s >>> λ _ s1.
    read_length rounds s1 >>> λ expected s2.
    on_server (read_response rounds.chunks expected []) s2 >>> λ response s3.
    pass_on rounds.connecting source expected response s3

-- `TCPSocket dns_server; dns_server.connect( tcp_target_ );`
unfoldable pub connect_server : Net → Address → Outcome FileDescriptor
unfolding Socket.new_socket Socket.connect
connect_server net target = do
  dns_server ← Socket.new_socket net af_inet sock_stream
  _ ← Socket.connect net dns_server target
  ok dns_server

-- the thread that `handle_udp` starts
unfoldable pub answer_datagram : Rounds → Address → Address × List ℕ → M UdpSocket (Unit {0})
unfolding connect_server exchange
answer_datagram rounds target request udp =
    catching
      ((connect_server rounds.connecting target, udp) >>> λ dns_server s.
        let (r, t) = exchange rounds request (record {
          udp_listener = s;
          dns_server = record { descriptor = dns_server; accepted = [] };
        }) in
        (r, t.udp_listener))
      (λ e s. (ok tt, s))

-- Either handler gives what it starts its thread with: a datagram and its source, or a connection.
-- What is not recorded: the descriptor that is closed when `accept` throws in its check.
unfoldable pub handle_udp : Net → M DnsProxy (Address × List ℕ)
unfolding Socket.recvfrom
handle_udp net s =
    let (r, udp) = Socket.recvfrom net s.udp_listener in (r, record s { udp_listener = udp })

unfoldable pub handle_tcp : Net → M DnsProxy FileDescriptor
unfolding Socket.accept
handle_tcp net s =
    let (r, (tcp, closed)) = Socket.accept net (s.tcp_listener, []) in
    (r, record s { tcp_listener = tcp })
