-- ===== src/Splitter/EndToEnd.antt =====
-- Both ends together: what the client sends is taken by the server as it was meant.
use koho.Prelude.{
  [], sym, ◌∙◌, false, ℕ, ◌^◌, ◌<◌, ◌≡◌, true, false, none, some, List, ◌∷◌, ◌++◌, is_empty, length,
  lookup, insert, ok,
}
use koho.FileDescriptor.{FileDescriptor}
use koho.FileDescriptor.Writes.{IsPosix, TakesBytes}
use koho.Packet
use koho.Packet.Laws.{parse-to_string}
use koho.Text.{bytes, to_string}
use koho.Address
use koho.Address.{Address, Resolver}
use koho.Address.Names.{IsNamed, str_lem}
use koho.Socket
use koho.Socket.{Net, AutoSocket, auto_read, af_inet, sock_stream}
use koho.Epoller.{EpollOs, continue}
use koho.Splitter.{packet, send, unlock, read_limit, receive_bytes_from_tcp_connection}
use koho.Splitter.Invariant.{IsValid}
use koho.Splitter.Relay.{after_read, receive_bytes_data}
use koho.Splitter.Delivery.{deliver_whole}
use koho.Splitter.Client
use koho.Splitter.Client.{Client, ServerSocket, server_socket, handle_new_tcp_connection}
use koho.Splitter.Client.Accepting as Accepting
use koho.Splitter.Client.Accepting.{after_send, write_datagram, to_string_nonempty, handle_new_ok}
use koho.Splitter.Server
use koho.Splitter.Server.{Server, client_socket, receive_packet_from_splitter_client}
use koho.Splitter.Server.Handlers.{receive_packet_known}
use koho.Splitter.Server.Opening as Opening
use koho.Splitter.Server.Opening.{receive_new_connection_ok}

-- Bytes of a connection, from the client's socket to the server's: the client on `net`, the server on
-- `net'`.
module _ (names : Resolver) (net net' : Net) (epoll epoll' : EpollOs) (s : Client) (v : Server)
    (uid : ℕ) (body : List ℕ) (c c' : FileDescriptor) (reader : AutoSocket)
    (is_uint64 : uid < 2 ^ 64) (free : s.locked ≡ false) (known : lookup uid s.connections ≡ some c)
    (more : is_empty body ≡ false) (came : net.read c.fd read_limit ≡ some body)
    (taken : let datagram = Packet.to_string (packet false uid body) in
      net.write s.other_side.descriptor.fd datagram ≡ some (length datagram))
    (free' : v.locked ≡ false) (known' : lookup uid v.connections ≡ some c')
    (arrived : auto_read names net' v.other_side
      ≡ (ok (Packet.to_string (packet false uid body)), reader))
    (posix : IsPosix net'.os) (takes : TakesBytes net'.os c'.fd) where
  sent : receive_bytes_from_tcp_connection net.os epoll (server_socket net.os) uid s.splitter ≡ (
    ok continue,
    record s.splitter {
      connections = insert uid (after_read c) s.connections;
      other_side = after_send (Packet.to_string (packet false uid body)) s.other_side;
    },
  )
  unfolding send
  sent = rw (
    receive_bytes_data net.os epoll (server_socket net.os) s.splitter uid c body free known more
        came,
    write_datagram net.os (Packet.to_string (packet false uid body)) s.other_side
        (to_string_nonempty _) taken,
  )

  -- When the client's mutex is free, it knows the id, a read brings bytes, and the kernel takes the
  -- datagram: what was read goes into one datagram, and besides it only the counters of the two
  -- sockets change. And a server whose mutex is free, which reads this datagram from its socket and
  -- knows the id, on a kernel that keeps to read(2) and write(2) and takes a byte at least at each
  -- write to the connection: the handler returns, the kernel has been given just these bytes, all of
  -- them and in order, on the connection with that id, and besides this the mutex is free as before
  -- and only the counters of the two sockets change.
  pub relay_end_to_end :
      (receive_bytes_from_tcp_connection net.os epoll (server_socket net.os) uid s.splitter ≡ (
        ok continue,
        record s.splitter {
          connections = insert uid (after_read c) s.connections;
          other_side = after_send (Packet.to_string (packet false uid body)) s.other_side;
        },
      ))
      × (socket : FileDescriptor) × (socket.fd ≡ c'.fd)
      × (receive_packet_from_splitter_client names net' epoll' v ≡ (
        ok continue,
        record v {
          other_side = reader;
          connections = insert uid socket v.connections;
          delivered = v.delivered ++ (uid, body) ∷ [];
        },
      ))
  unfolding unlock
  relay_end_to_end =
      let taking : Server = record v { other_side = reader; locked = true } in
      let (socket, number, given) =
        deliver_whole net'.os epoll' (client_socket names net') taking uid c' known' body more posix
          takes in
      let handled =
        receive_packet_known names net' epoll' v (Packet.to_string (packet false uid body)) reader
          free' arrived uid body c' (parse-to_string (packet false uid body) is_uint64) known' in
      (
        sent,
        socket,
        number,
        handled
            ∙ rw given (λ i. (
              ok continue,
              record v {
                locked = sym free' i;
                other_side = reader;
                connections = insert uid socket v.connections;
                delivered = v.delivered ++ (uid, body) ∷ [];
              },
            )),
      )

-- A new connection, from the client's listener to the server's socket.
module _ (names names' : Resolver) (net net' : Net) (epoll epoll' : EpollOs) (s : Client)
    (v : Server) (c c' listener : FileDescriptor) (dest dest' : Address) (host : List ℕ)
    (port n n' m' : ℕ) (reader : AutoSocket) (valid : IsValid Client.connection s.splitter)
    (is_uint64 : s.next_connection_uid < 2 ^ 64)
    (fresh : lookup s.next_connection_uid s.connections ≡ none)
    (accepted : Socket.accept net (s.listener, s.closed) ≡ (ok c, (listener, s.closed)))
    (new_fd : lookup c.fd s.epoller.actions ≡ none)
    (found_dest : Socket.original_dest net c ≡ ok dest) (named : IsNamed names dest host port)
    (taken : let text = host ++ (b':' ∷ to_string port) in
      let datagram = Packet.to_string (packet true s.next_connection_uid text) in
      net.write s.other_side.descriptor.fd datagram ≡ some (length datagram))
    (added : epoll.ctl_add c.fd ≡ some n) (valid' : IsValid Server.connection v)
    (arrived : let text = host ++ (b':' ∷ to_string port) in
      auto_read names' net' v.other_side
      ≡ (ok (Packet.to_string (packet true s.next_connection_uid text)), reader))
    (unknown : lookup s.next_connection_uid v.connections ≡ none)
    (resolved : Address.of_ip names' host port ≡ ok dest')
    (created : Socket.new_socket net' af_inet sock_stream ≡ ok c')
    (connects : Socket.connect net' c' dest' ≡ ok n')
    (new_fd' : lookup c'.fd v.epoller.actions ≡ none)
    (added' : epoll'.ctl_add c'.fd ≡ some m') where
  -- A client whose mutex is free and whose maps belong together accepts a connection on a new
  -- descriptor, with an id that no connection has, and its system calls succeed; the resolver names
  -- the original destination by a host without a colon and a port. Then it announces the connection
  -- in one datagram. A server in such a state that reads this datagram from its socket, does not
  -- know the id, and whose system calls succeed, connects one new socket, once, to the address that
  -- its resolver gives for that host and port, and keeps and watches it under the same id. Afterwards
  -- the invariant holds at both ends.
  pub connect_end_to_end :
      let text = host ++ (b':' ∷ to_string port) in
      (handle_new_tcp_connection names net epoll s
        ≡ (ok tt, Accepting.with_connection c listener text s))
      × IsValid Client.connection (Accepting.with_connection c listener text s).splitter
      × (receive_packet_from_splitter_client names' net' epoll' v
          ≡ (ok continue, Opening.with_connection s.next_connection_uid c' dest' reader v))
      × IsValid Server.connection (Opening.with_connection s.next_connection_uid c' dest' reader v)
  connect_end_to_end =
      let text = host ++ (b':' ∷ to_string port) in
      let (announced, holds) =
        handle_new_ok names net epoll s c listener dest text n valid fresh accepted new_fd
          found_dest (str_lem names dest host (bytes ":") port named) taken added in
      let (opened, holds') =
        receive_new_connection_ok names' net' epoll' v
          (Packet.to_string (packet true s.next_connection_uid text)) reader s.next_connection_uid
          port host dest' c' valid' arrived
          (parse-to_string (packet true s.next_connection_uid text) is_uint64) named.no_colon
          named.is_port unknown resolved created n' m' connects new_fd' added' in
      (announced, holds, opened, holds')
