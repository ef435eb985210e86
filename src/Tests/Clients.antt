-- ===== src/Tests/Clients.antt =====
-- The client at concrete inputs: the connection 7 is there, and the next one is 8.
use koho.Prelude.{
  ℕ, ◌≡◌, refl, inl, inr, lookup_of_insert, true, false, none, some, List, [], ◌∷◌, ◌++◌, arith,
  lookup, insert, ok, thrown, undefined, Exception, unix_error, ◌>>>◌,
}
use koho.FileDescriptor.{FileDescriptor, Os, buffer_size}
use koho.FileDescriptor
use koho.Packet
use koho.Text.{bytes, to_string, myatoi}
use koho.Address.{fill, zeros, of_sockaddr, str}
use koho.Socket
use koho.Socket.{Net}
use koho.Epoller
use koho.Epoller.{continue, cancel}
use koho.Splitter.Client.Construct.{initial, construct, construct-IsValid-IsFresh}
use koho.Splitter.{
  Splitter, packet, lock, unlock, send, deliver, write_connection,
  receive_bytes_from_tcp_connection,
}
use koho.Splitter.Invariant.{IsValid}
use koho.Splitter.Relay.{
  after_read, without, receive_bytes_data, receive_bytes_eof, receive_bytes_read_fails,
  receive_bytes-IsValid,
}
use koho.Splitter.Delivery.{Delivered, deliver_eof, deliver_data}
use koho.Splitter.Client
use koho.Splitter.Client.{
  Client, ServerSocket, connection, server_socket, try_new_tcp_connection,
  handle_new_tcp_connection, receive_packet_from_splitter_server, poll_once,
}
use koho.Splitter.Client.Handlers.{
  connection-injective, Received, receive_packet_from_server_cases,
  receive_packet_from_server-IsValid,
}
use koho.Splitter.Client.Accepting.{with_connection, handle_new_ok, handle_new_exception}
use koho.Splitter.Client.Validity.{IsFresh, handle_new-IsValid}
use koho.Splitter.Client.Polling.{ended, poll_connection_end}
use koho.Tests.World.{
  names, silent_names, os_with, os_with-IsPosix, net_with, epoll, descriptor, client,
  client-IsValid,
}

abbrev hello : Net
hello = net_with (bytes "hello")

abbrev connected : List (ℕ × FileDescriptor)
connected = client.connections

receive_bytes_data_test :
    receive_bytes_from_tcp_connection hello.os epoll (server_socket hello.os) 7 client.splitter ≡ (
      send
        (server_socket hello.os)
        (packet false 7 (bytes "hello"))
        (record client.splitter { connections = insert 7 (after_read (descriptor 5)) connected })
      >>> λ _ t. (ok continue, t))
unfolding lookup insert
receive_bytes_data_test =
    receive_bytes_data hello.os epoll (server_socket hello.os) client.splitter 7 (descriptor 5)
      (bytes "hello") refl refl refl refl

receive_bytes_eof_test :
    receive_bytes_from_tcp_connection (os_with []) epoll (server_socket hello.os) 7 client.splitter
    ≡ (send (server_socket hello.os) (packet false 7 []) (without client.splitter 7 (descriptor 5))
        >>> λ _ t. (ok cancel, t))
unfolding lookup insert
receive_bytes_eof_test =
    receive_bytes_eof (os_with []) epoll (server_socket hello.os) client.splitter 7 (descriptor 5) 0
      refl refl refl refl

deliver_eof_test :
    deliver hello.os epoll (server_socket hello.os) 7 (descriptor 5) [] client.splitter
    ≡ (ok tt, without client.splitter 7 (descriptor 5))
unfolding lookup insert
deliver_eof_test =
    deliver_eof hello.os epoll (server_socket hello.os) client.splitter 7 (descriptor 5) refl 0 refl

deliver_data_example :
    let (r, t) =
      deliver hello.os epoll
        (server_socket hello.os)
        7
        (descriptor 5)
        (1 ∷ 2 ∷ [])
        client.splitter in
    Delivered client.splitter 7 (descriptor 5) (1 ∷ 2 ∷ []) r t
unfolding lookup insert
deliver_data_example =
    deliver_data hello.os epoll (server_socket hello.os) client.splitter 7 (descriptor 5) refl 1
      (2 ∷ []) (os_with-IsPosix (bytes "hello"))

announced_run :
    (handle_new_tcp_connection names hello epoll client ≡ (
      ok tt,
      with_connection
          (descriptor 9)
          (record (descriptor 3) { read_count = 1 })
          (bytes "10.0.0.1" ++ (bytes ":" ++ to_string 80))
          client,
    ))
    × IsValid connection
        (with_connection
          (descriptor 9)
          (record (descriptor 3) { read_count = 1 })
          (bytes "10.0.0.1" ++ (bytes ":" ++ to_string 80))
          client).splitter
unfolding lookup insert Socket.accept Socket.original_dest of_sockaddr str to_string myatoi
announced_run =
    handle_new_ok names hello epoll client (descriptor 9) (record (descriptor 3) { read_count = 1 })
      (record { size = 4; raw = fill (2 ∷ 0 ∷ 0 ∷ 80 ∷ []) 4 })
      (bytes "10.0.0.1" ++ (bytes ":" ++ to_string 80)) 0 client-IsValid refl refl refl refl refl
      refl refl

client-IsFresh : IsFresh client
unfolding lookup
client-IsFresh = record {
  below = λ uid c h. elim (lookup_of_insert 7 uid (descriptor 5) c [] h) [
    | inl (key, _) ↦ omega (arith, key)
    | inr (_, old) ↦ cc
  ];
}

-- what the client makes of a new connection here
abbrev announced : Client
announced =
    with_connection (descriptor 9) (record (descriptor 3) { read_count = 1 })
      (bytes "10.0.0.1" ++ (bytes ":" ++ to_string 80)) client

handle_new-IsValid_example : IsValid connection announced.splitter × IsFresh announced
handle_new-IsValid_example =
    handle_new-IsValid names hello epoll client client-IsValid announced client-IsFresh
      (omega arith) announced_run.0

handle_new_exception_example :
    (handle_new_tcp_connection silent_names hello epoll client).0 ≡ undefined
unfolding lookup insert try_new_tcp_connection Socket.accept Socket.original_dest of_sockaddr str
handle_new_exception_example =
    handle_new_exception silent_names hello epoll client
      (Exception.tagged_error (bytes "getnameinfo")) refl refl

-- a read that fails
abbrev failing : Os
failing = record { read = λ fd n. none; write = λ fd output. none }

receive_bytes_read_fails_example :
    let (r, t) =
      receive_bytes_from_tcp_connection failing epoll (server_socket failing) 7 client.splitter in
    (r ≡ thrown (unix_error "read")) × (t.locked ≡ true)
unfolding lookup insert
receive_bytes_read_fails_example =
    receive_bytes_read_fails failing epoll (server_socket failing) client.splitter 7 (descriptor 5)
      refl refl refl

-- the client after it has passed on what it has read
abbrev passed : Splitter Client.Callback ServerSocket
passed =
    (receive_bytes_from_tcp_connection hello.os epoll (server_socket hello.os) 7 client.splitter).1

receive_bytes-IsValid_test : IsValid connection passed
unfolding receive_bytes_from_tcp_connection lookup insert FileDescriptor.read FileDescriptor.write
    Packet.to_string Packet.to_big_endian lock unlock send
receive_bytes-IsValid_test =
    receive_bytes-IsValid connection connection-injective hello.os epoll (server_socket hello.os)
      client.splitter passed 7 continue client-IsValid refl

poll_connection_end_example :
    poll_once names (net_with []) epoll client ≡ (undefined, ended 7 (descriptor 5) client)
unfolding lookup insert
poll_connection_end_example =
    poll_connection_end names (net_with []) epoll client 7 0 [] (descriptor 5) client-IsValid refl
      refl refl refl refl

-- a datagram of the server with three bytes for the connection 7
abbrev reply : List ℕ
reply = zeros 15 ++ 7 ∷ 1 ∷ 2 ∷ 3 ∷ []

abbrev replying : Net
replying = net_with reply

reply_read : replying.read 4 buffer_size ≡ some reply
reply_read = refl

receive_packet_from_server_cases_example :
    Received replying epoll client.splitter reply
      (receive_packet_from_splitter_server replying epoll client.splitter)
receive_packet_from_server_cases_example =
    receive_packet_from_server_cases replying epoll client.splitter reply refl reply_read

abbrev received : Splitter Client.Callback ServerSocket
received = (receive_packet_from_splitter_server replying epoll client.splitter).1

receive_packet_from_server-IsValid_example : IsValid connection received
unfolding receive_packet_from_splitter_server lookup insert FileDescriptor.read FileDescriptor.write
    Packet.from_big_endian Packet.parse lock unlock deliver write_connection
receive_packet_from_server-IsValid_example =
    receive_packet_from_server-IsValid replying epoll client.splitter reply refl reply_read received
      continue (os_with-IsPosix reply) client-IsValid.linked refl

abbrev started : Client
started = initial (descriptor 9) (descriptor 9) (record { epoll_fd = 6; actions = [] })

construct-IsValid-IsFresh_test :
    IsValid connection started.splitter
    × IsFresh started
    × (started.connections ≡ [])
    × (started.next_connection_uid ≡ 1)
unfolding construct Socket.new_socket FileDescriptor.construct Epoller.construct Socket.bind
    Socket.listen Socket.connect str myatoi
construct-IsValid-IsFresh_test =
    construct-IsValid-IsFresh names hello (some 6)
      (record { size = 4; raw = fill (2 ∷ 0 ∷ 0 ∷ 80 ∷ []) 4 })
      (record { size = 4; raw = fill (2 ∷ 0 ∷ 0 ∷ 80 ∷ []) 4 }) started refl
