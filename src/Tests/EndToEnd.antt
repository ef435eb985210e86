-- ===== src/Tests/EndToEnd.antt =====
-- Both ends together at concrete inputs.
use koho.Prelude.{ℕ, ◌≡◌, refl, true, false, List, [], ◌∷◌, ◌++◌, arith, lookup, insert, ok}
use koho.FileDescriptor
use koho.FileDescriptor.{FileDescriptor}
use koho.Packet
use koho.Text
use koho.Text.{bytes, to_string}
use koho.Address.{Address, fill, of_sockaddr, of_ip, str}
use koho.Address.Names.{IsNamed}
use koho.Socket
use koho.Socket.{Net, AutoSocket, auto_read}
use koho.Epoller.{continue}
use koho.Splitter.{packet, receive_bytes_from_tcp_connection}
use koho.Splitter.Invariant.{IsValid}
use koho.Splitter.Relay.{after_read}
use koho.Splitter.Client
use koho.Splitter.Client.{Client, server_socket, handle_new_tcp_connection}
use koho.Splitter.Client.Accepting as Accepting
use koho.Splitter.Client.Accepting.{after_send}
use koho.Splitter.Server
use koho.Splitter.Server.{Server, client_socket, receive_packet_from_splitter_client}
use koho.Splitter.Server.Opening as Opening
use koho.Splitter.EndToEnd.{relay_end_to_end, connect_end_to_end}
use koho.Tests.World.{
  os_with-IsPosix, os_with-TakesBytes, names, net_with, epoll, descriptor, client, client-IsValid,
  server, server-IsValid,
}

abbrev hello : Net
hello = net_with (bytes "hello")

-- the server's socket after a datagram
abbrev reader : AutoSocket
reader = record {
  socket = record { descriptor = record (descriptor 4) { read_count = 1 }; sent = [] };
  saved_address = record { size = 1; raw = fill (7 ∷ []) 1 };
}

abbrev relayed : List ℕ
relayed = Packet.to_string (packet false 7 (bytes "hello"))

relayed_read : auto_read names (net_with relayed) server.other_side ≡ (ok relayed, reader)
unfolding auto_read of_sockaddr str Text.myatoi Packet.to_string Packet.to_big_endian
relayed_read = refl

relay_end_to_end_example :
    (receive_bytes_from_tcp_connection hello.os epoll (server_socket hello.os) 7 client.splitter ≡ (
      ok continue,
      record client.splitter {
        connections = insert 7 (after_read (descriptor 5)) client.connections;
        other_side = after_send relayed client.other_side;
      },
    ))
    × (socket : FileDescriptor) × (socket.fd ≡ 5)
    × (receive_packet_from_splitter_client names (net_with relayed) epoll server ≡ (
      ok continue,
      record server {
        other_side = reader;
        connections = insert 7 socket server.connections;
        delivered = [] ++ (7, bytes "hello") ∷ [];
      },
    ))
unfolding lookup insert
relay_end_to_end_example =
    relay_end_to_end names hello (net_with relayed) epoll epoll client server 7 (bytes "hello")
      (descriptor 5) (descriptor 5) reader (omega arith) refl refl refl refl refl refl refl
      relayed_read (os_with-IsPosix relayed) (os_with-TakesBytes relayed 5)

abbrev host : List ℕ
host = bytes "10.0.0.1"

abbrev announced : List ℕ
announced = Packet.to_string (packet true 8 (host ++ (b':' ∷ to_string 80)))

announced_read : auto_read names (net_with announced) server.other_side ≡ (ok announced, reader)
unfolding auto_read of_sockaddr str to_string Text.myatoi Packet.to_string Packet.to_big_endian
announced_read = refl

abbrev destination : Address
destination = record { size = 4; raw = fill (2 ∷ 0 ∷ 0 ∷ 80 ∷ []) 4 }

named : IsNamed names destination host 80
unfolding to_string
named = record { named = refl; no_colon = omega arith; is_port = omega arith }

connect_end_to_end_example :
    (handle_new_tcp_connection names hello epoll client ≡ (
      ok tt,
      Accepting.with_connection
          (descriptor 9)
          (record (descriptor 3) { read_count = 1 })
          (host ++ (b':' ∷ to_string 80))
          client,
    ))
    × IsValid Client.connection
        (Accepting.with_connection
          (descriptor 9)
          (record (descriptor 3) { read_count = 1 })
          (host ++ (b':' ∷ to_string 80))
          client).splitter
    × (receive_packet_from_splitter_client names (net_with announced) epoll server
        ≡ (ok continue, Opening.with_connection 8 (descriptor 9) destination reader server))
    × IsValid Server.connection (Opening.with_connection 8 (descriptor 9) destination reader server)
unfolding lookup insert Socket.accept Socket.original_dest of_sockaddr of_ip Socket.new_socket
    Socket.connect FileDescriptor.construct
connect_end_to_end_example =
    connect_end_to_end names names hello (net_with announced) epoll epoll client server
      (descriptor 9) (descriptor 9) (record (descriptor 3) { read_count = 1 }) destination
      destination host 80 0 0 0 reader client-IsValid (omega arith) refl refl refl refl named refl
      refl server-IsValid announced_read refl refl refl refl refl refl
