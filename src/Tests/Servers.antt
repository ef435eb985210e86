-- ===== src/Tests/Servers.antt =====
-- The server at concrete inputs: the connection 7 is there, and the connection 8 is asked for.
use koho.Prelude.{
  some, ℕ, ◌≡◌, refl, true, false, List, [], ◌∷◌, ◌++◌, arith, lookup, insert, ok, ◌>>>◌, All, ◌≢◌,
}
use koho.FileDescriptor.{FileDescriptor}
use koho.FileDescriptor
use koho.Packet
use koho.Text
use koho.Text.{bytes, to_string, find, atoi_uint16}
use koho.Address
use koho.Address.{Address, fill, zeros, of_sockaddr, of_ip, str}
use koho.Socket
use koho.Socket.{Net, AutoSocket, auto_read, recvfrom}
use koho.Epoller
use koho.Epoller.{continue}
use koho.Splitter.Server.Construct.{initial, construct, construct-IsValid}
use koho.Splitter.{packet, send, unlock}
use koho.Splitter.Invariant.{IsValid}
use koho.Splitter.Server.{
  Server, connection, client_socket, parse_destination, receive_packet_from_splitter_client,
}
use koho.Splitter.Server.Handlers.{
  Received, receive_packet_from_client_cases, parse_destination-named,
}
use koho.Splitter.Server.Opening.{
  with_connection, receive_new_connection_ok, receive_new_connection_fails,
}
use koho.Splitter.Server.Validity.{receive_packet_from_client-IsValid}
use koho.Tests.World.{
  names, os_with-IsPosix, net_with, deaf_net_with, epoll, descriptor, server, server-IsValid,
}

abbrev host : List ℕ
host = bytes "10.0.0.1"

host_no_colon : All (λ x. x ≢ b':') host
host_no_colon = omega arith

parse_destination-named_example :
    parse_destination names (host ++ (b':' ∷ to_string 80)) ≡ of_ip names host 80
parse_destination-named_example = parse_destination-named names host 80 host_no_colon (omega arith)

-- the client asks for the connection 8
abbrev request : List ℕ
request = (zeros 7 ++ 1 ∷ []) ++ ((zeros 7 ++ 8 ∷ []) ++ (host ++ (b':' ∷ bytes "80")))

abbrev reader : AutoSocket
reader = record {
  socket = record { descriptor = record (descriptor 4) { read_count = 1 }; sent = [] };
  saved_address = record { size = 1; raw = fill (7 ∷ []) 1 };
}

request_read : auto_read names (net_with request) server.other_side ≡ (ok request, reader)
unfolding auto_read of_sockaddr str Text.myatoi
request_read = refl

request_parsed : Packet.parse request ≡ ok (packet true 8 (host ++ (b':' ∷ to_string 80)))
unfolding Packet.parse Packet.from_big_endian to_string
request_parsed = refl

abbrev destination : Address
destination = record { size = 4; raw = fill (2 ∷ 0 ∷ 0 ∷ 80 ∷ []) 4 }

receive_packet_from_client_cases_example :
    Received names
      (net_with request)
      epoll
      (record server { other_side = reader })
      request
      (receive_packet_from_splitter_client names (net_with request) epoll server)
receive_packet_from_client_cases_example =
    receive_packet_from_client_cases names (net_with request) epoll server request reader refl
      request_read

request_run :
    (receive_packet_from_splitter_client names (net_with request) epoll server
      ≡ (ok continue, with_connection 8 (descriptor 9) destination reader server))
    × IsValid connection (with_connection 8 (descriptor 9) destination reader server)
unfolding lookup insert of_ip of_sockaddr Socket.new_socket Socket.connect FileDescriptor.construct
request_run =
    receive_new_connection_ok names (net_with request) epoll server request reader 8 80 host
      destination (descriptor 9) server-IsValid request_read request_parsed host_no_colon
      (omega arith) refl refl refl 0 0 refl refl refl

request_read_deaf : auto_read names (deaf_net_with request) server.other_side ≡ (ok request, reader)
unfolding auto_read of_sockaddr str Text.myatoi
request_read_deaf = refl

receive_new_connection_fails_example :
    receive_packet_from_splitter_client names (deaf_net_with request) epoll server ≡ (
      send (client_socket names (deaf_net_with request)) (packet false 8 []) (record server {
        locked = true;
        connects = (9, destination) ∷ [];
        closed = 9 ∷ [];
        other_side = reader;
      })
      >>> λ _ t. unlock t >>> λ _ u. (ok continue, u))
unfolding lookup insert of_ip of_sockaddr Socket.new_socket Socket.connect FileDescriptor.construct
    FileDescriptor.destroy
receive_new_connection_fails_example =
    receive_new_connection_fails names (deaf_net_with request) epoll server request reader 8 80 host
      destination (descriptor 9) server-IsValid request_read_deaf request_parsed host_no_colon
      (omega arith) refl refl refl refl

receive_packet_from_client-IsValid_example :
    IsValid connection (with_connection 8 (descriptor 9) destination reader server)
receive_packet_from_client-IsValid_example =
    receive_packet_from_client-IsValid names (net_with request) epoll server
      (with_connection 8 (descriptor 9) destination reader server) request reader continue
      (os_with-IsPosix request) server-IsValid request_read request_run.0

abbrev started : Server
started = initial (record { epoll_fd = 6; actions = [] }) (descriptor 9) destination

construct-IsValid_test : IsValid connection started × (started.connections ≡ [])
unfolding construct Socket.new_socket FileDescriptor.construct Epoller.construct Socket.bind
    Address.default_address of_sockaddr
construct-IsValid_test = construct-IsValid names (net_with []) (some 6) destination started refl
