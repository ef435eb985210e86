-- ===== src/Tests/Lifetimes.antt =====
-- Both ends from their construction on: one call of `poll`, which brings a connection or a datagram.
use koho.Prelude.{
  ℕ, ◌≡◌, refl, some, List, [], ◌∷◌, ◌++◌, ◌==◌, if◌then◌else◌, arith, lookup, insert, ok,
}
use koho.FileDescriptor
use koho.Packet
use koho.Text
use koho.Text.{bytes, to_string, find, atoi_uint16}
use koho.Address
use koho.Address.{Address, fill, zeros, of_sockaddr, of_ip, str}
use koho.Socket
use koho.Socket.{Net, sock_stream, auto_read, recvfrom}
use koho.Epoller
use koho.Epoller.{EpollOs, poll_success}
use koho.Splitter
use koho.Splitter.Invariant.{IsValid}
use koho.Splitter.Client
use koho.Splitter.Client.{Client}
use koho.Splitter.Client.Construct as ClientConstruct
use koho.Splitter.Client.Lifetime as ClientLifetime
use koho.Splitter.Client.Lifetime.{served-IsValid-IsFresh}
use koho.Splitter.Client.Validity.{IsFresh}
use koho.Splitter.Server
use koho.Splitter.Server.{Server}
use koho.Splitter.Server.Construct as ServerConstruct
use koho.Splitter.Server.Lifetime as ServerLifetime
use koho.Splitter.Server.Lifetime.{served-IsValid}
use koho.Tests.World.{names, os_with-IsPosix, net_with, epoll, descriptor}

-- TCP sockets are 3, and UDP sockets 4
abbrev net : List ℕ → Net
net datagram = record (net_with datagram) {
  socket = λ domain type. some (if type == sock_stream then 3 else 4);
}

abbrev ready : ℕ → EpollOs
ready fd = record epoll { wait = some (fd ∷ []) }

abbrev destination : Address
destination = record { size = 4; raw = fill (2 ∷ 0 ∷ 0 ∷ 80 ∷ []) 4 }

abbrev request : List ℕ
request = (zeros 7 ++ 1 ∷ []) ++ ((zeros 7 ++ 8 ∷ []) ++ (bytes "10.0.0.1" ++ (b':' ∷ bytes "80")))

abbrev new_server : Server
new_server =
    ServerConstruct.initial (record { epoll_fd = 6; actions = [] }) (descriptor 4) destination

abbrev listening_server : Server
listening_server = (Splitter.add_action epoll 4 Server.from_client new_server).1

abbrev served : Server
served = (Server.poll_once names (net request) (ready 4) listening_server).1

server_constructed : ServerConstruct.construct names (net []) (some 6) destination ≡ ok new_server
unfolding ServerConstruct.construct Socket.new_socket FileDescriptor.construct Epoller.construct
    Socket.bind Address.default_address of_sockaddr
server_constructed = refl

server_registered :
    Splitter.add_action epoll 4 Server.from_client new_server ≡ (ok tt, listening_server)
unfolding Splitter.add_action Epoller.add_action lookup ServerConstruct.initial
server_registered = refl

server_polled :
    Server.poll_once names (net request) (ready 4) listening_server ≡ (ok poll_success, served)
unfolding Server.poll_once Splitter.add_action Epoller.add_action lookup insert Epoller.poll
    Epoller.poll_events Epoller.service Server.receive_packet_from_splitter_client of_ip of_sockaddr
    Socket.new_socket Socket.connect FileDescriptor.construct auto_read str Text.myatoi Packet.parse
    Packet.from_big_endian to_string atoi_uint16 find Server.establish_new_tcp_connection
    Server.open_connection Server.parse_destination Splitter.lock Splitter.unlock Server.invoke
    ServerConstruct.initial
server_polled = refl

served-IsValid_example : IsValid Server.connection served
unfolding ServerConstruct.initial
served-IsValid_example =
    served-IsValid names (net []) epoll (some 6) destination new_server listening_server served
      ((net request, ready 4) ∷ []) server_constructed server_registered
      (os_with-IsPosix request, tt)
      (ServerLifetime.Reaches.after_poll (net request) (ready 4) poll_success
        ServerLifetime.Reaches.at_start server_polled)

abbrev new_client : Client
new_client =
    ClientConstruct.initial (descriptor 3) (descriptor 4) (record { epoll_fd = 6; actions = [] })

abbrev listening_client : Client
listening_client =
    (Client.on_splitter (Splitter.add_action epoll 3 Client.new_connection) new_client).1

abbrev watching_client : Client
watching_client =
    (Client.on_splitter (Splitter.add_action epoll 4 Client.from_server) listening_client).1

abbrev accepted : Client
accepted = (Client.poll_once names (net []) (ready 3) watching_client).1

client_constructed :
    ClientConstruct.construct names (net []) (some 6) destination destination ≡ ok new_client
unfolding ClientConstruct.construct Socket.new_socket FileDescriptor.construct Epoller.construct
    Socket.bind Socket.listen Socket.connect str Text.myatoi
client_constructed = refl

listener_registered :
    Client.on_splitter (Splitter.add_action epoll 3 Client.new_connection) new_client
    ≡ (ok tt, listening_client)
unfolding Splitter.add_action Epoller.add_action lookup ClientConstruct.initial
listener_registered = refl

socket_registered :
    Client.on_splitter (Splitter.add_action epoll 4 Client.from_server) listening_client
    ≡ (ok tt, watching_client)
unfolding Splitter.add_action Epoller.add_action lookup insert ClientConstruct.initial
socket_registered = refl

client_polled :
    Client.poll_once names (net []) (ready 3) watching_client ≡ (ok poll_success, accepted)
unfolding Client.poll_once Client.invoke Client.handle_new_tcp_connection
    Client.try_new_tcp_connection Client.get_connection_uid Splitter.add_action Epoller.add_action
    lookup insert Epoller.poll Epoller.poll_events Epoller.service Socket.accept
    Socket.original_dest of_sockaddr FileDescriptor.construct FileDescriptor.write str Text.myatoi
    Packet.to_string Packet.to_big_endian to_string Splitter.send Splitter.lock Splitter.unlock
    ClientConstruct.initial
client_polled = refl

served-IsValid-IsFresh_example : IsValid Client.connection accepted.splitter × IsFresh accepted
unfolding ClientConstruct.initial
served-IsValid-IsFresh_example =
    served-IsValid-IsFresh names (net []) epoll (some 6) destination destination new_client
      listening_client watching_client accepted ((net [], ready 3) ∷ []) client_constructed
      listener_registered socket_registered (omega arith) (os_with-IsPosix [], tt)
      (ClientLifetime.Reaches.after_poll (net []) (ready 3) poll_success
        ClientLifetime.Reaches.at_start client_polled)
