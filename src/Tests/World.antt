-- ===== src/Tests/World.antt =====
-- A small kernel, a resolver and the states of both ends, for the runs at concrete inputs.
use koho.Prelude.{
  ℕ, ◌≤◌, ◌≡◌, refl, false, none, some, List, [], ◌∷◌, arith, length, length-take, take, insert,
  lookup, subst,
}
use koho.FileDescriptor.{FileDescriptor, Os}
use koho.FileDescriptor.Writes.{IsPosix, TakesBytes}
use koho.Text.{bytes}
use koho.Address.{Resolver}
use koho.Socket.{Net, AutoSocket}
use koho.Epoller.{EpollOs}
use koho.Splitter.Invariant.{Linked, Linked-insert, action_for, IsValid}
use koho.Splitter.Client
use koho.Splitter.Client.{Client, ServerSocket}
use koho.Splitter.Client.Handlers as ClientHandlers
use koho.Splitter.Server
use koho.Splitter.Server.{Server}
use koho.Splitter.Server.Handlers as ServerHandlers

-- a kernel with the same bytes to read on every descriptor, which takes all that is written
abbrev pub os_with : List ℕ → Os
os_with input = record {
  read = λ fd n. some (take n input);
  write = λ fd output. some (length output);
}

pub os_with-IsPosix : (input : List ℕ) → IsPosix (os_with input)
os_with-IsPosix input = record {
  read_bounded =
      λ fd n xs h. subst (λ l. length l ≤ n) (out h) (omega (arith, length-take n input));
  write_bounded = λ fd n xs h. subst (λ m. m ≤ length xs) (out_number h) (omega arith);
}
  where
    out : {xs ys : List ℕ} → some xs ≡ some ys → xs ≡ ys
    out h = cc

    out_number : {m n : ℕ} → some m ≡ some n → m ≡ n
    out_number h = cc

pub os_with-TakesBytes : (input : List ℕ) (fd : ℕ) → TakesBytes (os_with input) fd
os_with-TakesBytes input fd [] nonempty = cc nonempty
os_with-TakesBytes input fd (x ∷ xs) nonempty = (length (x ∷ xs), omega arith, refl)

abbrev pub descriptor : ℕ → FileDescriptor
descriptor n = record { fd = n; eof = false; read_count = 0; write_count = 0 }

-- every name is resolved to one sockaddr, and that is printed as a host and a port
abbrev pub names : Resolver
names = record {
  getaddrinfo = λ node service flags. some (some (2 ∷ 0 ∷ 0 ∷ 80 ∷ [], 4));
  getnameinfo = λ raw size. some (bytes "10.0.0.1", bytes "80");
}

abbrev pub silent_names : Resolver
silent_names = record { getaddrinfo = λ node service flags. none; getnameinfo = λ raw size. none }

-- a network over that kernel: new sockets are 9, and datagrams come from one sender
abbrev pub net_with : List ℕ → Net
net_with datagram = record {
  os = os_with datagram;
  socket = λ domain type. some 9;
  fcntl = λ fd. some 0;
  accept = λ fd. some 9;
  connect = λ fd a. some 0;
  bind = λ fd a. some 0;
  listen = λ fd n. some 0;
  so_domain = λ fd. some (2, 4);
  so_type = λ fd. some (1, 4);
  so_original_dst = λ fd. some (2 ∷ 0 ∷ 0 ∷ 80 ∷ [], 4);
  getsockname = λ fd. some (2 ∷ 0 ∷ 0 ∷ 80 ∷ [], 4);
  sendto = λ fd a payload. some (length payload);
  recvfrom = λ fd. some ((7 ∷ [], 1), datagram);
}

abbrev pub deaf_net_with : List ℕ → Net
deaf_net_with datagram = record (net_with datagram) { connect = λ fd a. none }

abbrev pub epoll : EpollOs
epoll = record { ctl_add = λ fd. some 0; ctl_del = λ fd. some 0; wait = some (5 ∷ []) }

-- a client and a server with the connection 7 on the descriptor 5
abbrev pub client : Client
client = record {
  listener = descriptor 3;
  next_connection_uid = 8;
  splitter = record {
    locked = false;
    connections = insert 7 (descriptor 5) [];
    epoller = record { epoll_fd = 6; actions = insert 5 (action_for Client.connection 7) [] };
    other_side = record { descriptor = descriptor 4; datagrams = [] };
    connects = [];
    delivered = [];
    closed = [];
  };
}

abbrev pub auto_socket : AutoSocket
auto_socket = record {
  socket = record { descriptor = descriptor 4; sent = [] };
  saved_address = record { size = 0; raw = [] };
}

abbrev pub server : Server
server = record {
  locked = false;
  connections = insert 7 (descriptor 5) [];
  epoller = record { epoll_fd = 6; actions = insert 5 (action_for Server.connection 7) [] };
  other_side = auto_socket;
  connects = [];
  delivered = [];
  closed = [];
}

Linked-nil : {H : Type 0} (conn : ℕ → H) → Linked conn [] []
unfolding lookup
Linked-nil conn = record { watched = λ uid c h. cc; alive = λ fd uid a h k. cc }

pub client-IsValid : IsValid Client.connection client.splitter
unfolding lookup
client-IsValid = record {
  free = refl;
  linked =
      Linked-insert Client.connection ClientHandlers.connection-injective
        (Linked-nil Client.connection) 7 (descriptor 5) refl refl;
}

pub server-IsValid : IsValid Server.connection server
unfolding lookup
server-IsValid = record {
  free = refl;
  linked =
      Linked-insert Server.connection ServerHandlers.connection-injective
        (Linked-nil Server.connection) 7 (descriptor 5) refl refl;
}
