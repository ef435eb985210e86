-- ===== src/Splitter/Server/Construct.antt =====
-- The constructor of the server, TCP_Splitter_Server::TCP_Splitter_Server, and its local address.
use koho.Prelude.{
  ℕ, ◌≡◌, refl, subst, false, Option, none, some, [], lookup, Outcome, ok, ◌>>=◌, >>=-eq-ok,
}
use koho.FileDescriptor.{FileDescriptor}
use koho.Address
use koho.Address.{Address, Resolver}
use koho.Socket
use koho.Socket.{Net, af_inet, sock_dgram}
use koho.Epoller
use koho.Epoller.{Epoller}
use koho.Splitter.Invariant.{IsValid}
use koho.Splitter.Server.{Server, Callback, connection}

-- the members before the body of the constructor runs
unfoldable pub initial : Epoller Callback → FileDescriptor → Address → Server
initial epoller socket saved_address = record {
  locked = false;
  connections = [];
  epoller = epoller;
  other_side = record {
    socket = record { descriptor = socket; sent = [] };
    saved_address = saved_address;
  };
  connects = [];
  delivered = [];
  closed = [];
}

unfoldable pub construct : Resolver → Net → Option ℕ → Address → Outcome Server
unfolding initial
construct names net epoll_create listen_address = do
  epoller ← Epoller.construct epoll_create
  socket ← Socket.new_socket net af_inet sock_dgram
  saved_address ← Address.default_address names
  _ ← Socket.bind net socket listen_address
  ok (initial epoller socket saved_address)

unfoldable pub local_address : Net → Server → Outcome Address
local_address net s = Socket.local_address net s.other_side.socket.descriptor

no_actions :
    (epoll_create : Option ℕ) (e : Epoller Callback)
    → Epoller.construct epoll_create ≡ ok e
    → e.actions ≡ []
unfolding Epoller.construct
no_actions none e h = cc
no_actions (some fd) e h = cc

initial-IsValid :
    (epoller : Epoller Callback) (socket : FileDescriptor) (a : Address)
    → epoller.actions ≡ []
    → IsValid connection (initial epoller socket a)
unfolding initial lookup
initial-IsValid epoller socket a e = record {
  free = refl;
  linked = rw e (record { watched = λ uid c h. cc; alive = λ fd uid b h k. cc });
}

-- A server that has been constructed satisfies the invariant and has no connection.
pub construct-IsValid :
    (names : Resolver) (net : Net) (epoll_create : Option ℕ) (listen_address : Address) (s : Server)
    → construct names net epoll_create listen_address ≡ ok s
    → IsValid connection s × (s.connections ≡ [])
unfolding construct
construct-IsValid names net epoll_create listen_address s e =
    let (epoller, made, e₁) = >>=-eq-ok (Epoller.construct epoll_create) _ e in
    let (socket, _, e₂) = >>=-eq-ok (Socket.new_socket net af_inet sock_dgram) _ e₁ in
    let (a, _, e₃) = >>=-eq-ok (Address.default_address names) _ e₂ in
    let (_, _, e₄) = >>=-eq-ok (Socket.bind net socket listen_address) _ e₃ in
    subst (λ t. IsValid connection t × (t.connections ≡ []))
      (constructed (initial epoller socket a) s e₄)
      (initial-IsValid epoller socket a (no_actions epoll_create epoller made), refl)
  where
    constructed : (a b : Server) → ok a ≡ ok b → a ≡ b
    constructed a b h = cc
