-- ===== src/Splitter/Client/Construct.antt =====
-- The constructor of the client, TCP_Splitter_Client::TCP_Splitter_Client.
use koho.Prelude.{
  ℕ, ◌≡◌, refl, subst, false, Option, none, some, [], lookup, Outcome, ok, ◌>>=◌, >>=-eq-ok,
}
use koho.FileDescriptor.{FileDescriptor}
use koho.Text.{bytes}
use koho.Address
use koho.Address.{Address, Resolver}
use koho.Socket
use koho.Socket.{Net, af_inet, sock_stream, sock_dgram}
use koho.Epoller
use koho.Epoller.{Epoller}
use koho.Splitter.Invariant.{IsValid}
use koho.Splitter.Client.{Client, Callback, connection}
use koho.Splitter.Client.Validity.{IsFresh}

-- the members before the body of the constructor runs
unfoldable pub initial : FileDescriptor → FileDescriptor → Epoller Callback → Client
initial listener server epoller = record {
  listener = listener;
  next_connection_uid = 1;
  splitter = record {
    locked = false;
    connections = [];
    epoller = epoller;
    other_side = record { descriptor = server; datagrams = [] };
    connects = [];
    delivered = [];
    closed = [];
  };
}

-- The address of the server is printed to the log, which can throw.
unfoldable pub construct : Resolver → Net → Option ℕ → Address → Address → Outcome Client
unfolding initial
construct names net epoll_create listener_addr splitter_server_addr = do
  listener ← Socket.new_socket net af_inet sock_stream
  server ← Socket.new_socket net af_inet sock_dgram
  epoller ← Epoller.construct epoll_create
  _ ← Socket.bind net listener listener_addr
  _ ← Socket.listen net listener 16
  _ ← Address.str names splitter_server_addr (bytes ":")
  _ ← Socket.connect net server splitter_server_addr
  ok (initial listener server epoller)

no_actions :
    (epoll_create : Option ℕ) (e : Epoller Callback)
    → Epoller.construct epoll_create ≡ ok e
    → e.actions ≡ []
unfolding Epoller.construct
no_actions none e h = cc
no_actions (some fd) e h = cc

initial-IsValid :
    (listener server : FileDescriptor) (epoller : Epoller Callback)
    → epoller.actions ≡ []
    → IsValid connection (initial listener server epoller).splitter
      × IsFresh (initial listener server epoller)
unfolding initial lookup
initial-IsValid listener server epoller e = (
  record {
    free = refl;
    linked = rw e (record { watched = λ uid c h. cc; alive = λ fd uid a h k. cc });
  },
  record { below = λ uid c h. cc },
)

-- A client that has been constructed satisfies the invariant, has no connection, all ids are below the
-- next one, and that is 1.
pub construct-IsValid-IsFresh :
    (names : Resolver) (net : Net) (epoll_create : Option ℕ)
    (listener_addr splitter_server_addr : Address) (s : Client)
    → construct names net epoll_create listener_addr splitter_server_addr ≡ ok s
    → IsValid connection s.splitter × IsFresh s × (s.connections ≡ []) × (s.next_connection_uid ≡ 1)
unfolding construct
construct-IsValid-IsFresh names net epoll_create listener_addr server_addr s e =
    let (listener, _, e₁) = >>=-eq-ok (Socket.new_socket net af_inet sock_stream) _ e in
    let (server, _, e₂) = >>=-eq-ok (Socket.new_socket net af_inet sock_dgram) _ e₁ in
    let (epoller, made, e₃) = >>=-eq-ok (Epoller.construct epoll_create) _ e₂ in
    let (_, _, e₄) = >>=-eq-ok (Socket.bind net listener listener_addr) _ e₃ in
    let (_, _, e₅) = >>=-eq-ok (Socket.listen net listener 16) _ e₄ in
    let (_, _, e₆) = >>=-eq-ok (Address.str names server_addr (bytes ":")) _ e₅ in
    let (_, _, e₇) = >>=-eq-ok (Socket.connect net server server_addr) _ e₆ in
    let s-is : initial listener server epoller ≡ s =
      constructed (initial listener server epoller) s e₇ in
    let (valid, fresh) =
      initial-IsValid listener server epoller (no_actions epoll_create epoller made) in
    subst
      (λ t.
        IsValid connection t.splitter
        × IsFresh t
        × (t.connections ≡ [])
        × (t.next_connection_uid ≡ 1))
      s-is (valid, fresh, refl, refl)
  where
    constructed : (a b : Client) → ok a ≡ ok b → a ≡ b
    constructed a b h = cc
