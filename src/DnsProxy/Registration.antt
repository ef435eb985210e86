-- ===== src/DnsProxy/Registration.antt =====
-- `register_handlers` of src/util/dns_proxy.cc, and what the event loop calls then.
use koho.Prelude.{List, ℕ, [], ◌∷◌, ◌++◌, ok, M, ◌>>>◌}
use koho.FileDescriptor.{FileDescriptor}
use koho.Address.{Address}
use koho.Socket.{Net}
use koho.Epoller.{ResultType, continue}
use koho.EventLoop.Running.{EventLoop, on_input, add_simple_input_handler}
use koho.DnsProxy.{DnsProxy, handle_udp, handle_tcp}

-- the two listening sockets
pub data Listener : Type 0 where
  on_udp on_tcp : Listener

-- The proxy, with what its threads have been started with, in order.
pub record Service : Type 0 where
  pub proxy : DnsProxy
  pub datagrams : List (Address × List ℕ)
  pub clients : List FileDescriptor

module _ (net : Net) where
  unfoldable pub invoke : Listener → M Service ResultType
  unfolding handle_udp handle_tcp
  invoke on_udp s =
      let (r, proxy) = handle_udp net s.proxy in
      (r, record s { proxy = proxy }) >>> λ request t.
      (ok continue, record t { datagrams = t.datagrams ++ request ∷ [] })
  invoke on_tcp s =
      let (r, proxy) = handle_tcp net s.proxy in
      (r, record s { proxy = proxy }) >>> λ client t.
      (ok continue, record t { clients = t.clients ++ client ∷ [] })

unfoldable pub fd_of : Listener → Service → FileDescriptor
fd_of on_udp s = s.proxy.udp_listener.descriptor
fd_of on_tcp s = s.proxy.tcp_listener

unfoldable pub register_handlers :
    {G : Type 0} → DnsProxy → EventLoop G Listener → EventLoop G Listener
unfolding add_simple_input_handler
register_handlers proxy s =
    add_simple_input_handler proxy.tcp_listener.fd (on_input on_tcp)
      (add_simple_input_handler proxy.udp_listener.descriptor.fd (on_input on_udp) s)
