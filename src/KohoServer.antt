-- ===== src/KohoServer.antt =====
-- src/frontend/koho-server.cc: the program at the outer end, which puts a DNS proxy and a splitter server
-- together. What it prints is left out, but not the calls that can throw while it is made.
pub mod Laws
use koho.Prelude.{
  ℕ, Bool, Option, List, [], ◌∷◌, ◌++◌, ◌≡◌, subst, refl, Outcome, ok, thrown, undefined,
  runtime_text, M, ◌>>=◌, ◌>>◌, ◌>>>◌, >>=-eq-ok,
}
use koho.Text.{bytes}
use koho.FileDescriptor.{FileDescriptor}
use koho.Address.{Address, Resolver, default_address, ip_port}
use koho.Socket
use koho.Socket.{Net}
use koho.Privileges.{Kernel}
use koho.Signals.{Sigset}
use koho.Util.{first_nameserver}
use koho.ChildProcess
use koho.ChildProcess.{ChildProcess}
use koho.SystemRunner.{sighup}
use koho.EventLoop.Running
use koho.EventLoop.Running.{EventLoop, add_child_process, LoopAnswers, internal_loop}
use koho.DnsProxy
use koho.DnsProxy.{DnsProxy}
use koho.DnsProxy.Registration
use koho.DnsProxy.Registration.{Listener, Service, register_handlers}
use koho.Splitter.Invariant.{IsValid}
use koho.Splitter.Server.{Server, connection}
use koho.Splitter.Server.Construct as ServerConstruct

-- What the libraries and the kernel answer while the program sets itself up.
pub record Answers (G : Type 0) : Type 0 where
  pub res_init : Option ℕ
  pub nsaddr_list : ℕ → List ℕ
  pub sigset : Sigset G
  pub sigprocmask : G → Option ℕ
  pub epoll_create : Option ℕ
  pub clone : Option ℕ

-- The objects of `main`; the child process has its own copy of the splitter, and runs its loop.
pub record Program (G : Type 0) : Type 0 where
  pub main_event_loop : EventLoop G Listener
  pub dns_outside : DnsProxy
  pub tcp_splitter_server : Server

-- There is a pointer to no string at `argv[ 0 ]` if there are no arguments.
unfoldable pub check_usage : List (List ℕ) → Outcome (Unit {0})
check_usage [] = undefined
check_usage (name ∷ []) = ok tt
check_usage (name ∷ argument ∷ arguments) = thrown (runtime_text (bytes "Usage: " ++ name))

abbrev port_of : Resolver → Outcome Address → Outcome ℕ
port_of names address = do a ← address; p ← ip_port names a; ok p.1

module _ {G : Type 0} (names : Resolver) (net : Net) (answers : Answers G) where
  -- `main` up to the event loop
  unfoldable pub set_up : List (List ℕ) → Outcome (Program G)
  unfolding check_usage first_nameserver default_address ip_port Running.construct
      DnsProxy.construct ServerConstruct.construct ServerConstruct.local_address
      Socket.local_address ChildProcess.construct add_child_process register_handlers
  set_up argv = do
    check_usage argv
    nameserver ← first_nameserver answers.res_init answers.nsaddr_list
    splitter_server_listen ← default_address names
    dns_server ← default_address names
    main_event_loop ← Running.construct answers.sigset answers.sigprocmask
    dns_outside ← DnsProxy.construct names net dns_server nameserver
    tcp_splitter_server ←
        ServerConstruct.construct names net answers.epoll_create splitter_server_listen
    splitter_port ← port_of names (ServerConstruct.local_address net tcp_splitter_server)
    dns_port ← port_of names (Socket.local_address net dns_outside.tcp_listener)
    child ← ChildProcess.construct (bytes "tcp-splitter-server") sighup answers.clone
    ok (record {
      main_event_loop = register_handlers dns_outside (add_child_process child main_event_loop);
      dns_outside = dns_outside;
      tcp_splitter_server = tcp_splitter_server;
    })

abbrev service : {G : Type 0} → Program G → Service
service p = record { proxy = p.dns_outside; datagrams = []; clients = [] }

-- `return main_event_loop.loop();`
unfoldable pub run :
    {G K : Type 0} → Kernel K → Net → Sigset G → (K → LoopAnswers G) → Program G → M K ℕ
unfolding internal_loop Registration.invoke Registration.fd_of
run kernel net sigset answers p =
    internal_loop kernel (Registration.invoke net) Registration.fd_of sigset answers
      (p.main_event_loop, service p)

unfoldable pub main :
    {G K : Type 0}
    → Resolver
    → Net
    → Kernel K
    → Answers G
    → (K → LoopAnswers G)
    → List (List ℕ)
    → M K ℕ
unfolding set_up run
main names net kernel answers loop_answers argv k =
    (set_up names net answers argv, k) >>> λ p. run kernel net answers.sigset loop_answers p
