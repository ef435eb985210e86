-- ===== src/KohoServer/Laws.antt =====
-- What the event loop of koho-server starts with.
use koho.Prelude.{
  Option, none, some, sym, ◌∙◌, false, ◌++◌, ℕ, ◌≡◌, refl, ap, subst, true, List, [], ◌∷◌, ok,
  >>=-eq-ok,
}
use koho.Address.{Resolver, default_address}
use koho.Socket
use koho.Socket.{Net}
use koho.Epoller.{incoming}
use koho.Signals
use koho.Signals.{set_as_mask}
use koho.Poller.{Pollfd, Action, add_action}
use koho.ChildProcess
use koho.ChildProcess.{ChildProcess}
use koho.SystemRunner.{sighup}
use koho.Text.{bytes}
use koho.Util.{first_nameserver}
use koho.EventLoop.Running
use koho.EventLoop.Running.{
  handled_signals, EventLoop, Handler, on_input, add_child_process, add_simple_input_handler,
}
use koho.DnsProxy
use koho.DnsProxy.{DnsProxy}
use koho.DnsProxy.Registration.{Listener, on_udp, on_tcp, register_handlers}
use koho.Splitter.Invariant.{IsValid}
use koho.Splitter.Server.{Server, connection}
use koho.Splitter.Server.Construct as ServerConstruct
use koho.Splitter.Server.Construct.{construct-IsValid}
use koho.KohoServer.{Answers, Program, check_usage, port_of, set_up}

abbrev pub input : Listener → Action (Handler Listener)
input listener = record { direction = incoming; callback = on_input listener; active = true }

-- a descriptor that is polled, for what its action wants
abbrev pub polled : ℕ → Pollfd
polled fd = record { fd = fd; events = none }

-- A program that is set up: it has been called without arguments; its loop watches the UDP and the TCP
-- socket of the DNS proxy, each for the handler of that socket, and has one child, which clone(2) has
-- made and which runs; and the splitter satisfies the invariant, without any connection.
pub record IsSetUp {G : Type 0} (argv : List (List ℕ)) (clone : Option ℕ) (p : Program G)
    : Type 0 where
  pub name : List ℕ
  pub called : argv ≡ name ∷ []
  pub child : ChildProcess
  pub children : p.main_event_loop.child_processes ≡ child ∷ []
  pub child_name : child.name ≡ bytes "tcp-splitter-server"
  pub child_pid : clone ≡ some child.pid
  pub child_runs : (child.running ≡ true) × (child.terminated ≡ false)
  pub watches : p.main_event_loop.poller.actions ≡ input on_udp ∷ input on_tcp ∷ []
  pub descriptors :
      p.main_event_loop.poller.pollfds
      ≡ polled p.dns_outside.udp_listener.descriptor.fd ∷ polled p.dns_outside.tcp_listener.fd ∷ []
  pub valid : IsValid connection p.tcp_splitter_server
  pub unused : p.tcp_splitter_server.connections ≡ []

ok-injective : {A : Type 0} (a b : A) → ok a ≡ ok b → a ≡ b
ok-injective a b e = cc

-- a child as clone(2) has made it, for its parent
abbrev new_child : ℕ → ChildProcess
new_child pid = record {
  name = bytes "tcp-splitter-server";
  pid = pid;
  running = true;
  terminated = false;
  exit_status = 0;
  died_on_signal = false;
  graceful_termination_signal = sighup;
  moved_away = false;
}

forked_lem :
    (clone : Option ℕ) (child : ChildProcess)
    → ChildProcess.construct (bytes "tcp-splitter-server") sighup clone ≡ ok child
    → (pid : ℕ) × (clone ≡ some pid) × (child ≡ new_child pid)
unfolding ChildProcess.construct
forked_lem none child e = cc e
forked_lem (some pid) child e = (pid, refl, sym (ok-injective (new_child pid) child e))

called_lem :
    (argv : List (List ℕ)) {u : Unit {0}}
    → check_usage argv ≡ ok u
    → (name : List ℕ) × (argv ≡ name ∷ [])
unfolding check_usage
called_lem [] e = cc e
called_lem (name ∷ []) e = (name, refl)
called_lem (name ∷ x ∷ xs) e = cc e

module _ {G : Type 0} (names : Resolver) (net : Net) (answers : Answers G) where
  fresh_loop :
      (s : EventLoop G Listener)
      → Running.construct answers.sigset answers.sigprocmask ≡ ok s
      → (s.poller.actions ≡ []) × (s.poller.pollfds ≡ []) × (s.child_processes ≡ [])
  unfolding Running.construct
  fresh_loop s e =
      let (signals, _, e₁) = >>=-eq-ok (Signals.construct answers.sigset handled_signals) _ e in
      let (_, _, e₂) = >>=-eq-ok (set_as_mask answers.sigprocmask signals) _ e₁ in
      subst (λ t. (t.poller.actions ≡ []) × (t.poller.pollfds ≡ []) × (t.child_processes ≡ []))
        (ok-injective _ s e₂) (refl, refl, refl)

  -- the objects of `main`, put together
  abbrev assembled : EventLoop G Listener → DnsProxy → Server → ChildProcess → Program G
  assembled loop proxy splitter child = record {
    main_event_loop = register_handlers proxy (add_child_process child loop);
    dns_outside = proxy;
    tcp_splitter_server = splitter;
  }

  assembled-IsSetUp :
      (argv : List (List ℕ)) (name : List ℕ) (loop : EventLoop G Listener) (proxy : DnsProxy)
      (splitter : Server) (child : ChildProcess) (pid : ℕ)
      → argv ≡ name ∷ []
      → (loop.poller.actions ≡ []) × (loop.poller.pollfds ≡ []) × (loop.child_processes ≡ [])
      → answers.clone ≡ some pid
      → child ≡ new_child pid
      → IsValid connection splitter × (splitter.connections ≡ [])
      → IsSetUp argv answers.clone (assembled loop proxy splitter child)
  unfolding register_handlers add_child_process add_simple_input_handler add_action
  assembled-IsSetUp argv name loop proxy splitter child pid called
        (no_actions, no_pollfds, no_children) cloned is_new (valid, unused) =
      record {
        name = name;
        called = called;
        child = child;
        children = ap (λ l. l ++ child ∷ []) no_children;
        child_name = ap (λ x. x.name) is_new;
        child_pid = cloned ∙ ap (λ x. some x.pid) (sym is_new);
        child_runs = (ap (λ x. x.running) is_new, ap (λ x. x.terminated) is_new);
        watches = ap (λ l. (l ++ input on_udp ∷ []) ++ input on_tcp ∷ []) no_actions;
        descriptors =
            ap
              (λ l.
                (l ++ polled proxy.udp_listener.descriptor.fd ∷ [])
                ++ polled proxy.tcp_listener.fd ∷ [])
              no_pollfds;
        valid = valid;
        unused = unused;
      }

  -- When `main` of koho-server comes to its event loop: it has been called without arguments; the loop
  -- polls the UDP and the TCP socket of the DNS proxy, in this order, each with the handler of that
  -- socket; it has one child process, the splitter's by name, with the id that clone(2) has given, which
  -- runs; and the splitter server satisfies the invariant and has no connection.
  pub set_up-IsSetUp :
      (argv : List (List ℕ)) (p : Program G)
      → set_up names net answers argv ≡ ok p
      → IsSetUp argv answers.clone p
  unfolding set_up
  set_up-IsSetUp argv p e =
      let (_, usage, e₁) = >>=-eq-ok (check_usage argv) _ e in
      let (name, called) = called_lem argv usage in
      let (nameserver, _, e₂) =
        >>=-eq-ok (first_nameserver answers.res_init answers.nsaddr_list) _ e₁ in
      let (listen, _, e₃) = >>=-eq-ok (default_address names) _ e₂ in
      let (dns_server, _, e₄) = >>=-eq-ok (default_address names) _ e₃ in
      let (loop, made, e₅) =
        >>=-eq-ok (Running.construct answers.sigset answers.sigprocmask) _ e₄ in
      let (proxy, _, e₆) = >>=-eq-ok (DnsProxy.construct names net dns_server nameserver) _ e₅ in
      let (splitter, built, e₇) =
        >>=-eq-ok (ServerConstruct.construct names net answers.epoll_create listen) _ e₆ in
      let (_, _, e₈) =
        >>=-eq-ok (port_of names (ServerConstruct.local_address net splitter)) _ e₇ in
      let (_, _, e₉) =
        >>=-eq-ok (port_of names (Socket.local_address net proxy.tcp_listener)) _ e₈ in
      let (child, forked, e₁₀) =
        >>=-eq-ok (ChildProcess.construct (bytes "tcp-splitter-server") sighup answers.clone) _
          e₉ in
      let (pid, cloned, is_new) = forked_lem answers.clone child forked in
      subst (λ q. IsSetUp argv answers.clone q)
        (ok-injective (assembled loop proxy splitter child) p e₁₀)
        (assembled-IsSetUp argv name loop proxy splitter child pid called (fresh_loop loop made)
          cloned is_new (construct-IsValid names net answers.epoll_create listen splitter built))
