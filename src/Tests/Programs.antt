-- ===== src/Tests/Programs.antt =====
-- koho-server, set up in a small world.
use koho.Prelude.{ℕ, ◌≡◌, refl, true, false, some, none, List, [], ◌∷◌, ok}
use koho.Address.{fill}
use koho.Socket.{Net}
use koho.Signals.{Sigset}
use koho.KohoServer.{Answers, Program, set_up}
use koho.KohoServer.Laws.{IsSetUp, set_up-IsSetUp}
use koho.Tests.World.{names, net_with}
use koho.Tests.World.{descriptor}
use koho.Epoller
use koho.Text
use koho.ChildProcess.{ChildProcess}
use koho.DnsProxy.{DnsProxy}
use koho.DnsProxy.Registration.{on_udp, on_tcp}
use koho.Splitter.Server.{Server}
use koho.Splitter.Server.Construct as ServerConstruct
use koho.KohoServer.Laws.{input}
use koho.Text.{bytes}

-- a set of signals as a list
abbrev signal_lists : Sigset (List ℕ)
signal_lists = record {
  sigemptyset = some [];
  sigaddset = λ mask signal. some (signal ∷ mask);
  sigismember = λ mask n. some 0;
}

-- sockets are bound to another port than the one that a missing port is taken for
abbrev net : Net
net = record (net_with []) { getsockname = λ fd. some (2 ∷ 0 ∷ 0 ∷ 81 ∷ [], 4) }

abbrev answers : Answers (List ℕ)
answers = record {
  res_init = some 0;
  nsaddr_list = λ i. 2 ∷ 0 ∷ 0 ∷ 53 ∷ [];
  sigset = signal_lists;
  sigprocmask = λ mask. some 0;
  epoll_create = some 6;
  clone = some 100;
}

abbrev dns : DnsProxy
dns = record {
  udp_listener = record { descriptor = descriptor 9; sent = [] };
  tcp_listener = descriptor 9;
  tcp_target = record { size = 16; raw = fill (2 ∷ 0 ∷ 0 ∷ 53 ∷ []) 16 };
}

abbrev splitter : Server
splitter =
    ServerConstruct.initial (record { epoll_fd = 6; actions = [] }) (descriptor 9)
      (record { size = 4; raw = fill (2 ∷ 0 ∷ 0 ∷ 80 ∷ []) 4 })

abbrev child : ChildProcess
child = record {
  name = bytes "tcp-splitter-server";
  pid = 100;
  running = true;
  terminated = false;
  exit_status = 0;
  died_on_signal = false;
  graceful_termination_signal = 1;
  moved_away = false;
}

abbrev program : Program (List ℕ)
program = record {
  main_event_loop = record {
    signals = 2 ∷ 3 ∷ 15 ∷ 1 ∷ 18 ∷ 17 ∷ [];
    poller = record {
      actions = input on_udp ∷ input on_tcp ∷ [];
      pollfds = (record { fd = 9; events = none }) ∷ (record { fd = 9; events = none }) ∷ [];
    };
    child_processes = child ∷ [];
  };
  dns_outside = dns;
  tcp_splitter_server = splitter;
}

program_set_up : set_up names net answers (bytes "koho-server" ∷ []) ≡ ok program
unfolding set_up Epoller.construct Text.myatoi
program_set_up = refl

set_up-IsSetUp_example : IsSetUp (bytes "koho-server" ∷ []) (some 100) program
set_up-IsSetUp_example =
    set_up-IsSetUp names net answers (bytes "koho-server" ∷ []) program program_set_up
