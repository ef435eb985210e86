-- ===== src/Tests/Machines.antt =====
-- The set-up of the machine at concrete inputs.
use koho.Prelude.{
  ◌-◌, ◌%◌, ◌+◌, ℕ, ◌≡◌, refl, ◌≢◌, ◌⊎◌, ◌↔◌, Bool, true, false, Option, none, some, List, [], ◌∷◌,
  ◌++◌, arith, increment, ok, thrown, runtime_text, ◌>>>◌, if◌then◌else◌,
}
use koho.Text.{bytes, myatoi}
use koho.FileDescriptor.{Os}
use koho.Util.{Files, check_requirements, line}
use koho.Util.Laws.{IsReady, check_requirements_iff}
use koho.Signals.{Sigset, mask_eq, sigrtmax}
use koho.Signals.Laws.{Agree, mask_eq_iff}
use koho.FileDescriptor.{FileDescriptor}
use koho.SocketPair.{Control, UnixDomainSocket, Messages, rights, send_fd, recv_fd}
use koho.SocketPair.Laws.{recv_fd-send_fd}
use koho.ChildProcess.{Wait, exited, sigchld}
use koho.Util.Laws.{spaced}
use koho.SystemRunner.{run}
use koho.ChildProcess.Laws.{report}
use koho.SystemRunner.Laws.{run_lem}
use koho.TempFile.{UniqueFile, move, destroy, name}
use koho.TempFile.Laws.{destroy-move}
use koho.DnsServer.{wait_until_started}
use koho.DnsServer.Laws.{Ended, wait_until_started_ends}
use koho.Interfaces.Routes.{parse_routes}
use koho.Interfaces.Reading.{Row, IsRow, route_to, table, parse_routes-table}
use koho.Tests.World.{os_with, os_with-IsPosix, descriptor}

abbrev files : Files
files = record { os = os_with (line "1"); open_read = λ path. some 5; fcntl = λ fd. some 0 }

check_requirements_iff_example :
    (check_requirements files 0 false 1 (bytes "koho") ≡ ok tt) ↔ IsReady files 0 false 1
check_requirements_iff_example = check_requirements_iff files 0 false 1 (bytes "koho")

-- sets of signals by their members
abbrev sigset : Sigset (ℕ → Bool)
sigset = record {
  sigemptyset = some (λ n. false);
  sigaddset = λ mask signal. some mask;
  sigismember = λ mask n. some (if mask n then 1 else 0);
}

mask_eq_iff_example :
    (mask_eq sigset (λ n. false) (λ n. true) ≡ true)
    ↔ Agree sigset 0 sigrtmax (λ n. false) (λ n. true)
mask_eq_iff_example = mask_eq_iff sigset (λ n. false) (λ n. true)

-- two processes whose tables hold a thousand files each, the receiver's three places further on
abbrev fresh_number : ℕ → ℕ
fresh_number n = n % 1000 + 3

abbrev after_message : Control → Messages
after_message m = record {
  sendmsg = λ fd c. some 0;
  recvmsg = λ fd. some (record {
    size = 0;
    truncated = false;
    control = some (record m { cmsg_data = fresh_number m.cmsg_data });
  });
  fcntl = λ fd. some 0;
}

abbrev end_of_pair : UnixDomainSocket
end_of_pair = record { descriptor = descriptor 3; sent = [] }

recv_fd-send_fd_example :
    (m : Control) × (d : FileDescriptor) × (send_fd
        (after_message (rights 0))
        (descriptor 7)
        end_of_pair
      ≡ (
        ok tt,
        record {
          descriptor = record (descriptor 3) { write_count = increment 0 };
          sent = [] ++ m ∷ [];
        },
      ))
    × (recv_fd (after_message m) end_of_pair ≡ (
      ok d,
      record end_of_pair { descriptor = record (descriptor 3) { read_count = increment 0 } },
    ))
    × (d.fd - 3 ≡ 7 % 1000)
    × (d.eof ≡ false)
    × (d.read_count ≡ 0)
    × (d.write_count ≡ 0)
recv_fd-send_fd_example =
    recv_fd-send_fd (after_message (rights 0)) after_message end_of_pair end_of_pair (descriptor 7)
      (λ n. n % 1000) (λ n. n - 3) fresh_number
      (record {
        sends = λ m its. refl;
        arrives = λ m its. refl;
        same_file = λ n. omega arith;
        high = λ n. (omega arith, omega arith);
        close_on_exec = λ m n. (0, refl);
      })

abbrev dead_at_once : Wait
dead_at_once = record {
  waitid = λ pid nonblocking.
      some (record { si_pid = pid; si_signo = sigchld; si_code = exited; si_status = 2 });
  peek = λ pid. none;
  kill = λ pid sig. none;
}

abbrev status : ℕ
status = 2

run_lem_example :
    let r = run (some 42) ([] ++ dead_at_once ∷ []) [] (bytes "ip" ∷ bytes "link" ∷ []) in
    ((status ≡ 0) × (r ≡ ok tt))
    ⊎ ((status ≢ 0)
        × (r
            ≡ thrown
                (runtime_text (report (bytes "ip" ++ spaced (bytes "link" ∷ [])) false status))))
run_lem_example =
    run_lem (bytes "ip") (bytes "link" ∷ []) 42 2 false [] dead_at_once [] [] tt (record {
      info = record { si_pid = 42; si_signo = sigchld; si_code = exited; si_status = 2 };
      answer = refl;
      about = record { own = refl; nonzero = refl; chld = refl };
      death = refl;
      its_status = refl;
    })

abbrev file : UniqueFile
file = record {
  mutable_temp_filename = bytes "/tmp/a" ++ 0 ∷ [];
  file = record { descriptor = descriptor 5; accepted = [] };
  moved_away = false;
}

-- the names of the files that have been removed
abbrev unlink : List ℕ → List (List ℕ) → Option ℕ × List (List ℕ)
unlink path removed = (some 0, removed ++ path ∷ [])

destroy-move_test :
    let (new, old) = move file in
    ((destroy unlink new [] >>> λ _ v. destroy unlink old v) ≡ (ok tt, bytes "/tmp/a" ∷ []))
    × ((destroy unlink old [] >>> λ _ v. destroy unlink new v) ≡ (ok tt, bytes "/tmp/a" ∷ []))
unfolding name
destroy-move_test = destroy-move unlink file (bytes "/tmp/a") [] refl

abbrev deaf : ℕ → Os × Os
deaf n = (os_with [], os_with [])

wait_until_started_ends_example :
    Ended deaf 0
      (record { descriptor = descriptor 5; accepted = [] })
      (wait_until_started deaf (record { descriptor = descriptor 5; accepted = [] }))
wait_until_started_ends_example =
    wait_until_started_ends deaf (record { descriptor = descriptor 5; accepted = [] })
      (λ n. (os_with-IsPosix [], os_with-IsPosix []))

abbrev row : Row
row = record {
  interface = bytes "veth-1";
  dest = bytes "01004064";
  others = bytes "00000000";
  byte0 = 100;
  byte1 = 64;
  byte2 = 0;
  byte3 = 1;
}

row-IsRow : IsRow row
unfolding myatoi
row-IsRow = record {
  interface_tab = ground arith;
  dest_tab = ground arith;
  dest_size = refl;
  one_line = ground arith;
  are_bytes = (omega arith, omega arith, omega arith, omega arith);
  its_number = refl;
}

parse_routes-table_example :
    parse_routes (bytes "Iface" ++ b'\n' ∷ table (row ∷ [])) ≡ ok (route_to row ∷ [])
parse_routes-table_example =
    parse_routes-table (bytes "Iface") (row ∷ []) (ground arith) refl (row-IsRow, tt)
