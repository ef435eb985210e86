-- ===== src/Tests/Processes.antt =====
-- Pollers, child processes, signals and free addresses at concrete inputs.
use koho.Prelude.{
  ◌≢◌, ◌+◌, ◌++◌, List, Outcome, ap, arith, drop, ℕ, ◌≤◌, ◌<◌, ◌≡◌, ◌⊎◌, refl, inl, true, false,
  Bool, none, some, [], ◌∷◌, if◌then◌else◌, ◌==◌, ok, thrown, M, system_call, runtime_error, ◌>>>◌,
  Exception,
}
use koho.FileDescriptor.{FileDescriptor}
use koho.Text
use koho.Text.{bytes, to_string, myatoi}
use koho.Text.Decimal.{myatoi-to_string}
use koho.Address.{Address, Resolver, fill, of_sockaddr, ip_port, ip, cgnat}
use koho.Epoller.{incoming, outgoing, ResultType, exit, poll_exit, poll_timeout}
use koho.Poller.{Poller, Pollfd, Revents, PollOs, any_polled, poll, serve}
use koho.Poller.Laws.{wanted, poll_asks, Served, serve_cases}
use koho.ChildProcess
use koho.ChildProcess.{ChildProcess, Siginfo, Wait, exited, stopped, sigchld, waitable, destroy}
use koho.ChildProcess.Laws.{Waited, IsAbout, wait_lem}
use koho.ChildProcess.End.{Pauses, Dies, Last, HasEnded, destroy_terminates}
use koho.EventLoop.{handle_signal}
use koho.EventLoop.Laws.{Decides, handle_signal_child}
use koho.Interfaces.{first_unassigned_address, two_unassigned_addresses, add_address}
use koho.Interfaces.Laws.{
  IsFree, InUse, TooFew, Knows, Searched, first_unassigned_address_lem,
  two_unassigned_addresses_lem,
}
use koho.Tests.World.{descriptor}

-- a poller as the whole state, with the descriptors 5 and 6 behind its callbacks
abbrev world : Poller ℕ
world = record {
  actions =
      (record { direction = incoming; callback = 5; active = true })
      ∷ (record { direction = outgoing; callback = 6; active = false })
      ∷ [];
  pollfds = (record { fd = 5; events = none }) ∷ (record { fd = 6; events = none }) ∷ [];
}

abbrev stop_loop : ℕ → M (Poller ℕ) ResultType
stop_loop h s = (ok (exit 3), s)

abbrev readable : PollOs
readable ps = some (1, (record { error = false; readable = true; writable = false }) ∷ [])

abbrev self : Poller ℕ → Poller ℕ
self s = s

abbrev become : Poller ℕ → Poller ℕ → Poller ℕ
become s t = s

abbrev fd_of : ℕ → Poller ℕ → FileDescriptor
fd_of h s = descriptor h

abbrev always : ℕ → Poller ℕ → Bool
always h s = true

poll_asks_test :
    let ps = wanted self become stop_loop fd_of always world.actions world in
    let u = record world { pollfds = ps } in
    ((any_polled ps ≡ true)
      × (poll self become stop_loop fd_of always readable world ≡ (
          (system_call "poll" (readable ps), u) >>> λ answer t.
          if answer.0 == 0
          then (ok poll_timeout, t)
          else serve self become stop_loop fd_of always 0 ps answer.1 t)))
    ⊎ ((any_polled ps ≡ false)
        × (poll self become stop_loop fd_of always readable world ≡ (ok (poll_exit 0), u)))
poll_asks_test = poll_asks self become stop_loop fd_of always readable world (refl, (refl, tt))

abbrev pollfd : Pollfd
pollfd = record { fd = 5; events = some incoming }

abbrev came : Revents
came = record { error = false; readable = true; writable = false }

serve_cases_example :
    Served self become stop_loop fd_of always 0 pollfd [] came [] world
      (serve self become stop_loop fd_of always 0 (pollfd ∷ []) (came ∷ []) world)
serve_cases_example = serve_cases self become stop_loop fd_of always 0 pollfd [] came [] world

abbrev child : ChildProcess
child = record {
  name = bytes "dnsmasq";
  pid = 42;
  running = true;
  terminated = false;
  exit_status = 0;
  died_on_signal = false;
  graceful_termination_signal = 15;
  moved_away = false;
}

abbrev answer : ChildProcess.Code → Siginfo
answer c = record { si_pid = 42; si_signo = sigchld; si_code = c; si_status = 0 }

abbrev answering : Siginfo → Wait
answering info = record {
  waitid = λ pid nonblocking. some info;
  peek = λ pid. some info;
  kill = λ pid sig. some 0;
}

about : (c : ChildProcess.Code) → IsAbout 42 (answer c)
about c = record { own = refl; nonzero = refl; chld = refl }

wait_lem_test :
    ((e : Exception) × (ChildProcess.wait (answering (answer stopped)) true child
        ≡ (thrown e, child)))
    ⊎ ((t : ChildProcess) × (ChildProcess.wait (answering (answer stopped)) true child ≡ (ok tt, t))
        × Waited child t (answer stopped))
wait_lem_test =
    wait_lem (answering (answer stopped)) true child (answer stopped) refl refl refl (about stopped)

pauses : Pauses 42 (answering (answer stopped))
pauses = record {
  info = answer stopped;
  answer = refl;
  about = about stopped;
  pause = inl refl;
  killable = λ sig. (0, refl);
}

exits : Dies 42 (answering (answer exited))
exits = record {
  info = answer exited;
  answer = refl;
  about = about exited;
  death = inl refl;
  killable = λ sig. (0, refl);
}

destroy_terminates_example :
    (t : ChildProcess) × (destroy
        (answering (answer stopped) ∷ answering (answer exited) ∷ [])
        child
      ≡ (ok tt, t))
    × HasEnded 0 child t
unfolding exits
destroy_terminates_example =
    destroy_terminates (answering (answer stopped) ∷ []) (answering (answer exited)) [] child refl
      refl (pauses, tt) (Last.dies exits)

-- a kernel in which only the process 42 has exited
abbrev quiet : Wait
quiet = record {
  waitid = λ pid nonblocking. some (answer exited);
  peek = λ pid. some (
      if pid == 42
      then answer exited
      else record { si_pid = 0; si_signo = 0; si_code = exited; si_status = 0 });
  kill = λ pid sig. some 0;
}

abbrev bystander : ChildProcess
bystander = record child { pid = 41 }

abbrev dead : ChildProcess
dead = record child { terminated = true }

handle_signal_child_example :
    let (r, children) = handle_signal quiet (some 0) sigchld (bystander ∷ child ∷ bystander ∷ []) in
    (children ≡ bystander ∷ dead ∷ bystander ∷ []) × Decides (some 0) dead r
unfolding waitable ChildProcess.wait
handle_signal_child_example =
    handle_signal_child quiet (some 0) (bystander ∷ []) (bystander ∷ []) child dead (refl, tt) refl
      refl

-- a resolver that knows the pool, by its last octet, and one other address
abbrev octet_of : Outcome ℕ → List ℕ
octet_of (ok n) = n ∷ []
octet_of _ = []

abbrev last_octet : List ℕ → ℕ
last_octet [] = 0
last_octet (n ∷ rest) = n

abbrev names : Resolver
names = record {
  getaddrinfo = λ node service flags. some (some (octet_of (myatoi (drop 9 node) 10), 1));
  getnameinfo = λ raw size.
      if size == 1
      then some (bytes "100.64.0." ++ to_string (last_octet raw), bytes "0")
      else some (bytes "10.0.0.1", bytes "0");
}

abbrev pool : ℕ → Address
pool n = record { size = 1; raw = fill (n ∷ []) 1 }

abbrev other : Address
other = record { size = 4; raw = fill (9 ∷ []) 4 }

pool_printed : (n : ℕ) → ip_port names (pool n) ≡ ok (bytes "100.64.0." ++ to_string n, 0)
unfolding ip_port Text.myatoi
pool_printed n = refl

pool_known : (n : ℕ) → n ≤ 255 → cgnat names n ≡ ok (pool n)
unfolding cgnat of_sockaddr
pool_known n small = rw (myatoi-to_string n (omega arith)) refl

other_printed : ip names other ≡ ok (bytes "10.0.0.1")
unfolding ip ip_port Text.myatoi
other_printed = refl

knows : Knows names pool (other ∷ [])
knows = record {
  candidate = pool_known;
  distinct = λ m n less top same. omega (arith, less, ap (λ a. last_octet a.raw) same);
  host = λ n. bytes "100.64.0." ++ to_string n;
  printed = pool_printed;
  others = ((bytes "10.0.0.1", other_printed), tt);
}

first_unassigned_address_lem_test :
    Searched names pool (other ∷ []) 7 (first_unassigned_address names (other ∷ []) 7)
first_unassigned_address_lem_test = first_unassigned_address_lem names pool (other ∷ []) knows 7

two_unassigned_addresses_lem_example :
    let used = add_address other [] in
    let run = two_unassigned_addresses names [] other in
    ((m : ℕ) × (n : ℕ) × (1 ≤ m)
      × (m < n)
      × (n ≤ 255)
      × (run ≡ ok (pool m, pool n))
      × (pool m ≢ pool n)
      × IsFree names used (pool m)
      × IsFree names used (pool n)
      × InUse names pool used 1 m
      × InUse names pool used (m + 1) n)
    ⊎ ((run ≡ thrown (runtime_error "Interfaces: could not find free interface address"))
        × TooFew names pool used)
two_unassigned_addresses_lem_example = two_unassigned_addresses_lem names pool [] other knows
