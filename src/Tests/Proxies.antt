-- ===== src/Tests/Proxies.antt =====
-- The proxy for name servers at concrete inputs.
use koho.Prelude.{◌≡◌, refl, true, false, some, [], ◌∷◌, ◌++◌, arith, ok}
use koho.ByteStreamQueue.{ByteStreamQueue}
use koho.ByteStreamQueue.Invariant.{IsValid}
use koho.Address.{Address}
use koho.Poller.{PollOs}
use koho.DnsProxy.{Exchange, Rounds, exchange, tcpify}
use koho.DnsProxy.Udp.{Relayed, IsAnswered, exchange_sends, exchange_answers}
use koho.DnsProxy.Relay.{Relay, Round, poll_loop, start, start_with, ring_size}
use koho.DnsProxy.Channel.{IsFaithful, here}
use koho.DnsProxy.Refine.{view, Refines, poll_loop-Refines, relay_conserves}
use koho.Tests.World.{os_with, os_with-IsPosix, os_with-TakesBytes, descriptor, net_with}

abbrev source : Address
source = record { size = 1; raw = 7 ∷ [] }

abbrev rounds : Rounds
rounds = record {
  connecting = net_with [];
  prefix = os_with (0 ∷ 3 ∷ []);
  chunks = os_with (65 ∷ 66 ∷ []) ∷ os_with (67 ∷ []) ∷ [];
}

abbrev before : Exchange
before = record {
  udp_listener = record { descriptor = descriptor 4; sent = [] };
  dns_server = record { descriptor = descriptor 9; accepted = [] };
}

exchange_sends_example :
    Relayed rounds source (1 ∷ 2 ∷ []) before (exchange rounds (source, 1 ∷ 2 ∷ []) before).1
exchange_sends_example = exchange_sends rounds source (1 ∷ 2 ∷ []) before (os_with-IsPosix [])

answered : IsAnswered rounds source (1 ∷ 2 ∷ []) before 0 3 ((65 ∷ 66 ∷ []) ∷ (67 ∷ []) ∷ [])
unfolding tcpify
answered = record {
  written = os_with-TakesBytes [] 9;
  announced = refl;
  brought = (refl, refl, (refl, refl, tt));
  total = refl;
  taken = refl;
}

exchange_answers_example :
    let (r, t) = exchange rounds (source, 1 ∷ 2 ∷ []) before in
    (r ≡ ok tt) × (t.udp_listener.sent ≡ [] ++ (source, 65 ∷ 66 ∷ 67 ∷ []) ∷ [])
exchange_answers_example =
    exchange_answers rounds source (1 ∷ 2 ∷ []) before 0 3 ((65 ∷ 66 ∷ []) ∷ (67 ∷ []) ∷ [])
      (os_with-IsPosix []) answered

abbrev ring : ByteStreamQueue
ring = record { buffer = 0 ∷ 0 ∷ 0 ∷ 0 ∷ []; next_byte_to_push = 0; next_byte_to_pop = 0 }

ring-IsValid : IsValid ring
ring-IsValid = record {
  large = omega arith;
  small = omega arith;
  push_in = omega arith;
  pop_in = omega arith;
}

abbrev small_relay : Relay
small_relay = start_with ring ring (descriptor 5) (descriptor 9)

abbrev readable : PollOs
readable ps = some (1, (record { error = false; readable = true; writable = false }) ∷ [])

-- a round in which the name server sends two bytes
abbrev round : Round
round = record { os = os_with (1 ∷ 2 ∷ []); polling = readable }

poll_loop-Refines_example :
    Refines 4 (view small_relay) (poll_loop (round ∷ round ∷ []) small_relay).1
unfolding start_with
poll_loop-Refines_example =
    poll_loop-Refines 4 (view small_relay) (round ∷ round ∷ []) small_relay
      (os_with-IsPosix (1 ∷ 2 ∷ []), (os_with-IsPosix (1 ∷ 2 ∷ []), tt))
      (record {
        up_valid = ring-IsValid;
        down_valid = ring-IsValid;
        up_size = refl;
        down_size = refl;
        reached = here;
      })

relay_conserves_example :
    (s : Relay) × (start (descriptor 5) (descriptor 9) ≡ ok s)
    × (let t = (poll_loop (round ∷ []) s).1 in
        IsFaithful ring_size (view t).up × IsFaithful ring_size (view t).down)
relay_conserves_example =
    relay_conserves (descriptor 5) (descriptor 9) (round ∷ []) (os_with-IsPosix (1 ∷ 2 ∷ []), tt)
