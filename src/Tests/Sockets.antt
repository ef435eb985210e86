-- ===== src/Tests/Sockets.antt =====
-- The server's socket and a round of an epoller at concrete inputs.
use koho.Prelude.{ℕ, ◌≡◌, refl, [], ◌∷◌, ◌++◌, arith, increment, insert, ok, M, ◌>>>◌}
use koho.Text.{bytes, to_string, myatoi}
use koho.Address.{Address, address_eq, fill, str, default_address, of_sockaddr}
use koho.Socket.{AutoSocket, auto_read, auto_write}
use koho.Socket.Laws.{auto_read-auto_write}
use koho.Epoller
use koho.Epoller.{Epoller, Action, ResultType, continue, incoming, poll, service}
use koho.Epoller.Laws.{Serviced, service_cases}
use koho.Tests.World.{names, net_with, auto_socket, epoll}

-- the address that the resolver of these runs gives for "0"
abbrev unset : Address
unset = record { size = 4; raw = fill (2 ∷ 0 ∷ 0 ∷ 80 ∷ []) 4 }

abbrev unanswerable : AutoSocket
unanswerable = record auto_socket { saved_address = unset }

abbrev sender : Address
sender = record { size = 1; raw = fill (7 ∷ []) 1 }

auto_read-auto_write_test :
    (auto_read names (net_with (bytes "hello")) auto_socket >>> λ _ t.
    auto_write names (net_with (bytes "hello")) (bytes "hi") t)
    ≡ (
      ok tt,
      record {
        socket = record {
          descriptor = record auto_socket.socket.descriptor {
            read_count = increment 0;
            write_count = increment 0;
          };
          sent = (sender, bytes "hi") ∷ [];
        };
        saved_address = sender;
      },
    )
unfolding default_address address_eq of_sockaddr str myatoi
auto_read-auto_write_test =
    auto_read-auto_write names (net_with (bytes "hello")) auto_socket unset (bytes "hi") refl sender
      (7 ∷ []) (bytes "hello") (bytes "10.0.0.1" ++ (bytes ":" ++ to_string 80)) 1 refl
      (omega arith) refl refl refl refl

-- A callback that returns without reading, and one that removes its own action: the state is the
-- epoller with the count of the descriptor 5.
abbrev Watched : Type 0
Watched = Epoller ℕ × ℕ

abbrev remove_self : ℕ → M Watched ResultType
remove_self h (e, n) =
    let (r, e') = Epoller.remove_action epoll h e in (r, (e', n)) >>> λ _ t. (ok continue, t)

abbrev watched : Watched
watched = (
  record { epoll_fd = 6; actions = insert 5 (record { direction = incoming; callback = 5 }) [] },
  0,
)

abbrev unwatched : Watched
unwatched = (record { epoll_fd = 6; actions = [] }, 0)

service_cases_example :
    Serviced
      (λ (s : Watched). s.0)
      remove_self
      (λ h s. s.1)
      (λ h s. 0)
      5
      watched
      (service (λ (s : Watched). s.0) remove_self (λ h s. s.1) (λ h s. 0) 5 watched)
service_cases_example =
    service_cases (λ (s : Watched). s.0) remove_self (λ h s. s.1) (λ h s. 0) 5 watched
