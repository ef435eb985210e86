-- ===== src/DnsServer.antt =====
-- src/util/dns_server.{hh,cc}: the start of dnsmasq. The child process and its constructor are those of
-- ChildProcess.antt; here is the wait until it answers.
pub mod Laws
use koho.Prelude.{
  ℕ, zero, suc, ◌+◌, ◌-◌, Bool, true, false, not, List, [], ◌∷◌, ◌++◌, leb, if◌then◌else◌, take,
  increment, Option, Exception, unix_error, runtime_error, runtime_text, tagged_error, out_of_range,
  Outcome, ok, thrown, running, M, ◌>>=◌, ◌>>◌, ◌>>>◌, catching,
}
use koho.Text.{bytes, same_text, to_string}
use koho.ChildProcess
use koho.ChildProcess.{ChildProcess}
use koho.FileDescriptor
use koho.FileDescriptor.{FileDescriptor, Os, Sink}
use koho.Address.{Address, Resolver, of_host}
use koho.Socket
use koho.Socket.{Net, af_inet, sock_dgram}

-- What `what()` starts with. The text of a system error follows its attempt; that of std::out_of_range
-- is the library's, and says "vector".
abbrev pub what : Exception → List ℕ
what (unix_error attempt) = bytes attempt ++ bytes ": "
what (runtime_error text) = bytes text
what (runtime_text text) = text
what (tagged_error attempt) = attempt ++ bytes ": "
what out_of_range = bytes "vector"

-- `string( e.what() ).substr( 0, 6 ) != "write:"`
abbrev pub is_write_error : Exception → Bool
is_write_error e = same_text (take 6 (what e)) (bytes "write:")

-- the two writes of an attempt, each with the kernel that it meets
unfoldable pub knock : Os × Os → M Sink (Unit {0})
unfolding FileDescriptor.write
knock (first, second) s = FileDescriptor.write first (bytes "x") true s >>> λ _ t.
    FileDescriptor.write second (bytes "x") true t >>> λ _ u. (ok tt, u)

-- `while ( true )`; `attempts` is an unsigned int, and the kernel is that of each attempt
unfoldable pub wait_loop : ℕ → (ℕ → Os × Os) → ℕ → M Sink (Unit {0})
unfolding knock
wait_loop zero os attempts s = (running, s)
wait_loop (suc fuel) os attempts s =
    let n = increment attempts in
    let again = wait_loop fuel os n in
    if leb 20 n
    then (
      thrown (
          runtime_text
            (bytes "dnsmasq: did not start after " ++ (to_string n ++ bytes " attempts"))),
      s,
    )
    else catching (knock (os n) s) (λ e t. if is_write_error e then again t else (thrown e, t))

-- Each round counts an attempt, and the twentieth gives up.
unfoldable pub wait_until_started : (ℕ → Os × Os) → M Sink (Unit {0})
unfolding wait_loop
wait_until_started os = wait_loop 20 os 0

-- the command that the child runs; the first word is the path of dnsmasq, from config.h
unfoldable pub arguments : List ℕ → List (List ℕ) → List (List ℕ)
arguments dnsmasq extra_arguments =
    (dnsmasq
      ∷ bytes "--keep-in-foreground"
      ∷ bytes "--no-resolv"
      ∷ bytes "--no-hosts"
      ∷ bytes "-C"
      ∷ bytes "/dev/null"
      ∷ [])
    ++ extra_arguments

-- SIGTERM
abbrev pub sigterm : ℕ
sigterm = 15

-- the socket over which dnsmasq is asked
server_socket : Resolver → Net → Outcome Sink
unfolding Socket.new_socket Socket.connect of_host
server_socket names net = do
  server ← Socket.new_socket net af_inet sock_dgram
  address ← of_host names (bytes "0") (bytes "domain")
  _ ← Socket.connect net server address
  ok (record { descriptor = server; accepted = [] })

-- The result is the child; if anything throws, its destructor has run over the answers of `ending`.
unfoldable pub start_dnsmasq :
    Resolver → Net → Option ℕ → List ChildProcess.Wait → (ℕ → Os × Os) → Outcome ChildProcess
unfolding ChildProcess.construct ChildProcess.destroy server_socket wait_until_started
start_dnsmasq names net clone ending os =
    ChildProcess.construct (bytes "dnsmasq") sigterm clone >>= λ child. (started child).0
  where
    started : M ChildProcess ChildProcess
    started child =
        catching
          ((server_socket names net >>= λ server. (wait_until_started os server).0, child)
            >>> λ _ s. (ok s, s))
          (λ e s. ChildProcess.destroy ending s >>> λ _ t. (thrown e, t))
