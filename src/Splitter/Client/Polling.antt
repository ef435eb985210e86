-- ===== src/Splitter/Client/Polling.antt =====
-- A round of the client's loop in which a connection has come to its end.
use koho.Prelude.{
  ℕ, ◌≡◌, refl, inr, false, some, List, [], ◌∷◌, length, lookup, lookup-erase_self, ok, undefined,
}
use koho.FileDescriptor.{FileDescriptor}
use koho.Packet
use koho.Address.{Resolver}
use koho.Socket.{Net}
use koho.Epoller.{EpollOs, cancel}
use koho.Epoller.Laws.{poll_self_removal}
use koho.Splitter.{packet, send, read_limit}
use koho.Splitter.Invariant.{IsValid, action_for}
use koho.Splitter.Relay.{without, receive_bytes_eof}
use koho.Splitter.Client.{Client, connection, server_socket, invoke, poll_once}
use koho.Splitter.Client.Accepting.{write_datagram, to_string_nonempty, after_send}

-- The state without a connection, after its end has been sent to the server.
abbrev pub ended : ℕ → FileDescriptor → Client → Client
ended uid c s = record s {
  splitter = record (without s.splitter uid c) {
    other_side = after_send (Packet.to_string (packet false uid [])) s.other_side;
  };
}

module _ (names : Resolver) (net : Net) (epoll : EpollOs) (s : Client) (uid n : ℕ) (fds : List ℕ)
    (c : FileDescriptor) (valid : IsValid connection s.splitter)
    (known : lookup uid s.connections ≡ some c) (ready : epoll.wait ≡ some (c.fd ∷ fds))
    (at_end : net.read c.fd read_limit ≡ some []) (removed : epoll.ctl_del c.fd ≡ some n)
    (taken : let datagram = Packet.to_string (packet false uid []) in
      net.write s.other_side.descriptor.fd datagram ≡ some (length datagram)) where
  connection_ends : invoke names net epoll (connection uid) s ≡ (ok cancel, ended uid c s)
  unfolding invoke send
  connection_ends = rw (
    receive_bytes_eof net.os epoll (server_socket net.os) s.splitter uid c n valid.free known at_end
        removed,
    write_datagram net.os (Packet.to_string (packet false uid [])) s.other_side
        (to_string_nonempty _) taken,
  )

  -- From a state of the client that satisfies the invariant, when the first ready descriptor is
  -- that of a connection, a read of it brings nothing, the kernel stops watching it and takes the
  -- datagram: the end is sent to the server and the connection is closed, but the round is
  -- undefined behaviour, since the loop reads the action that the callback has erased.
  pub poll_connection_end : poll_once names net epoll s ≡ (undefined, ended uid c s)
  unfolding poll_once
  poll_connection_end =
      poll_self_removal _ _ _ _ epoll c.fd fds s (action_for connection uid) cancel (ended uid c s)
        ready (valid.linked.watched uid c known) connection_ends (inr refl)
        (lookup-erase_self c.fd s.epoller.actions)
