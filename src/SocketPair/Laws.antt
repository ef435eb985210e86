-- ===== src/SocketPair/Laws.antt =====
-- A descriptor that is sent arrives.
use koho.Prelude.{
  ℕ, ◌<◌, ◌^◌, ◌≡◌, refl, ap, ◌∙◌, false, not, ◌==◌, ◌||◌, inl, inr, Bool-cases, Option-cases,
  Option, some, [], ◌∷◌, ◌++◌, arith, increment, is_negative, leb, ok, >>>-value,
}
use koho.FileDescriptor
use koho.FileDescriptor.{FileDescriptor}
use koho.FileDescriptor.Construct.{construct_lem}
use koho.SocketPair.{
  UnixDomainSocket, Messages, Control, Received, rights, send_fd, recv_fd, received_int, sol_socket,
  scm_rights, cmsg_len_int,
}

-- a control message of just the kind of unix(7) that carries one descriptor
pub record IsRights (m : Control) : Type 0 where
  pub level : m.cmsg_level ≡ 1
  pub type : m.cmsg_type ≡ 1
  pub size : m.cmsg_len ≡ 20

-- A pair of sockets between two processes, each with its own table of files: `after m` is the kernel of
-- the receiver once the sender's has taken the message `m`, and `fresh` the number that a descriptor of
-- the sender gets in the receiver. unix(7): such a message is taken without data, and arrives as it was
-- sent, but with a new number for the same file.
pub record Carries {F : Type 0} (sender : Messages) (after : Control → Messages) (from to : ℕ)
    (sender_file receiver_file : ℕ → F) (fresh : ℕ → ℕ) : Type 0 where
  pub sends : (m : Control) → IsRights m → sender.sendmsg from m ≡ some 0
  pub arrives :
      (m : Control)
      → IsRights m
      → (after m).recvmsg to
        ≡ some (record {
          size = 0;
          truncated = false;
          control = some (record m { cmsg_data = fresh m.cmsg_data });
        })
  pub same_file : (n : ℕ) → receiver_file (fresh n) ≡ sender_file n
  pub high : (n : ℕ) → (2 < fresh n) × (fresh n < 2 ^ 31)
  pub close_on_exec : (m : Control) (n : ℕ) → (flags : ℕ) × ((after m).fcntl n ≡ some flags)

-- Over a pair that carries descriptors as unix(7) says, under numbers that are high enough in the
-- receiver: one end sends a descriptor in one message, and the other end, on the kernel that has taken
-- this message, receives a descriptor that is new and refers to the same file; neither throws, and each
-- end counts its call.
pub recv_fd-send_fd :
    {F : Type 0} (sender : Messages) (after : Control → Messages) (s t : UnixDomainSocket)
    (fd : FileDescriptor) (sender_file receiver_file : ℕ → F) (fresh : ℕ → ℕ)
    → Carries sender after s.descriptor.fd t.descriptor.fd sender_file receiver_file fresh
    → (m : Control) × (d : FileDescriptor) × (send_fd sender fd s ≡ (
      ok tt,
      record s {
        descriptor = record s.descriptor { write_count = increment s.descriptor.write_count };
        sent = s.sent ++ m ∷ [];
      },
    ))
      × (recv_fd (after m) t ≡ (
        ok d,
        record t {
          descriptor = record t.descriptor { read_count = increment t.descriptor.read_count };
        },
      ))
      × (receiver_file d.fd ≡ sender_file fd.fd)
      × (d.eof ≡ false)
      × (d.read_count ≡ 0)
      × (d.write_count ≡ 0)
unfolding send_fd recv_fd rights received_int FileDescriptor.construct
recv_fd-send_fd sender after s t fd sender_file receiver_file fresh h =
    let m = rights fd.fd in
    let its : IsRights m = record { level = refl; type = refl; size = refl } in
    let good : (is_negative (fresh fd.fd) || leb (fresh fd.fd) 2) ≡ false =
      ground (arith, h.high fd.fd) in
    let (flags, answer) = h.close_on_exec m (fresh fd.fd) in
    (
      m,
      record { fd = fresh fd.fd; eof = false; read_count = 0; write_count = 0 },
      rw (h.sends m its) refl,
      rw (h.arrives m its, good, answer) refl,
      h.same_file fd.fd,
      refl,
      refl,
      refl,
    )

accepted_lem : (c : Control) (n : ℕ) → received_int (some c) ≡ ok n → c ≡ rights n
unfolding received_int rights
accepted_lem c n e =
    elim (Bool-cases (not (c.cmsg_level == sol_socket) || not (c.cmsg_type == scm_rights))) [
      | inl bad ↦ cc (rw bad at e)
      | inr kind ↦ elim (Bool-cases (c.cmsg_len == cmsg_len_int)) [
        | inr other ↦ cc (rw (kind, other) at e)
        | inl size ↦
            let number : c.cmsg_data ≡ n = out (rw (kind, size) at e) in
            same (ground arith) (ground arith) (ground arith) number
      ]
    ]
  where
    out : {a b : ℕ} → ok a ≡ ok b → a ≡ b
    out h = cc h

    same :
        {d : ℕ}
        → c.cmsg_level ≡ sol_socket
        → c.cmsg_type ≡ scm_rights
        → c.cmsg_len ≡ cmsg_len_int
        → c.cmsg_data ≡ d
        → c ≡ (record {
          cmsg_level = sol_socket;
          cmsg_type = scm_rights;
          cmsg_len = cmsg_len_int;
          cmsg_data = d;
        })
    same level kind size number = λ i. record {
      cmsg_level = level i;
      cmsg_type = kind i;
      cmsg_len = size i;
      cmsg_data = number i;
    }

-- A descriptor that is received has come in a message without data, that was not cut off, with a
-- control message of just the kind that `send_fd` sends.
pub recv_fd_accepts :
    (os : Messages) (s : UnixDomainSocket) {d : FileDescriptor}
    → (recv_fd os s).0 ≡ ok d
    → os.recvmsg s.descriptor.fd
      ≡ some (record { size = 0; truncated = false; control = some (rights d.fd) })
unfolding recv_fd
recv_fd_accepts os s {d} e = elim (Option-cases (os.recvmsg s.descriptor.fd)) [
  | inl failed ↦ cc (rw failed at e)
  | inr (m, came) ↦ elim (Bool-cases (m.size == 0)) [
    | inr with_data ↦ cc (rw (came, with_data) at e)
    | inl no_data ↦ elim (Bool-cases m.truncated) [
      | inl cut_off ↦ cc (rw (came, no_data, cut_off) at e)
      | inr whole ↦
          let (fd, accepted, made) =
            >>>-value (received_int m.control, s) _ (rw (came, no_data, whole) at e) in
          let (_, _, _, is_fresh) = construct_lem fd (os.fcntl fd) made in
          elim (Option-cases m.control) [
            | inl missing ↦ unfold received_int in cc (rw missing at accepted)
            | inr (c, found) ↦
                came
                ∙ ap some (
                    as_sent m (ground arith) whole (
                      found
                      ∙ ap some (accepted_lem c fd (rw found at accepted))
                      ∙ ap (λ x. some (rights x.fd)) is_fresh))
          ]
    ]
  ]
]
  where
    as_sent :
        (m : Received) {c : Option Control}
        → m.size ≡ 0
        → m.truncated ≡ false
        → m.control ≡ c
        → m ≡ (record { size = 0; truncated = false; control = c })
    as_sent m size whole control =
        λ i. record { size = size i; truncated = whole i; control = control i }
