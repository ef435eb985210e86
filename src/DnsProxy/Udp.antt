-- ===== src/DnsProxy/Udp.antt =====
-- What the thread for a datagram asks of the name server, and what it answers.
use koho.Prelude.{
  ℕ, ◌+◌, ◌*◌, ◌≡◌, refl, sym, ap, subst, ◌∙◌, ◌⊎◌, inl, inr, true, false, some, List, [], ◌∷◌,
  ◌++◌, append-nil, append_assoc, arith, concat, length, length-append, length-pos, is_empty, take,
  take_all, ltb, le→not_ltb, lt→ltb, ◌==◌, Bool-cases, Option-cases, ok, M, ◌>>>◌, >>>-cases,
  >>>-ok,
}
use koho.FileDescriptor.{FileDescriptor, Os, buffer_size, read}
use koho.FileDescriptor.Writes.{IsPosix, write_lem, TakesBytes, write_returns}
use koho.Address.{Address}
use koho.Packet.{from_big_endian, to_big_endian}
use koho.Socket.{Net, sendto}
use koho.DnsProxy.{
  Exchange, Rounds, tcpify, response_length, read_response, on_server, send_request, read_length,
  pass_on, exchange,
}

-- The pieces in which the reads bring a response.
abbrev pub Brings : ℕ → List Os → List (List ℕ) → Type 0
Brings fd rounds [] = Unit {0}
Brings fd [] (piece ∷ pieces) = ⊥
Brings fd (os ∷ rounds) (piece ∷ pieces) =
    (os.read fd buffer_size ≡ some piece) × (is_empty piece ≡ false) × Brings fd rounds pieces

-- The loop reads until the announced length is there, however it is cut.
read_response_lem :
    (rounds : List Os) (pieces : List (List ℕ)) (expected : ℕ) (got : List ℕ) (s : FileDescriptor)
    → Brings s.fd rounds pieces
    → length (got ++ concat pieces) ≡ expected
    → (read_response rounds expected got s).0 ≡ ok (got ++ concat pieces)
unfolding read_response read
read_response_lem [] [] expected got s brings total =
    let enough : ltb (length got) expected ≡ false =
      le→not_ltb _ _ (omega (arith, total, ap length (append-nil got))) in
    rw (enough, append-nil got)
read_response_lem (os ∷ rounds) [] expected got s brings total =
    let enough : ltb (length got) expected ≡ false =
      le→not_ltb _ _ (omega (arith, total, ap length (append-nil got))) in
    rw (enough, append-nil got)
read_response_lem [] (piece ∷ pieces) expected got s brings total = absurd brings
read_response_lem (os ∷ rounds) (piece ∷ pieces) expected got s brings total =
    let more : ltb (length got) expected ≡ true = lt→ltb _ _ (
      omega (
        arith,
        total,
        length-append got (piece ++ concat pieces),
        length-append piece (concat pieces),
        length-pos piece brings.1,
      )) in
    rw (more, brings.0, brings.1)
      (read_response_lem rounds pieces expected (got ++ piece) _ brings.2
          (ap length (append_assoc got piece (concat pieces)) ∙ total)
        ∙ ap ok (append_assoc got piece (concat pieces)))

-- A request that has been sent is with the kernel as a whole, behind its length.
send_request_lem :
    (rounds : Rounds) (request rest : List ℕ) (s : Exchange)
    → IsPosix rounds.connecting.os
    → let (r, t) = send_request rounds request s in
      r ≡ ok rest
      → (t.dns_server.descriptor.fd ≡ s.dns_server.descriptor.fd)
        × (t.dns_server.accepted ≡ s.dns_server.accepted ++ tcpify request)
unfolding send_request
send_request_lem rounds request rest s posix written =
    let (left, (taken, split, grown, same), ends) =
      write_lem rounds.connecting.os posix true (tcpify request) s.dns_server in
    elim ends [
      | inl (e, failed) ↦ cc (sym failed ∙ written)
      | inr (_, inl partly) ↦ cc partly
      | inr (_, inr whole) ↦ (
        same,
        grown
            ∙ ap (λ l. s.dns_server.accepted ++ l)
                (sym (append-nil taken) ∙ ap (λ l. taken ++ l) (sym whole) ∙ sym split),
      )
    ]

send_request_returns :
    (rounds : Rounds) (request : List ℕ) (s : Exchange)
    → TakesBytes rounds.connecting.os s.dns_server.descriptor.fd
    → (send_request rounds request s).0 ≡ ok []
unfolding send_request tcpify to_big_endian
send_request_returns rounds request s takes =
    write_returns rounds.connecting.os (tcpify request) s.dns_server takes refl

read_length_lem :
    (rounds : Rounds) (s : Exchange)
    → let (r, t) = read_length rounds s in
      (t.udp_listener ≡ s.udp_listener)
      × (t.dns_server.accepted ≡ s.dns_server.accepted)
      × (t.dns_server.descriptor.fd ≡ s.dns_server.descriptor.fd)
      × ((expected : ℕ)
          → r ≡ ok expected
          → (raw : List ℕ) × (rounds.prefix.read s.dns_server.descriptor.fd 2 ≡ some raw)
            × (response_length raw ≡ ok expected))
unfolding read_length on_server read
read_length_lem rounds s = elim (Option-cases (rounds.prefix.read s.dns_server.descriptor.fd 2)) [
  | inl failed ↦ rw failed (refl, refl, refl, λ expected e. cc e)
  | inr (raw, brought) ↦ rw brought (refl, refl, refl, λ expected e. (raw, refl, e))
]

pass_on_lem :
    (net : Net) (source : Address) (expected : ℕ) (response : List ℕ) (s : Exchange)
    → let t = (pass_on net source expected response s).1 in
      (t.dns_server ≡ s.dns_server)
      × ((t.udp_listener ≡ s.udp_listener)
          ⊎ ((sent : ℕ) × (length response ≡ expected)
              × (t.udp_listener.sent ≡ s.udp_listener.sent ++ (source, take sent response) ∷ [])))
unfolding pass_on sendto
pass_on_lem net source expected response s = elim (Bool-cases (length response == expected)) [
  | inr other ↦ rw other (refl, inl refl)
  | inl same ↦ elim (Option-cases (net.sendto s.udp_listener.descriptor.fd source response)) [
    | inl failed ↦ rw (same, failed) (refl, inl refl)
    | inr (sent, taken) ↦ rw (same, taken) (refl, inr (sent, ground arith, refl))
  ]
]

read_length_ok :
    (rounds : Rounds) (s : Exchange) (high low : ℕ)
    → rounds.prefix.read s.dns_server.descriptor.fd 2 ≡ some (high ∷ low ∷ [])
    → (read_length rounds s).0 ≡ ok (high * 256 + low)
unfolding read_length response_length on_server read from_big_endian
read_length_ok rounds s high low came = rw came (ap ok (omega arith))

pass_on_ok :
    (net : Net) (source : Address) (expected : ℕ) (response : List ℕ) (s : Exchange)
    → length response ≡ expected
    → net.sendto s.udp_listener.descriptor.fd source response ≡ some (length response)
    → let (r, t) = pass_on net source expected response s in
      (r ≡ ok tt) × (t.udp_listener.sent ≡ s.udp_listener.sent ++ (source, response) ∷ [])
unfolding pass_on sendto
pass_on_ok net source expected response s same taken =
    let fits : (length response == expected) ≡ true = ground arith in
    let whole : (length response == length response) ≡ true = ground arith in
    rw (fits, taken, whole, take_all (length response) response (omega arith)) (refl, refl)

module _ (rounds : Rounds) (source : Address) (request : List ℕ) (s : Exchange) where
  open rounds use {connecting, prefix, chunks}

  -- What may have changed when the thread is done: the request may have been sent; and either no
  -- datagram has been, or one to its source, with the front of a response of the announced length.
  abbrev pub Relayed : Exchange → Type 0
  Relayed t =
      (t.udp_listener ≡ s.udp_listener)
      ⊎ ((raw : List ℕ) × (response : List ℕ) × (sent : ℕ) × (prefix.read s.dns_server.descriptor.fd
              2
            ≡ some raw)
          × (response_length raw ≡ ok (length response))
          × (t.udp_listener.sent ≡ s.udp_listener.sent ++ (source, take sent response) ∷ [])
          × (t.dns_server.accepted ≡ s.dns_server.accepted ++ tcpify request))

  pass : ℕ → List ℕ → M Exchange (Unit {0})
  pass expected = pass_on connecting source expected

  await : ℕ → M Exchange (Unit {0})
  unfolding pass
  await expected t = on_server (read_response chunks expected []) t >>> pass expected

  ask : List ℕ → M Exchange (Unit {0})
  unfolding await
  ask rest t = read_length rounds t >>> await

  abbrev s1 : Exchange
  s1 = (send_request rounds request s).1

  abbrev s2 : Exchange
  s2 = (read_length rounds s1).1

  passed :
      (raw response : List ℕ) (expected : ℕ) (t : Exchange)
      → prefix.read s.dns_server.descriptor.fd 2 ≡ some raw
      → response_length raw ≡ ok expected
      → t.udp_listener ≡ s.udp_listener
      → t.dns_server.accepted ≡ s.dns_server.accepted ++ tcpify request
      → Relayed (pass expected response t).1
  unfolding pass
  passed raw response expected t came announced udp asked =
      let (server, sending) = pass_on_lem connecting source expected response t in
      elim sending [
        | inl none_sent ↦ inl (none_sent ∙ udp)
        | inr (sent, whole, grown) ↦ inr (
          raw,
          response,
          sent,
          came,
          announced ∙ ap ok (sym whole),
          grown ∙ ap (λ u. u.sent ++ (source, take sent response) ∷ []) udp,
          ap (λ d. d.accepted) server ∙ asked,
        )
      ]

  -- On a kernel that keeps to read(2) and write(2), however the exchange with the name server ends:
  -- no datagram has been sent, or just one, to the source of the request. Then the whole request has
  -- been sent behind its length, two bytes have been read for the length of the response (or one, for
  -- its upper half), and the datagram is the front of a response of exactly that length.
  pub exchange_sends : IsPosix connecting.os → Relayed (exchange rounds (source, request) s).1
  unfolding exchange ask await pass
  exchange_sends posix = elim (>>>-cases (send_request rounds request s) ask) [
    | inl (r, ended) ↦ rw ended (inl refl)
    | inr (rest, written, after) ↦
        let (fd1, asked) = send_request_lem rounds request rest s posix written in
        let (udp2, accepted2, fd2, prefixed) = read_length_lem rounds s1 in
        rw after (elim (>>>-cases (read_length rounds s1) await) [
          | inl (r, ended) ↦ rw ended (inl udp2)
          | inr (expected, got, after) ↦
              let (raw, came, announced) = prefixed expected got in
              rw after
                (elim (>>>-cases (on_server (read_response chunks expected []) s2)
                  (pass expected)) [
                    | inl (r, ended) ↦ rw ended (inl udp2)
                    | inr (response, read, after) ↦ rw after (
                        passed raw response expected _ (ap (λ n. prefix.read n 2) (sym fd1) ∙ came)
                          announced udp2 (accepted2 ∙ asked))
                  ])
        ])
  ]

  -- A name server that answers: the kernel takes a byte at least at each write of the request, the next read brings the two bytes of a
  -- length, the reads after it bring that many bytes in pieces that are not empty, and sendto(2)
  -- takes them in one datagram.
  pub record IsAnswered (high low : ℕ) (pieces : List (List ℕ)) : Type 0 where
    pub written : TakesBytes connecting.os s.dns_server.descriptor.fd
    pub announced : prefix.read s.dns_server.descriptor.fd 2 ≡ some (high ∷ low ∷ [])
    pub brought : Brings s.dns_server.descriptor.fd chunks pieces
    pub total : length (concat pieces) ≡ high * 256 + low
    pub taken :
        connecting.sendto s.udp_listener.descriptor.fd source (concat pieces)
        ≡ some (length (concat pieces))

  -- On a kernel that keeps to read(2) and write(2), takes a byte at least at each write of the request,
  -- brings the two bytes of a length at the next read and that many bytes at the reads after it, in
  -- pieces that are not empty, and takes them in one datagram: the thread ends without an exception,
  -- after as many reads as there are pieces, and the pieces have gone to the source of the request as
  -- one datagram, in order.
  pub exchange_answers :
      (high low : ℕ) (pieces : List (List ℕ))
      → IsPosix connecting.os
      → IsAnswered high low pieces
      → let (r, t) = exchange rounds (source, request) s in
        (r ≡ ok tt) × (t.udp_listener.sent ≡ s.udp_listener.sent ++ (source, concat pieces) ∷ [])
  unfolding exchange ask await pass
  exchange_answers high low pieces posix h =
      let sent = send_request_returns rounds request s h.written in
      let (fd1, _) = send_request_lem rounds request [] s posix sent in
      let (udp2, _, fd2, _) = read_length_lem rounds s1 in
      let at_s1 = ap (λ n. prefix.read n 2) fd1 ∙ h.announced in
      let at_s2 = subst (λ n. Brings n chunks pieces) (sym (fd2 ∙ fd1)) h.brought in
      let s3 = (on_server (read_response chunks (high * 256 + low) []) s2).1 in
      let udp3 : s3.udp_listener ≡ s.udp_listener = unfold on_server in udp2 in
      let read : (on_server (read_response chunks (high * 256 + low) []) s2).0
          ≡ ok (concat pieces) =
        unfold on_server in
        read_response_lem chunks pieces (high * 256 + low) [] s2.dns_server.descriptor at_s2
          h.total in
      let run =
        >>>-ok (send_request rounds request s) ask sent
        ∙ >>>-ok (read_length rounds s1) await (read_length_ok rounds s1 high low at_s1)
        ∙ >>>-ok _ (pass (high * 256 + low)) read in
      let (done, grown) =
        pass_on_ok connecting source (high * 256 + low) (concat pieces) s3 h.total
          (ap (λ u. connecting.sendto u.descriptor.fd source (concat pieces)) udp3 ∙ h.taken) in
      rw run (done, grown ∙ ap (λ u. u.sent ++ (source, concat pieces) ∷ []) udp3)
