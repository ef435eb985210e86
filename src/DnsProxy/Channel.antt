-- ===== src/DnsProxy/Channel.antt =====
-- What a relay between two sockets promises, without rings, pollers and partial writes: in each
-- direction bytes arrive, wait, and depart in the order of their arrival.
use koho.Prelude.{
  ℕ, ◌+◌, ◌≤◌, ◌≡◌, sym, ap, ◌∙◌, List, ◌++◌, append_assoc, arith, length, length-append,
}

pub record Channel : Type 0 where
  pub arrived : List ℕ
  pub departed : List ℕ
  pub waiting : List ℕ

pub data Step (capacity : ℕ) (c : Channel) : Channel → Type 0 where
  arrive :
      (bytes : List ℕ)
      → length c.waiting + length bytes ≤ capacity
      → Step capacity c (record c { arrived = c.arrived ++ bytes; waiting = c.waiting ++ bytes })
  depart :
      (bytes rest : List ℕ)
      → c.waiting ≡ bytes ++ rest
      → Step capacity c (record c { departed = c.departed ++ bytes; waiting = rest })

-- to the name server, and from it
pub record Duplex : Type 0 where
  pub up : Channel
  pub down : Channel

pub data Move (capacity : ℕ) (d : Duplex) : Duplex → Type 0 where
  upwards : (c : Channel) → Step capacity d.up c → Move capacity d (record d { up = c })
  downwards : (c : Channel) → Step capacity d.down c → Move capacity d (record d { down = c })

pub data Reach (capacity : ℕ) (d : Duplex) : Duplex → Type 0 where
  here : Reach capacity d d
  then_move : {e f : Duplex} → Reach capacity d e → Move capacity e f → Reach capacity d f

-- Nothing is lost, changed, doubled or put out of order, and no more waits than may.
abbrev pub IsFaithful : ℕ → Channel → Type 0
IsFaithful capacity c = (c.arrived ≡ c.departed ++ c.waiting) × (length c.waiting ≤ capacity)

Step-IsFaithful :
    {capacity : ℕ} {c d : Channel}
    → Step capacity c d
    → IsFaithful capacity c
    → IsFaithful capacity d
Step-IsFaithful {capacity} {c} (arrive bytes room) (kept, small) = (
  ap (λ l. l ++ bytes) kept ∙ append_assoc c.departed c.waiting bytes,
  omega (arith, length-append c.waiting bytes),
)
Step-IsFaithful {capacity} {c} (depart bytes rest split) (kept, small) = (
  kept ∙ ap (λ l. c.departed ++ l) split ∙ sym (append_assoc c.departed bytes rest),
  omega (arith, ap length split, length-append bytes rest),
)

pub Reach-IsFaithful :
    {capacity : ℕ} {d e : Duplex}
    → Reach capacity d e
    → IsFaithful capacity d.up × IsFaithful capacity d.down
    → IsFaithful capacity e.up × IsFaithful capacity e.down
Reach-IsFaithful here h = h
Reach-IsFaithful (then_move r (upwards c step)) h =
    let (up, down) = Reach-IsFaithful r h in (Step-IsFaithful step up, down)
Reach-IsFaithful (then_move r (downwards c step)) h =
    let (up, down) = Reach-IsFaithful r h in (up, Step-IsFaithful step down)
