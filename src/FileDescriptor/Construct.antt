-- ===== src/FileDescriptor/Construct.antt =====
-- When a descriptor can be made of a number.
use koho.Prelude.{
  ℕ, ◌<◌, ◌^◌, ◌≡◌, inl, inr, false, ◌||◌, Option, some, arith, Bool-cases, Option-cases,
  is_negative, leb, ok,
}
use koho.FileDescriptor.{FileDescriptor, construct}

-- a descriptor that has not been used
abbrev pub fresh : ℕ → FileDescriptor
fresh fd = record { fd = fd; eof = false; read_count = 0; write_count = 0 }

-- A descriptor that has been made has a number above 2, and the kernel has marked it.
pub construct_lem :
    (fd : ℕ) (fcntl : Option ℕ) {s : FileDescriptor}
    → construct fd fcntl ≡ ok s
    → (2 < fd) × (fd < 2 ^ 31) × ((flags : ℕ) × (fcntl ≡ some flags)) × (fresh fd ≡ s)
unfolding construct
construct_lem fd fcntl e = elim (Bool-cases (is_negative fd || leb fd 2)) [
  | inl bad ↦ cc (rw bad at e)
  | inr good ↦ elim (Option-cases fcntl) [
    | inl failed ↦ cc (rw (good, failed) at e)
    | inr (flags, answer) ↦
        let made = rw (good, answer) at e in (ground arith, ground arith, (flags, answer), inj made)
  ]
]
  where
    inj : {a b : FileDescriptor} → ok a ≡ ok b → a ≡ b
    inj h = cc h

-- And such a one can be made.
pub construct_works :
    (fd : ℕ) (fcntl : Option ℕ) (flags : ℕ)
    → 2 < fd
    → fd < 2 ^ 31
    → fcntl ≡ some flags
    → construct fd fcntl ≡ ok (fresh fd)
unfolding construct
construct_works fd fcntl flags low high answer =
    let good : (is_negative fd || leb fd 2) ≡ false = ground arith in rw (good, answer)
