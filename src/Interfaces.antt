-- ===== src/Interfaces.antt =====
-- src/util/interfaces.{hh,cc}: addresses that no interface uses. What getifaddrs(3) and the file
-- /proc/net/route say is read by the constructor (Interfaces/Routes.antt).
pub mod Laws
pub mod Routes
pub mod Reading
use koho.Prelude.{
  ℕ, zero, suc, ◌+◌, ◌-◌, Bool, true, false, not, List, [], ◌∷◌, ◌++◌, ltb, ◌==◌, if◌then◌else◌,
  Outcome, ok, thrown, aborted, undefined, running, runtime_error, assert, ◌>>=◌, ◌>>◌,
}
use koho.Address
use koho.Address.{Address, Resolver}
use koho.Text.{same_text}

abbrev pub add_address : Address → List Address → List Address
add_address addr used = used ++ addr ∷ []

module _ (names : Resolver) where
  unfoldable pub address_in_use : List Address → Address → Outcome Bool
  address_in_use [] addr = ok false
  address_in_use (x ∷ used) addr = do
    a ← Address.ip names addr
    b ← Address.ip names x
    let rest = address_in_use used addr
    if same_text a b then ok true else rest

  -- what the loop does with a candidate that is free
  found : Address → ℕ → Outcome (Address × ℕ)
  found candidate octet =
      Address.ip_port names candidate >>= λ p. assert (p.1 == 0) >> ok (candidate, octet)

  -- `while ( last_octet <= 255 )`
  unfoldable pub search : ℕ → List Address → ℕ → Outcome (Address × ℕ)
  unfolding found
  search zero used octet = running
  search (suc fuel) used octet =
      let next = search fuel used (octet + 1) in
      if ltb 255 octet
      then thrown (runtime_error "Interfaces: could not find free interface address")
      else Address.cgnat names octet >>= λ candidate.
          address_in_use used candidate >>= λ taken. if taken then next else found candidate octet

  -- Each round raises the octet, so these rounds are enough from any start.
  unfoldable pub first_unassigned_address : List Address → ℕ → Outcome (Address × ℕ)
  unfolding search
  first_unassigned_address used last_octet = search (suc (256 - last_octet)) used last_octet

  unfoldable pub two_unassigned_addresses : List Address → Address → Outcome (Address × Address)
  unfolding first_unassigned_address
  two_unassigned_addresses interfaces avoid = do
    let used = add_address avoid interfaces
    one ← first_unassigned_address used 1
    two ← first_unassigned_address used (one.1 + 1)
    ok (one.0, two.0)
