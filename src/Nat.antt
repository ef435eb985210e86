-- ===== src/Nat.antt =====
-- src/util/nat.{hh,cc}: rules of iptables that live as long as their objects. `run` of system_runner.cc
-- is a parameter, over a state of the machine that only it knows.
pub mod Laws
use koho.Prelude.{
  ℕ, List, [], ◌∷◌, ◌++◌, Outcome, ok, thrown, aborted, undefined, running, M, ◌>>=◌, ◌>>>◌,
  catching,
}
use koho.Text.{bytes, to_string}
use koho.Address
use koho.Address.{Address, Resolver}

-- the arguments of a rule, which a NATRule keeps
abbrev pub NatRule : Type 0
NatRule = List (List ℕ)

abbrev pub Runner : Type 0 → Type 0
Runner W = List (List ℕ) → M W (Unit {0})

module _ {W : Type 0} (run : Runner W) (iptables : List ℕ) where
  -- the command that adds a rule with -A and deletes it with -D
  abbrev pub command : List ℕ → NatRule → List (List ℕ)
  command verb arguments =
      (iptables ∷ bytes "-w" ∷ bytes "-t" ∷ bytes "nat" ∷ verb ∷ []) ++ arguments

  unfoldable pub add_rule : List (List ℕ) → M W NatRule
  add_rule args w = run (command (bytes "-A") args) w >>> λ _ v. (ok args, v)

  -- the destructor
  unfoldable pub delete_rule : NatRule → M W (Unit {0})
  delete_rule arguments w = catching (run (command (bytes "-D") arguments) w) (λ _ v. (ok tt, v))

  -- `pre_` and `post_`
  pub record Nat : Type 0 where
    pub pre : NatRule
    pub post : NatRule

  abbrev pub pre_rule : List ℕ → ℕ → NatRule
  pre_rule ip pid =
      bytes "PREROUTING"
      ∷ bytes "-s"
      ∷ ip
      ∷ bytes "-j"
      ∷ bytes "CONNMARK"
      ∷ bytes "--set-mark"
      ∷ to_string pid
      ∷ []

  abbrev pub post_rule : ℕ → NatRule
  post_rule pid =
      bytes "POSTROUTING"
      ∷ bytes "-j"
      ∷ bytes "MASQUERADE"
      ∷ bytes "-m"
      ∷ bytes "connmark"
      ∷ bytes "--mark"
      ∷ to_string pid
      ∷ []

  -- A member that has been made is destroyed when the next one throws.
  or_undo : NatRule → Outcome NatRule × W → Outcome Nat × W
  unfolding delete_rule
  or_undo pre (ok post, w) = (ok (record { pre = pre; post = post }), w)
  or_undo pre (thrown e, w) = delete_rule pre w >>> λ _ v. (thrown e, v)
  or_undo pre (aborted, w) = (aborted, w)
  or_undo pre (undefined, w) = (undefined, w)
  or_undo pre (running, w) = (running, w)

  unfoldable pub construct : Resolver → ℕ → Address → M W Nat
  unfolding Address.ip add_rule or_undo
  construct names pid ingress_addr w = (Address.ip names ingress_addr, w) >>> λ ip w1.
      add_rule (pre_rule ip pid) w1 >>> λ pre w2. or_undo pre (add_rule (post_rule pid) w2)

  -- The members are destroyed in the opposite order.
  unfoldable pub destroy : Nat → M W (Unit {0})
  unfolding delete_rule
  destroy s w = delete_rule s.post w >>> λ _ v. delete_rule s.pre v

  -- a DNAT
  unfoldable pub construct_dnat : Resolver → Address → List ℕ → M W NatRule
  unfolding Address.str add_rule
  construct_dnat names listener interface w =
      (Address.str names listener (bytes ":"), w) >>> λ destination v.
      add_rule
        (bytes "PREROUTING"
          ∷ bytes "-p"
          ∷ bytes "TCP"
          ∷ bytes "-i"
          ∷ interface
          ∷ bytes "-j"
          ∷ bytes "DNAT"
          ∷ bytes "--to-destination"
          ∷ destination
          ∷ [])
        v
