-- ===== src/Tests/Networks.antt =====
-- A table of rules, and interfaces, as the machine keeps them.
use koho.Prelude.{
  ℕ, ◌≡◌, refl, sym, ap, ◌∙◌, ◌≢◌, inl, inr, Bool, true, false, Option, none, some, List, [], ◌∷◌,
  ◌++◌, if◌then◌else◌, take, leb, length, ok, thrown, runtime_error, Bool-cases,
}
use koho.Text.{bytes, same_text, myatoi}
use koho.Util.Laws.{same_text-eq}
use koho.Address
use koho.Address.{Address, of_ip, of_sockaddr, ip}
use koho.Util.Laws.{same_text_refl}
use koho.Nat.{NatRule, Runner, Nat, pre_rule, post_rule, command, construct, destroy}
use koho.Nat.Laws.{Absent, IsIptables, construct_throws, destroy-construct_table}
use koho.NetDevice.{Request, iff_up, address, Ifreq, Machine, ifnamsiz, assign_address}
use koho.NetDevice.Laws.{Interface, configure, IsDocumented, assign_address_lem}
use koho.Tests.World.{net_with, names}

abbrev same_rule : NatRule → NatRule → Bool
same_rule [] [] = true
same_rule [] (y ∷ ys) = false
same_rule (x ∷ xs) [] = false
same_rule (x ∷ xs) (y ∷ ys) = let rest = same_rule xs ys in if same_text x y then rest else false

same_rule-eq : (a b : NatRule) → same_rule a b ≡ true → a ≡ b
same_rule-eq [] [] h = refl
same_rule-eq [] (y ∷ ys) h = cc h
same_rule-eq (x ∷ xs) [] h = cc h
same_rule-eq (x ∷ xs) (y ∷ ys) h = elim (Bool-cases (same_text x y)) [
  | inl same ↦
      let tail = same_rule-eq xs ys (rw same at h) in
      ap (λ t. t ∷ xs) (same_text-eq x y same) ∙ ap (λ l. y ∷ l) tail
  | inr other ↦ cc (rw other at h)
]

same_rule_refl : (a : NatRule) → same_rule a a ≡ true
same_rule_refl [] = refl
same_rule_refl (x ∷ xs) = rw (same_text_refl x, same_rule_refl xs) refl

abbrev remove_first : NatRule → List NatRule → List NatRule
remove_first rule [] = []
remove_first rule (x ∷ xs) =
    let rest = remove_first rule xs in if same_rule rule x then xs else x ∷ rest

remove_first-append :
    (rule : NatRule) (front back : List NatRule)
    → Absent rule front
    → remove_first rule (front ++ rule ∷ back) ≡ front ++ back
remove_first-append rule [] back h = rw (same_rule_refl rule) refl
remove_first-append rule (x ∷ front) back h = elim (Bool-cases (same_rule rule x)) [
  | inl same ↦ absurd (h.0 (same_rule-eq rule x same))
  | inr other ↦ rw (other, remove_first-append rule front back h.1) refl
]

-- The machine is its table of rules, which is full at `size` rules.
abbrev run : ℕ → Runner (List NatRule)
run size (iptables ∷ w ∷ t ∷ nat ∷ verb ∷ arguments) rules =
    if same_text verb (bytes "-A")
    then (if leb size (length rules)
        then (thrown (runtime_error "full"), rules)
        else (ok tt, rules ++ arguments ∷ []))
    else (ok tt, remove_first arguments rules)
run size command rules = (thrown (runtime_error "usage"), rules)

abbrev iptables : List ℕ
iptables = bytes "/sbin/iptables"

abbrev rules_of : List NatRule → List NatRule
rules_of w = w

run-IsIptables : (size : ℕ) → IsIptables (run size) iptables rules_of
run-IsIptables size = record {
  appends = λ rule w h. elim (Bool-cases (leb size (length w))) [
    | inl full ↦ cc (rw full at h)
    | inr room ↦ rw room refl
  ];
  refuses = λ rule w e h. elim (Bool-cases (leb size (length w))) [
    | inl full ↦ rw full refl
    | inr room ↦ cc (rw room at h)
  ];
  deletes = λ rule front back w there absent.
      (refl, ap (remove_first rule) there ∙ remove_first-append rule front back absent);
}

abbrev ingress : Address
ingress = record { size = 1; raw = 7 ∷ [] }

abbrev first_rule : NatRule
first_rule = pre_rule (run 9) iptables (bytes "10.0.0.1") 42

abbrev second_rule : NatRule
second_rule = post_rule (run 9) iptables 42

destroy-construct_table_example :
    let nat : Nat (run 9) iptables = record { pre = first_rule; post = second_rule } in
    let (r, t) = destroy (run 9) iptables nat (first_rule ∷ second_rule ∷ []) in
    (r ≡ ok tt) × (t ≡ [])
unfolding construct ip myatoi
destroy-construct_table_example =
    destroy-construct_table (run 9) iptables rules_of (run-IsIptables 9) names 42 ingress [] refl
      refl tt tt

-- There is room for one of the two rules.
construct_throws_example : rules_of (construct (run 1) iptables names 42 ingress []).1 ≡ []
unfolding construct ip myatoi
construct_throws_example =
    construct_throws (run 1) iptables rules_of (run-IsIptables 1) names 42 ingress []
      {e = runtime_error "full"} {v = (construct (run 1) iptables names 42 ingress []).1}
      (λ text h. tt) refl

-- The machine is one interface, whose name is "veth-1".
abbrev this_name : List ℕ
this_name = take ifnamsiz (bytes "veth-1")

abbrev ioctl : ℕ → Request → Ifreq → Interface → Option ℕ × Interface
ioctl fd request ifr w =
    if same_text this_name ifr.ifr_name
    then (some 0, configure request ifr.setting w)
    else (none, w)

abbrev machine : Machine Interface
machine = record { ioctl = ioctl; open_tun = some 5; run = λ command w. (ok tt, w) }

abbrev down : Interface
down = record { addr = iff_up; dstaddr = iff_up; netmask = iff_up; flags = iff_up }

-- what the machine knows of an interface of some name
abbrev interface : List ℕ → Interface → Interface
interface name w = if same_text this_name name then w else down

machine-IsDocumented : IsDocumented machine interface
machine-IsDocumented = record {
  sets = λ fd request ifr w n h. elim (Bool-cases (same_text this_name ifr.ifr_name)) [
    | inl same ↦ rw same refl
    | inr other ↦ cc (rw other at h)
  ];
  leaves = λ fd request ifr w other d. elim (Bool-cases (same_text this_name ifr.ifr_name)) [
    | inr another ↦ rw another refl
    | inl same ↦
        let its : this_name ≡ ifr.ifr_name = same_text-eq this_name ifr.ifr_name same in
        elim (Bool-cases (same_text this_name other)) [
          | inl here ↦ absurd (d (sym (same_text-eq this_name other here) ∙ its))
          | inr there ↦ rw there refl
        ]
  ];
}

abbrev netmask : Address
netmask = record { size = 4; raw = Address.fill (2 ∷ 0 ∷ 0 ∷ 80 ∷ []) 4 }

abbrev configured : Interface
configured = record {
  addr = address ingress;
  dstaddr = address ingress;
  netmask = address netmask;
  flags = iff_up;
}

assign_address_lem_example :
    (mask : Address) × (of_ip names (bytes "255.255.255.255") 0 ≡ ok mask)
    × (interface this_name configured ≡ (record {
      addr = address ingress;
      dstaddr = address ingress;
      netmask = address mask;
      flags = iff_up;
    }))
    × ((other : List ℕ) → other ≢ this_name → interface other configured ≡ interface other down)
unfolding assign_address of_ip
assign_address_lem_example =
    assign_address_lem machine interface machine-IsDocumented (bytes "veth-1") names (net_with [])
      ingress ingress down {v = configured} refl
