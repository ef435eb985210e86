-- ===== src/NetDevice/Laws.antt =====
-- What `assign_address` sets, and the pair of devices in its life.
use koho.Prelude.{
  ℕ, ◌≡◌, refl, ap, subst, ◌∙◌, ◌≢◌, inl, inr, some, List, take, Outcome, ok, M, ◌>>>◌, >>>-eq-ok,
  Option-cases,
}
use koho.Text.{bytes}
use koho.FileDescriptor.{FileDescriptor}
use koho.Address.{Address, Resolver, of_ip}
use koho.Socket
use koho.Socket.{Net, af_inet, sock_dgram}
use koho.NetDevice.{
  Request, siocsifaddr, siocsifdstaddr, siocsifnetmask, siocsifflags, Setting, iff_up, address,
  Ifreq, ifnamsiz, Machine, interface_ioctl_on, interface_ioctl, set_netmask, assign_address,
}

-- an interface, as netdevice(7) tells of it
pub record Interface : Type 0 where
  pub addr : Setting
  pub dstaddr : Setting
  pub netmask : Setting
  pub flags : Setting

abbrev pub configure : Request → Setting → Interface → Interface
configure siocsifaddr x i = record i { addr = x }
configure siocsifdstaddr x i = record i { dstaddr = x }
configure siocsifnetmask x i = record i { netmask = x }
configure siocsifflags x i = record i { flags = x }
configure Request.tunsetiff x i = i

-- A request that succeeds changes its one setting of the interface of that name, and no other
-- interface.
pub record IsDocumented {W : Type 0} (machine : Machine W) (interface : List ℕ → W → Interface)
    : Type 0 where
  pub sets :
      (fd : ℕ) (request : Request) (ifr : Ifreq) (w : W) (n : ℕ)
      → (machine.ioctl fd request ifr w).0 ≡ some n
      → interface ifr.ifr_name (machine.ioctl fd request ifr w).1
        ≡ configure request ifr.setting (interface ifr.ifr_name w)
  pub leaves :
      (fd : ℕ) (request : Request) (ifr : Ifreq) (w : W) (other : List ℕ)
      → other ≢ ifr.ifr_name
      → interface other (machine.ioctl fd request ifr w).1 ≡ interface other w

module _ {W : Type 0} (machine : Machine W) (interface : List ℕ → W → Interface)
    (documented : IsDocumented machine interface) (name : List ℕ) where
  open documented use {sets, leaves}

  abbrev this : List ℕ
  this = take ifnamsiz name

  -- The interface has one setting more, and every other is as it was.
  abbrev Configured : Request → Setting → W → W → Type 0
  Configured request setting w v =
      (interface this v ≡ configure request setting (interface this w))
      × ((other : List ℕ) → other ≢ this → interface other v ≡ interface other w)

  abbrev ifreq : Setting → Ifreq
  ifreq setting = record { ifr_name = this; setting = setting }

  ioctl_on_lem :
      (fd : FileDescriptor) (request : Request) (setting : Setting) (w : W) {v : W}
      → interface_ioctl_on machine fd request name setting w ≡ (ok tt, v)
      → Configured request setting w v
  unfolding interface_ioctl_on
  ioctl_on_lem fd request setting w {v} e =
      let next = (machine.ioctl fd.fd request (ifreq setting) w).1 in
      elim (Option-cases (machine.ioctl fd.fd request (ifreq setting) w).0) [
        | inl failed ↦ cc (ap (λ p. p.0) (rw failed at e))
        | inr (n, done) ↦
            let end : next ≡ v = ap (λ p. p.1) (rw done at e) in
            subst (λ u. Configured request setting w u) end
              (
                sets fd.fd request (ifreq setting) w n done,
                λ other d. leaves fd.fd request (ifreq setting) w other d,
              )
      ]

  module _ (names : Resolver) (net : Net) where
    ioctl_lem :
        (request : Request) (setting : Setting) (w : W) {v : W}
        → interface_ioctl machine names net request name setting w ≡ (ok tt, v)
        → Configured request setting w v
    unfolding interface_ioctl
    ioctl_lem request setting w e =
        let (temp, _, rest) =
          >>>-eq-ok (Socket.new_socket net af_inet sock_dgram, w)
            (λ temp u. interface_ioctl_on machine temp request name setting u) e in
        ioctl_on_lem temp request setting w rest

    set_netmask_lem :
        (w : W) {v : W}
        → set_netmask machine names net name w ≡ (ok tt, v)
        → (mask : Address) × (of_ip names (bytes "255.255.255.255") 0 ≡ ok mask)
          × Configured siocsifnetmask (address mask) w v
    unfolding set_netmask
    set_netmask_lem w e =
        let (temp, _, rest) =
          >>>-eq-ok (Socket.new_socket net af_inet sock_dgram, w) with_socket e in
        let (mask, known, last) = >>>-eq-ok (mask_text, w) (with_mask temp) rest in
        (mask, known, ioctl_on_lem temp siocsifnetmask (address mask) w last)
      where
        mask_text : Outcome Address
        mask_text = of_ip names (bytes "255.255.255.255") 0

        with_mask : FileDescriptor → Address → M W (Unit {0})
        with_mask temp mask u = interface_ioctl_on machine temp siocsifnetmask name (address mask) u

        with_socket : FileDescriptor → M W (Unit {0})
        with_socket temp u = (mask_text, u) >>> with_mask temp

    -- On a kernel that keeps to netdevice(7), if `assign_address` returns: the interface whose name is
    -- the first 16 bytes of the given one has just the address, the destination, the netmask that
    -- getaddrinfo makes of 255.255.255.255, and the flag IFF_UP; and every other interface is as it was.
    pub assign_address_lem :
        (addr peer : Address) (w : W) {v : W}
        → assign_address machine names net name addr peer w ≡ (ok tt, v)
        → (mask : Address) × (of_ip names (bytes "255.255.255.255") 0 ≡ ok mask)
          × (interface this v ≡ (record {
            addr = address addr;
            dstaddr = address peer;
            netmask = address mask;
            flags = iff_up;
          }))
          × ((other : List ℕ) → other ≢ this → interface other v ≡ interface other w)
    unfolding assign_address
    assign_address_lem addr peer w {v} e =
        let (_, ran1, after1) = >>>-eq-ok step1 (λ _. from2) e in
        let w1 = step1.1 in
        let (_, ran2, after2) = >>>-eq-ok (step2 w1) (λ _. from3) after1 in
        let w2 = (step2 w1).1 in
        let (_, ran3, after3) = >>>-eq-ok (step3 w2) (λ _. step4) after2 in
        let w3 = (step3 w2).1 in
        let (set1, others1) = ioctl_lem siocsifaddr (address addr) w (ap (λ o. (o, w1)) ran1) in
        let (set2, others2) = ioctl_lem siocsifdstaddr (address peer) w1 (ap (λ o. (o, w2)) ran2) in
        let (mask, known, (set3, others3)) = set_netmask_lem w2 (ap (λ o. (o, w3)) ran3) in
        let (set4, others4) = ioctl_lem siocsifflags iff_up w3 after3 in
        (
          mask,
          known,
          rw (set4, set3, set2, set1) refl,
          λ other d. others4 other d ∙ others3 other d ∙ others2 other d ∙ others1 other d,
        )
      where
        step1 : Outcome (Unit {0}) × W
        step1 = interface_ioctl machine names net siocsifaddr name (address addr) w

        step2 : M W (Unit {0})
        step2 = interface_ioctl machine names net siocsifdstaddr name (address peer)

        step3 : M W (Unit {0})
        step3 = set_netmask machine names net name

        step4 : M W (Unit {0})
        step4 = interface_ioctl machine names net siocsifflags name iff_up

        from3 : M W (Unit {0})
        from3 u = step3 u >>> λ _. step4

        from2 : M W (Unit {0})
        from2 u = step2 u >>> λ _. from3
