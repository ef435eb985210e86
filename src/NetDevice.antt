-- ===== src/NetDevice.antt =====
-- src/util/netdevice.{hh,cc}: the set-up of network interfaces. The kernel and the programs that are
-- run are parameters, over a state of the machine that only they know.
pub mod Laws
use koho.Prelude.{
  ℕ, zero, suc, ◌+◌, ◌-◌, ◌*◌, Bool, true, false, not, Option, none, some, List, [], ◌∷◌, ◌++◌,
  ◌==◌, if◌then◌else◌, take, length, Outcome, ok, thrown, aborted, undefined, running, runtime_text,
  throw_if, system_call, system_call_text, M, ◌>>=◌, ◌>>◌, ◌>>>◌, catching,
}
use koho.Text.{bytes, find_text}
use koho.FileDescriptor
use koho.FileDescriptor.{FileDescriptor}
use koho.Address.{Address, Resolver, of_ip}
use koho.Socket
use koho.Socket.{Net, af_inet, sock_dgram}

-- the requests of ioctl(2) that the code makes
pub data Request : Type 0 where
  tunsetiff siocsifaddr siocsifdstaddr siocsifnetmask siocsifflags : Request

-- the part of an ifreq behind its name: IFF_TUN, IFF_UP, or an address
pub data Setting : Type 0 where
  iff_tun iff_up : Setting
  address : Address → Setting

pub record Ifreq : Type 0 where
  pub ifr_name : List ℕ
  pub setting : Setting

-- IFNAMSIZ
abbrev pub ifnamsiz : ℕ
ifnamsiz = 16

-- ioctl(2), open(2) of /dev/net/tun, and `run` of system_runner.cc
pub record Machine (W : Type 0) : Type 0 where
  pub ioctl : ℕ → Request → Ifreq → W → Option ℕ × W
  pub open_tun : Option ℕ
  pub run : List (List ℕ) → M W (Unit {0})

module _ {W : Type 0} (machine : Machine W) where
  -- The name is copied by `strncpy` into a zeroed field: its first 16 bytes.
  unfoldable pub interface_ioctl_on : FileDescriptor → Request → List ℕ → Setting → M W (Unit {0})
  interface_ioctl_on fd request name setting w =
      let ifr : Ifreq = record { ifr_name = take ifnamsiz name; setting = setting } in
      let (answer, v) = machine.ioctl fd.fd request ifr w in
      (system_call_text (bytes "ioctl " ++ name) answer, v) >>> λ _ u. (ok tt, u)

  module _ (names : Resolver) (net : Net) where
    -- over a temporary socket
    unfoldable pub interface_ioctl : Request → List ℕ → Setting → M W (Unit {0})
    unfolding interface_ioctl_on Socket.new_socket
    interface_ioctl request name setting w =
        (Socket.new_socket net af_inet sock_dgram, w) >>> λ temp v.
        interface_ioctl_on temp request name setting v

    -- The netmask is made of its text when its turn has come, with the socket open.
    set_netmask : List ℕ → M W (Unit {0})
    unfolding interface_ioctl_on Socket.new_socket of_ip
    set_netmask name w = (Socket.new_socket net af_inet sock_dgram, w) >>> λ temp w1.
        (of_ip names (bytes "255.255.255.255") 0, w1) >>> λ netmask w2.
        interface_ioctl_on temp siocsifnetmask name (address netmask) w2

    unfoldable pub assign_address : List ℕ → Address → Address → M W (Unit {0})
    unfolding interface_ioctl set_netmask
    assign_address device_name addr peer w =
        interface_ioctl siocsifaddr device_name (address addr) w >>> λ _ w1.
        interface_ioctl siocsifdstaddr device_name (address peer) w1 >>> λ _ w2.
        set_netmask device_name w2 >>> λ _ w3. interface_ioctl siocsifflags device_name iff_up w3

    -- a TunDevice
    unfoldable pub tun_device : List ℕ → Address → Address → M W FileDescriptor
    unfolding FileDescriptor.construct interface_ioctl_on assign_address
    tun_device name addr peer w =
        (
          do
            fd ← system_call "open /dev/net/tun" machine.open_tun
            FileDescriptor.construct fd (net.fcntl fd),
          w,
        )
        >>> λ tun w1. interface_ioctl_on tun tunsetiff name iff_tun w1 >>> λ _ w2.
            assign_address name addr peer w2 >>> λ _ w3. (ok tun, w3)

-- A name that does not start with "veth-" is refused.
unfoldable pub name_check : List ℕ → Outcome (Unit {0})
unfolding find_text
name_check str = elim (find_text (bytes "veth-") str) [
  | some zero ↦ ok tt
  | _ ↦ thrown (runtime_text (str ++ bytes ": name of veth device must start with \"veth-\""))
]

pub record VirtualEthernetPair : Type 0 where
  pub name : List ℕ
  pub kernel_will_destroy : Bool

-- the path of the program ip, from config.h
module _ {W : Type 0} (machine : Machine W) (ip : List ℕ) where
  unfoldable pub construct : List ℕ → List ℕ → M W VirtualEthernetPair
  unfolding name_check
  construct outside_name inside_name w =
      (name_check outside_name >> name_check inside_name, w) >>> λ _ v.
      machine.run
        (ip
          ∷ bytes "link"
          ∷ bytes "add"
          ∷ outside_name
          ∷ bytes "type"
          ∷ bytes "veth"
          ∷ bytes "peer"
          ∷ bytes "name"
          ∷ inside_name
          ∷ [])
        v
      >>> λ _ u. (ok (record { name = outside_name; kernel_will_destroy = false }), u)

  unfoldable pub destroy : VirtualEthernetPair → M W (Unit {0})
  destroy s w =
      if s.kernel_will_destroy
      then (ok tt, w)
      else catching (machine.run (ip ∷ bytes "link" ∷ bytes "del" ∷ s.name ∷ []) w)
          (λ _ v. (ok tt, v))

unfoldable pub set_kernel_will_destroy : VirtualEthernetPair → VirtualEthernetPair
set_kernel_will_destroy s = record s { kernel_will_destroy = true }
