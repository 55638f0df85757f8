-- ===== src/Net.antt =====
-- What the program uses of Go's package net: addresses, masks, networks and the CIDR notation.
--
-- An address of 4 or 16 bytes is its big-endian value; every other length is `nil`. A mask is
-- contiguous, as `net.CIDRMask` and `net.ParseCIDR` make them: its length and its leading ones.
-- The text of a network is modelled by what it denotes, a `Cidr`: `IPNet.String` prints an address
-- and a prefix length, equal texts are equal pairs, and `net.ParseCIDR` reads them back.
pub mod Laws
use wgipam.Base.{
  ℕ, ◌+◌, ◌-◌, ◌*◌, ◌/◌, ◌%◌, ◌^◌, ◌≤◌, ◌<◌, ◌≡◌, ◌≢◌, ◌↔◌, Bool, true, false, ◌&&◌, Option, none,
  some, arith, eqb, leb, Eq, if◌then◌else◌,
}

pub data Ip : Type 0 where
  nil : Ip
  bytes4 bytes16 : ℕ → Ip

pub data Width : Type 0 where
  w32 w128 : Width

pub record Mask : Type 0 where
  pub ones : ℕ
  pub width : Width

-- net.IPNet
pub record IpNet : Type 0 where
  pub ip : Ip
  pub mask : Mask

-- ::ffff:0:0, the first address of the IPv4-mapped block
abbrev pub mapped : ℕ
mapped = 0xffff_0000_0000

abbrev pub block : ℕ
block = 0x1_0000_0000

-- IP.To4
abbrev pub to4 : Ip → Option ℕ
to4 nil = none
to4 (bytes4 a) = some a
to4 (bytes16 a) = if eqb (a / block) 0xffff then some (a % block) else none

-- IP.To16
abbrev pub to16 : Ip → Ip
to16 nil = nil
to16 (bytes4 a) = bytes16 (mapped + a)
to16 (bytes16 a) = bytes16 a

-- IP.Equal: a 4-byte address equals its IPv4-mapped form.
abbrev pub equal : Ip → Ip → Bool
equal nil nil = true
equal (bytes4 a) (bytes4 b) = eqb a b
equal (bytes4 a) (bytes16 b) = eqb (mapped + a) b
equal (bytes16 a) (bytes4 b) = eqb a (mapped + b)
equal (bytes16 a) (bytes16 b) = eqb a b
equal _ _ = false

-- net.IPv4zero and net.IPv6zero
abbrev pub ipv4_zero : Ip
ipv4_zero = bytes16 mapped

abbrev pub ipv6_zero : Ip
ipv6_zero = bytes16 0

-- The value with its last `k` bits cleared.
unfoldable pub clear : ℕ → ℕ → ℕ
clear k a = a / 2 ^ k * 2 ^ k

-- IP.Mask
unfoldable pub masked : Ip → Mask → Ip
masked nil m = nil
masked (bytes4 a) m = elim m.width [
  | w32 ↦ bytes4 (clear (32 - m.ones) a)
  | w128 ↦ if leb 96 m.ones then bytes4 (clear (128 - m.ones) a) else nil
]
masked (bytes16 a) m = elim m.width [
  | w32 ↦ if eqb (a / block) 0xffff then bytes4 (clear (32 - m.ones) (a % block)) else nil
  | w128 ↦ bytes16 (clear (128 - m.ones) a)
]

-- The text of a network: an IPv4 or IPv6 address and a prefix length, or "<nil>".
pub data Cidr : Type 0 where
  cidr4 cidr6 : ℕ → ℕ → Cidr
  unprintable : Cidr

-- net's networkNumberAndMask: the address in its short form, and the mask cut to its length
unfoldable pub network : Option ℕ → Ip → Mask → Cidr
network (some a) ip m = elim m.width [ w32 ↦ cidr4 a m.ones | w128 ↦ cidr4 a (m.ones - 96) ]
network none (bytes16 a) m = elim m.width [ w32 ↦ unprintable | w128 ↦ cidr6 a m.ones ]
network none _ m = unprintable

-- IPNet.String
unfoldable pub string : IpNet → Cidr
unfolding network
string n = network (to4 n.ip) n.ip n.mask

-- Do two addresses agree but for their last `k` bits?
unfoldable pub agree : ℕ → ℕ → ℕ → Bool
agree k a b = eqb (a / 2 ^ k) (b / 2 ^ k)

unfoldable pub within : Cidr → Option ℕ → Ip → Bool
within (cidr4 a k) (some b) ip = agree (32 - k) a b
within (cidr6 a k) none (bytes16 b) = agree (128 - k) a b
within unprintable none nil = true
within _ _ _ = false

-- IPNet.Contains: with no bytes on either side the loop over them finds no difference.
unfoldable pub contains : IpNet → Ip → Bool
contains n ip = within (string n) (to4 ip) ip

-- net.ParseCIDR: the address in its 16-byte form, and the network that it lies in
unfoldable pub parse_cidr : Cidr → Option (Ip × IpNet)
parse_cidr (cidr4 a k) =
    if leb k 32
    then some (
      bytes16 (mapped + a),
      record { ip = bytes4 (clear (32 - k) a); mask = record { ones = k; width = w32 } },
    )
    else none
parse_cidr (cidr6 a k) =
    if leb k 128
    then some (
      bytes16 a,
      record { ip = bytes16 (clear (128 - k) a); mask = record { ones = k; width = w128 } },
    )
    else none
parse_cidr unprintable = none

-- What a well-formed text can denote.
abbrev pub IsCidr : Cidr → Type 0
IsCidr (cidr4 a k) = (a < block) × (k ≤ 32)
IsCidr (cidr6 a k) = (a / block ≢ 0xffff) × (k ≤ 128)
IsCidr unprintable = ⊥

abbrev pub IsNet : IpNet → Type 0
IsNet n = IsCidr (string n)

-- Does the text denote an IPv6 network over the IPv4-mapped addresses, which Go reads as IPv4?
abbrev pub covers_mapped : Cidr → Bool
covers_mapped (cidr6 a k) = agree (128 - k) a mapped
covers_mapped _ = false

-- A network all of whose addresses are of its own family
abbrev pub IsPrefix : IpNet → Type 0
IsPrefix n = IsNet n × (covers_mapped (string n) ≡ false)

abbrev pub cidr_beq : Cidr → Cidr → Bool
cidr_beq (cidr4 a k) (cidr4 b j) = eqb a b && eqb k j
cidr_beq (cidr6 a k) (cidr6 b j) = eqb a b && eqb k j
cidr_beq unprintable unprintable = true
cidr_beq _ _ = false

pub cidr_beq_iff : (a b : Cidr) → (cidr_beq a b ≡ true) ↔ (a ≡ b)
cidr_beq_iff (cidr4 a k) b = ground arith
cidr_beq_iff (cidr6 a k) b = ground arith
cidr_beq_iff unprintable b = ground arith

instance abbrev pub cidr_eq : Eq Cidr
cidr_eq = record { beq = cidr_beq; beq_iff = cidr_beq_iff }
