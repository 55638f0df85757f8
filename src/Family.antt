-- ===== src/Family.antt =====
-- ipallocator.go: the type Family, ipFamily and ipMask. A Family is a number, since the handler
-- builds it by bitwise or; the constants are 1, 2 and 3.
use wgipam.Base.{◌≡◌, ◌⊎◌, arith, ℕ, Option, none, some, ◌==◌, nat_eq, if◌then◌else◌}
use wgipam.Base.Result.{Result, ok, panic}
use wgipam.Net.{Ip, nil, IpNet, Mask, w32, w128, to4, to16, IsNet, string}

abbrev pub Family : Type 0
Family = ℕ

abbrev pub ipv4 : Family
ipv4 = 1

abbrev pub ipv6 : Family
ipv6 = 2

abbrev pub dual_stack : Family
dual_stack = 3

-- ipFamily panics on an address of a wrong length.
abbrev family_of : Ip → Option ℕ → Result Family
family_of nil _ = panic
family_of _ (some _) = ok ipv4
family_of _ none = ok ipv6

unfoldable pub ip_family : IpNet → Result Family
ip_family n = family_of (to16 n.ip) (to4 n.ip)

-- ipMask: a mask that leaves a single address
unfoldable pub ip_mask : IpNet → Result Mask
unfolding ip_family
ip_mask n = elim (ip_family n) [
  | ok f ↦
      if f == ipv4
      then ok (record { ones = 32; width = w32 })
      else if f == ipv6
      then ok (record { ones = 128; width = w128 })
      else panic
  | _ ↦ panic
]

-- The mask of a single address of a family
abbrev pub family_mask : Family → Mask
family_mask f =
    if f == ipv4 then record { ones = 32; width = w32 } else record { ones = 128; width = w128 }

-- An address with a family has that family's mask.
pub mask_of : (n : IpNet) (f : Family) → ip_family n ≡ ok f → ip_mask n ≡ ok (family_mask f)
unfolding ip_mask
mask_of n f h = ground arith

-- A well-formed network is of one of the two families.
pub family_cases : (n : IpNet) → IsNet n → (ip_family n ≡ ok ipv4) ⊎ (ip_family n ≡ ok ipv6)
unfolding ip_family string
family_cases n h = ground arith
