-- ===== src/IpAllocator/Subnet.antt =====
-- ipallocator.go: Subnet and Subnet.Validate. `nil` in a range's end stands for an unset one.
use wgipam.Base.{◌/◌, ◌^◌, Bool, true, false, not, ◌&&◌, List, any, ltb, leb, if◌then◌else◌}
use wgipam.Base.Result.{
  Result, ok, err, individual_address, start_outside, end_outside, end_before_start,
  reserved_outside,
}
use wgipam.Net.{Ip, nil, bytes4, bytes16, IpNet, equal, masked, contains}

-- Subnet
pub record Subnet : Type 0 where
  pub subnet : IpNet
  pub start : Ip
  pub last : Ip
  pub reserved : List Ip

-- `ip != nil`
abbrev pub is_set : Ip → Bool
is_set nil = false
is_set _ = true

-- `bytes.Compare(a, b) == 1`: the first 4 of 16 bytes against 4, and a longer one after its prefix
unfoldable pub comes_after : Ip → Ip → Bool
comes_after nil b = false
comes_after a nil = true
comes_after (bytes4 a) (bytes4 b) = ltb b a
comes_after (bytes4 a) (bytes16 b) = ltb (b / 2 ^ 96) a
comes_after (bytes16 a) (bytes4 b) = leb b (a / 2 ^ 96)
comes_after (bytes16 a) (bytes16 b) = ltb b a

-- The network of `Validate`: the address under its own mask
abbrev pub masked_net : IpNet → IpNet
masked_net n = record n { ip = masked n.ip n.mask }

-- Validate
unfoldable pub validate : Subnet → Result (Unit {0})
validate s =
    let sub = masked_net s.subnet in
    if not (equal s.subnet.ip sub.ip)
    then err individual_address
    else if is_set s.start && not (contains sub s.start)
    then err start_outside
    else if is_set s.last && not (contains sub s.last)
    then err end_outside
    else if is_set s.start && is_set s.last && comes_after s.start s.last
    then err end_before_start
    else if any (λ r. not (contains sub r)) s.reserved
    then err reserved_outside
    else ok tt
