-- ===== src/Store/Memory/Contents.antt =====
-- memoryStore (store.go): AllocatedIPs and Subnets list what is there.
use wgipam.Base.{◌≡◌, refl, some, List, [], ◌∷◌, map, All, arith}
use wgipam.Base.Map.{lookup, All-lookup}
use wgipam.Base.Result.{ok}
use wgipam.Net.{IpNet, Cidr, cidr_eq, string}
use wgipam.Net.Laws.{restored, parse_cidr-eq, string-restored}
use wgipam.Store.Contract.Listing.{IsReadBack, restored-IsReadBack}
use wgipam.Store.Memory.{Memory, parse_ips, allocated_ips}
use wgipam.Store.Memory.Valid.{IsValid, IsEntry, IsMember}

parse_ips_lem :
    (sub : Cidr) (ks : List Cidr)
    → All (IsMember sub) ks
    → (ips : List IpNet) × (parse_ips ks ≡ ok ips) × (map string ips ≡ ks) × All IsReadBack ips
unfolding parse_ips
parse_ips_lem sub [] h = ([], refl, refl, tt)
parse_ips_lem sub (k ∷ ks) h =
    let (ips, e, same, back) = parse_ips_lem sub ks h.1 in
    (
      restored k ∷ ips,
      ground (arith, e, parse_cidr-eq k h.0.0),
      ground (arith, same, string-restored k h.0.0),
      (restored-IsReadBack k h.0.0, back),
    )

-- For a subnet that exists in a valid store, AllocatedIPs lists the allocated addresses, each once, in a form
-- that prints as it was stored and is read back from what is printed.
pub allocated_ips_lem :
    (sub : IpNet) (s : Memory) (ks : List Cidr)
    → IsValid s
    → lookup (string sub) s.subnets ≡ some ks
    → (ips : List IpNet) × (allocated_ips sub s ≡ (ok ips, s))
      × (map string ips ≡ ks)
      × All IsReadBack ips
unfolding allocated_ips
allocated_ips_lem sub s ks v found =
    let (ips, e, same, back) =
      parse_ips_lem (string sub) ks
        (All-lookup IsEntry (string sub) ks s.subnets v.entries found).2 in
    (ips, rw (found, allocated_ips, e), same, back)
