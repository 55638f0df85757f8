-- ===== src/Store/Memory.antt =====
-- store.go: memoryStore. The locks make each operation one step. A lease is a value here: the
-- store hands out a pointer to the one it keeps, and its only writer saves it under the same key.
pub mod Cases
pub mod Valid
pub mod Purge
pub mod Counts
pub mod Laws
pub mod Twice
pub mod Contents
pub mod Listed
use wgipam.Base.{
  ℕ, ◌+◌, Bool, true, false, not, Option, none, some, List, [], ◌∷◌, ◌++◌, map, ◌==◌, nat_eq,
  if◌then◌else◌,
}
use wgipam.Base.Int.{ℤ}
use wgipam.Base.Map.{Map, lookup, insert, erase, member, discard}
use wgipam.Base.Result.{
  Result, ok, err, panic, hang, M, pure, fail_if, ◌>>◌, no_such_subnet, cannot_contain,
  invalid_cidr,
}
use wgipam.Net.{IpNet, Cidr, cidr_eq, string, contains, parse_cidr}
use wgipam.Store.{check_subnet_contains, tally}
use wgipam.Lease.{Lease, expired}

-- memoryStore
pub record Memory : Type 0 where
  pub leases : Map ℕ Lease
  pub subnets : Map Cidr (List Cidr)

-- MemoryStore
abbrev pub memory_store : Memory
memory_store = record { leases = []; subnets = [] }

-- Close
unfoldable pub close : M Memory Unit
close = pure tt

abbrev values : Map ℕ Lease → List Lease
values = map λ e. e.1

-- Leases
unfoldable pub leases : M Memory (List Lease)
leases s = (ok (values s.leases), s)

-- Lease
unfoldable pub lease : ℕ → M Memory (Option Lease)
lease key s = (ok (lookup key s.leases), s)

-- SaveLease
unfoldable pub save_lease : ℕ → Lease → M Memory Unit
save_lease key l s = (ok tt, record s { leases = insert key l s.leases })

-- DeleteLease
unfoldable pub delete_lease : ℕ → M Memory Unit
delete_lease key s = (ok tt, record s { leases = erase key s.leases })

-- Purge, the first loop: what is left of the leases, and the addresses of the expired ones
unfoldable pub sweep_leases : ℤ → Map ℕ Lease → Map ℕ Lease × List IpNet
sweep_leases t [] = ([], [])
sweep_leases t ((k, v) ∷ ls) =
    let (rest, freed) = sweep_leases t ls in
    if expired v t then (rest, v.ips ++ freed) else ((k, v) ∷ rest, freed)

-- Purge, the innermost loop: one subnet's set without the freed addresses, and the count of those
-- that lie in the subnet
unfoldable pub free_within : IpNet → List IpNet → List Cidr → ℕ → List Cidr × ℕ
free_within cidr [] ips n = (ips, n)
free_within cidr (f ∷ freed) ips n =
    free_within cidr freed (if contains cidr f.ip then discard (string f) ips else ips)
      (if contains cidr f.ip then n + 1 else n)

-- Purge, the loop over the subnets. It stops at a text that does not parse, with what it did so
-- far done.
unfoldable pub sweep_subnets :
    List IpNet → Map Cidr (List Cidr) → Result (Map Cidr ℕ) × Map Cidr (List Cidr)
unfolding free_within
sweep_subnets freed [] = (ok [], [])
sweep_subnets freed ((sub, ips) ∷ subs) =
    let (r, rest) = sweep_subnets freed subs in
    elim (parse_cidr sub) [
      | none ↦ (err invalid_cidr, (sub, ips) ∷ subs)
      | some (ip, cidr) ↦
          let (kept, n) = free_within (record cidr { ip = ip }) freed ips 0 in
          (
            elim r [ ok ps ↦ ok (tally sub n ps) | err e ↦ err e | panic ↦ panic | hang ↦ hang ],
            (sub, kept) ∷ rest,
          )
    ]

-- Purge
unfoldable pub purge : ℤ → M Memory (Map Cidr ℕ)
unfolding sweep_leases sweep_subnets
purge t s =
    let (rest, freed) = sweep_leases t s.leases in
    let (r, subs) = sweep_subnets freed s.subnets in (r, record { leases = rest; subnets = subs })

-- The loop of Subnets: each network as it parses
unfoldable pub parse_nets : List Cidr → Result (List IpNet)
parse_nets [] = ok []
parse_nets (k ∷ ks) =
    let rest = parse_nets ks in
    elim (parse_cidr k) [
      | none ↦ err invalid_cidr
      | some (ip, cidr) ↦ elim rest [ ok ns ↦ ok (cidr ∷ ns) | r ↦ r ]
    ]

-- The loop of AllocatedIPs: each network with its whole address put back
unfoldable pub parse_ips : List Cidr → Result (List IpNet)
parse_ips [] = ok []
parse_ips (k ∷ ks) =
    let rest = parse_ips ks in
    elim (parse_cidr k) [
      | none ↦ err invalid_cidr
      | some (ip, cidr) ↦ elim rest [ ok ns ↦ ok (record cidr { ip = ip } ∷ ns) | r ↦ r ]
    ]

abbrev keys : Map Cidr (List Cidr) → List Cidr
keys = map λ e. e.0

-- Subnets
unfoldable pub subnets : M Memory (List IpNet)
unfolding parse_nets
subnets s = (parse_nets (keys s.subnets), s)

-- SaveSubnet
unfoldable pub save_subnet : IpNet → M Memory Unit
save_subnet sub s = (ok tt, record s { subnets = insert (string sub) [] s.subnets })

-- AllocatedIPs
unfoldable pub allocated_ips : IpNet → M Memory (List IpNet)
unfolding parse_ips
allocated_ips sub s = elim (lookup (string sub) s.subnets) [
  | none ↦ (err no_such_subnet, s)
  | some ips ↦ (parse_ips ips, s)
]

-- AllocateIP, under its lock
abbrev pub take_ip : Cidr → Cidr → M Memory Bool
take_ip sub ip s = elim (lookup sub s.subnets) [
  | none ↦ (err no_such_subnet, s)
  | some ips ↦
      if member ip ips
      then (ok false, s)
      else (ok true, record s { subnets = insert sub (ip ∷ ips) s.subnets })
]

-- AllocateIP
unfoldable pub allocate_ip : IpNet → IpNet → M Memory Bool
allocate_ip sub ip = check_subnet_contains sub ip >> take_ip (string sub) (string ip)

-- FreeIP, under its lock
abbrev pub drop_ip : Cidr → Cidr → M Memory Unit
drop_ip sub ip s = elim (lookup sub s.subnets) [
  | none ↦ (err no_such_subnet, s)
  | some ips ↦ (ok tt, record s { subnets = insert sub (discard ip ips) s.subnets })
]

-- FreeIP
unfoldable pub free_ip : IpNet → IpNet → M Memory Unit
free_ip sub ip = check_subnet_contains sub ip >> drop_ip (string sub) (string ip)
