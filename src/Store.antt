-- ===== src/Store.antt =====
-- store.go: the interfaces Store, LeaseStore and IPStore, as records of operations over a state.
pub mod Memory
pub mod Bolt
pub mod Contract
pub mod Either
use wgipam.Base.{ℕ, Bool, not, Option, List, ◌∷◌, ◌==◌, nat_eq, if◌then◌else◌}
use wgipam.Base.Int.{ℤ}
use wgipam.Base.Map.{Map}
use wgipam.Base.Result.{M, fail_if, cannot_contain}
use wgipam.Net.{IpNet, Cidr, contains}
use wgipam.Lease.{Lease}

-- PurgeStats.FreedIPs: a network's text and the number of addresses freed within it
abbrev pub PurgeStats : Type 0
PurgeStats = Map Cidr ℕ

-- LeaseStore
pub record LeaseStore (S : Type 0) : Type 0 where
  pub leases : M S (List Lease)
  -- `none` is Go's `ok == false`.
  pub lease : ℕ → M S (Option Lease)
  pub save_lease : ℕ → Lease → M S Unit
  pub delete_lease : ℕ → M S Unit

-- IPStore
pub record IpStore (S : Type 0) : Type 0 where
  pub subnets : M S (List IpNet)
  pub save_subnet : IpNet → M S Unit
  pub allocated_ips : IpNet → M S (List IpNet)
  pub allocate_ip : IpNet → IpNet → M S Bool
  pub free_ip : IpNet → IpNet → M S Unit

-- Store
pub record Store (S : Type 0) : Type 0 where
  pub lease_store : LeaseStore S
  pub open lease_store use *
  pub ip_store : IpStore S
  pub open ip_store use *
  pub close : M S Unit
  pub purge : ℤ → M S PurgeStats

-- checkSubnetContains
abbrev pub check_subnet_contains : {S : Type 0} → IpNet → IpNet → M S Unit
check_subnet_contains sub ip = fail_if (not (contains sub ip.ip)) cannot_contain

-- `ps.FreedIPs[sub]++`, `n` times
abbrev pub tally : Cidr → ℕ → PurgeStats → PurgeStats
tally sub n ps = if n == 0 then ps else (sub, n) ∷ ps
