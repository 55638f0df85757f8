-- ===== src/Tests/Stores.antt =====
-- The theorems on the stores and the metrics, at a store for 192.0.2.0/30.
use wgipam.Base.{◌≡◌, ◌*◌, ◌^◌, nat_eq, refl, true, false, [], ◌∷◌}
use wgipam.Base.Int.{ℤ, pos}
use wgipam.Base.Map.{lookup}
use wgipam.Base.Sets.{holds}
use wgipam.Base.Result.{ok}
use wgipam.Net.{IpNet, string, cidr_eq}
use wgipam.Net.Laws.{restored}
use wgipam.Base.{◌↔◌}
use wgipam.Store.{Store}
use wgipam.Metrics.Transparent.{shown, metrics_ip_store-IsTransparent}
use wgipam.Store.Memory.{Memory, purge, allocate_ip, free_ip}
use wgipam.Store.Memory.Valid.{IsValid, allocate_ip-IsValid}
use wgipam.Store.Memory.Purge.{holds-purge, lookup-purge, purge-purge, unexpired, IsExpiredIn}
use wgipam.Metrics.Bounds.{IsAtMost, gauges-IsAtMost}
use wgipam.Store.Memory.Twice.{allocate_ip-allocate_ip, free_ip-free_ip}
use wgipam.Store.Memory.Laws.{memory_ops}
use wgipam.Store.Contract.{StoreLaws}
use wgipam.Store.Memory.{save_subnet, save_lease, allocate_ip as memory_allocate_ip}
use wgipam.Net.{network, contains, within, agree}
use wgipam.Base.{ℕ, none, arith}
use wgipam.Metrics
use wgipam.Metrics.{Gauges, metrics_ip_store}
use wgipam.Metrics.Gauge.{IsExact, allocate_ip-IsExact, free_ip-IsExact}
use wgipam.Store.Bolt.{key_bytes, marshal_ip_net, unmarshal_ip_net}
use wgipam.Store.Bolt.Keys.{value_of, value_of-key_bytes, unmarshal-marshal}
use wgipam.Base.{true, none}
use wgipam.Store.Bolt.{Key, Bucket, Bolt, bolt_ops, file_store}
use wgipam.Store.Bolt.Saved.{IsIntact, bolt_view}
use wgipam.Store.Bolt.Opened.{IsOurs, file_store-IsIntact}
use wgipam.Store.Bolt.Laws.{bolt-StoreLaws}
use wgipam.Store.Bolt.Listed.{bolt-ListingLaws}
use wgipam.Store.Contract.Listing.{ListingLaws}
use wgipam.Tests.Database.{Database, listed, listed_laws}
use wgipam.Tests.World.{
  office_allocates, office_valid, first_host_valid, office, office_text, first_host, first_lease,
  office_store, leased_store, leased_store-IsValid,
}

-- Ten minutes after the start, when the lease has expired
abbrev later : ℤ
later = pos (600 * 10 ^ 9)

lookup-purge_example :
    lookup 1 (purge later leased_store).1.leases ≡ unexpired later (lookup 1 leased_store.leases)
lookup-purge_example = lookup-purge later 1 leased_store leased_store-IsValid

holds-purge_example :
    (holds office_text (string first_host) (purge later leased_store).1.subnets ≡ true) ↔ (
      (holds office_text (string first_host) leased_store.subnets ≡ true)
      × (IsExpiredIn later (restored office_text) (string first_host) leased_store.leases → ⊥))
holds-purge_example =
    holds-purge later office_text (string first_host) leased_store leased_store-IsValid

purge-purge_example :
    purge later (purge later leased_store).1 ≡ (ok [], (purge later leased_store).1)
purge-purge_example = purge-purge later leased_store leased_store-IsValid

allocate_ip-IsValid_example : IsValid (allocate_ip office first_host leased_store).1
allocate_ip-IsValid_example =
    allocate_ip-IsValid office first_host leased_store office_valid.0 first_host_valid
      leased_store-IsValid

allocate_ip-allocate_ip_example :
    allocate_ip office first_host (allocate_ip office first_host office_store).1
    ≡ (ok false, (allocate_ip office first_host office_store).1)
allocate_ip-allocate_ip_example =
    allocate_ip-allocate_ip office first_host office_store office_allocates

free_ip-free_ip_example :
    free_ip office first_host (free_ip office first_host leased_store).1
    ≡ free_ip office first_host leased_store
free_ip-free_ip_example = free_ip-free_ip office first_host leased_store

-- The interface's store inside a metricsIPStore whose gauge shows one address
abbrev one_gauge : Gauges
one_gauge = record {
  ips_allocated = (string office, pos 1) ∷ [];
  subnet_allocatable_size = [];
  last_purge = none;
  readings = 0;
}

abbrev still : ℕ → ℤ
still n = pos 0

one_gauge-IsExact : IsExact (string office) (leased_store, one_gauge)
unfolding string network save_subnet save_lease memory_allocate_ip contains within agree
one_gauge-IsExact = refl

first_host_taken : holds (string office) (string first_host) leased_store.subnets ≡ true
unfolding string network save_subnet save_lease memory_allocate_ip contains within agree
first_host_taken = refl

abbrev gauged : Store (Memory × Gauges)
gauged = metrics_ip_store memory_ops still

metrics_ip_store-IsTransparent_example :
    (shown (gauged.allocate_ip office first_host (leased_store, one_gauge))
      ≡ memory_ops.allocate_ip office first_host leased_store)
    × (shown (gauged.free_ip office first_host (leased_store, one_gauge))
        ≡ memory_ops.free_ip office first_host leased_store)
    × (shown (gauged.purge later (leased_store, one_gauge)) ≡ memory_ops.purge later leased_store)
    × (shown (gauged.leases (leased_store, one_gauge)) ≡ memory_ops.leases leased_store)
    × (shown (gauged.lease 1 (leased_store, one_gauge)) ≡ memory_ops.lease 1 leased_store)
    × (shown (gauged.save_lease 1 first_lease (leased_store, one_gauge))
        ≡ memory_ops.save_lease 1 first_lease leased_store)
    × (shown (gauged.delete_lease 1 (leased_store, one_gauge))
        ≡ memory_ops.delete_lease 1 leased_store)
    × (shown (gauged.subnets (leased_store, one_gauge)) ≡ memory_ops.subnets leased_store)
    × (shown (gauged.save_subnet office (leased_store, one_gauge))
        ≡ memory_ops.save_subnet office leased_store)
    × (shown (gauged.allocated_ips office (leased_store, one_gauge))
        ≡ memory_ops.allocated_ips office leased_store)
    × (shown (gauged.close (leased_store, one_gauge)) ≡ memory_ops.close leased_store)
metrics_ip_store-IsTransparent_example =
    metrics_ip_store-IsTransparent memory_ops still 1 first_lease office first_host later
      leased_store one_gauge

allocate_ip-IsExact_example :
    IsExact
      (string office)
      (Metrics.allocate_ip memory_ops still office first_host (leased_store, one_gauge)).1
allocate_ip-IsExact_example =
    allocate_ip-IsExact still office first_host (string office) (leased_store, one_gauge)
      one_gauge-IsExact

free_ip-IsExact_example :
    IsExact
      (string office)
      (Metrics.free_ip memory_ops still office first_host (leased_store, one_gauge)).1
free_ip-IsExact_example =
    free_ip-IsExact still office first_host (string office) (leased_store, one_gauge)
      leased_store-IsValid first_host_taken one_gauge-IsExact

one_gauge-IsAtMost : IsAtMost (string office) (leased_store, one_gauge)
one_gauge-IsAtMost = ground (arith, one_gauge-IsExact)

gauges-IsAtMost_example :
    IsAtMost
      (string office)
      (Metrics.allocate_ip memory_ops still office first_host (leased_store, one_gauge)).1
    × IsAtMost
        (string office)
        (Metrics.free_ip memory_ops still office first_host (leased_store, one_gauge)).1
    × IsAtMost (string office) (Metrics.purge memory_ops still later (leased_store, one_gauge)).1
gauges-IsAtMost_example =
    gauges-IsAtMost still office first_host later (string office) (leased_store, one_gauge)
      leased_store-IsValid one_gauge-IsAtMost

value_of-key_bytes_example : value_of (key_bytes 258) ≡ 258
value_of-key_bytes_example = value_of-key_bytes 258 (ground arith)

unmarshal-marshal_example :
    (m : IpNet) × (unmarshal_ip_net (marshal_ip_net first_host) ≡ ok m)
    × (string m ≡ string first_host)
unmarshal-marshal_example = unmarshal-marshal first_host first_host_valid

bolt-StoreLaws_example : StoreLaws (bolt_ops listed) (bolt_view listed listed_laws)
bolt-StoreLaws_example = bolt-StoreLaws listed listed_laws

-- A new file
abbrev new_file : Database
new_file = []

new_file-IsOurs : IsOurs listed listed_laws new_file
unfolding listed_laws
new_file-IsOurs = record {
  fine = (tt, tt);
  readable = λ k x e. absurd (cc e);
  keyed = λ k x e. absurd (cc e);
  nets = λ k e. absurd (cc e);
  ips = λ c k x e. absurd (cc e);
}

file_store-IsIntact_example :
    (s : Bolt listed) × (file_store listed new_file ≡ ok s)
    × IsIntact listed listed_laws s
    × (s.subnets ≡ [])
    × ((c : Bucket) (j : Key) → listed.get c j s.file ≡ listed.get c j new_file)
file_store-IsIntact_example = file_store-IsIntact listed listed_laws new_file new_file-IsOurs

bolt-ListingLaws_example : ListingLaws (bolt_ops listed) (bolt_view listed listed_laws)
bolt-ListingLaws_example = bolt-ListingLaws listed listed_laws
