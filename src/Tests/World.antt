-- ===== src/Tests/World.antt =====
-- One interface that serves 192.0.2.0/30 over a memoryStore, as runServer sets it up.
use wgipam.Base.{ℕ, ◌*◌, ◌^◌, ◌≡◌, refl, true, none, some, List, [], ◌∷◌, ◌∙◌, sym, arith}
use wgipam.Base.Sets.{has}
use wgipam.Base.Map.{lookup}
use wgipam.Base.Result.{ok}
use wgipam.Base.Int.{ℤ, pos}
use wgipam.Net.{
  nil, bytes4, IpNet, Cidr, cidr_eq, cidr4, w32, string, network, agree, clear, IsPrefix, IsNet,
  contains, within,
}
use wgipam.Family.{ipv4, ip_family}
use wgipam.Lease.{Lease}
use wgipam.Store.Memory.{Memory, memory_store, save_subnet, allocate_ip, free_ip, save_lease}
use wgipam.Store.Memory.Valid.{
  IsValid, memory_store-IsValid, save_subnet-IsValid, allocate_ip-IsValid, save_lease-IsValid,
}
use wgipam.Store.Memory.Laws.{memory_ops, memory_view, memory-StoreLaws}
use wgipam.IpAllocator.Simple.{Simple}
use wgipam.IpAllocator.Simple.Allocate.{IsReady}
use wgipam.IpAllocator.Grants.{IsGood}
use wgipam.IpAllocator.Multi.{Multi}
use wgipam.IpAllocator.Multi.Each.{AllServing}
use wgipam.IpAllocator.Multi.Allocate.{NoOverlap}
use wgipam.Handler.{RequestIp, Clock}
use wgipam.Server.{State, Event, requests, ticks}
use wgipam.Server.Sound.{IsSound}
use wgipam.Server.Running.{IsRunning}
use wgipam.Tests.Numbered.{numbered, numbered_laws, number_at}

-- 192.0.2.0/30
abbrev pub office_text : Cidr
office_text = cidr4 0xc0000200 30

abbrev pub office : IpNet
office = record { ip = bytes4 0xc0000200; mask = record { ones = 30; width = w32 } }

-- The network that is served
abbrev pub IsOffice : IpNet → Type 0
IsOffice n = string n ≡ office_text

pub office-NoOverlap : NoOverlap IsOffice
office-NoOverlap m n ip hm hn a b = hm ∙ sym hn

abbrev pub office_store : Memory
office_store = (save_subnet office memory_store).1

abbrev pub office_allocator : Simple numbered
office_allocator = record {
  family = ipv4;
  sub = record { subnet = office; start = nil; last = nil; reserved = [] };
  prefix = office;
  cursor = (office, 0);
  start = number_at office 0;
  last = none;
}

abbrev pub office_pool : Multi numbered
office_pool = record { v4 = office_allocator ∷ []; v6 = [] }

pub office_valid : IsPrefix office
unfolding string network agree
office_valid = ground arith

pub office_store-IsValid : IsValid office_store
office_store-IsValid = save_subnet-IsValid office memory_store office_valid.0 memory_store-IsValid

office_exists : has office_text office_store.subnets ≡ true
unfolding save_subnet string network
office_exists = refl

pub office_store-IsGood : IsGood memory_view IsOffice office_store
office_store-IsGood = record { inv = office_store-IsValid; exists = λ n h. rw h office_exists }

unfoldable pub office_allocator-IsReady : IsReady numbered numbered_laws office_allocator
unfolding ip_family string network numbered_laws clear
office_allocator-IsReady = record {
  valid = office_valid;
  same_net = refl;
  families = refl;
  over = refl;
  start_at = 0;
  start-lt = ground arith;
  start-eq = refl;
}

pub office_pool-AllServing :
    AllServing numbered numbered_laws memory_ops memory_view memory-StoreLaws IsOffice office_pool
unfolding string network
office_pool-AllServing =
    ((record { ready = office_allocator-IsReady; served = refl; of_family = refl }, tt), tt)

-- a minute
abbrev pub lease_span : ℤ
lease_span = pos (60 * 10 ^ 9)

abbrev pub W : Type 0
W = State numbered memory_ops lease_span

abbrev pub office_world : W
office_world = (office_pool, office_store)

pub office_store-IsSound : IsSound memory_view IsOffice office_store
unfolding save_subnet
office_store-IsSound = record {
  good = office_store-IsGood;
  backed = λ k l e. absurd (cc e);
  apart = λ j k l m ne e e'. absurd (cc e);
}

pub office_world-IsRunning :
    IsRunning numbered numbered_laws memory_ops memory_view memory-StoreLaws IsOffice
      office-NoOverlap lease_span office_world
office_world-IsRunning = record { serving = office_pool-AllServing; sound = office_store-IsSound }

-- A request for any address
abbrev pub any_address : RequestIp
any_address = record { ips = []; lease_start = pos 0; lease_time = pos 0 }

abbrev pub at_second : ℕ → Clock
at_second n = record { since = n * 10 ^ 9; stamp = n * 10 ^ 9 }

-- Two clients, the first one again, and a purge
abbrev pub history : List Event
history =
    requests 1 any_address (at_second 10)
    ∷ requests 2 any_address (at_second 11)
    ∷ requests 1 any_address (at_second 12)
    ∷ ticks (pos (13 * 10 ^ 9))
    ∷ []

-- 192.0.2.1/32
abbrev pub first_host : IpNet
first_host = record { ip = bytes4 0xc0000201; mask = record { ones = 32; width = w32 } }

-- The store with that address allocated, and with the lease of a client that holds it
abbrev pub taken_store : Memory
taken_store = (allocate_ip office first_host office_store).1

abbrev pub first_lease : Lease
first_lease = record { ips = first_host ∷ []; start = pos 0; length = lease_span }

abbrev pub leased_store : Memory
leased_store = (save_lease 1 first_lease taken_store).1

pub first_host_valid : IsNet first_host
unfolding string network
first_host_valid = ground arith

pub leased_store-IsValid : IsValid leased_store
leased_store-IsValid = save_lease-IsValid 1 first_lease taken_store (
    allocate_ip-IsValid office first_host office_store office_valid.0 first_host_valid
      office_store-IsValid)

-- The network and its address are where they were put.
pub office_registered : has (string office) office_store.subnets ≡ true
unfolding save_subnet string network
office_registered = refl

pub office_taken : lookup (string office) leased_store.subnets ≡ some (cidr4 0xc0000201 32 ∷ [])
unfolding save_subnet allocate_ip save_lease string network contains within agree
office_taken = refl

pub office_allocates : (allocate_ip office first_host office_store).0 ≡ ok true
unfolding save_subnet allocate_ip string network contains within agree
office_allocates = refl

office_frees : (free_ip office first_host leased_store).0 ≡ ok tt
unfolding save_subnet allocate_ip free_ip save_lease string network contains within agree
office_frees = refl
