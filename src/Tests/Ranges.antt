-- ===== src/Tests/Ranges.antt =====
-- The theorems on the range and the reserved addresses of an allocator, at 192.0.2.0/30.
use wgipam.Base.{
  List, Option, All, [], ◌∷◌, zero, suc, true, ◌<◌, ◌≡◌, refl, inl, inr, false, some, none, arith,
  nat_eq,
}
use wgipam.Net.{
  Ip, nil, IpNet, IsNet, cidr4, bytes4, string, network, contains, within, agree, clear, w32,
}
use wgipam.Base.Result.{Result, ok}
use wgipam.Family.{ip_mask, ipv4, ip_family}
use wgipam.Store.Memory.{Memory, save_subnet, allocate_ip}
use wgipam.Store.Memory.Valid.{IsValid, allocate_ip-IsValid}
use wgipam.Store.Memory.Laws.{memory_ops, memory_view, memory-StoreLaws}
use wgipam.IpAllocator.Simple
use wgipam.IpAllocator.Simple.Allocate.{IsReady}
use wgipam.IpAllocator.Simple.Range.{IsInRange}
use wgipam.IpAllocator.Simple.Skip.{IsOther, IsAscending}
use wgipam.IpAllocator.Simple.Reserved.{allocate-IsOther}
use wgipam.IpAllocator.Simple.Found.{Found, allocate-Found}
use wgipam.IpAllocator.Simple.Overrun.{IsUsedUp, Overruns, allocate-Overruns}
use wgipam.Tests.Numbered.{numbered, numbered_laws, number_at}
use wgipam.Tests.World.{
  office, office_valid, office_store, office_store-IsValid, office_registered, office_allocator,
  office_allocator-IsReady,
}

office_allocator-IsInRange : IsInRange numbered numbered_laws office_allocator 0 3
unfolding numbered_laws string network clear
office_allocator-IsInRange = record {
  from_start = ground arith;
  to_end = ground arith;
  inside = ground arith;
  end_eq = inl (refl, refl);
  no_reserved = refl;
}

allocate-Found_example :
    Found numbered numbered_laws memory_ops memory_view memory-StoreLaws office_allocator 0 3
      office_store
      (Simple.allocate numbered memory_ops.ip_store ipv4 (office_allocator, office_store))
unfolding office_allocator-IsReady numbered_laws save_subnet string network clear
allocate-Found_example =
    allocate-Found numbered numbered_laws memory_ops memory_view memory-StoreLaws office_allocator
      office_store office_allocator-IsReady office_store-IsValid office_registered 3
      office_allocator-IsInRange 2 (omega arith) (omega arith) refl

-- That allocator with another end, and with reserved addresses
abbrev variant : Option Ip → List Ip → Simple.Simple numbered
variant last reserved = record office_allocator {
  sub = record { subnet = office; start = nil; last = nil; reserved = reserved };
  last = last;
}

unfoldable variant-IsReady :
    (last : Option Ip) (reserved : List Ip) → IsReady numbered numbered_laws (variant last reserved)
unfolding ip_family string network numbered_laws clear
variant-IsReady last reserved = record {
  valid = office_valid;
  same_net = refl;
  families = refl;
  over = refl;
  start_at = 0;
  start-lt = ground arith;
  start-eq = refl;
}

-- The end is the first address, 192.0.2.0.
abbrev short_allocator : Simple.Simple numbered
short_allocator = variant (some (number_at office 1)) []

unfoldable short_allocator-IsReady : IsReady numbered numbered_laws short_allocator
short_allocator-IsReady = variant-IsReady (some (number_at office 1)) []

short_allocator-IsInRange :
    IsInRange numbered numbered_laws short_allocator short_allocator-IsReady.start_at 0
unfolding short_allocator-IsReady variant-IsReady numbered_laws string network clear
short_allocator-IsInRange = record {
  from_start = ground arith;
  to_end = ground arith;
  inside = ground arith;
  end_eq = inr (refl, ground arith);
  no_reserved = refl;
}

abbrev base_address : IpNet
base_address = record { ip = bytes4 0xc0000200; mask = record { ones = 32; width = w32 } }

-- The store where that address is allocated
abbrev full_store : Memory
full_store = (allocate_ip office base_address office_store).1

base_address_valid : IsNet base_address
unfolding string network
base_address_valid = ground arith

full_store-IsValid : IsValid full_store
full_store-IsValid =
    allocate_ip-IsValid office base_address office_store office_valid.0 base_address_valid
      office_store-IsValid

full_registered : memory_view.registered full_store (string office) ≡ true
unfolding save_subnet allocate_ip string network contains within agree
full_registered = refl

base_is_taken : memory_view.allocated full_store (cidr4 0xc0000200 30) (cidr4 0xc0000200 32) ≡ true
unfolding save_subnet allocate_ip string network contains within agree
base_is_taken = refl

full_store-IsUsedUp :
    IsUsedUp numbered numbered_laws memory_ops memory_view memory-StoreLaws short_allocator
      full_store short_allocator-IsReady.start_at 0
unfolding short_allocator-IsReady variant-IsReady numbered_laws string network clear
full_store-IsUsedUp zero _ _ = base_is_taken
full_store-IsUsedUp (suc k) _ last = absurd (omega (arith, last))

second_is_free :
    memory_view.allocated full_store (cidr4 0xc0000200 30) (cidr4 0xc0000201 32) ≡ false
unfolding save_subnet allocate_ip string network contains within agree
second_is_free = refl

two_more : 2 < numbered.num_nodes office
unfolding string network
two_more = ground arith

second_is_last : short_allocator.last ≡ some (numbered_laws.at office 1)
unfolding numbered_laws
second_is_last = refl

allocate-Overruns_example :
    Overruns numbered numbered_laws memory_ops memory_view memory-StoreLaws short_allocator
      full_store short_allocator-IsReady full_store-IsValid full_registered 0
      short_allocator-IsInRange full_store-IsUsedUp second_is_last two_more
unfolding short_allocator-IsReady variant-IsReady numbered_laws string network clear
allocate-Overruns_example =
    allocate-Overruns numbered numbered_laws memory_ops memory_view memory-StoreLaws short_allocator
      full_store short_allocator-IsReady full_store-IsValid full_registered 0
      short_allocator-IsInRange full_store-IsUsedUp second_is_last two_more second_is_free

-- The allocator that reserves 192.0.2.0 and 192.0.2.1
abbrev reserving_allocator : Simple.Simple numbered
reserving_allocator = variant none (number_at office 0 ∷ bytes4 0xc0000201 ∷ [])

reserved-IsAscending : IsAscending numbered numbered_laws office 0 reserving_allocator.sub.reserved
unfolding numbered_laws string network clear
reserved-IsAscending =
    (0, omega arith, ground arith, refl, (1, omega arith, ground arith, refl, tt))

abbrev third_host : IpNet
third_host = record { ip = number_at office 2; mask = record { ones = 32; width = w32 } }

abbrev reserving_run : Result (Option (List IpNet)) × Simple.W numbered memory_ops.ip_store
reserving_run =
    Simple.allocate numbered memory_ops.ip_store ipv4 (reserving_allocator, office_store)

third_is_found : reserving_run ≡ (ok (some (third_host ∷ [])), reserving_run.1)
unfolding Simple.allocate Simple.loop Simple.advance Simple.skip_reserved Simple.skip_current
    Simple.skip_next Simple.wrap Simple.attempt ip_mask ip_family save_subnet allocate_ip string
    network contains within agree clear
third_is_found = refl

allocate-IsOther_example :
    All (λ (ip : IpNet). IsOther reserving_allocator.sub.reserved ip.ip) (third_host ∷ [])
allocate-IsOther_example =
    allocate-IsOther numbered numbered_laws memory_ops memory_view memory-StoreLaws
      reserving_allocator office_store (variant-IsReady none reserving_allocator.sub.reserved)
      office_store-IsValid office_registered reserved-IsAscending (third_host ∷ []) reserving_run.1
      third_is_found

-- The allocator that reserves 192.0.2.2, 192.0.2.1 and 192.0.2.0, in this order, hands out the first.
abbrev descending_allocator : Simple.Simple numbered
descending_allocator =
    variant none (number_at office 2 ∷ number_at office 1 ∷ number_at office 0 ∷ [])

reserved_is_found :
    (Simple.allocate numbered memory_ops.ip_store ipv4 (descending_allocator, office_store)).0
    ≡ ok (some (third_host ∷ []))
unfolding Simple.allocate Simple.loop Simple.advance Simple.skip_reserved Simple.skip_current
    Simple.skip_next Simple.wrap Simple.attempt ip_mask ip_family save_subnet allocate_ip string
    network contains within agree clear
reserved_is_found = refl
