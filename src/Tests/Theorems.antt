-- ===== src/Tests/Theorems.antt =====
-- The theorems on the allocators, the handler and an interface, at 192.0.2.0/30.
use wgipam.Base.{ℕ, suc, Option, some, ◌≡◌, if◌then◌else◌, nat_eq, refl, [], ◌∷◌, List}
use wgipam.Base.Int.{pos}
use wgipam.Base.Result.{Result, ok}
use wgipam.Net.{IpNet, cidr_eq, bytes4, bytes16, w32, w128}
use wgipam.Family.{dual_stack, ipv4}
use wgipam.Server.{run}
use wgipam.Store.{LeaseStore}
use wgipam.IpAllocator.{IpAllocator}
use wgipam.Server.Running.{IsRunning}
use wgipam.Server.Requests.{run-IsRunning}
use wgipam.Server.Replies.{Replied, request_ip-Replied}
use wgipam.Handler.{request_ip, families, RequestIp, Clock}
use wgipam.Handler.Counted.{HandlerMetrics, Shows, counted_calls, plain_calls, counted_calls-Counts}
use wgipam.Handler.Requested.{families_lem, bits, wants4, wants6}
use wgipam.Store.Memory.{Memory}
use wgipam.Store.Memory.Laws.{memory_ops, memory_view, memory-StoreLaws}
use wgipam.IpAllocator.Simple
use wgipam.IpAllocator.Simple.Loop.{Outcome}
use wgipam.IpAllocator.Simple.Ends.{allocate-Outcome}
use wgipam.IpAllocator.Multi
use wgipam.IpAllocator.Multi.{is_empty}
use wgipam.IpAllocator.Multi.Allocate.{Allocates, allocate-Allocates}
use wgipam.IpAllocator.Multi.Frees.{Frees, AllFree, own_allocators, free-Frees}
use wgipam.Server.{leases, allocator}
use wgipam.Tests.Numbered.{numbered, numbered_laws}
use wgipam.Tests.World.{
  IsOffice, office-NoOverlap, office_world, office_world-IsRunning, history, lease_span,
  office_registered, first_host_valid, first_host, office_store, office_pool,
  office_pool-AllServing, office_store-IsGood, office_allocator, office_allocator-IsReady,
  office_store-IsValid, any_address, at_second, W,
}

run-IsRunning_example :
    IsRunning numbered numbered_laws memory_ops memory_view memory-StoreLaws IsOffice
      office-NoOverlap lease_span
      (run numbered memory_ops lease_span history office_world)
run-IsRunning_example =
    run-IsRunning numbered numbered_laws memory_ops memory_view memory-StoreLaws IsOffice
      office-NoOverlap lease_span history office_world
      ((tt, λ ips h. tt), ((tt, λ ips h. tt), ((tt, λ ips h. tt), (tt, tt)))) office_world-IsRunning

request_ip-Replied_example :
    Replied numbered numbered_laws memory_ops memory_view memory-StoreLaws IsOffice office-NoOverlap
      lease_span 1
      (request_ip
        (leases numbered memory_ops lease_span)
        (allocator numbered memory_ops lease_span)
        lease_span
        1
        any_address
        (at_second 10)
        office_world)
request_ip-Replied_example =
    request_ip-Replied numbered numbered_laws memory_ops memory_view memory-StoreLaws IsOffice
      office-NoOverlap lease_span 1 any_address (at_second 10) office_world tt (λ ips h. tt)
      office_world-IsRunning

allocate-Allocates_example :
    Allocates numbered numbered_laws memory_ops memory_view memory-StoreLaws IsOffice
      office-NoOverlap office_store
      (Multi.allocate numbered memory_ops.ip_store dual_stack (office_pool, office_store))
allocate-Allocates_example =
    allocate-Allocates numbered numbered_laws memory_ops memory_view memory-StoreLaws IsOffice
      office-NoOverlap dual_stack office_pool office_store office_pool-AllServing
      office_store-IsGood

allocate-Outcome_example :
    Outcome numbered numbered_laws memory_ops memory_view office_allocator office_store
      (Simple.allocate numbered memory_ops.ip_store ipv4 (office_allocator, office_store))
allocate-Outcome_example =
    allocate-Outcome numbered numbered_laws memory_ops memory_view memory-StoreLaws office_allocator
      office_store office_allocator-IsReady office_store-IsValid office_registered

free-Frees_example :
    (σ' : Memory) × (Multi.free numbered memory_ops.ip_store first_host (office_pool, office_store)
      ≡ (ok tt, (office_pool, σ')))
    × Frees numbered numbered_laws memory_ops memory_view memory-StoreLaws IsOffice first_host
        office_store σ'
    × AllFree numbered numbered_laws memory_ops memory_view memory-StoreLaws IsOffice first_host σ'
        (own_allocators numbered numbered_laws memory_ops memory_view memory-StoreLaws IsOffice
          first_host office_pool)
free-Frees_example =
    free-Frees numbered numbered_laws memory_ops memory_view memory-StoreLaws IsOffice first_host
      office_pool office_store first_host_valid office_pool-AllServing office_store-IsGood

-- 0.0.0.0/0 and ::/0
abbrev zeros : List IpNet
zeros =
    record { ip = bytes4 0; mask = record { ones = 0; width = w32 } }
    ∷ record { ip = bytes16 0; mask = record { ones = 0; width = w128 } }
    ∷ []

families_lem_example :
    families zeros ≡ ok (if is_empty zeros then dual_stack else bits (wants4 zeros) (wants6 zeros))
families_lem_example = families_lem zeros refl

abbrev wants_first : RequestIp
wants_first = record { ips = first_host ∷ []; lease_start = pos 0; lease_time = pos 0 }

-- The history's requests, and no requests and no errors counted so far
abbrev calls : List (ℕ × RequestIp × Clock)
calls = (1, any_address, at_second 10) ∷ (2, wants_first, at_second 11) ∷ []

abbrev no_counts : HandlerMetrics
no_counts = record { requests_total = 0; errors_total = λ _. 0 }

abbrev ls : LeaseStore W
ls = leases numbered memory_ops lease_span

abbrev al : IpAllocator W
al = allocator numbered memory_ops lease_span

-- A hook that counts
abbrev hook : Option (ℕ → ℕ → ℕ)
hook = some λ _ n. suc n

abbrev counted : List (Result RequestIp) × (W × Option HandlerMetrics × ℕ)
counted = counted_calls ls al lease_span hook calls (office_world, some no_counts, 0)

counted_calls-Counts_example :
    (counted.0 ≡ (plain_calls ls al lease_span hook calls office_world).0)
    × (counted.1.0 ≡ (plain_calls ls al lease_span hook calls office_world).1)
    × Shows ls al lease_span hook (some no_counts) counted.1.1 counted.0
counted_calls-Counts_example =
    counted_calls-Counts ls al lease_span hook calls office_world (some no_counts) 0
