-- ===== src/Tests/Configs.antt =====
-- The theorems on the configuration and the start, at 192.0.2.0/30 and 2001:db8::/64.
use wgipam.Base.{◌≡◌, nat_eq, refl, true, false, [], ◌∷◌, List}
use wgipam.Base.Result.{ok}
use wgipam.Net.{bytes4, contains, within, string, cidr_eq, bytes16, w128}
use wgipam.Server.Running.{IsRunning}
use wgipam.Store.Memory.{Memory}
use wgipam.Store.Memory.Laws.{memory_ops, memory_view, memory-StoreLaws}
use wgipam.IpAllocator.Simple
use wgipam.Store.Memory.{save_subnet}
use wgipam.Net.{network, agree}
use wgipam.Base.{ℕ, none, arith}
use wgipam.Net.{nil, parse_cidr, clear, masked}
use wgipam.Base.{All, true, none, some}
use wgipam.IpAllocator.Subnet.{Subnet, validate, comes_after}
use wgipam.Config.{
  File, Config, hour, parse, parse_interfaces, parse_interface, parse_subnets, parse_subnet,
  parse_reserved, parse_storage, check_subnets, has_duplicate, any_overlap, overlaps_any, next,
}
use wgipam.Config.Subnets.{IsAmong, check_subnets-NoOverlap}
use wgipam.Config.Parsed.{IsServable, parse-IsServable}
use wgipam.Tests.Prefixes.{textual, textual_laws}
use wgipam.Store.Memory.{memory_store}
use wgipam.Store.Memory.Valid.{memory_store-IsValid}
use wgipam.IpAllocator.Multi.{Multi, dual_stack_ip_allocator}
use wgipam.IpAllocator.Multi.Setup.{IsFine, prefixes_of}
use wgipam.Server.Start.{dual_stack_ip_allocator-IsRunning}
use wgipam.IpAllocator.Simple.Allocate.{IsReady}
use wgipam.IpAllocator.Simple.Setup.{IsConfigured, simple_ip_allocator-IsReady}
use wgipam.Tests.Numbered.{numbered, numbered_laws}
use wgipam.Tests.World.{lease_span, office_valid, office, office_text, office_store}

-- 192.0.2.0/30 and 2001:db8::/64, as parseSubnet returns them
abbrev pub two_subnets : List Subnet
two_subnets =
    record { subnet = office; start = nil; last = nil; reserved = [] }
    ∷ record {
      subnet = record {
        ip = bytes16 0x2001_0db8_0000_0000_0000_0000_0000_0000;
        mask = record { ones = 64; width = w128 };
      };
      start = nil;
      last = nil;
      reserved = [];
    }
    ∷ []

pub two_subnets_pass : check_subnets textual two_subnets ≡ ok tt
unfolding check_subnets has_duplicate any_overlap overlaps_any string network agree
two_subnets_pass = refl

pub two_subnets-IsFine : All IsFine two_subnets
unfolding validate masked clear string network agree
two_subnets-IsFine = ((office_valid, refl), (((ground arith, refl), refl), tt))

-- A file with one interface, for all text a number
abbrev office_file : File ℕ
office_file = record {
  storage = none;
  interfaces =
      record {
        name = some 0;
        lease_duration = none;
        subnets = record { subnet = office_text; start = none; last = none; reserved = [] } ∷ [];
      }
      ∷ [];
  debug = record { address = none; prometheus = false; pprof = false };
}

abbrev office_config : Config ℕ
office_config = record {
  storage = record { memory = true; file = none };
  interfaces =
      record {
        name = 0;
        lease_duration = hour;
        subnets = record { subnet = office; start = nil; last = nil; reserved = [] } ∷ [];
      }
      ∷ [];
  debug = record { address = none; prometheus = false; pprof = false };
}

office_file_parses :
    parse textual (λ _. true) (λ _. none) (ok (office_file, false)) ≡ ok office_config
unfolding parse parse_interfaces parse_interface parse_subnets parse_subnet parse_reserved
    parse_storage validate check_subnets has_duplicate any_overlap overlaps_any next string network
    agree parse_cidr clear masked comes_after
office_file_parses = refl

parse-IsServable_example :
    All (IsServable textual (λ (_ : ℕ). true) (λ _. none)) office_config.interfaces
parse-IsServable_example =
    parse-IsServable textual (λ _. true) (λ _. none) (ok (office_file, false)) office_config
      office_file_parses

abbrev office_subnet : Subnet
office_subnet = record {
  subnet = office;
  start = bytes4 0xc0000201;
  last = bytes4 0xc0000202;
  reserved = bytes4 0xc0000202 ∷ [];
}

office_is_valid : validate office_subnet ≡ ok tt
unfolding validate masked clear comes_after string network contains within agree
office_is_valid = refl

office_is_saved : save_subnet office memory_store ≡ (ok tt, office_store)
unfolding save_subnet
office_is_saved = refl

simple_ip_allocator-IsReady_example :
    (a : Simple.Simple numbered) × (Simple.simple_ip_allocator numbered memory_ops.ip_store
        office_subnet memory_store
      ≡ (ok a, office_store))
    × (ready : IsReady numbered numbered_laws a) × IsConfigured numbered numbered_laws office_subnet
        a ready.start_at
simple_ip_allocator-IsReady_example =
    simple_ip_allocator-IsReady numbered numbered_laws memory_ops.ip_store office_subnet
      memory_store office_store office_valid office_is_valid office_is_saved

dual_stack_ip_allocator-IsRunning_example :
    (m : Multi numbered) × (σ : Memory) × (dual_stack_ip_allocator numbered memory_ops.ip_store
        two_subnets memory_store
      ≡ (ok m, σ))
    × IsRunning numbered numbered_laws memory_ops memory_view memory-StoreLaws
        (IsAmong two_subnets)
        (check_subnets-NoOverlap textual textual_laws two_subnets
          (prefixes_of two_subnets two_subnets-IsFine)
          two_subnets_pass)
        lease_span
        (m, σ)
dual_stack_ip_allocator-IsRunning_example =
    dual_stack_ip_allocator-IsRunning numbered numbered_laws memory_ops memory_view memory-StoreLaws
      textual textual_laws lease_span two_subnets memory_store memory_store-IsValid (λ k. refl)
      ((λ c. refl), ((λ c. refl), tt)) two_subnets-IsFine two_subnets_pass
