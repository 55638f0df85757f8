-- ===== src/Tests/Suites.antt =====
-- The tests of wgipamtest/store.go, run on a memoryStore and on a boltStore.
use wgipam.Base.{◌+◌, ◌*◌, ◌^◌, All, ◌≡◌, refl, Bool, true, false, [], ◌∷◌, ltb}
use wgipam.Base.Result.{ok}
use wgipam.Net.{
  Cidr, cidr4, cidr6, string, network, contains, within, agree, masked, clear, parse_cidr,
}
use wgipam.Base.Int.{◌+ℤ◌}
use wgipam.Base.Sort.{sort_by}
use wgipam.Lease.{expired}
use wgipam.Family.{ip_family, ip_mask}
use wgipam.IpAllocator.Multi
use wgipam.IpAllocator.Multi.{dual_stack_ip_allocator}
use wgipam.IpAllocator.Simple
use wgipam.IpAllocator.Simple.{
  simple_ip_allocator, start_cursor, end_position, skip_current, skip_next, skip_reserved,
}
use wgipam.IpAllocator.Subnet.{validate, comes_after}
use wgipam.Store.Memory
use wgipam.Wgipamtest.{
  must_cidr, ok_subnet4, ok_ip4, ok_subnet6, ok_ip6, test_leases_empty, test_leases_ok,
  test_lease_not_exist, test_save_lease_ok, test_delete_lease_ok, test_subnets_empty,
  test_subnets_ok, test_allocated_ips_no_subnet, test_allocate_ip_mismatched_subnet,
  test_allocate_ip_no_subnet, test_allocate_ip_already_allocated, test_free_ip_mismatched_subnet,
  test_free_ip_no_subnet, test_free_ip_ok,
}
use wgipam.Store.Memory.{memory_store}
use wgipam.Store.Bolt as File
use wgipam.Store.Bolt.{Bolt, bolt_ops, bucket_leases, bucket_subnets}
use wgipam.Tests.Database.{listed}
use wgipam.Store.Memory.Laws.{memory_ops, memory_view, memory-StoreLaws}
use wgipam.Store.Memory.Valid.{memory_store-IsValid}
use wgipam.Store.Memory.Listed.{memory-ListingLaws}
use wgipam.Wgipamtest.Leases.{IsNewStore, IsPassed}
use wgipam.Wgipamtest.Subnets.{PutsFirst}
use wgipam.Wgipamtest.Passes.{tests-IsPassed}
use wgipam.Wgipamtest.Suite.{lease_tests, ip_tests, test_store, test_purge_ok}
use wgipam.Tests.Numbered.{numbered}

-- IPv4 first, as far as the tests compare texts
abbrev text_lt : Cidr → Cidr → Bool
text_lt (cidr4 a k) (cidr6 b j) = true
text_lt (cidr4 a k) (cidr4 b j) = ltb a b
text_lt (cidr6 a k) (cidr6 b j) = ltb a b
text_lt _ _ = false

-- memoryStore passes every test, its purge among them.
test_store_run :
    test_store text_lt numbered memory_ops memory_store
    ≡ ok tt
      ∷ ok tt
      ∷ ok tt
      ∷ ok tt
      ∷ ok tt
      ∷ ok tt
      ∷ ok tt
      ∷ ok tt
      ∷ ok tt
      ∷ ok tt
      ∷ ok tt
      ∷ ok tt
      ∷ ok tt
      ∷ ok tt
      ∷ ok tt
      ∷ []
unfolding test_store string network contains within agree masked clear parse_cidr ip_family ip_mask
    Memory.leases Memory.lease Memory.save_lease Memory.delete_lease Memory.purge Memory.subnets
    Memory.save_subnet Memory.allocated_ips Memory.allocate_ip Memory.free_ip
    dual_stack_ip_allocator simple_ip_allocator Multi.allocate Multi.free Simple.allocate
    Simple.loop Simple.advance Simple.wrap Simple.attempt validate comes_after start_cursor
    end_position skip_current skip_next skip_reserved test_purge_ok test_leases_empty test_leases_ok
    test_lease_not_exist test_save_lease_ok test_delete_lease_ok test_subnets_empty test_subnets_ok
    test_allocated_ips_no_subnet test_allocate_ip_mismatched_subnet test_allocate_ip_no_subnet
    test_allocate_ip_already_allocated test_free_ip_mismatched_subnet test_free_ip_no_subnet
    test_free_ip_ok ◌+ℤ◌ expired sort_by
test_store_run = refl

-- The file after FileStore has opened it
abbrev opened_file : Bolt listed
opened_file = record { file = (bucket_subnets, []) ∷ (bucket_leases, []) ∷ []; subnets = [] }

test_file_store_run :
    test_store text_lt numbered (bolt_ops listed) opened_file
    ≡ ok tt
      ∷ ok tt
      ∷ ok tt
      ∷ ok tt
      ∷ ok tt
      ∷ ok tt
      ∷ ok tt
      ∷ ok tt
      ∷ ok tt
      ∷ ok tt
      ∷ ok tt
      ∷ ok tt
      ∷ ok tt
      ∷ ok tt
      ∷ ok tt
      ∷ []
unfolding test_store string network contains within agree masked clear parse_cidr ip_family ip_mask
    File.leases File.lease File.save_lease File.delete_lease File.purge File.subnets
    File.save_subnet File.allocated_ips File.allocate_ip File.free_ip dual_stack_ip_allocator
    simple_ip_allocator Multi.allocate Multi.free Simple.allocate Simple.loop Simple.advance
    Simple.wrap Simple.attempt validate comes_after start_cursor end_position skip_current skip_next
    skip_reserved test_purge_ok test_leases_empty test_leases_ok test_lease_not_exist
    test_save_lease_ok test_delete_lease_ok test_subnets_empty test_subnets_ok
    test_allocated_ips_no_subnet test_allocate_ip_mismatched_subnet test_allocate_ip_no_subnet
    test_allocate_ip_already_allocated test_free_ip_mismatched_subnet test_free_ip_no_subnet
    test_free_ip_ok ◌+ℤ◌ expired sort_by File.key_bytes File.big_endian File.unmarshal_ip_net
    File.unmarshal_keys File.unmarshal_all File.find_expired File.delete_all File.free_within
    File.free_subnets
test_file_store_run = refl

text_lt-PutsFirst : PutsFirst text_lt
unfolding string network
text_lt-PutsFirst = record { first = refl; then_ = refl }

memory_store-IsNewStore : IsNewStore memory_ops memory_view memory_store
memory_store-IsNewStore = record {
  inv = memory_store-IsValid;
  no_lease = λ k. refl;
  no_subnet = λ c. refl;
  no_address = λ sub c. refl;
  keys = λ k h. tt;
  storable = tt;
}

tests-IsPassed_example :
    All (IsPassed memory_ops memory_view memory_store) (lease_tests text_lt numbered memory_ops)
    × All (IsPassed memory_ops memory_view memory_store) (ip_tests text_lt numbered memory_ops)
tests-IsPassed_example =
    tests-IsPassed memory_ops memory_view memory-StoreLaws memory-ListingLaws text_lt
      text_lt-PutsFirst numbered memory_store memory_store-IsNewStore

-- The fixtures are what mustCIDR makes of 192.0.2.0/24, 192.0.2.1/32, 2001:db8::/64 and
-- 2001:db8::1/128.
fixtures_run :
    (must_cidr (cidr4 0xc0000200 24) ≡ ok ok_subnet4)
    × (must_cidr (cidr4 0xc0000201 32) ≡ ok ok_ip4)
    × (must_cidr (cidr6 (0x20010db8 * 2 ^ 96) 64) ≡ ok ok_subnet6)
    × (must_cidr (cidr6 (0x20010db8 * 2 ^ 96 + 1) 128) ≡ ok ok_ip6)
unfolding must_cidr clear
fixtures_run = (refl, refl, refl, refl)
