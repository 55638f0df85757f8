-- ===== src/Wgipamtest/Passes.antt =====
-- wgipamtest/store.go: the tests that every Store passes which keeps its contract.
use wgipam.Base.{All, Bool}
use wgipam.Net.{Cidr}
use wgipam.Store.{Store}
use wgipam.Store.Contract.{StoreView, StoreLaws}
use wgipam.Store.Contract.Listing.{ListingLaws}
use wgipam.IpAllocator.{IpAddr}
use wgipam.Wgipamtest.Suite.{lease_tests, ip_tests}
use wgipam.Wgipamtest.Leases.{
  IsNewStore, IsPassed, leases_empty-IsPassed, leases_ok-IsPassed, lease_not_exist-IsPassed,
  save_lease_ok-IsPassed, delete_lease_ok-IsPassed,
}
use wgipam.Wgipamtest.Addresses.{
  subnets_empty-IsPassed, allocated_ips_no_subnet-IsPassed, allocate_ip_mismatched_subnet-IsPassed,
  allocate_ip_no_subnet-IsPassed, allocate_ip_already_allocated-IsPassed,
  free_ip_mismatched_subnet-IsPassed, free_ip_no_subnet-IsPassed, free_ip_ok-IsPassed,
}
use wgipam.Wgipamtest.Subnets.{PutsFirst, subnets_ok-IsPassed}

module _ {S : Type 0} (st : Store S) (v : StoreView S) (contract : StoreLaws st v)
    (listing : ListingLaws st v) (text_lt : Cidr → Cidr → Bool) (order : PutsFirst text_lt)
    (pkg : IpAddr) (s : S) (new : IsNewStore st v s) where
  -- A new Store that keeps its contract, lists what it holds and can save the tests' lease passes
  -- every test of TestStore but that of Purge.
  pub tests-IsPassed :
      All (IsPassed st v s) (lease_tests text_lt pkg st)
      × All (IsPassed st v s) (ip_tests text_lt pkg st)
  tests-IsPassed = (
    (
      leases_empty-IsPassed st v contract listing text_lt s new,
      (
        leases_ok-IsPassed st v contract listing text_lt s new,
        (
          lease_not_exist-IsPassed st v contract listing text_lt s new,
          (
            save_lease_ok-IsPassed st v contract listing text_lt s new,
            (delete_lease_ok-IsPassed st v contract listing text_lt s new, tt),
          ),
        ),
      ),
    ),
    (
      subnets_empty-IsPassed st v contract listing text_lt s new,
      (
        subnets_ok-IsPassed st v contract listing text_lt order s new,
        (
          allocated_ips_no_subnet-IsPassed st v contract listing text_lt s new,
          (
            allocate_ip_mismatched_subnet-IsPassed st v contract listing text_lt s new,
            (
              allocate_ip_no_subnet-IsPassed st v contract listing text_lt s new,
              (
                allocate_ip_already_allocated-IsPassed st v contract listing text_lt s new,
                (
                  free_ip_mismatched_subnet-IsPassed st v contract listing text_lt s new,
                  (
                    free_ip_no_subnet-IsPassed st v contract listing text_lt s new,
                    (free_ip_ok-IsPassed st v contract listing text_lt s new, tt),
                  ),
                ),
              ),
            ),
          ),
        ),
      ),
    ),
  )
