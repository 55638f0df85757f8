-- ===== src/Wgipamtest/Suite.antt =====
-- wgipamtest/store.go: testPurgeOK, and TestStore, which runs every test on a Store of its own.
use wgipam.Base.{
  Bool, ℕ, zero, suc, ◌+◌, ◌*◌, ◌^◌, List, [], ◌∷◌, ◌++◌, map, nat_eq, ◌==◌, eqb, if◌then◌else◌,
  none, some,
}
use wgipam.Base.Int.{ℤ, pos}
use wgipam.Base.Result.{Result, ok, panic, M, pure, fail, lift, ◌>>=◌, ◌>>◌, external}
use wgipam.Net.{nil, IpNet, Cidr}
use wgipam.Family.{dual_stack}
use wgipam.Lease.{Lease}
use wgipam.Store.{Store}
use wgipam.IpAllocator.{IpAddr}
use wgipam.IpAllocator.Subnet.{Subnet}
use wgipam.IpAllocator.Multi
use wgipam.IpAllocator.Multi.{dual_stack_ip_allocator}
use wgipam.Wgipamtest.{
  ok_subnet4, ok_subnet6, equal_nets, equal_leases, three, expect, each, test_leases_empty,
  test_leases_ok, test_lease_not_exist, test_save_lease_ok, test_delete_lease_ok,
  test_subnets_empty, test_subnets_ok, test_allocated_ips_no_subnet,
  test_allocate_ip_mismatched_subnet, test_allocate_ip_no_subnet,
  test_allocate_ip_already_allocated, test_free_ip_mismatched_subnet, test_free_ip_no_subnet,
  test_free_ip_ok,
}

-- `l[i]`
unfoldable pub nth : {A : Type 0} → List A → ℕ → Result A
nth [] i = panic
nth (x ∷ xs) zero = ok x
nth (x ∷ xs) (suc i) = nth xs i

-- A number of seconds
abbrev pub seconds : ℕ → ℤ
seconds n = pos (n * 10 ^ 9)

-- `wgipam.Subnet{Subnet: *n}`
abbrev pub whole : IpNet → Subnet
whole n = record { subnet = n; start = nil; last = nil; reserved = [] }

module _ {S : Type 0} (text_lt : Cidr → Cidr → Bool) (pkg : IpAddr) (st : Store S) where
  abbrev pub W : Type 0
  W = Multi.W pkg st.ip_store

  abbrev pub on_store : {A : Type 0} → M S A → M W A
  on_store m (ipa, s) = let (r, s') = m s in (r, (ipa, s'))

  -- testPurgeOK, the body of its first loop
  unfoldable pub lease_of_round : ℕ → M W Lease
  lease_of_round i = do
    o ← Multi.allocate pkg st.ip_store dual_stack
    elim o [
      | none ↦ fail external
      | some ips ↦
          let l : Lease = record {
            ips = ips;
            start = seconds ((i + 1) * 100);
            length = seconds 10;
          } in
          on_store (st.save_lease i l) >> pure l
    ]

  -- testPurgeOK, the body of its second loop
  unfoldable pub purge_round : ℕ → M S Unit
  unfolding each
  purge_round i = do
    stats ← st.purge (seconds (2 * 100 + 10))
    each (λ (e : Cidr × ℕ). expect (eqb (if i == 0 then 2 else 0) e.1)) stats

  -- testPurgeOK, after its loops
  unfoldable pub what_is_left : Lease → M S Unit
  unfolding equal_leases equal_nets nth
  what_is_left want = do
    got ← st.leases
    expect (equal_leases (want ∷ []) got)
    ip4s ← st.allocated_ips ok_subnet4
    want4 ← lift (nth want.ips 0)
    expect (equal_nets (want4 ∷ []) ip4s)
    ip6s ← st.allocated_ips ok_subnet6
    want6 ← lift (nth want.ips 1)
    expect (equal_nets (want6 ∷ []) ip6s)

  -- testPurgeOK
  unfoldable pub test_purge_ok : M S Unit
  unfolding each lease_of_round purge_round what_is_left
  test_purge_ok = do
    st.save_subnet ok_subnet4
    ipa ← dual_stack_ip_allocator pkg st.ip_store (whole ok_subnet4 ∷ whole ok_subnet6 ∷ [])
    want ← λ s.
        let (r, (_, s')) = (lease_of_round 0 >> (lease_of_round 1 >> lease_of_round 2)) (ipa, s) in
        (r, s')
    each purge_round three
    what_is_left want

  -- TestStore, its table
  abbrev pub lease_tests : List (M S Unit)
  lease_tests =
      test_leases_empty text_lt st
      ∷ test_leases_ok text_lt st
      ∷ test_lease_not_exist text_lt st
      ∷ test_save_lease_ok text_lt st
      ∷ test_delete_lease_ok text_lt st
      ∷ []

  abbrev pub ip_tests : List (M S Unit)
  ip_tests =
      test_subnets_empty text_lt st
      ∷ test_subnets_ok text_lt st
      ∷ test_allocated_ips_no_subnet text_lt st
      ∷ test_allocate_ip_mismatched_subnet text_lt st
      ∷ test_allocate_ip_no_subnet text_lt st
      ∷ test_allocate_ip_already_allocated text_lt st
      ∷ test_free_ip_mismatched_subnet text_lt st
      ∷ test_free_ip_no_subnet text_lt st
      ∷ test_free_ip_ok text_lt st
      ∷ []

  -- TestStore: what each test returns on a Store that is new
  unfoldable pub test_store : S → List (Result (Unit {0}))
  test_store s = map (λ fn. (fn s).0) (lease_tests ++ test_purge_ok ∷ ip_tests)
