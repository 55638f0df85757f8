-- ===== src/Wgipamtest.antt =====
-- wgipamtest/store.go: the tests that a Store is to pass. A test is a call over the Store's state; a
-- fatal one ends with an error. Only `ok` is a pass: a test also fails where the Store panics.
pub mod Suite
pub mod Equal
pub mod Leases
pub mod Addresses
pub mod Subnets
pub mod Passes
use wgipam.Base.{
  ℕ, ◌+◌, ◌*◌, ◌^◌, Bool, true, false, not, ◌&&◌, Option, none, some, List, [], ◌∷◌, ◌++◌, map,
  length, eqb, if◌then◌else◌,
}
use wgipam.Base.Int.{ℤ, pos, ltb_ℤ, eqb_ℤ}
use wgipam.Base.Result.{
  Result, ok, err, panic, hang, M, pure, fail, lift, fail_if, ◌>>=◌, ◌>>◌, external,
}
use wgipam.Base.Sort.{sort_by}
use wgipam.Net.{
  Ip, nil, bytes4, bytes16, equal, Mask, Width, w32, w128, IpNet, Cidr, cidr4, cidr6, string,
  parse_cidr,
}
use wgipam.Family.{dual_stack}
use wgipam.Lease.{Lease}
use wgipam.Store.{Store, PurgeStats}
use wgipam.IpAllocator.{IpAddr}
use wgipam.IpAllocator.Subnet.{Subnet}
use wgipam.IpAllocator.Multi
use wgipam.IpAllocator.Multi.{Multi, dual_stack_ip_allocator}

-- mustCIDR
unfoldable pub must_cidr : Cidr → Result IpNet
unfolding parse_cidr
must_cidr c = elim (parse_cidr c) [ none ↦ panic | some (ip, n) ↦ ok n ]

-- The fixtures, with what mustCIDR makes of their texts
abbrev net4 : ℕ → ℕ → IpNet
net4 a k = record { ip = bytes4 a; mask = record { ones = k; width = w32 } }

abbrev net6 : ℕ → ℕ → IpNet
net6 a k = record { ip = bytes16 a; mask = record { ones = k; width = w128 } }

abbrev pub ok_lease : Lease
ok_lease = record {
  ips = net4 0xc0000200 32 ∷ net6 (0x20010db8 * 2 ^ 96) 128 ∷ [];
  start = pos (10 ^ 9);
  length = pos (10 * 10 ^ 9);
}

abbrev pub ok_subnet4 : IpNet
ok_subnet4 = net4 0xc0000200 24

abbrev pub ok_ip4 : IpNet
ok_ip4 = net4 0xc0000201 32

abbrev pub ok_subnet6 : IpNet
ok_subnet6 = net6 (0x20010db8 * 2 ^ 96) 64

abbrev pub ok_ip6 : IpNet
ok_ip6 = net6 (0x20010db8 * 2 ^ 96 + 1) 128

-- cmp.Diff, which compares addresses by IP.Equal and masks by their bytes: is there no difference?
abbrev pub equal_width : Width → Width → Bool
equal_width w32 w32 = true
equal_width w128 w128 = true
equal_width _ _ = false

abbrev pub equal_mask : Mask → Mask → Bool
equal_mask m n = eqb m.ones n.ones && equal_width m.width n.width

unfoldable pub equal_nets : List IpNet → List IpNet → Bool
equal_nets [] [] = true
equal_nets (m ∷ ms) (n ∷ ns) = equal m.ip n.ip && equal_mask m.mask n.mask && equal_nets ms ns
equal_nets _ _ = false

unfoldable pub equal_lease : Lease → Lease → Bool
unfolding equal_nets
equal_lease l m = equal_nets l.ips m.ips && eqb_ℤ l.start m.start && eqb_ℤ l.length m.length

unfoldable pub equal_leases : List Lease → List Lease → Bool
unfolding equal_lease
equal_leases [] [] = true
equal_leases (l ∷ ls) (m ∷ ms) = equal_lease l m && equal_leases ls ms
equal_leases _ _ = false

-- `i < 3`
abbrev pub three : List ℕ
three = 0 ∷ 1 ∷ 2 ∷ []

module _ {S : Type 0} where
  -- `if !b { t.Fatalf(...) }`. An error of a call is fatal as well, where it is handed on.
  abbrev pub expect : Bool → M S Unit
  expect b = fail_if (not b) external

  -- `if _, err := m; err == nil { t.Fatal(...) }`
  abbrev pub refused : {A : Type 0} → M S A → M S Unit
  refused m s =
      let (r, s') = m s in
      elim r [
        | ok _ ↦ (err external, s')
        | err _ ↦ (ok tt, s')
        | panic ↦ (panic, s')
        | hang ↦ (hang, s')
      ]

  -- `for _, x := range xs`
  unfoldable pub each : {A : Type 0} → (A → M S Unit) → List A → M S Unit
  each f [] = pure tt
  each f (x ∷ xs) = f x >> each f xs

-- The order of texts
module _ {S : Type 0} (text_lt : Cidr → Cidr → Bool) (st : Store S) where
  abbrev pub absent : {A : Type 0} → Option A → Bool
  absent none = true
  absent (some _) = false

  -- testLeasesEmpty
  unfoldable pub test_leases_empty : M S Unit
  test_leases_empty = st.leases >>= λ ls. expect (eqb 0 (length ls))

  abbrev pub by_start : List Lease → List Lease
  by_start = sort_by λ (l m : Lease). ltb_ℤ l.start m.start

  -- testLeasesOK
  unfoldable pub test_leases_ok : M S Unit
  unfolding each equal_leases
  test_leases_ok = do
    each (λ i. st.save_lease i ok_lease) three
    got ← st.leases
    expect (equal_leases (by_start (ok_lease ∷ ok_lease ∷ ok_lease ∷ [])) (by_start got))

  -- testLeaseNotExist
  unfoldable pub test_lease_not_exist : M S Unit
  test_lease_not_exist = st.lease 1 >>= λ o. expect (absent o)

  -- testSaveLeaseOK
  unfoldable pub test_save_lease_ok : M S Unit
  unfolding equal_lease
  test_save_lease_ok = do
    st.save_lease 1 ok_lease
    o ← st.lease 1
    elim o [ none ↦ fail external | some l ↦ expect (equal_lease ok_lease l) ]

  -- testDeleteLeaseOK
  unfoldable pub test_delete_lease_ok : M S Unit
  unfolding each
  test_delete_lease_ok = do
    st.save_lease 1 ok_lease
    each (λ _. st.delete_lease 1) three
    o ← st.lease 1
    expect (absent o)

  -- testSubnetsEmpty
  unfoldable pub test_subnets_empty : M S Unit
  test_subnets_empty = st.subnets >>= λ ns. expect (eqb 0 (length ns))

  abbrev pub by_text : List IpNet → List IpNet
  by_text = sort_by λ m n. text_lt (string m) (string n)

  -- testSubnetsOK
  unfoldable pub test_subnets_ok : M S Unit
  unfolding each equal_nets
  test_subnets_ok = do
    each st.save_subnet (ok_subnet4 ∷ ok_subnet6 ∷ [])
    got ← st.subnets
    expect (equal_nets (by_text (ok_subnet4 ∷ ok_subnet6 ∷ [])) (by_text got))

  -- testAllocatedIPsNoSubnet
  unfoldable pub test_allocated_ips_no_subnet : M S Unit
  test_allocated_ips_no_subnet = refused (st.allocated_ips ok_subnet4)

  -- testAllocateIPMismatchedSubnet
  unfoldable pub test_allocate_ip_mismatched_subnet : M S Unit
  test_allocate_ip_mismatched_subnet = refused (st.allocate_ip ok_subnet4 ok_ip6)

  -- testAllocateIPNoSubnet
  unfoldable pub test_allocate_ip_no_subnet : M S Unit
  test_allocate_ip_no_subnet = refused (st.allocate_ip ok_subnet4 ok_ip4)

  -- testAllocateIPAlreadyAllocated
  unfoldable pub test_allocate_ip_already_allocated : M S Unit
  test_allocate_ip_already_allocated = do
    st.save_subnet ok_subnet4
    first ← st.allocate_ip ok_subnet4 ok_ip4
    expect first
    second ← st.allocate_ip ok_subnet4 ok_ip4
    expect (not second)

  -- testFreeIPMismatchedSubnet
  unfoldable pub test_free_ip_mismatched_subnet : M S Unit
  test_free_ip_mismatched_subnet = refused (st.free_ip ok_subnet4 ok_ip6)

  -- testFreeIPNoSubnet
  unfoldable pub test_free_ip_no_subnet : M S Unit
  test_free_ip_no_subnet = refused (st.free_ip ok_subnet4 ok_ip4)

  -- testFreeIPOK, the body of its loop
  unfoldable pub free_ip_pair : IpNet × IpNet → M S Unit
  unfolding each
  free_ip_pair (sub, ip) = do
    st.save_subnet sub
    b ← st.allocate_ip sub ip
    expect b
    each (λ _. st.free_ip sub ip) three

  -- testFreeIPOK
  unfoldable pub test_free_ip_ok : M S Unit
  unfolding each free_ip_pair
  test_free_ip_ok = each free_ip_pair ((ok_subnet4, ok_ip4) ∷ (ok_subnet6, ok_ip6) ∷ [])
