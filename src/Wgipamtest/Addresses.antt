-- ===== src/Wgipamtest/Addresses.antt =====
-- wgipamtest/store.go: a Store that keeps its contract passes the tests of its subnets and addresses.
use wgipam.Base.{◌≡◌, refl, Bool, true, false, List, [], ◌∷◌, map, arith, ◌∙◌}
use wgipam.Base.Map.{member, beq_refl}
use wgipam.Base.Result.{ok}
use wgipam.Net.{IpNet, IsNet, Cidr, cidr_eq, string, network, contains, within, agree}
use wgipam.Store.{Store}
use wgipam.Store.Contract.{Registers-same_allocations, StoreView, StoreLaws}
use wgipam.Store.Contract.Listing.{ListingLaws}
use wgipam.Wgipamtest.{
  ok_subnet4, ok_ip4, ok_subnet6, ok_ip6, each, test_subnets_empty, test_allocated_ips_no_subnet,
  test_allocate_ip_mismatched_subnet, test_allocate_ip_no_subnet,
  test_allocate_ip_already_allocated, test_free_ip_mismatched_subnet, test_free_ip_no_subnet,
  free_ip_pair, test_free_ip_ok,
}
use wgipam.Wgipamtest.Leases.{IsNewStore, IsPassed}

-- What the tests assume of their fixtures
pub subnet4-IsNet : IsNet ok_subnet4
unfolding string network
subnet4-IsNet = (ground arith, ground arith)

pub subnet6-IsNet : IsNet ok_subnet6
unfolding string network
subnet6-IsNet = (ground arith, ground arith)

ip4-IsNet : IsNet ok_ip4
unfolding string network
ip4-IsNet = (ground arith, ground arith)

ip6-IsNet : IsNet ok_ip6
unfolding string network
ip6-IsNet = (ground arith, ground arith)

contains-ip4 : contains ok_subnet4 ok_ip4.ip ≡ true
unfolding contains string network within agree
contains-ip4 = refl

contains-ip6 : contains ok_subnet6 ok_ip6.ip ≡ true
unfolding contains string network within agree
contains-ip6 = refl

subnet4-without-ip6 : contains ok_subnet4 ok_ip6.ip ≡ false
unfolding contains string network within agree
subnet4-without-ip6 = refl

module _ {S : Type 0} (st : Store S) (v : StoreView S) (contract : StoreLaws st v)
    (listing : ListingLaws st v) (text_lt : Cidr → Cidr → Bool) (s : S)
    (new : IsNewStore st v s) where
  pub subnets_empty-IsPassed : IsPassed st v s (test_subnets_empty text_lt st)
  unfolding test_subnets_empty
  subnets_empty-IsPassed =
      let (ns, e, (distinct, members, back)) =
        listing.subnets_lem s new.inv
          (λ c there. absurd (ground (arith, there, new.no_subnet c))) in
      no_nets ns e (λ c. members c ∙ new.no_subnet c)
    where
      no_nets :
          (ns : List IpNet)
          → st.subnets s ≡ (ok ns, s)
          → ((c : Cidr) → member c (map string ns) ≡ false)
          → IsPassed st v s (test_subnets_empty text_lt st)
      no_nets [] e h = ground (arith, e)
      no_nets (n ∷ ns) e h = absurd (ground (arith, h (string n), beq_refl (string n)))

  pub allocated_ips_no_subnet-IsPassed : IsPassed st v s (test_allocated_ips_no_subnet text_lt st)
  unfolding test_allocated_ips_no_subnet
  allocated_ips_no_subnet-IsPassed =
      ground (arith, listing.allocated_ips_missing ok_subnet4 s (new.no_subnet (string ok_subnet4)))

  pub allocate_ip_mismatched_subnet-IsPassed :
      IsPassed st v s (test_allocate_ip_mismatched_subnet text_lt st)
  unfolding test_allocate_ip_mismatched_subnet
  allocate_ip_mismatched_subnet-IsPassed =
      ground (arith, listing.allocate_outside ok_subnet4 ok_ip6 s subnet4-without-ip6)

  pub allocate_ip_no_subnet-IsPassed : IsPassed st v s (test_allocate_ip_no_subnet text_lt st)
  unfolding test_allocate_ip_no_subnet
  allocate_ip_no_subnet-IsPassed = ground (
    arith,
    listing.allocate_missing ok_subnet4 ok_ip4 s (new.no_subnet (string ok_subnet4)) contains-ip4,
  )

  pub free_ip_mismatched_subnet-IsPassed :
      IsPassed st v s (test_free_ip_mismatched_subnet text_lt st)
  unfolding test_free_ip_mismatched_subnet
  free_ip_mismatched_subnet-IsPassed =
      ground (arith, listing.free_outside ok_subnet4 ok_ip6 s subnet4-without-ip6)

  pub free_ip_no_subnet-IsPassed : IsPassed st v s (test_free_ip_no_subnet text_lt st)
  unfolding test_free_ip_no_subnet
  free_ip_no_subnet-IsPassed = ground (
    arith,
    listing.free_missing ok_subnet4 ok_ip4 s (new.no_subnet (string ok_subnet4)) contains-ip4,
  )

  pub allocate_ip_already_allocated-IsPassed :
      IsPassed st v s (test_allocate_ip_already_allocated text_lt st)
  unfolding test_allocate_ip_already_allocated
  allocate_ip_already_allocated-IsPassed =
      let (s₁, e₁, w₁) = contract.save_subnet_lem ok_subnet4 s new.inv subnet4-IsNet in
      let there : v.registered s₁ (string ok_subnet4) ≡ true =
        w₁.registers (string ok_subnet4) ∙ ground (arith, beq_refl (string ok_subnet4)) in
      let (s₂, e₂, w₂) =
        contract.allocate_free ok_subnet4 ok_ip4 s₁ w₁.inv subnet4-IsNet ip4-IsNet there
          contains-ip4
          (Registers-same_allocations v (string ok_subnet4) s s₁ w₁
              (new.no_address (string ok_subnet4)) (string ok_subnet4) (string ok_ip4)
            ∙ new.no_address (string ok_subnet4) (string ok_ip4)) in
      let e₃ =
        contract.allocate_taken ok_subnet4 ok_ip4 s₂ w₂.inv
          (w₂.same_subnets (string ok_subnet4) ∙ there) contains-ip4
          (w₂.sets (string ok_subnet4) (string ok_ip4)
            ∙ ground (arith, beq_refl (string ok_subnet4), beq_refl (string ok_ip4))) in
      ground (arith, e₁, e₂, e₃)

  -- A round of testFreeIPOK: a subnet of which no address is allocated is left so.
  free_ip_pair_lem :
      (sub ip : IpNet) (s : S)
      → v.Inv s
      → IsNet sub
      → IsNet ip
      → contains sub ip.ip ≡ true
      → ((c : Cidr) → v.allocated s (string sub) c ≡ false)
      → (s' : S) × (free_ip_pair text_lt st (sub, ip) s ≡ (ok tt, s'))
        × v.Inv s'
        × ((k c : Cidr) → v.allocated s k c ≡ false → v.allocated s' k c ≡ false)
  unfolding free_ip_pair each
  free_ip_pair_lem sub ip s inv hs hi inside unused =
      let (s₁, e₁, w₁) = contract.save_subnet_lem sub s inv hs in
      let same = Registers-same_allocations v (string sub) s s₁ w₁ unused in
      let there₁ : v.registered s₁ (string sub) ≡ true =
        w₁.registers (string sub) ∙ ground (arith, beq_refl (string sub)) in
      let (s₂, e₂, w₂) =
        contract.allocate_free sub ip s₁ w₁.inv hs hi there₁ inside
          (same (string sub) (string ip) ∙ unused (string ip)) in
      let there₂ = w₂.same_subnets (string sub) ∙ there₁ in
      let (s₃, e₃, w₃) = contract.free_lem sub ip s₂ w₂.inv there₂ inside in
      let there₃ = w₃.same_subnets (string sub) ∙ there₂ in
      let (s₄, e₄, w₄) = contract.free_lem sub ip s₃ w₃.inv there₃ inside in
      let there₄ = w₄.same_subnets (string sub) ∙ there₃ in
      let (s₅, e₅, w₅) = contract.free_lem sub ip s₄ w₄.inv there₄ inside in
      (
        s₅,
        ground (arith, e₁, e₂, e₃, e₄, e₅),
        w₅.inv,
        λ k c h. ground (arith, w₅.sets k c, w₄.sets k c, w₃.sets k c, w₂.sets k c, same k c, h),
      )

  pub free_ip_ok-IsPassed : IsPassed st v s (test_free_ip_ok text_lt st)
  unfolding test_free_ip_ok each
  free_ip_ok-IsPassed =
      let (s₁, e₁, inv₁, kept) =
        free_ip_pair_lem ok_subnet4 ok_ip4 s new.inv subnet4-IsNet ip4-IsNet contains-ip4
          (new.no_address (string ok_subnet4)) in
      let (s₂, e₂, inv₂, _) =
        free_ip_pair_lem ok_subnet6 ok_ip6 s₁ inv₁ subnet6-IsNet ip6-IsNet contains-ip6
          (λ c. kept (string ok_subnet6) c (new.no_address (string ok_subnet6) c)) in
      ground (arith, e₁, e₂)
