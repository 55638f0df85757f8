-- ===== src/Wgipamtest/Leases.antt =====
-- wgipamtest/store.go: a Store that keeps its contract passes the tests of its leases.
use wgipam.Base.{ℕ, ◌<◌, ◌≡◌, refl, Bool, true, false, none, [], ◌∷◌, map, nat_eq, arith, ◌∙◌}
use wgipam.Base.Int.{ltb_ℤ}
use wgipam.Base.Map.{values-uniform}
use wgipam.Base.Result.{ok, M}
use wgipam.Base.Sort.{sort_by}
use wgipam.Net.{Cidr}
use wgipam.Lease.{Lease}
use wgipam.Store.{Store}
use wgipam.Store.Contract.{StoreView, StoreLaws, SameLease}
use wgipam.Store.Contract.Listing.{ListingLaws}
use wgipam.Wgipamtest.{
  ok_lease, equal_leases, three, each, by_start, test_leases_empty, test_leases_ok,
  test_lease_not_exist, test_save_lease_ok, test_delete_lease_ok,
}
use wgipam.Wgipamtest.Equal.{equal_lease-SameLease}

module _ {S : Type 0} (st : Store S) (v : StoreView S) where
  -- A Store that is new, and in which the lease of the tests can be saved under their keys
  pub record IsNewStore (s : S) : Type 0 where
    pub inv : v.Inv s
    pub no_lease : (k : ℕ) → v.leased s k ≡ none
    pub no_subnet : (c : Cidr) → v.registered s c ≡ false
    pub no_address : (sub c : Cidr) → v.allocated s sub c ≡ false
    pub keys : (k : ℕ) → k < 3 → v.IsKey k
    pub storable : v.Storable ok_lease

  -- The test returns without a fatal error, and without a panic.
  abbrev pub IsPassed : S → M S Unit → Type 0
  IsPassed s fn = (fn s).0 ≡ ok tt

module _ {S : Type 0} (st : Store S) (v : StoreView S) (contract : StoreLaws st v)
    (listing : ListingLaws st v) (text_lt : Cidr → Cidr → Bool) (s : S)
    (new : IsNewStore st v s) where
  pub leases_empty-IsPassed : IsPassed st v s (test_leases_empty text_lt st)
  unfolding test_leases_empty
  leases_empty-IsPassed =
      let (ls, e, unique, found) = listing.leases_lem s new.inv in
      let none_left : map (λ e. e.1) ls ≡ [] =
        values-uniform ok_lease [] ls tt unique (λ k. found k ∙ new.no_lease k) in
      ground (arith, e, none_left)

  pub lease_not_exist-IsPassed : IsPassed st v s (test_lease_not_exist text_lt st)
  unfolding test_lease_not_exist
  lease_not_exist-IsPassed =
      let e = contract.lease_lem 1 s new.inv (new.keys 1 (ground arith)) in
      ground (arith, e, new.no_lease 1)

  abbrev saved : Lease
  saved = v.stored ok_lease

  saved-SameLease : SameLease ok_lease saved
  saved-SameLease = contract.stored_lem ok_lease new.storable

  pub save_lease_ok-IsPassed : IsPassed st v s (test_save_lease_ok text_lt st)
  unfolding test_save_lease_ok
  save_lease_ok-IsPassed =
      let one = new.keys 1 (ground arith) in
      let (s₁, e₁, w) = contract.save_lease_lem 1 ok_lease s new.inv one new.storable in
      let e₂ = contract.lease_lem 1 s₁ w.inv one in
      ground (arith, e₁, e₂, w.saves 1, equal_lease-SameLease ok_lease saved saved-SameLease)

  pub delete_lease_ok-IsPassed : IsPassed st v s (test_delete_lease_ok text_lt st)
  unfolding test_delete_lease_ok each
  delete_lease_ok-IsPassed =
      let one = new.keys 1 (ground arith) in
      let (s₁, e₁, w₁) = contract.save_lease_lem 1 ok_lease s new.inv one new.storable in
      let (s₂, e₂, w₂) = contract.delete_lease_lem 1 s₁ w₁.inv one in
      let (s₃, e₃, w₃) = contract.delete_lease_lem 1 s₂ w₂.inv one in
      let (s₄, e₄, w₄) = contract.delete_lease_lem 1 s₃ w₃.inv one in
      let e₅ = contract.lease_lem 1 s₄ w₄.inv one in ground (arith, e₁, e₂, e₃, e₄, e₅, w₄.saves 1)

  -- The leases that are listed start together, so that no sort moves them.
  threefold :
      equal_leases
        (by_start text_lt st (ok_lease ∷ ok_lease ∷ ok_lease ∷ []))
        (by_start text_lt st (saved ∷ saved ∷ saved ∷ []))
      ≡ true
  unfolding sort_by equal_leases
  threefold =
      let same = equal_lease-SameLease ok_lease saved saved-SameLease in
      let start : ltb_ℤ saved.start saved.start ≡ false = rw saved-SameLease.same_start refl in
      ground (arith, same, start)

  pub leases_ok-IsPassed : IsPassed st v s (test_leases_ok text_lt st)
  unfolding test_leases_ok each
  leases_ok-IsPassed =
      let (s₁, e₁, w₁) =
        contract.save_lease_lem 0 ok_lease s new.inv (new.keys 0 (ground arith)) new.storable in
      let (s₂, e₂, w₂) =
        contract.save_lease_lem 1 ok_lease s₁ w₁.inv (new.keys 1 (ground arith)) new.storable in
      let (s₃, e₃, w₃) =
        contract.save_lease_lem 2 ok_lease s₂ w₂.inv (new.keys 2 (ground arith)) new.storable in
      let (ls, e₄, unique, found) = listing.leases_lem s₃ w₃.inv in
      let values : map (λ e. e.1) ls ≡ saved ∷ saved ∷ saved ∷ [] =
        values-uniform saved three ls (ground arith) unique
          (λ k. found k ∙ ground (arith, w₃.saves k, w₂.saves k, w₁.saves k, new.no_lease k)) in
      ground (arith, e₁, e₂, e₃, e₄, values, threefold)
