-- ===== src/Server/Release.antt =====
-- requestIP (handler.go): what the release of an expired lease's addresses leaves.
use wgipam.Base.{ℕ, ◌≡◌, refl, some, List, [], ◌∷◌, All, All-map, arith, nat_eq, ◌∙◌, sym}
use wgipam.Base.Int.{ℤ}
use wgipam.Base.Result.{ok}
use wgipam.Net.{IpNet, cidr_eq, IsNet, string}
use wgipam.Lease.{Lease}
use wgipam.Store.{Store}
use wgipam.Store.Contract.{StoreView, StoreLaws}
use wgipam.IpAllocator.{IpAddr}
use wgipam.IpAllocator.Multi.{Multi}
use wgipam.IpAllocator.Cursor.{CursorLaws}
use wgipam.IpAllocator.Grants.{IsGood}
use wgipam.IpAllocator.Multi.Each.{AllServing}
use wgipam.IpAllocator.Multi.Frees.{FreesAll, FreesAll-nil, FreesAll-cons, free-Frees}
use wgipam.Handler.{free_ips}
use wgipam.Server.{leases, allocator}
use wgipam.Server.Sound.{Apart, Apart-sym, IsSound, IsKept, IsSound-shrink}

module _ (pkg : IpAddr) (laws : CursorLaws pkg) {S : Type 0} (st : Store S) (v : StoreView S)
    (contract : StoreLaws st v) (Served : IpNet → Type 0) (lease_duration : ℤ) where
  -- The release of a lease's addresses reaches each of them.
  pub free_ips-FreesAll :
      (ips : List IpNet) (m : Multi pkg) (σ : S)
      → All IsNet ips
      → AllServing pkg laws st v contract Served m
      → IsGood v Served σ
      → (σ' : S) × (free_ips
            (leases pkg st lease_duration)
            (allocator pkg st lease_duration)
            lease_duration
            ips
            (m, σ)
          ≡ (ok tt, (m, σ')))
        × FreesAll pkg laws st v contract Served ips σ σ'
  unfolding free_ips
  free_ips-FreesAll [] m σ valid h g = (σ, refl, FreesAll-nil pkg laws st v contract Served σ g)
  free_ips-FreesAll (ip ∷ ips) m σ valid h g =
      let (σ₁, e, first, _) = free-Frees pkg laws st v contract Served ip m σ valid.0 h g in
      let (σ₂, e', rest) = free_ips-FreesAll ips m σ₁ valid.1 h first.good in
      (
        σ₂,
        ground (arith, e, e'),
        FreesAll-cons pkg laws st v contract Served ip ips σ σ₁ σ₂ first rest,
      )

  -- Releasing addresses that are in no lease leaves the store sound.
  pub IsSound-free :
      (ips : List IpNet) (σ σ' : S)
      → IsSound v Served σ
      → ((k : ℕ) (m : Lease) → v.leased σ k ≡ some m → Apart ips m.ips)
      → FreesAll pkg laws st v contract Served ips σ σ'
      → IsSound v Served σ'
  IsSound-free ips σ σ' h a f =
      IsSound-shrink v Served σ σ' h f.good (λ k l e. sym (f.same_leases k) ∙ e)
        (λ k l e. keeps l.ips (Apart-sym ips l.ips (a k l (sym (f.same_leases k) ∙ e))))
    where
      keeps : (ys : List IpNet) → Apart ys ips → All (IsKept v Served σ σ') ys
      keeps [] a = tt
      keeps (y ∷ ys) (here, rest) = (
        λ n old.
            f.keeps (string n) (string y) (All-map ips (λ ip ne n' s i e e'. ne (sym e')) here)
            ∙ old,
        keeps ys rest,
      )
