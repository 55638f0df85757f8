-- ===== src/Server/Start.antt =====
-- The start of an interface (runServer of internal/wgipamd/server.go): its allocators are made by
-- DualStackIPAllocator over a Store without leases, from subnets that the configuration accepted.
use wgipam.Base.{
  ℕ, ◌≡◌, true, false, none, List, [], ◌∷◌, All, All-map, ◌==◌, ◌||◌, sym, ◌∙◌, Bool, refl, subst,
}
use wgipam.Base.Int.{ℤ}
use wgipam.Base.Map.{beq_refl}
use wgipam.Base.Result.{ok}
use wgipam.Net.{IpNet, Cidr, cidr_eq, cidr_beq_iff, string}
use wgipam.Store.{Store}
use wgipam.Store.Contract.{StoreView, StoreLaws}
use wgipam.IpAllocator.{IpAddr}
use wgipam.IpAllocator.Cursor.{CursorLaws}
use wgipam.IpAllocator.Subnet.{Subnet}
use wgipam.IpAllocator.Multi.{Multi, dual_stack_ip_allocator}
use wgipam.IpAllocator.Multi.Setup.{
  IsFine, IsUnused, prefixes_of, dual_stack_ip_allocator-AllServing,
}
use wgipam.Config.{Prefixes, check_subnets}
use wgipam.Config.Subnets.{PrefixLaws, IsAmong, any-All, checked, check_subnets-NoOverlap}
use wgipam.Server.Running.{IsRunning}

module _ (pkg : IpAddr) (laws : CursorLaws pkg) {S : Type 0} (st : Store S) (v : StoreView S)
    (contract : StoreLaws st v) (pre : Prefixes) (prefixes : PrefixLaws pre)
    (lease_duration : ℤ) where
  -- Each subnet is among them.
  among : (ss : List Subnet) → All (λ s. IsAmong ss (pkg.new_prefix s.subnet)) ss
  among [] = tt
  among (s ∷ ss) = (
    rw (laws.string-new_prefix s.subnet, beq_refl (string s.subnet)) refl,
    All-map ss (λ t e. later (string s.subnet == string (pkg.new_prefix t.subnet)) e) (among ss),
  )
    where
      later : (b : Bool) {c : Bool} → c ≡ true → (b || c) ≡ true
      later true e = refl
      later false e = e

  -- Over a Store that keeps its contract, holds no lease and has no address of the subnets
  -- allocated, a cursor package and prefixes that keep their laws: from subnets that pass
  -- checkSubnets and of which each is valid and of one family, DualStackIPAllocator makes an
  -- interface that runs.
  pub dual_stack_ip_allocator-IsRunning :
      (ss : List Subnet) (σ : S)
      → v.Inv σ
      → ((k : ℕ) → v.leased σ k ≡ none)
      → All (IsUnused pkg laws st v contract (IsAmong ss) σ) ss
      → (fine : All IsFine ss) → (pass : check_subnets pre ss ≡ ok tt)
      → (m : Multi pkg) × (σ' : S) × (dual_stack_ip_allocator pkg st.ip_store ss σ ≡ (ok m, σ'))
        × IsRunning pkg laws st v contract
            (IsAmong ss)
            (check_subnets-NoOverlap pre prefixes ss (prefixes_of ss fine) pass)
            lease_duration
            (m, σ')
  dual_stack_ip_allocator-IsRunning ss σ i empty new fine pass =
      let (some_subnet, no_duplicate, clear) = checked pre ss pass in
      let (m, σ', e, serving, inv, saved, same_leases, same_allocations) =
        dual_stack_ip_allocator-AllServing pkg laws st v contract (IsAmong ss) ss σ i some_subnet
          fine new (among ss) in
      (
        m,
        σ',
        e,
        record {
          serving = serving;
          sound = record {
            good = record { inv = inv; exists = λ n a. exists σ' saved n a };
            backed = λ k l found. absurd (cc (sym found ∙ same_leases k ∙ empty k));
            apart = λ j k l l' ne found found'. absurd (cc (sym found ∙ same_leases j ∙ empty j));
          };
        },
      )
    where
      exists :
          (σ' : S)
          → All (λ s. v.registered σ' (string s.subnet) ≡ true) ss
          → (n : IpNet) → IsAmong ss n
          → v.registered σ' (string n) ≡ true
      exists σ' saved n a =
          let (s, same, found) =
            any-All (λ s. string s.subnet == string n)
              (λ s. v.registered σ' (string s.subnet) ≡ true) ss a saved in
          subst (λ (k : Cidr). v.registered σ' k ≡ true)
            ((cidr_beq_iff (string s.subnet) (string n)).0 same) found
