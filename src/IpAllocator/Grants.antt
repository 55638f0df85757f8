-- ===== src/IpAllocator/Grants.antt =====
-- What a run of allocations (ipallocator.go) has done to a store: the addresses granted, each from
-- its network.
use wgipam.Base.{
  ℕ, ◌≡◌, refl, Bool, true, false, ◌&&◌, ◌||◌, List, [], ◌∷◌, ◌++◌, map, any, All, All-append,
  arith, ◌==◌, if◌then◌else◌, ◌∙◌,
}
use wgipam.Net.{IpNet, Cidr, cidr_eq, IsNet, string, contains}
use wgipam.Store.Contract.{StoreView, Sets}

-- An address and the network that it was allocated from
abbrev pub Grant : Type 0
Grant = IpNet × IpNet

-- Is `d` granted from `k`?
abbrev pub granted : Cidr → Cidr → List Grant → Bool
granted k d = any λ g. string g.0 == k && string g.1 == d

abbrev pub ips_of : List Grant → List IpNet
ips_of = map λ g. g.1

module _ {S : Type 0} (v : StoreView S) (Served : IpNet → Type 0) where
  -- The networks that are served exist in the store.
  pub record IsGood (σ : S) : Type 0 where
    pub inv : v.Inv σ
    pub exists : (n : IpNet) → Served n → v.registered σ (string n) ≡ true

  -- A grant of an address that was free
  abbrev pub IsFresh : S → Grant → Type 0
  IsFresh σ (n, ip) =
      Served n
      × IsNet ip
      × (contains n ip.ip ≡ true)
      × (v.allocated σ (string n) (string ip) ≡ false)

  pub record Gains (σ σ' : S) (gs : List Grant) : Type 0 where
    pub good : IsGood σ'
    pub same_leases : (k : ℕ) → v.leased σ' k ≡ v.leased σ k
    pub fresh : All (IsFresh σ) gs
    pub exact : (k d : Cidr) → v.allocated σ' k d ≡ (granted k d gs || v.allocated σ k d)

  pub Gains-nil : (σ : S) → IsGood σ → Gains σ σ []
  Gains-nil σ g = record { good = g; same_leases = λ k. refl; fresh = tt; exact = λ k d. refl }

  pub Gains-one :
      (σ σ' : S) (n ip : IpNet)
      → IsGood σ
      → IsFresh σ (n, ip)
      → Sets v (string n) (string ip) true σ σ'
      → Gains σ σ' ((n, ip) ∷ [])
  Gains-one σ σ' n ip g f h = record {
    good = record { inv = h.inv; exists = λ m p. h.same_subnets (string m) ∙ g.exists m p };
    same_leases = h.same_leases;
    fresh = (f, tt);
    exact = λ k d. h.sets k d ∙ if-or (string n == k && string ip == d) (v.allocated σ k d);
  }
    where
      if-or : (b c : Bool) → (if b then true else c) ≡ ((b || false) || c)
      if-or true c = refl
      if-or false c = refl

  granted-append :
      (k d : Cidr) (gs hs : List Grant)
      → granted k d (gs ++ hs) ≡ (granted k d gs || granted k d hs)
  granted-append k d [] hs = refl
  granted-append k d (g ∷ gs) hs = ground (arith, granted-append k d gs hs)

  -- What is free after the first run was free before it.
  IsFresh-back :
      (σ σ' : S) (gs hs : List Grant) → Gains σ σ' gs → All (IsFresh σ') hs → All (IsFresh σ) hs
  IsFresh-back σ σ' gs [] h f = tt
  IsFresh-back σ σ' gs ((n, ip) ∷ hs) h ((s, valid, inside, free), fs) = (
    (s, valid, inside, ground (arith, h.exact (string n) (string ip), free)),
    IsFresh-back σ σ' gs hs h fs,
  )

  pub Gains-trans :
      (σ₁ σ₂ σ₃ : S) (gs hs : List Grant) → Gains σ₁ σ₂ gs → Gains σ₂ σ₃ hs → Gains σ₁ σ₃ (gs ++ hs)
  Gains-trans σ₁ σ₂ σ₃ gs hs g h = record {
    good = h.good;
    same_leases = λ k. h.same_leases k ∙ g.same_leases k;
    fresh = All-append (IsFresh σ₁) gs hs g.fresh (IsFresh-back σ₁ σ₂ gs hs g h.fresh);
    exact = λ k d. ground (arith, h.exact k d, g.exact k d, granted-append k d gs hs);
  }
