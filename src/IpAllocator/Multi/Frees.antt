-- ===== src/IpAllocator/Multi/Frees.antt =====
-- multiIPAllocator.Free and the clean-up of its Allocate (ipallocator.go): what they take back.
use wgipam.Base.{
  none, some, subst, ℕ, ◌≡◌, refl, inl, inr, true, false, List, [], ◌∷◌, All, arith, Bool-cases,
  ◌==◌, ◌&&◌, nat_eq, if◌then◌else◌, ◌∙◌, sym,
}
use wgipam.Base.Result.{ok}
use wgipam.Base.Map.{beq_refl}
use wgipam.Net.{to4, IpNet, Cidr, cidr_eq, cidr_beq_iff, IsNet, string, contains}
use wgipam.Net.Laws.{contains-of-string}
use wgipam.Family.{Family, ipv4, ipv6, ip_family, family_cases}
use wgipam.Store.{Store}
use wgipam.Store.Contract.{StoreView, StoreLaws, Sets}
use wgipam.IpAllocator.{IpAddr}
use wgipam.IpAllocator.Cursor.{CursorLaws}
use wgipam.IpAllocator.Grants.{IsGood}
use wgipam.IpAllocator.Simple
use wgipam.IpAllocator.Simple.{Simple}
use wgipam.IpAllocator.Multi.{Multi, free_each, free, free_all}
use wgipam.IpAllocator.Multi.Each.{IsServing, AllServing}

module _ (pkg : IpAddr) (laws : CursorLaws pkg) {S : Type 0} (st : Store S) (v : StoreView S)
    (contract : StoreLaws st v) (Served : IpNet → Type 0) where
  -- Only `ip` may have been taken back, and only from a network that is served and contains it. What
  -- was free is free still.
  pub record Frees (ip : IpNet) (σ σ' : S) : Type 0 where
    pub good : IsGood v Served σ'
    pub same_leases : (k : ℕ) → v.leased σ' k ≡ v.leased σ k
    pub keeps :
        (k d : Cidr)
        → ((n : IpNet) → Served n → contains n ip.ip ≡ true → string n ≡ k → string ip ≡ d → ⊥)
        → v.allocated σ' k d ≡ v.allocated σ k d
    pub no_more : (k d : Cidr) → v.allocated σ k d ≡ false → v.allocated σ' k d ≡ false

  -- `ip` is free in the network of each of the allocators that contains it.
  abbrev pub AllFree : IpNet → S → List (Simple pkg) → Type 0
  AllFree ip σ ipas =
      All (λ a. (contains a.prefix ip.ip && v.allocated σ (string a.prefix) (string ip)) ≡ false)
        ipas

  Frees-none : (ip : IpNet) (σ : S) → IsGood v Served σ → Frees ip σ σ
  Frees-none ip σ g = record {
    good = g;
    same_leases = λ k. refl;
    keeps = λ k d h. refl;
    no_more = λ k d h. h;
  }

  Frees-trans : (ip : IpNet) (σ₁ σ₂ σ₃ : S) → Frees ip σ₁ σ₂ → Frees ip σ₂ σ₃ → Frees ip σ₁ σ₃
  Frees-trans ip σ₁ σ₂ σ₃ a b = record {
    good = b.good;
    same_leases = λ k. b.same_leases k ∙ a.same_leases k;
    keeps = λ k d h. b.keeps k d h ∙ a.keeps k d h;
    no_more = λ k d h. b.no_more k d (a.no_more k d h);
  }

  Frees-one :
      (ip n m : IpNet) (σ σ' : S)
      → IsGood v Served σ
      → Served n
      → contains n ip.ip ≡ true
      → string m ≡ string n
      → Sets v (string m) (string ip) false σ σ'
      → Frees ip σ σ'
  Frees-one ip n m σ σ' g s i e h = record {
    good = record { inv = h.inv; exists = λ q p. h.same_subnets (string q) ∙ g.exists q p };
    same_leases = h.same_leases;
    keeps = λ k d untouched. h.sets k d ∙ other k d (untouched n s i);
    no_more = λ k d free. ground (arith, h.sets k d, free);
  }
    where
      other :
          (k d : Cidr)
          → (string n ≡ k → string ip ≡ d → ⊥)
          → (if string m == k && string ip == d then false else v.allocated σ k d)
            ≡ v.allocated σ k d
      other k d no_match = elim (Bool-cases (string m == k)) [
        | inr a ↦ rw a
        | inl a ↦ elim (Bool-cases (string ip == d)) [
          | inr b ↦ rw (a, b)
          | inl b ↦ absurd (
              no_match (sym e ∙ (cidr_beq_iff (string m) k).0 a) ((cidr_beq_iff (string ip) d).0 b))
        ]
      ]

  -- One allocator's Free succeeds.
  simple_free :
      (f : Family) (ip : IpNet) (a : Simple pkg) (σ : S)
      → IsServing pkg laws st v contract Served f a
      → IsGood v Served σ
      → (σ' : S) × (Simple.free pkg st.ip_store ip (a, σ) ≡ (ok tt, (a, σ')))
        × Frees ip σ σ'
        × ((contains a.prefix ip.ip && v.allocated σ' (string a.prefix) (string ip)) ≡ false)
  unfolding Simple.free
  simple_free f ip a σ h g =
      let net = a.sub.subnet in
      elim (Bool-cases (contains net ip.ip)) [
        | inr out ↦ (
          σ,
          ground (arith, out),
          Frees-none ip σ g,
          ground (arith, out, contains-of-string net a.prefix ip.ip h.ready.same_net),
        )
        | inl i ↦
            let (σ', done, sets) =
              contract.free_lem net ip σ g.inv (rw h.ready.same_net (g.exists a.prefix h.served))
                i in
            (
              σ',
              ground (arith, i, done),
              Frees-one ip a.prefix net σ σ' g h.served
                  (sym (contains-of-string net a.prefix ip.ip h.ready.same_net) ∙ i)
                  h.ready.same_net sets,
              ground (
                arith,
                sets.sets (string a.prefix) (string ip),
                h.ready.same_net,
                beq_refl (string a.prefix),
                beq_refl (string ip),
              ),
            )
      ]

  kept-AllFree :
      (ip : IpNet) (σ σ' : S) (ipas : List (Simple pkg))
      → Frees ip σ σ'
      → AllFree ip σ ipas
      → AllFree ip σ' ipas
  kept-AllFree ip σ σ' [] f h = tt
  kept-AllFree ip σ σ' (a ∷ ipas) f h = (
    ground (arith, h.0, f.no_more (string a.prefix) (string ip)),
    kept-AllFree ip σ σ' ipas f h.1,
  )

  pub free_each-Frees :
      (f : Family) (ip : IpNet) (ipas : List (Simple pkg)) (σ : S)
      → All (IsServing pkg laws st v contract Served f) ipas
      → IsGood v Served σ
      → (σ' : S) × (free_each pkg st.ip_store ip ipas σ ≡ (ok tt, σ'))
        × Frees ip σ σ'
        × AllFree ip σ' ipas
  unfolding free_each
  free_each-Frees f ip [] σ h g = (σ, refl, Frees-none ip σ g, tt)
  free_each-Frees f ip (a ∷ ipas) σ h g =
      let (σ₁, e, first, here) = simple_free f ip a σ h.0 g in
      let (σ₂, e', rest, others) = free_each-Frees f ip ipas σ₁ h.1 first.good in
      (
        σ₂,
        ground (arith, e, e'),
        Frees-trans ip σ σ₁ σ₂ first rest,
        (ground (arith, here, rest.no_more (string a.prefix) (string ip)), others),
      )

  -- The allocators of the address's own family
  abbrev pub own_allocators : IpNet → Multi pkg → List (Simple pkg)
  own_allocators ip m = elim (to4 ip.ip) [ none ↦ m.v6 | some _ ↦ m.v4 ]

  own_allocators4 :
      (ip : IpNet) (m : Multi pkg) → ip_family ip ≡ ok ipv4 → own_allocators ip m ≡ m.v4
  unfolding ip_family
  own_allocators4 ip m e = ground (arith, e)

  own_allocators6 :
      (ip : IpNet) (m : Multi pkg) → ip_family ip ≡ ok ipv6 → own_allocators ip m ≡ m.v6
  unfolding ip_family
  own_allocators6 ip m e = ground (arith, e)

  -- Over a Store that keeps its contract, Free succeeds for every well-formed address: the address is
  -- free then in every network of an allocator of its own family that contains it, and no lease and
  -- no other allocation changes.
  pub free-Frees :
      (ip : IpNet) (m : Multi pkg) (σ : S)
      → IsNet ip
      → AllServing pkg laws st v contract Served m
      → IsGood v Served σ
      → (σ' : S) × (free pkg st.ip_store ip (m, σ) ≡ (ok tt, (m, σ')))
        × Frees ip σ σ'
        × AllFree ip σ' (own_allocators ip m)
  unfolding free
  free-Frees ip m σ valid h g = elim (family_cases ip valid) [
    | inl e ↦
        let (σ', done, frees, all_free) = free_each-Frees ipv4 ip m.v4 σ h.0 g in
        (
          σ',
          ground (arith, e, done),
          frees,
          subst (AllFree ip σ') (sym (own_allocators4 ip m e)) all_free,
        )
    | inr e ↦
        let (σ', done, frees, all_free) = free_each-Frees ipv6 ip m.v6 σ h.1 g in
        (
          σ',
          ground (arith, e, done),
          frees,
          subst (AllFree ip σ') (sym (own_allocators6 ip m e)) all_free,
        )
  ]

  -- Taking `ip` back from the networks that are served does not touch the text `d` under `k`.
  abbrev pub IsUntouched : Cidr → Cidr → IpNet → Type 0
  IsUntouched k d ip =
      (n : IpNet) → Served n → contains n ip.ip ≡ true → string n ≡ k → string ip ≡ d → ⊥

  -- The same for a list of addresses
  pub record FreesAll (ips : List IpNet) (σ σ' : S) : Type 0 where
    pub good : IsGood v Served σ'
    pub same_leases : (k : ℕ) → v.leased σ' k ≡ v.leased σ k
    pub keeps : (k d : Cidr) → All (IsUntouched k d) ips → v.allocated σ' k d ≡ v.allocated σ k d

  pub FreesAll-cons :
      (ip : IpNet) (ips : List IpNet) (σ₁ σ₂ σ₃ : S)
      → Frees ip σ₁ σ₂
      → FreesAll ips σ₂ σ₃
      → FreesAll (ip ∷ ips) σ₁ σ₃
  FreesAll-cons ip ips σ₁ σ₂ σ₃ a b = record {
    good = b.good;
    same_leases = λ k. b.same_leases k ∙ a.same_leases k;
    keeps = λ k d h. b.keeps k d h.1 ∙ a.keeps k d h.0;
  }

  pub FreesAll-nil : (σ : S) → IsGood v Served σ → FreesAll [] σ σ
  FreesAll-nil σ g = record { good = g; same_leases = λ k. refl; keeps = λ k d h. refl }

  -- The clean-up succeeds.
  pub free_all-FreesAll :
      (ips : List IpNet) (m : Multi pkg) (σ : S)
      → All IsNet ips
      → AllServing pkg laws st v contract Served m
      → IsGood v Served σ
      → (σ' : S) × (free_all pkg st.ip_store ips (m, σ) ≡ (ok tt, (m, σ'))) × FreesAll ips σ σ'
  unfolding free_all
  free_all-FreesAll [] m σ valid h g = (σ, refl, FreesAll-nil σ g)
  free_all-FreesAll (ip ∷ ips) m σ valid h g =
      let (σ₁, e, first, _) = free-Frees ip m σ valid.0 h g in
      let (σ₂, e', rest) = free_all-FreesAll ips m σ₁ valid.1 h first.good in
      (σ₂, ground (arith, e, e'), FreesAll-cons ip ips σ σ₁ σ₂ first rest)
