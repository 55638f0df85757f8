-- ===== src/IpAllocator/Multi/Setup.antt =====
-- DualStackIPAllocator (ipallocator.go): for valid subnets from which nothing is allocated, it
-- makes one allocator for each, by the family of its network.
use wgipam.Base.{
  ℕ, ◌≡◌, refl, Bool, true, false, List, [], ◌∷◌, All, All-map, ◌==◌, nat_eq, sym, ap, ◌∙◌, subst,
  if◌then◌else◌,
}
use wgipam.Base.Map.{beq_refl}
use wgipam.Base.Result.{ok, ok-injective, pure, ◌>>=◌, >>=-ok}
use wgipam.Net.{IpNet, IsNet, IsPrefix, Cidr, cidr_eq, string}
use wgipam.Family.{Family, ipv4, ipv6, ip_family}
use wgipam.Store.{Store}
use wgipam.Store.Contract.{StoreView, StoreLaws, Registers, Registers-same_allocations}
use wgipam.IpAllocator.{IpAddr}
use wgipam.IpAllocator.Cursor.{CursorLaws}
use wgipam.IpAllocator.Subnet.{Subnet, validate}
use wgipam.IpAllocator.Simple.{Simple, simple_ip_allocator}
use wgipam.IpAllocator.Simple.Setup.{simple_ip_allocator-IsReady}
use wgipam.IpAllocator.Multi.{Multi, is_empty, split_subnets, make_each, dual_stack_ip_allocator}
use wgipam.IpAllocator.Multi.Split.{In4, In6, split-All, All-split, split-In, family4, family6}
use wgipam.IpAllocator.Multi.Each.{IsServing, AllServing}

-- A subnet that an allocator can be made for
abbrev pub IsFine : Subnet → Type 0
IsFine s = IsPrefix s.subnet × (validate s ≡ ok tt)

pub prefixes_of : (ss : List Subnet) → All IsFine ss → All (λ s. IsPrefix s.subnet) ss
prefixes_of ss fine = All-map ss (λ s h. h.0) fine

module _ (pkg : IpAddr) (laws : CursorLaws pkg) {S : Type 0} (st : Store S) (v : StoreView S)
    (contract : StoreLaws st v) (Served : IpNet → Type 0) where
  -- Nothing is allocated from the subnet.
  abbrev pub IsUnused : S → Subnet → Type 0
  IsUnused σ s = (c : Cidr) → v.allocated σ (string s.subnet) c ≡ false

  -- The store after subnets are saved
  pub record Extends (ss : List Subnet) (σ σ' : S) : Type 0 where
    pub inv : v.Inv σ'
    pub same_leases : (k : ℕ) → v.leased σ' k ≡ v.leased σ k
    pub same_allocations : (k d : Cidr) → v.allocated σ' k d ≡ v.allocated σ k d
    pub saved : All (λ s. v.registered σ' (string s.subnet) ≡ true) ss
    pub keeps : (k : Cidr) → v.registered σ k ≡ true → v.registered σ' k ≡ true

  Extends-nil : (σ : S) → v.Inv σ → Extends [] σ σ
  Extends-nil σ i = record {
    inv = i;
    same_leases = λ k. refl;
    same_allocations = λ k d. refl;
    saved = tt;
    keeps = λ k e. e;
  }

  -- Saving subnets leaves the unused ones unused.
  kept-IsUnused :
      (σ σ' : S) (ts : List Subnet)
      → ((k d : Cidr) → v.allocated σ' k d ≡ v.allocated σ k d)
      → All (IsUnused σ) ts
      → All (IsUnused σ') ts
  kept-IsUnused σ σ' ts same h = All-map ts (λ t n c. same (string t.subnet) c ∙ n c) h

  Extends-cons :
      (s : Subnet) (ss : List Subnet) (σ σ₁ σ' : S)
      → Registers v (string s.subnet) σ σ₁
      → ((c : Cidr) → v.allocated σ (string s.subnet) c ≡ false)
      → Extends ss σ₁ σ'
      → Extends (s ∷ ss) σ σ'
  Extends-cons s ss σ σ₁ σ' r unused h = record {
    inv = h.inv;
    same_leases = λ k. h.same_leases k ∙ r.same_leases k;
    same_allocations = λ k d.
        h.same_allocations k d ∙ Registers-same_allocations v (string s.subnet) σ σ₁ r unused k d;
    saved = (
      h.keeps (string s.subnet)
          (r.registers (string s.subnet) ∙ rw (beq_refl (string s.subnet)) refl),
      h.saved,
    );
    keeps = λ k e. h.keeps k (r.registers k ∙ rw e (if-same (string s.subnet == k)));
  }
    where
      if-same : (b : Bool) → (if b then true else true) ≡ true
      if-same true = refl
      if-same false = refl

  -- Every prefix with the subnet's text is of the family.
  abbrev HasFamily : Family → Subnet → Type 0
  HasFamily f s = (p : IpNet) → string p ≡ string s.subnet → ip_family p ≡ ok f

  abbrev IsToServe : Family → Subnet → Type 0
  IsToServe f s = IsFine s × HasFamily f s × Served (pkg.new_prefix s.subnet)

  make_each_lem :
      (f : Family) (ss : List Subnet) (σ : S)
      → v.Inv σ
      → All (IsToServe f) ss
      → All (IsUnused σ) ss
      → (ipas : List (Simple pkg)) × (σ' : S) × (make_each pkg st.ip_store ss σ ≡ (ok ipas, σ'))
        × All (IsServing pkg laws st v contract Served f) ipas
        × Extends ss σ σ'
  unfolding make_each
  make_each_lem f [] σ i h n = ([], σ, refl, tt, Extends-nil σ i)
  make_each_lem f (s ∷ ss) σ i ((fine, family, served), hs) (new, n) =
      let (σ₁, saved, r) = contract.save_subnet_lem s.subnet σ i fine.0.0 in
      let (a, e, ready, config) =
        simple_ip_allocator-IsReady pkg laws st.ip_store s σ σ₁ fine.0 fine.1 saved in
      let (ipas, σ', e', serving, ext) =
        make_each_lem f ss σ₁ r.inv hs
          (kept-IsUnused σ σ₁ ss (Registers-same_allocations v (string s.subnet) σ σ₁ r new) n) in
      (
        a ∷ ipas,
        σ',
        >>=-ok (simple_ip_allocator pkg st.ip_store s)
              (λ x. make_each pkg st.ip_store ss >>= λ ipas. pure (x ∷ ipas)) σ σ₁ a e
            ∙ >>=-ok (make_each pkg st.ip_store ss) (λ ipas. pure (a ∷ ipas)) σ₁ σ' ipas e',
        (
          record {
            ready = ready;
            served = subst Served (sym config.of_subnet) served;
            of_family = ok-injective (
                sym ready.families
                ∙ family a.prefix (ap string config.of_subnet ∙ laws.string-new_prefix s.subnet));
          },
          serving,
        ),
        Extends-cons s ss σ σ₁ σ' r new ext,
      )

  -- Over a Store that keeps its contract and a cursor package that keeps its laws,
  -- DualStackIPAllocator succeeds for subnets that are not none, are valid and of one family each,
  -- and from which nothing is allocated. Its allocators are ready, each in the list of its family,
  -- and the store has the subnets, and the leases and allocations that it had.
  pub dual_stack_ip_allocator-AllServing :
      (ss : List Subnet) (σ : S)
      → v.Inv σ
      → is_empty ss ≡ false
      → All IsFine ss
      → All (IsUnused σ) ss
      → All (λ s. Served (pkg.new_prefix s.subnet)) ss
      → (m : Multi pkg) × (σ' : S) × (dual_stack_ip_allocator pkg st.ip_store ss σ ≡ (ok m, σ'))
        × AllServing pkg laws st v contract Served m
        × v.Inv σ'
        × All (λ s. v.registered σ' (string s.subnet) ≡ true) ss
        × ((k : ℕ) → v.leased σ' k ≡ v.leased σ k)
        × ((k d : Cidr) → v.allocated σ' k d ≡ v.allocated σ k d)
  unfolding dual_stack_ip_allocator
  dual_stack_ip_allocator-AllServing ss σ i some_subnet fine new served =
      let (in4, in6) = split-In ss in
      let (fine4, fine6) = split-All IsFine ss fine in
      let (new4, new6) = split-All (IsUnused σ) ss new in
      let (served4, served6) = split-All (λ s. Served (pkg.new_prefix s.subnet)) ss served in
      let sub4 = (split_subnets ss).0 in
      let sub6 = (split_subnets ss).1 in
      let (v4, σ₁, e, serving4, x) =
        make_each_lem ipv4 sub4 σ i (to_serve ipv4 In4 family4 sub4 in4 fine4 served4) new4 in
      let (v6, σ₂, e', serving6, y) =
        make_each_lem ipv6 sub6 σ₁ x.inv (to_serve ipv6 In6 family6 sub6 in6 fine6 served6)
          (kept-IsUnused σ σ₁ sub6 x.same_allocations new6) in
      (
        record { v4 = v4; v6 = v6 },
        σ₂,
        rw some_subnet (
            >>=-ok (make_each pkg st.ip_store sub4)
              (λ a. make_each pkg st.ip_store sub6 >>= λ b. pure (record { v4 = a; v6 = b })) σ σ₁
              v4 e
            ∙ >>=-ok (make_each pkg st.ip_store sub6) (λ b. pure (record { v4 = v4; v6 = b })) σ₁ σ₂
                v6 e'),
        (serving4, serving6),
        y.inv,
        All-split (λ s. v.registered σ₂ (string s.subnet) ≡ true) ss
            (All-map sub4 (λ s h. y.keeps (string s.subnet) h) x.saved) y.saved,
        λ k. y.same_leases k ∙ x.same_leases k,
        λ k d. y.same_allocations k d ∙ x.same_allocations k d,
      )
    where
      to_serve :
          (f : Family) (In : Subnet → Type 0)
          → ((s : Subnet) (p : IpNet)
              → IsNet s.subnet
              → string p ≡ string s.subnet
              → In s
              → ip_family p ≡ ok f)
          → (ts : List Subnet) → All In ts
          → All IsFine ts
          → All (λ s. Served (pkg.new_prefix s.subnet)) ts
          → All (IsToServe f) ts
      to_serve f In family [] a b c = tt
      to_serve f In family (t ∷ ts) (a, as_) (b, bs) (c, cs) =
          ((b, λ p e. family t p b.0.0 e a, c), to_serve f In family ts as_ bs cs)
