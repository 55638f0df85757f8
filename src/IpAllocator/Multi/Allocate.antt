-- ===== src/IpAllocator/Multi/Allocate.antt =====
-- multiIPAllocator.Allocate (ipallocator.go): how it ends, and what it has changed by then.
use wgipam.Base.{
  ℕ, ◌≡◌, refl, ◌⊎◌, inl, inr, Bool, true, false, Option, none, some, List, [], ◌∷◌, All, arith,
  Bool-cases, ◌==◌, ◌||◌, nat_eq, ◌∙◌, sym, subst, subst₂,
}
use wgipam.Base.Result.{Result, ok, err, panic, hang}
use wgipam.Net.{Ip, IpNet, Cidr, IsNet, string, contains}
use wgipam.Family.{Family, ipv4, ipv6, dual_stack}
use wgipam.Store.{Store}
use wgipam.Store.Contract.{StoreView, StoreLaws}
use wgipam.IpAllocator.{IpAddr}
use wgipam.IpAllocator.Cursor.{CursorLaws}
use wgipam.IpAllocator.Grants.{Grant, IsGood, IsFresh, Gains, ips_of, granted}
use wgipam.IpAllocator.Multi.{Multi, W, Tried, allocate, settle, try_allocate, free_all}
use wgipam.IpAllocator.Multi.Each.{AllServing, TriesAll, try_allocate-TriesAll}
use wgipam.IpAllocator.Multi.Frees.{IsUntouched, free_all-FreesAll}

-- The networks that are served do not overlap: those that contain one address have one text.
abbrev pub NoOverlap : (IpNet → Type 0) → Type 0
NoOverlap Served =
    (m n : IpNet) (ip : Ip)
    → Served m
    → Served n
    → contains m ip ≡ true
    → contains n ip ≡ true
    → string m ≡ string n

module _ (pkg : IpAddr) (laws : CursorLaws pkg) {S : Type 0} (st : Store S) (v : StoreView S)
    (contract : StoreLaws st v) (Served : IpNet → Type 0) (apart : NoOverlap Served) where
  -- What a call leaves: no allocation is lost, and it returns addresses that were free and are
  -- allocated now, or none, or panics.
  pub record Allocates (σ : S) (r : Result (Option (List IpNet)) × W pkg st.ip_store) : Type 0 where
    pub good : IsGood v Served r.1.1
    pub same_leases : (k : ℕ) → v.leased r.1.1 k ≡ v.leased σ k
    pub serving : AllServing pkg laws st v contract Served r.1.0
    pub keeps : (k d : Cidr) → v.allocated σ k d ≡ true → v.allocated r.1.1 k d ≡ true
    pub ends :
        ((gs : List Grant) × (r.0 ≡ ok (some (ips_of gs))) × Gains v Served σ r.1.1 gs)
        ⊎ (r.0 ≡ ok none)
        ⊎ (r.0 ≡ panic)

  IsNet-of-fresh : (σ : S) (gs : List Grant) → All (IsFresh v Served σ) gs → All IsNet (ips_of gs)
  IsNet-of-fresh σ [] h = tt
  IsNet-of-fresh σ (g ∷ gs) h = (h.0.1, IsNet-of-fresh σ gs h.1)

  -- Taking fresh addresses back touches nothing that was allocated before.
  untouched :
      (σ : S) (k d : Cidr) (gs : List Grant)
      → v.allocated σ k d ≡ true
      → All (IsFresh v Served σ) gs
      → All (IsUntouched pkg laws st v contract Served k d) (ips_of gs)
  untouched σ k d [] old h = tt
  untouched σ k d ((n', ip) ∷ gs) old ((s', valid, i', free), hs) = (
    (λ n s i e e'.
        let same : string n' ≡ k = apart n' n ip.ip s' s i' i ∙ e in
        cc (subst₂ (λ (a b : Cidr). v.allocated σ a b ≡ false) same e' free)),
    untouched σ k d gs old hs,
  )

  keeps-Gains :
      (σ σ' : S) (gs : List Grant)
      → Gains v Served σ σ' gs
      → (k d : Cidr) → v.allocated σ k d ≡ true
      → v.allocated σ' k d ≡ true
  keeps-Gains σ σ' gs h k d old = h.exact k d ∙ rw old (or-true (granted k d gs))
    where
      or-true : (b : Bool) → (b || true) ≡ true
      or-true true = refl
      or-true false = refl

  settle-Allocates :
      (σ : S) (t : Tried pkg st.ip_store × W pkg st.ip_store)
      → TriesAll pkg laws st v contract Served [] σ t
      → Allocates σ (settle pkg st.ip_store t)
  unfolding settle
  settle-Allocates σ ((ips, ok true), (m, σ₁)) h = record {
    good = h.gains.good;
    same_leases = h.gains.same_leases;
    serving = h.serving;
    keeps = keeps-Gains σ σ₁ h.grants h.gains;
    ends = inl (h.grants, rw h.out_lem, h.gains);
  }
  settle-Allocates σ ((ips, ok false), (m, σ₁)) h =
      let (σ₂, e, freed) =
        free_all-FreesAll pkg laws st v contract Served ips m σ₁
          (rw h.out_lem (IsNet-of-fresh σ h.grants h.gains.fresh)) h.serving h.gains.good in
      subst (Allocates σ) (sym (unfold settle in rolled_back σ₂ e)) (record {
        good = freed.good;
        same_leases = λ k. freed.same_leases k ∙ h.gains.same_leases k;
        serving = h.serving;
        keeps = λ k d old.
            freed.keeps k d (rw h.out_lem (untouched σ k d h.grants old h.gains.fresh))
            ∙ keeps-Gains σ σ₁ h.grants h.gains k d old;
        ends = inr (inl refl);
      })
    where
      rolled_back :
          (σ₂ : S)
          → free_all pkg st.ip_store ips (m, σ₁) ≡ (ok tt, (m, σ₂))
          → settle pkg st.ip_store ((ips, ok false), (m, σ₁)) ≡ (ok none, (m, σ₂))
      rolled_back σ₂ e = ground (arith, e)
  settle-Allocates σ ((ips, err x), (m, σ₁)) h =
      absurd (elim h.ends [ inl e ↦ cc | inr (inl e) ↦ cc | inr (inr e) ↦ cc ])
  settle-Allocates σ ((ips, panic), (m, σ₁)) h = record {
    good = h.gains.good;
    same_leases = h.gains.same_leases;
    serving = h.serving;
    keeps = keeps-Gains σ σ₁ h.grants h.gains;
    ends = inr (inr refl);
  }
  settle-Allocates σ ((ips, hang), (m, σ₁)) h =
      absurd (elim h.ends [ inl e ↦ cc | inr (inl e) ↦ cc | inr (inr e) ↦ cc ])

  -- Over a Store that keeps its contract and a cursor package that keeps its laws, allocators whose
  -- networks do not overlap lose no allocation and change no lease when they are asked for any
  -- family, and they return addresses that were free and are the only new allocations, or none, or
  -- panic; never an error.
  pub allocate-Allocates :
      (f : Family) (m : Multi pkg) (σ : S)
      → AllServing pkg laws st v contract Served m
      → IsGood v Served σ
      → Allocates σ (allocate pkg st.ip_store f (m, σ))
  unfolding allocate
  allocate-Allocates f m σ h g = elim (Bool-cases (f == ipv4 || f == ipv6)) [
    | inl e ↦ rw e (asked (f ∷ []) (single f e, tt))
    | inr n ↦ elim (Bool-cases (f == dual_stack)) [
      | inl e ↦ rw (n, e) (asked (ipv4 ∷ ipv6 ∷ []) (inl refl, (inr refl, tt)))
      | inr n' ↦
          rw (n, n')
            (record {
              good = g;
              same_leases = λ k. refl;
              serving = h;
              keeps = λ k d old. old;
              ends = inr (inr refl);
            })
    ]
  ]
    where
      single : (f' : ℕ) → (f' == ipv4 || f' == ipv6) ≡ true → (f' ≡ ipv4) ⊎ (f' ≡ ipv6)
      single f' e = ground arith

      asked :
          (fs : List Family)
          → All (λ f'. (f' ≡ ipv4) ⊎ (f' ≡ ipv6)) fs
          → Allocates σ (settle pkg st.ip_store (try_allocate pkg st.ip_store fs [] (m, σ)))
      asked fs fam =
          settle-Allocates σ _
            (try_allocate-TriesAll pkg laws st v contract Served fs [] m σ fam h g)
