-- ===== src/IpAllocator/Multi/Each.antt =====
-- multiIPAllocator.tryAllocate (ipallocator.go): what it has granted by the time it stops.
use wgipam.Base.{
  ◌≡◌, refl, ◌⊎◌, inl, inr, Bool, true, false, Option, none, some, List, [], ◌∷◌, ◌++◌, All, nat_eq,
  if◌then◌else◌, ◌∙◌, sym, ap,
}
use mathlib.Core.List.{append-nil, append_assoc, map-append}
use wgipam.Base.Result.{Result, ok, panic}
use wgipam.Net.{IpNet}
use wgipam.Family.{Family, ipv4, ipv6}
use wgipam.Store.{Store}
use wgipam.Store.Contract.{StoreView, StoreLaws}
use wgipam.IpAllocator.{IpAddr}
use wgipam.IpAllocator.Cursor.{CursorLaws}
use wgipam.IpAllocator.Grants.{Grant, IsGood, Gains, Gains-nil, Gains-one, Gains-trans, ips_of}
use wgipam.IpAllocator.Simple
use wgipam.IpAllocator.Simple.{Simple}
use wgipam.IpAllocator.Simple.Allocate.{IsReady, IsReady-moved, key}
use wgipam.IpAllocator.Simple.Loop.{Outcome, panicked, exhausted, got}
use wgipam.IpAllocator.Simple.Ends.{allocate-Outcome}
use wgipam.IpAllocator.Multi.{Multi, W, Tried, pick, put, is_empty, allocate_each, try_allocate}

module _ (pkg : IpAddr) (laws : CursorLaws pkg) {S : Type 0} (st : Store S) (v : StoreView S)
    (contract : StoreLaws st v) (Served : IpNet → Type 0) where
  -- An allocator of family `f` for a network that is served
  pub record IsServing (f : Family) (a : Simple pkg) : Type 0 where
    pub ready : IsReady pkg laws a
    pub served : Served a.prefix
    pub of_family : a.family ≡ f

  -- tryAllocate ends with a flag, or in a panic, never with an error.
  abbrev pub Ends : Result Bool → Type 0
  Ends r = (r ≡ ok true) ⊎ (r ≡ ok false) ⊎ (r ≡ panic)

  -- From `out` and the store `σ`: the addresses appended to `out` are those granted.
  pub record Tries (f : Family) (out : List IpNet) (σ : S)
      (t : Tried pkg st.ip_store × List (Simple pkg) × S) : Type 0 where
    pub grants : List Grant
    pub out_lem : t.0.0 ≡ out ++ ips_of grants
    pub gains : Gains v Served σ t.2 grants
    pub serving : All (IsServing f) t.1
    pub ends : Ends t.0.1

  -- What one allocator's Allocate leaves for the next
  record Once (f : Family) (σ : S) (a : Simple pkg)
      (r : Result (Option (List IpNet)) × Simple.W pkg st.ip_store) : Type 0 where
    serving : IsServing f r.1.0
    step :
        ((gs : List Grant) × (r.0 ≡ ok (some (ips_of gs))) × Gains v Served σ r.1.1 gs)
        ⊎ ((r.0 ≡ ok none) × (r.1.1 ≡ σ))
        ⊎ ((r.0 ≡ panic) × (r.1.1 ≡ σ))

  moved :
      (f : Family) (a : Simple pkg) (c : pkg.Cursor)
      → IsServing f a
      → laws.net c ≡ a.prefix
      → IsServing f (record a { cursor = c })
  moved f a c h o = record {
    ready = IsReady-moved pkg laws a c h.ready o;
    served = h.served;
    of_family = h.of_family;
  }

  Once-of-Outcome :
      (f : Family) (σ : S) (a : Simple pkg)
      (r : Result (Option (List IpNet)) × Simple.W pkg st.ip_store)
      → IsServing f a
      → IsGood v Served σ
      → Outcome pkg laws st v a σ r
      → Once f σ a r
  Once-of-Outcome f σ a r h g (panicked c o e) =
      rw e (record { serving = moved f a c h o; step = inr (inr (refl, refl)) })
  Once-of-Outcome f σ a r h g (exhausted c o e) =
      rw e (record { serving = moved f a c h o; step = inr (inl (refl, refl)) })
  Once-of-Outcome f σ a r h g (got c i m σ' o lt em e new sets) = rw e (record {
    serving = moved f a c h o;
    step = inl (
      (a.prefix, key pkg laws a i m) ∷ [],
      refl,
      Gains-one v Served σ σ' a.prefix (key pkg laws a i m) g
          (
            h.served,
            laws.host-IsNet a.prefix m i h.ready.valid lt em,
            laws.contains-at a.prefix i h.ready.valid lt,
            new,
          )
          sets,
    );
  })

  allocate-Once :
      (f : Family) (σ : S) (a : Simple pkg)
      → IsServing f a
      → IsGood v Served σ
      → Once f σ a (Simple.allocate pkg st.ip_store f (a, σ))
  allocate-Once f σ a h g = rw (sym h.of_family) (
      Once-of-Outcome a.family σ a _
        (record { ready = h.ready; served = h.served; of_family = refl }) g
        (allocate-Outcome pkg laws st v contract a σ h.ready g.inv (g.exists a.prefix h.served)))

  -- Each allocator of a family in turn
  pub each-Tries :
      (f : Family) (ipas : List (Simple pkg)) (out : List IpNet) (σ : S)
      → All (IsServing f) ipas
      → IsGood v Served σ
      → Tries f out σ (allocate_each pkg st.ip_store f ipas out σ)
  unfolding allocate_each
  each-Tries f [] out σ h g = record {
    grants = [];
    out_lem = sym (append-nil out);
    gains = Gains-nil v Served σ g;
    serving = tt;
    ends = inl refl;
  }
  each-Tries f (a ∷ ipas) out σ h g =
      let once = allocate-Once f σ a h.0 g in
      let σ₁ = (Simple.allocate pkg st.ip_store f (a, σ)).1.1 in
      elim once.step [
        | inl (gs, e, gained) ↦
            let rest = each-Tries f ipas (out ++ ips_of gs) σ₁ h.1 gained.good in
            rw (e, allocate_each)
              (record {
                grants = gs ++ rest.grants;
                out_lem =
                    rest.out_lem
                    ∙ append_assoc out (ips_of gs) (ips_of rest.grants)
                    ∙ ap (◌++◌ out) (sym (map-append _ gs rest.grants));
                gains = Gains-trans v Served σ σ₁ _ gs rest.grants gained rest.gains;
                serving = (once.serving, rest.serving);
                ends = rest.ends;
              })
        | inr (inl (e, same)) ↦
            rw (e, allocate_each) (stopped once.serving (ok false) (inr (inl refl)) same)
        | inr (inr (e, same)) ↦
            rw (e, allocate_each) (stopped once.serving panic (inr (inr refl)) same)
      ]
    where
      stopped :
          IsServing f (Simple.allocate pkg st.ip_store f (a, σ)).1.0
          → (r : Result Bool) → Ends r
          → (Simple.allocate pkg st.ip_store f (a, σ)).1.1 ≡ σ
          → Tries f out σ (
            (out, r),
            (Simple.allocate pkg st.ip_store f (a, σ)).1.0 ∷ ipas,
            (Simple.allocate pkg st.ip_store f (a, σ)).1.1,
          )
      stopped sv r en same = record {
        grants = [];
        out_lem = sym (append-nil out);
        gains = rw same (Gains-nil v Served σ g);
        serving = (sv, h.1);
        ends = en;
      }

  -- The allocators of both families
  abbrev pub AllServing : Multi pkg → Type 0
  AllServing m = All (IsServing ipv4) m.v4 × All (IsServing ipv6) m.v6

  abbrev pub IsFamily : Family → Type 0
  IsFamily f = (f ≡ ipv4) ⊎ (f ≡ ipv6)

  pick-All :
      (f : Family) (m : Multi pkg) → IsFamily f → AllServing m → All (IsServing f) (pick pkg f m)
  pick-All f m (inl e) h = rw e h.0
  pick-All f m (inr e) h = rw e h.1

  put-All :
      (f : Family) (ipas : List (Simple pkg)) (m : Multi pkg)
      → IsFamily f
      → All (IsServing f) ipas
      → AllServing m
      → AllServing (put pkg f ipas m)
  put-All f ipas m (inl e) a h = let a' = rw e at a in rw e (a', h.1)
  put-All f ipas m (inr e) a h = let a' = rw e at a in rw e (h.0, a')

  -- The same, for the families of a request
  pub record TriesAll (out : List IpNet) (σ : S) (t : Tried pkg st.ip_store × W pkg st.ip_store)
      : Type 0 where
    pub grants : List Grant
    pub out_lem : t.0.0 ≡ out ++ ips_of grants
    pub gains : Gains v Served σ t.1.1 grants
    pub serving : AllServing t.1.0
    pub ends : Ends t.0.1

  Ends-empty : (out : List IpNet) → Ends (ok (if is_empty out then false else true))
  Ends-empty [] = inr (inl refl)
  Ends-empty (ip ∷ out) = inl refl

  pub try_allocate-TriesAll :
      (fs : List Family) (out : List IpNet) (m : Multi pkg) (σ : S)
      → All IsFamily fs
      → AllServing m
      → IsGood v Served σ
      → TriesAll out σ (try_allocate pkg st.ip_store fs out (m, σ))
  unfolding try_allocate
  try_allocate-TriesAll [] out m σ fam h g = record {
    grants = [];
    out_lem = sym (append-nil out);
    gains = Gains-nil v Served σ g;
    serving = h;
    ends = Ends-empty out;
  }
  try_allocate-TriesAll (f ∷ fs) out m σ fam h g =
      let t = allocate_each pkg st.ip_store f (pick pkg f m) out σ in
      let each = each-Tries f (pick pkg f m) out σ (pick-All f m fam.0 h) g in
      let serving = put-All f t.1 m fam.0 each.serving h in
      elim each.ends [
        | inl e ↦
            let rest =
              try_allocate-TriesAll fs t.0.0 (put pkg f t.1 m) t.2 fam.1 serving each.gains.good in
            rw (e, try_allocate)
              (record {
                grants = each.grants ++ rest.grants;
                out_lem =
                    rest.out_lem
                    ∙ ap (λ o. o ++ ips_of rest.grants) each.out_lem
                    ∙ append_assoc out (ips_of each.grants) (ips_of rest.grants)
                    ∙ ap (◌++◌ out) (sym (map-append _ each.grants rest.grants));
                gains = Gains-trans v Served σ t.2 _ each.grants rest.grants each.gains rest.gains;
                serving = rest.serving;
                ends = rest.ends;
              })
        | inr (inl e) ↦
            rw (e, try_allocate)
              (record {
                grants = each.grants;
                out_lem = each.out_lem;
                gains = each.gains;
                serving = serving;
                ends = inr (inl refl);
              })
        | inr (inr e) ↦
            rw (e, try_allocate)
              (record {
                grants = each.grants;
                out_lem = each.out_lem;
                gains = each.gains;
                serving = serving;
                ends = inr (inr refl);
              })
      ]
