-- ===== src/IpAllocator/Simple/Advance.antt =====
-- simpleIPAllocator (ipallocator.go): where an allocation round stands after the loop over the
-- reserved addresses.
use wgipam.Base.{
  ℕ, ◌≤◌, ◌<◌, ◌≡◌, refl, ◌⊎◌, inl, inr, Option, none, some, List, [], ◌∷◌, arith, Bool-cases, ◌∙◌,
}
use wgipam.Base.Result.{ok, panic}
use wgipam.Net.{Ip, IpNet, equal}
use wgipam.IpAllocator.{IpAddr}
use wgipam.IpAllocator.Cursor.{CursorLaws, next_cases}
use wgipam.IpAllocator.Simple.{Positions, skip_current, skip_next, skip_reserved}

module _ (pkg : IpAddr) (laws : CursorLaws pkg) (prefix : IpNet) where
  -- A position of the prefix, or nil
  abbrev pub IsSpot : Option Ip → Type 0
  IsSpot p = (p ≡ none) ⊎ ((j : ℕ) × (j < pkg.num_nodes prefix) × (p ≡ some (laws.at prefix j)))

  -- `next` is where the cursor stands, past number `i`, or nil.
  abbrev pub IsAhead : ℕ → Option Ip → pkg.Cursor → Type 0
  IsAhead i n c = (n ≡ none) ⊎ ((i < laws.index c) × (n ≡ some (laws.at prefix (laws.index c))))

  pub record IsAlong (i : ℕ) (ps : Positions pkg) (c : pkg.Cursor) : Type 0 where
    pub over : laws.net c ≡ prefix
    pub forward : i ≤ laws.index c
    pub current : IsSpot ps.0
    pub ahead : IsAhead i ps.1 c

  -- A `next` that is not nil is a position.
  IsAhead-IsSpot :
      (i : ℕ) (n : Option Ip) (c : pkg.Cursor) → laws.net c ≡ prefix → IsAhead i n c → IsSpot n
  IsAhead-IsSpot i n c o (inl e) = inl e
  IsAhead-IsSpot i n c o (inr (lt, e)) = inr (laws.index c, rw o at (laws.index-lt c), e)

  -- After Next from a cursor past `i`
  pub next-IsAlong :
      (i : ℕ) (p : Option Ip) (c : pkg.Cursor)
      → laws.net c ≡ prefix
      → i ≤ laws.index c
      → IsSpot p
      → IsAlong i (p, (pkg.next c).0) (pkg.next c).1
  next-IsAlong i p c o le spot = elim (next_cases pkg laws c) [
    | inl e ↦ rw e (record { over = o; forward = le; current = spot; ahead = inl refl })
    | inr (c', e, o', x) ↦ rw e (record {
      over = o' ∙ o;
      forward = omega arith;
      current = spot;
      ahead = inr (omega arith, rw (x, o) refl);
    })
  ]

  skip_current-IsAlong :
      (i : ℕ) (r p : Ip) (n : Option Ip) (c : pkg.Cursor)
      → IsAlong i (some p, n) c
      → let (ps, c') = skip_current pkg r p n c in IsAlong i ps c'
  unfolding skip_current
  skip_current-IsAlong i r p n c h = elim (Bool-cases (equal p r)) [
    | inl e ↦ rw e (next-IsAlong i n c h.over h.forward (IsAhead-IsSpot i n c h.over h.ahead))
    | inr e ↦ rw e h
  ]

  skip_next-IsAlong :
      (i : ℕ) (r : Ip) (p n : Option Ip) (c : pkg.Cursor)
      → IsAlong i (p, n) c
      → let (ps, c') = skip_next pkg r ((p, n), c) in IsAlong i ps c'
  unfolding skip_next
  skip_next-IsAlong i r p none c h = h
  skip_next-IsAlong i r p (some n) c h = elim (Bool-cases (equal n r)) [
    | inl e ↦ rw e (next-IsAlong i p c h.over h.forward h.current)
    | inr e ↦ rw e h
  ]

  -- The loop panics, or ends on a position that the cursor has not passed back over.
  pub skip_reserved-IsAlong :
      (i : ℕ) (rs : List Ip) (p n : Option Ip) (c : pkg.Cursor)
      → IsAlong i (p, n) c
      → let (r, c') = skip_reserved pkg rs ((p, n), c) in
        ((r ≡ panic) × (laws.net c' ≡ prefix))
        ⊎ ((ps : Positions pkg) × (r ≡ ok ps) × IsAlong i ps c')
  unfolding skip_reserved
  skip_reserved-IsAlong i [] p n c h = inr ((p, n), refl, h)
  skip_reserved-IsAlong i (r ∷ rs) none n c h = inl (refl, h.over)
  skip_reserved-IsAlong i (r ∷ rs) (some p) n c h =
      let ((p₁, n₁), c₁) = skip_current pkg r p n c in
      let ((p₂, n₂), c₂) = skip_next pkg r ((p₁, n₁), c₁) in
      skip_reserved-IsAlong i rs p₂ n₂ c₂
        (skip_next-IsAlong i r p₁ n₁ c₁ (skip_current-IsAlong i r p n c h))
