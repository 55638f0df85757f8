-- ===== src/IpAllocator/Simple/Skip.antt =====
-- simpleIPAllocator.Allocate (ipallocator.go): what the body of the loop over the reserved addresses
-- does, where they are in ascending order.
use wgipam.Base.{
  ℕ, suc, ◌≤◌, ◌<◌, ◌≡◌, ◌⊎◌, refl, inl, inr, true, false, Option, none, some, List, [], ◌∷◌, arith,
  Bool-cases, ◌∙◌, sym, ap, nat_eq, subst,
}
use wgipam.Base.Result.{ok}
use wgipam.Net.{Ip, IpNet, IsPrefix, equal}
use wgipam.IpAllocator.{IpAddr}
use wgipam.IpAllocator.Cursor.{CursorLaws, next_cases}
use wgipam.IpAllocator.Simple.{Positions, skip_current, skip_next, skip_reserved}

-- The address is none of those.
abbrev pub IsOther : List Ip → Ip → Type 0
IsOther [] ip = Unit
IsOther (r ∷ rs) ip = (equal ip r ≡ false) × IsOther rs ip

equal_trans : (x y z : Ip) → equal x y ≡ true → equal y z ≡ true → equal x z ≡ true
equal_trans x y z e e' = ground (arith, e, e')

module _ (pkg : IpAddr) (laws : CursorLaws pkg) (prefix : IpNet) where
  -- Addresses of the prefix in ascending order, from number `b` on
  abbrev pub IsAscending : ℕ → List Ip → Type 0
  IsAscending b [] = Unit
  IsAscending b (r ∷ rs) =
      (i : ℕ) × (b ≤ i)
      × (i < pkg.num_nodes prefix)
      × (equal r (laws.at prefix i) ≡ true)
      × IsAscending (suc i) rs

  -- After some of the reserved addresses, `p` is number `j` and `next` is where the cursor stands.
  pub record Stands (j : ℕ) (n : Option Ip) (c : pkg.Cursor) : Type 0 where
    pub over : laws.net c ≡ prefix
    pub inside : j < pkg.num_nodes prefix
    pub ahead : (n ≡ none) ⊎ ((n ≡ some (laws.at prefix (laws.index c))) × (j < laws.index c))

  -- A number that the rest of the loop may end on
  abbrev pub IsReached : ℕ → ℕ → Option Ip → pkg.Cursor → ℕ → Type 0
  IsReached b j n c k = (k ≡ j) ⊎ ((n ≡ some (laws.at prefix k)) × (k ≡ laws.index c)) ⊎ (b ≤ k)

  pub skip_none :
      (r : Ip) (rs : List Ip) (n : Option Ip) (c c' : pkg.Cursor) (q : Ip) (n' : Option Ip)
      → skip_reserved pkg rs (skip_next pkg r ((none, n), c)) ≡ (ok (some q, n'), c')
      → ⊥
  unfolding skip_reserved skip_next
  skip_none r [] none c c' q n' e = ground (arith, e)
  skip_none r [] (some n) c c' q n' e = ground (arith, e)
  skip_none r (_ ∷ rs) none c c' q n' e = ground (arith, e)
  skip_none r (_ ∷ rs) (some n) c c' q n' e = ground (arith, e)

  -- One reserved address `r`, of number `i`: `p` is nil, or both `p` and `next` are others.
  pub record Passes (r : Ip) (i j : ℕ) (n : Option Ip) (c : pkg.Cursor)
      (r' : Positions pkg × pkg.Cursor) : Type 0 where
    pub at_j : ℕ
    pub next_ip : Option Ip
    pub cursor : pkg.Cursor
    pub result : r' ≡ ((some (laws.at prefix at_j), next_ip), cursor)
    pub stands : Stands at_j next_ip cursor
    pub current_other : equal (laws.at prefix at_j) r ≡ false
    pub next_other :
        (k : ℕ) → next_ip ≡ some (laws.at prefix k) → equal (laws.at prefix k) r ≡ false
    pub current_reached : IsReached i j n c at_j
    pub next_reached : (next_ip ≡ none) ⊎ IsReached i j n c (laws.index cursor)

  module _ (valid : IsPrefix prefix) (r : Ip) (i : ℕ) (i_lt : i < pkg.num_nodes prefix)
      (same : equal r (laws.at prefix i) ≡ true) where
    is_number : (k : ℕ) → k < pkg.num_nodes prefix → equal (laws.at prefix k) r ≡ true → k ≡ i
    is_number k lt e =
        laws.at-injective prefix k i valid lt i_lt
          (equal_trans (laws.at prefix k) r (laws.at prefix i) e same)

    pub is_other :
        (k : ℕ) → k < pkg.num_nodes prefix → (k ≡ i → ⊥) → equal (laws.at prefix k) r ≡ false
    is_other k lt ne = elim (Bool-cases (equal (laws.at prefix k) r)) [
      | inr e ↦ e
      | inl e ↦ absurd (ne (is_number k lt e))
    ]

    -- Next after a cursor that stands on `i` or after it
    passed_lem :
        (j j' : ℕ) (n : Option Ip) (c : pkg.Cursor)
        → laws.net c ≡ prefix
        → i ≤ laws.index c
        → j' < pkg.num_nodes prefix
        → j' ≤ laws.index c
        → equal (laws.at prefix j') r ≡ false
        → IsReached i j n c j'
        → Passes r i j n c ((some (laws.at prefix j'), (pkg.next c).0), (pkg.next c).1)
    passed_lem j j' n c o past lt le other reached = elim (next_cases pkg laws c) [
      | inl e ↦ rw e (record {
        at_j = j';
        next_ip = none;
        cursor = c;
        result = refl;
        stands = record { over = o; inside = lt; ahead = inl refl };
        current_other = other;
        next_other = λ k e. absurd (cc e);
        current_reached = reached;
        next_reached = inl refl;
      })
      | inr (c', e, o', x) ↦
          let far : equal (laws.at prefix (suc (laws.index c))) r ≡ false =
            is_other (suc (laws.index c))
              (subst (λ (m : ℕ). m < pkg.num_nodes prefix) x
                (subst (λ (p : IpNet). laws.index c' < pkg.num_nodes p) (o' ∙ o)
                  (laws.index-lt c')))
              (λ e. omega (arith, e, past)) in
          rw (e, o)
            (record {
              at_j = j';
              next_ip = some (laws.at prefix (suc (laws.index c)));
              cursor = c';
              result = refl;
              stands = record {
                over = o' ∙ o;
                inside = lt;
                ahead = inr (rw x refl, omega (arith, x, le));
              };
              current_other = other;
              next_other = λ k e. ground (arith, e, far);
              current_reached = reached;
              next_reached = inr (inr (inr (omega (arith, x, past))));
            })
    ]

    -- `skip_next` changes nothing after that.
    checked_lem :
        (j : ℕ) (n : Option Ip) (c : pkg.Cursor) (r' : Positions pkg × pkg.Cursor)
        → Passes r i j n c r'
        → Passes r i j n c (skip_next pkg r r')
    unfolding skip_next
    checked_lem j n c r' h = record {
      at_j = h.at_j;
      next_ip = h.next_ip;
      cursor = h.cursor;
      result = ap (skip_next pkg r) h.result ∙ unchanged;
      stands = h.stands;
      current_other = h.current_other;
      next_other = h.next_other;
      current_reached = h.current_reached;
      next_reached = h.next_reached;
    }
      where
        unchanged :
            skip_next pkg r ((some (laws.at prefix h.at_j), h.next_ip), h.cursor)
            ≡ ((some (laws.at prefix h.at_j), h.next_ip), h.cursor)
        unchanged = elim h.stands.ahead [
          | inl e ↦ rw e refl
          | inr (e, _) ↦ rw (e, h.next_other (laws.index h.cursor) e) refl
        ]

    -- A `next` that is left as it is
    kept_lem :
        (j : ℕ) (n : Option Ip) (c : pkg.Cursor)
        → Stands j n c
        → equal (laws.at prefix j) r ≡ false
        → ((k : ℕ) → n ≡ some (laws.at prefix k) → equal (laws.at prefix k) r ≡ false)
        → Passes r i j n c ((some (laws.at prefix j), n), c)
    kept_lem j n c h other far = record {
      at_j = j;
      next_ip = n;
      cursor = c;
      result = refl;
      stands = h;
      current_other = other;
      next_other = far;
      current_reached = inl refl;
      next_reached = elim h.ahead [ inl e ↦ inl e | inr (e, _) ↦ inr (inr (inl (e, refl))) ];
    }

    skip_next_near :
        (p : Option Ip) (m : Ip) (c : pkg.Cursor)
        → equal m r ≡ true
        → skip_next pkg r ((p, some m), c) ≡ ((p, (pkg.next c).0), (pkg.next c).1)
    unfolding skip_next
    skip_next_near p m c e = rw e refl

    -- The body of the loop
    pub body_lem :
        (j : ℕ) (n : Option Ip) (c : pkg.Cursor)
        → Stands j n c
        → ((n' : Option Ip) × (c' : pkg.Cursor) × (skip_next pkg r
                (skip_current pkg r (laws.at prefix j) n c)
              ≡ skip_next pkg r ((none, n'), c')))
          ⊎ Passes r i j n c (skip_next pkg r (skip_current pkg r (laws.at prefix j) n c))
    unfolding skip_current
    body_lem j n c h = elim (Bool-cases (equal (laws.at prefix j) r)) [
      | inl e ↦
          let here = is_number j h.inside e in
          elim h.ahead [
            | inl e₁ ↦ inl ((pkg.next c).0, (pkg.next c).1, rw (e, e₁) refl)
            | inr (e₁, lt) ↦ inr (
                rw (e, e₁)
                  (checked_lem j (some (laws.at prefix (laws.index c))) c _ (
                    passed_lem j (laws.index c) (some (laws.at prefix (laws.index c))) c h.over
                      (omega (arith, here, lt)) here_lt (omega arith)
                      (is_other (laws.index c) here_lt (λ e₂. omega (arith, e₂, here, lt)))
                      (inr (inl (refl, refl))))))
          ]
      | inr e ↦ elim h.ahead [
        | inl e₁ ↦
            inr (rw e (checked_lem j n c _ (kept_lem j n c h e (λ k e₂. absurd (clash e₁ e₂)))))
        | inr (e₁, lt) ↦ elim (Bool-cases (equal (laws.at prefix (laws.index c)) r)) [
          | inr far ↦ inr (
              rw e (checked_lem j n c _ (kept_lem j n c h e (λ k e₂. ground (arith, e₁, e₂, far)))))
          | inl near ↦
              let there = is_number (laws.index c) here_lt near in
              inr (
                rw
                  (
                    e,
                    e₁,
                    skip_next_near (some (laws.at prefix j)) (laws.at prefix (laws.index c)) c near,
                  )
                  (passed_lem j j (some (laws.at prefix (laws.index c))) c h.over
                    (omega (arith, there)) h.inside (omega (arith, lt)) e (inl refl)))
        ]
      ]
    ]
      where
        here_lt : laws.index c < pkg.num_nodes prefix
        here_lt = subst (λ (p : IpNet). laws.index c < pkg.num_nodes p) h.over (laws.index-lt c)

        clash : {m : Ip} → n ≡ none → n ≡ some m → ⊥
        clash e e' = cc (sym e ∙ e')
