-- ===== src/IpAllocator/Simple/Found.antt =====
-- simpleIPAllocator.Allocate (ipallocator.go) without reserved addresses: it finds what is free in
-- its range.
use wgipam.Base.{
  ℕ, zero, suc, ◌+◌, ◌≤◌, ◌<◌, ◌≡◌, ◌≢◌, refl, inl, inr, Bool, true, false, Option, some, List, [],
  ◌∷◌, arith, nat_eq, Bool-cases, ltb, ◌∙◌, sym, subst, ltb→lt,
}
use wgipam.Base.Map.{beq_refl}
use wgipam.Base.Result.{Result, ok}
use wgipam.Net.{Ip, IpNet, string}
use wgipam.Family.{mask_of, family_mask}
use wgipam.Store.{Store}
use wgipam.Store.Contract.{StoreView, StoreLaws, Sets}
use wgipam.IpAllocator.{IpAddr}
use wgipam.IpAllocator.Cursor.{CursorLaws}
use wgipam.IpAllocator.Simple.{Simple, W, advance, wrap, loop, rounds, allocate}
use wgipam.IpAllocator.Simple.Allocate.{IsReady, IsReady-moved, place, key, attempt_cases}
use wgipam.IpAllocator.Simple.Loop.{loop-again, loop-got}
use wgipam.IpAllocator.Simple.Range.{
  IsInRange, IsInRange-moved, with_cursor, advance_lem, before_end, last_lem,
}

module _ (pkg : IpAddr) (laws : CursorLaws pkg) where
  module _ {S : Type 0} (st : Store S) (v : StoreView S) (contract : StoreLaws st v) where
    -- A free address of the range is found, and allocated; the cursor stays in the range.
    pub record Found (s : Simple pkg) (start e : ℕ) (σ : S)
        (r : Result (Option (List IpNet)) × W pkg st.ip_store) : Type 0 where
      pub cursor : pkg.Cursor
      pub number : ℕ
      pub from_start : start ≤ number
      pub to_end : number ≤ e
      pub after : S
      pub result : r ≡ (
        ok (some (key pkg laws s number (family_mask s.family) ∷ [])),
        (record s { cursor = cursor }, after),
      )
      pub stays : IsInRange pkg laws (record s { cursor = cursor }) start e
      pub free :
          v.allocated σ (string s.prefix) (string (key pkg laws s number (family_mask s.family)))
          ≡ false
      pub sets :
          Sets v
            (string s.prefix)
            (string (key pkg laws s number (family_mask s.family)))
            true
            σ
            after

    Found-moved :
        (s : Simple pkg) (c : pkg.Cursor) (start e : ℕ) (σ : S)
        (r : Result (Option (List IpNet)) × W pkg st.ip_store)
        → Found (record s { cursor = c }) start e σ r
        → Found s start e σ r
    Found-moved s c start e σ r f = record {
      cursor = f.cursor;
      number = f.number;
      from_start = f.from_start;
      to_end = f.to_end;
      after = f.after;
      result = f.result;
      stays = f.stays;
      free = f.free;
      sets = f.sets;
    }

    -- Is the address with number `i` free?
    abbrev pub IsFree : Simple pkg → S → ℕ → Type 0
    IsFree s σ i =
        v.allocated σ (string s.prefix) (string (key pkg laws s i (family_mask s.family))) ≡ false

    module _ (fuel : ℕ) (s : Simple pkg) (σ : S) (h : IsReady pkg laws s) (inv : v.Inv σ)
        (reg : v.registered σ (string s.prefix) ≡ true) (e : ℕ) where
      -- A round that stands on the address `k` of the range; `rest` follows it if that is taken.
      round-Found :
          (out out' : Bool) (k : ℕ) (n : Option Ip) (w₁ : W pkg st.ip_store) (c : pkg.Cursor)
          → h.start_at ≤ k
          → k ≤ e
          → laws.net c ≡ s.prefix
          → IsInRange pkg laws (record s { cursor = c }) h.start_at e
          → advance pkg st.ip_store (s, σ) ≡ (ok (some (laws.at s.prefix k), n), w₁)
          → wrap pkg st.ip_store out n w₁ ≡ (ok (some out'), (record s { cursor = c }, σ))
          → ((IsFree s σ k → ⊥)
              → Found
                  (record s { cursor = c })
                  h.start_at
                  e
                  σ
                  (loop pkg st.ip_store fuel out' (record s { cursor = c }, σ)))
          → Found s h.start_at e σ (loop pkg st.ip_store (suc fuel) out (s, σ))
      round-Found out out' k n w₁ c from to o stays adv wr rest =
          let s₂ : Simple pkg = record s { cursor = c } in
          let m = mask_of s.prefix s.family h.families in
          elim (attempt_cases pkg laws st v contract s₂ k (family_mask s.family) σ
            (IsReady-moved pkg laws s c h o) inv reg (omega (arith, stays.inside, to)) m) [
              | inl (σ', done, new, sets) ↦ record {
                cursor = c;
                number = k;
                from_start = from;
                to_end = to;
                after = σ';
                result =
                    loop-got pkg st fuel out (s, σ) w₁ (some (laws.at s.prefix k)) n (s₂, σ)
                      (s₂, σ') adv out' wr (key pkg laws s₂ k (family_mask s.family)) done;
                stays = stays;
                free = new;
                sets = sets;
              }
              | inr (done, old) ↦
                  rw
                    (loop-again pkg st fuel out (s, σ) w₁ (some (laws.at s.prefix k)) n (s₂, σ)
                      (s₂, σ) adv out' wr done)
                    (Found-moved s c h.start_at e σ _ (rest (λ new. cc (sym new ∙ old))))
            ]

    -- A round before the end of the range
    middle-Found :
        (fuel : ℕ) (out : Bool) (s : Simple pkg) (σ : S) (h : IsReady pkg laws s)
        → v.Inv σ
        → v.registered σ (string s.prefix) ≡ true
        → (e : ℕ) → IsInRange pkg laws s h.start_at e
        → place pkg laws s < e
        → ((c : pkg.Cursor)
            → (o : laws.net c ≡ s.prefix) → laws.index c ≡ suc (place pkg laws s)
            → IsInRange pkg laws (record s { cursor = c }) h.start_at e
            → (IsFree s σ (place pkg laws s) → ⊥)
            → Found
                (record s { cursor = c })
                h.start_at
                e
                σ
                (loop pkg st.ip_store fuel out (record s { cursor = c }, σ)))
        → Found s h.start_at e σ (loop pkg st.ip_store (suc fuel) out (s, σ))
    unfolding wrap
    middle-Found fuel out s σ h inv reg e r lt rest =
        let (c, adv, o, x) =
          advance_lem pkg laws st s σ h h.start_at e r (omega (arith, r.inside, lt)) in
        let stays =
          IsInRange-moved pkg laws s c h.start_at e r (omega (arith, x, r.from_start))
            (omega (arith, x, lt)) in
        round-Found fuel s σ h inv reg e out out (place pkg laws s) _ _ c r.from_start r.to_end o
          stays adv (rw (before_end pkg laws st s σ h h.start_at e r lt) refl) (rest c o x stays)

    -- The second run, up to the end of the range
    second-Found :
        (fuel : ℕ) (s : Simple pkg) (σ : S) (h : IsReady pkg laws s)
        → v.Inv σ
        → v.registered σ (string s.prefix) ≡ true
        → (e : ℕ) → IsInRange pkg laws s h.start_at e
        → (i : ℕ) → place pkg laws s ≤ i
        → i < e
        → IsFree s σ i
        → e ≤ place pkg laws s + fuel
        → Found s h.start_at e σ (loop pkg st.ip_store fuel true (s, σ))
    second-Found zero s σ h inv reg e r i from to free b = absurd (omega (arith, from, to, b))
    second-Found (suc fuel) s σ h inv reg e r i from to free b =
        middle-Found fuel true s σ h inv reg e r (omega (arith, from, to)) (λ c o x stays taken.
          let other : place pkg laws s ≢ i = λ same. taken (subst (IsFree s σ) (sym same) free) in
          second-Found fuel (record s { cursor = c }) σ (with_cursor pkg laws s c h o) inv reg e
            stays i (ground (arith, x, from, other)) to free (omega (arith, x, b)))

    -- The first run, and the second one after it
    first-Found :
        (fuel : ℕ) (s : Simple pkg) (σ : S) (h : IsReady pkg laws s)
        → v.Inv σ
        → v.registered σ (string s.prefix) ≡ true
        → (e : ℕ) → IsInRange pkg laws s h.start_at e
        → (i : ℕ) → h.start_at ≤ i
        → i ≤ e
        → IsFree s σ i
        → e + e + 1 ≤ place pkg laws s + h.start_at + fuel
        → Found s h.start_at e σ (loop pkg st.ip_store fuel false (s, σ))
    unfolding wrap
    first-Found zero s σ h inv reg e r i from to free b =
        absurd (omega (arith, r.to_end, from, to, b))
    first-Found (suc fuel) s σ h inv reg e r i from to free b =
        elim (Bool-cases (ltb (place pkg laws s) e)) [
          | inl lt ↦
              middle-Found fuel false s σ h inv reg e r (ltb→lt (place pkg laws s) e lt)
                (λ c o x stays taken.
                  first-Found fuel (record s { cursor = c }) σ (with_cursor pkg laws s c h o) inv
                    reg e stays i from to free (omega (arith, x, b)))
          | inr at_e ↦
              let same : place pkg laws s ≡ e = ground (arith, at_e, r.to_end) in
              let (n, c₁, c, _, _, adv, _, again, o, x) =
                last_lem pkg laws st s σ h h.start_at e r same in
              let stays =
                IsInRange-moved pkg laws s c h.start_at e r (omega (arith, x))
                  (omega (arith, x, from, to)) in
              round-Found fuel s σ h inv reg e false true (place pkg laws s) n
                (record s { cursor = c₁ }, σ) c r.from_start r.to_end o stays adv again
                (λ taken.
                  let other : place pkg laws s ≢ i =
                    λ here. taken (subst (IsFree s σ) (sym here) free) in
                  second-Found fuel (record s { cursor = c }) σ (with_cursor pkg laws s c h o) inv
                    reg e stays i (omega (arith, x, from)) (ground (arith, same, to, other)) free
                    (omega (arith, x, b, r.to_end)))
        ]

    -- Without reserved addresses and with its cursor in its range, a ready allocator finds what is
    -- free: over a Store that keeps its contract and a cursor package that keeps its laws, if some
    -- address from the start to the end is not allocated from the subnet, which exists, Allocate
    -- returns one such address and allocates it, and the cursor is in the range again.
    pub allocate-Found :
        (s : Simple pkg) (σ : S) (h : IsReady pkg laws s)
        → v.Inv σ
        → v.registered σ (string s.prefix) ≡ true
        → (e : ℕ) → IsInRange pkg laws s h.start_at e
        → (i : ℕ) → h.start_at ≤ i
        → i ≤ e
        → IsFree s σ i
        → Found s h.start_at e σ (allocate pkg st.ip_store s.family (s, σ))
    unfolding allocate
    allocate-Found s σ h inv reg e r i from to free = rw (beq_refl s.family) (
        first-Found (rounds pkg st.ip_store s) s σ h inv reg e r i from to free
          (omega (arith, r.inside)))
