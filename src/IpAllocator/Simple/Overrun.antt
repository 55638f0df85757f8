-- ===== src/IpAllocator/Simple/Overrun.antt =====
-- simpleIPAllocator.Allocate (ipallocator.go) without reserved addresses: what it does once its range
-- is used up.
use wgipam.Base.{
  ℕ, zero, suc, ◌+◌, ◌*◌, ◌≤◌, ◌<◌, ◌≡◌, refl, inl, inr, Bool, true, false, Option, none, some,
  List, [], ◌∷◌, arith, nat_eq, Bool-cases, ltb, ◌∙◌, sym, ap, ltb→lt,
}
use wgipam.Base.Map.{beq_refl}
use wgipam.Base.Result.{Result, ok}
use wgipam.Net.{Ip, IpNet, equal, string}
use wgipam.Family.{mask_of, family_mask}
use wgipam.Store.{Store}
use wgipam.Store.Contract.{StoreView, StoreLaws, Sets}
use wgipam.IpAllocator.{IpAddr}
use wgipam.IpAllocator.Cursor.{CursorLaws}
use wgipam.IpAllocator.Simple.{Simple, W, skip_reserved, advance, wrap, loop, rounds, allocate}
use wgipam.IpAllocator.Simple.Allocate.{IsReady, IsReady-moved, place, key, attempt_cases}
use wgipam.IpAllocator.Simple.Loop.{loop-exhausted, loop-again, loop-got}
use wgipam.IpAllocator.Simple.Range.{
  IsInRange, IsInRange-moved, with_cursor, advance_lem, before_end, last_lem,
}

module _ (pkg : IpAddr) (laws : CursorLaws pkg) {S : Type 0} (st : Store S) (v : StoreView S)
    (contract : StoreLaws st v) where
  -- Every address of the range is allocated.
  abbrev pub IsUsedUp : Simple pkg → S → ℕ → ℕ → Type 0
  IsUsedUp s σ start e =
      (k : ℕ)
      → start ≤ k
      → k ≤ e
      → v.allocated σ (string s.prefix) (string (key pkg laws s k (family_mask s.family))) ≡ true

  -- No address, and the cursor after the end of the range, if there is an address after it
  record IsExhausted (s : Simple pkg) (e : ℕ) (σ : S)
      (r : Result (Option (List IpNet)) × W pkg st.ip_store) : Type 0 where
    cursor : pkg.Cursor
    result : r ≡ (ok none, (record s { cursor = cursor }, σ))
    over : laws.net cursor ≡ s.prefix
    past : suc e < pkg.num_nodes s.prefix → laws.index cursor ≡ suc e

  module _ (fuel : ℕ) (s : Simple pkg) (σ : S) (h : IsReady pkg laws s) (inv : v.Inv σ)
      (reg : v.registered σ (string s.prefix) ≡ true) (e : ℕ) (used : IsUsedUp s σ h.start_at e)
      (e_lt : e < pkg.num_nodes s.prefix) where
    -- A round whose address is taken
    round_taken :
        (out out' : Bool) (k : ℕ) (n : Option Ip) (w₁ : W pkg st.ip_store) (c : pkg.Cursor)
        → h.start_at ≤ k
        → k ≤ e
        → laws.net c ≡ s.prefix
        → advance pkg st.ip_store (s, σ) ≡ (ok (some (laws.at s.prefix k), n), w₁)
        → wrap pkg st.ip_store out n w₁ ≡ (ok (some out'), (record s { cursor = c }, σ))
        → loop pkg st.ip_store (suc fuel) out (s, σ)
          ≡ loop pkg st.ip_store fuel out' (record s { cursor = c }, σ)
    round_taken out out' k n w₁ c from to o adv wr =
        let s₂ : Simple pkg = record s { cursor = c } in
        let m = mask_of s.prefix s.family h.families in
        elim (attempt_cases pkg laws st v contract s₂ k (family_mask s.family) σ
          (IsReady-moved pkg laws s c h o) inv reg (omega (arith, e_lt, to)) m) [
            | inl (σ', _, new, _) ↦ absurd (cc (sym new ∙ used k from to))
            | inr (done, _) ↦
                loop-again pkg st fuel out (s, σ) w₁ (some (laws.at s.prefix k)) n (s₂, σ) (s₂, σ)
                  adv out' wr done
          ]

  -- A round before the end
  middle_taken :
      (fuel : ℕ) (out : Bool) (s : Simple pkg) (σ : S) (h : IsReady pkg laws s)
      → v.Inv σ
      → v.registered σ (string s.prefix) ≡ true
      → (e : ℕ) → IsUsedUp s σ h.start_at e
      → IsInRange pkg laws s h.start_at e
      → place pkg laws s < e
      → (c : pkg.Cursor) × (o : laws.net c ≡ s.prefix) × (laws.index c ≡ suc (place pkg laws s))
        × IsInRange pkg laws (record s { cursor = c }) h.start_at e
        × (loop pkg st.ip_store (suc fuel) out (s, σ)
            ≡ loop pkg st.ip_store fuel out (record s { cursor = c }, σ))
  unfolding wrap
  middle_taken fuel out s σ h inv reg e used r lt =
      let (c, adv, o, x) =
        advance_lem pkg laws st s σ h h.start_at e r (omega (arith, r.inside, lt)) in
      (
        c,
        o,
        x,
        IsInRange-moved pkg laws s c h.start_at e r (omega (arith, x, r.from_start))
            (omega (arith, x, lt)),
        round_taken fuel s σ h inv reg e used r.inside out out (place pkg laws s) _ _ c r.from_start
            r.to_end o adv (rw (before_end pkg laws st s σ h h.start_at e r lt) refl),
      )

  second-IsExhausted :
      (fuel : ℕ) (s : Simple pkg) (σ : S) (h : IsReady pkg laws s)
      → v.Inv σ
      → v.registered σ (string s.prefix) ≡ true
      → (e : ℕ) → IsUsedUp s σ h.start_at e
      → IsInRange pkg laws s h.start_at e
      → e < place pkg laws s + fuel
      → IsExhausted s e σ (loop pkg st.ip_store fuel true (s, σ))
  second-IsExhausted zero s σ h inv reg e used r b = absurd (omega (arith, r.to_end, b))
  second-IsExhausted (suc fuel) s σ h inv reg e used r b =
      elim (Bool-cases (ltb (place pkg laws s) e)) [
        | inl lt ↦
            let (c, o, x, stays, again) =
              middle_taken fuel true s σ h inv reg e used r (ltb→lt (place pkg laws s) e lt) in
            let rest =
              second-IsExhausted fuel (record s { cursor = c }) σ (with_cursor pkg laws s c h o) inv
                reg e used stays (omega (arith, x, b)) in
            record {
              cursor = rest.cursor;
              result = again ∙ rest.result;
              over = rest.over;
              past = rest.past;
            }
        | inr at_e ↦
            let same : place pkg laws s ≡ e = ground (arith, at_e, r.to_end) in
            let (n, c₁, _, net, past, adv, stop, _, _, _) =
              last_lem pkg laws st s σ h h.start_at e r same in
            record {
              cursor = c₁;
              result =
                  loop-exhausted pkg st fuel true (s, σ) _ _ n _ (record s { cursor = c₁ }, σ) adv
                    stop;
              over = net;
              past = past;
            }
      ]

  first-IsExhausted :
      (fuel : ℕ) (s : Simple pkg) (σ : S) (h : IsReady pkg laws s)
      → v.Inv σ
      → v.registered σ (string s.prefix) ≡ true
      → (e : ℕ) → IsUsedUp s σ h.start_at e
      → IsInRange pkg laws s h.start_at e
      → e + e + 1 < place pkg laws s + h.start_at + fuel
      → IsExhausted s e σ (loop pkg st.ip_store fuel false (s, σ))
  first-IsExhausted zero s σ h inv reg e used r b =
      absurd (omega (arith, r.to_end, r.from_start, b))
  first-IsExhausted (suc fuel) s σ h inv reg e used r b =
      elim (Bool-cases (ltb (place pkg laws s) e)) [
        | inl lt ↦
            let (c, o, x, stays, again) =
              middle_taken fuel false s σ h inv reg e used r (ltb→lt (place pkg laws s) e lt) in
            let rest =
              first-IsExhausted fuel (record s { cursor = c }) σ (with_cursor pkg laws s c h o) inv
                reg e used stays (omega (arith, x, b)) in
            record {
              cursor = rest.cursor;
              result = again ∙ rest.result;
              over = rest.over;
              past = rest.past;
            }
        | inr at_e ↦
            let same : place pkg laws s ≡ e = ground (arith, at_e, r.to_end) in
            let (n, c₁, c, _, _, adv, _, wr, o, x) =
              last_lem pkg laws st s σ h h.start_at e r same in
            let again =
              round_taken fuel s σ h inv reg e used r.inside false true (place pkg laws s) n _ c
                r.from_start r.to_end o adv wr in
            let rest =
              second-IsExhausted fuel (record s { cursor = c }) σ (with_cursor pkg laws s c h o) inv
                reg e used
                (IsInRange-moved pkg laws s c h.start_at e r (omega (arith, x))
                  (omega (arith, x, r.from_start, r.to_end)))
                (omega (arith, x, b, same)) in
            record {
              cursor = rest.cursor;
              result = again ∙ rest.result;
              over = rest.over;
              past = rest.past;
            }
      ]

  module _ (s : Simple pkg) (σ : S) (h : IsReady pkg laws s) (inv : v.Inv σ)
      (reg : v.registered σ (string s.prefix) ≡ true) (e : ℕ)
      (r : IsInRange pkg laws s h.start_at e) (used : IsUsedUp s σ h.start_at e)
      (last : s.last ≡ some (laws.at s.prefix (suc e)))
      (more : suc (suc e) < pkg.num_nodes s.prefix) where
    abbrev beyond : IpNet
    beyond = key pkg laws s (suc e) (family_mask s.family)

    -- What Allocate returns, twice in a row: nothing, and then the address after the end
    pub record Overruns : Type 0 where
      pub cursor : pkg.Cursor
      pub cursor' : pkg.Cursor
      pub after : S
      pub none_left :
          allocate pkg st.ip_store s.family (s, σ) ≡ (ok none, (record s { cursor = cursor }, σ))
      pub overrun :
          allocate pkg st.ip_store s.family (record s { cursor = cursor }, σ)
          ≡ (ok (some (beyond ∷ [])), (record s { cursor = cursor' }, after))
      pub sets : Sets v (string s.prefix) (string beyond) true σ after

    -- Over a Store that keeps its contract and a cursor package that keeps its laws, for a ready
    -- allocator whose subnet exists, reserves nothing, has its cursor in its range and a configured
    -- end after which the network has two addresses at least: once every address from the start to
    -- the end is allocated, Allocate returns none, as it should, but leaves the cursor after the
    -- end, and if the address there is free, then the next Allocate hands it out.
    pub allocate-Overruns : v.allocated σ (string s.prefix) (string beyond) ≡ false → Overruns
    unfolding allocate advance skip_reserved wrap
    allocate-Overruns free =
        let first =
          first-IsExhausted (rounds pkg st.ip_store s) s σ h inv reg e used r
            (omega (arith, r.inside)) in
        let c = first.cursor in
        let x : laws.index c ≡ suc e = first.past (omega (arith, more)) in
        let s₁ : Simple pkg = record s { cursor = c } in
        let (c', e₁, o', _) = laws.next_more c (rw (first.over, x) more) in
        let n : Option Ip = some (laws.at s.prefix (suc (suc e))) in
        let s₂ : Simple pkg = record s { cursor = c' } in
        let adv : advance pkg st.ip_store (s₁, σ)
            ≡ (ok (some (laws.at s.prefix (suc e)), n), (s₂, σ)) =
          rw (e₁, r.no_reserved, laws.pos_lem c, first.over, x) refl in
        let wr : wrap pkg st.ip_store false n (s₂, σ) ≡ (ok (some false), (s₂, σ)) =
          rw (last, not_end) refl in
        elim (attempt_cases pkg laws st v contract s₂ (suc e) (family_mask s.family) σ
          (IsReady-moved pkg laws s c' h (o' ∙ first.over)) inv reg (omega (arith, more))
          (mask_of s.prefix s.family h.families)) [
            | inr (_, old) ↦ absurd (cc (sym free ∙ old))
            | inl (σ', done, _, sets) ↦ record {
              cursor = c;
              cursor' = c';
              after = σ';
              none_left = rw (beq_refl s.family) first.result;
              overrun = rw (beq_refl s.family) (
                  ap (λ (fuel : ℕ). loop pkg st.ip_store fuel false (s₁, σ)) (round_more s)
                  ∙ loop-got pkg st _ false (s₁, σ) (s₂, σ) (some (laws.at s.prefix (suc e))) n
                      (s₂, σ) (s₂, σ') adv false wr beyond done);
              sets = sets;
            }
          ]
      where
        round_more : (s : Simple pkg) → rounds pkg st.ip_store s ≡ suc (2 * pkg.num_nodes s.prefix)
        round_more s = omega arith

        not_end : equal (laws.at s.prefix (suc (suc e))) (laws.at s.prefix (suc e)) ≡ false
        not_end =
            elim (Bool-cases (equal (laws.at s.prefix (suc (suc e))) (laws.at s.prefix (suc e)))) [
              | inr differ ↦ differ
              | inl same ↦
                  let numbers =
                    laws.at-injective s.prefix (suc (suc e)) (suc e) h.valid more
                      (omega (arith, more)) same in
                  absurd (omega (arith, numbers))
            ]
