-- ===== src/IpAllocator/Simple/Reserved.antt =====
-- simpleIPAllocator.Allocate (ipallocator.go): reserved addresses in ascending order.
use wgipam.Base.{
  ℕ, zero, suc, ◌<◌, ◌≡◌, refl, inl, inr, Bool, true, false, Option, some, List, [], ◌∷◌, arith,
  ◌∙◌, sym, ap, nat_eq, subst, All,
}
use wgipam.Base.Map.{beq_refl}
use wgipam.Base.Result.{Result, ok, hang}
use wgipam.Net.{Ip, IpNet, string}
use wgipam.Family.{family_mask, mask_of}
use wgipam.Store.{Store}
use wgipam.Store.Contract.{StoreView, StoreLaws}
use wgipam.IpAllocator.{IpAddr}
use wgipam.IpAllocator.Cursor.{CursorLaws, next_cases}
use wgipam.IpAllocator.Simple.{Simple, W, advance, wrap, loop, rounds, allocate}
use wgipam.IpAllocator.Simple.Allocate.{
  IsReady, IsReady-moved, place, key, advance_cases, wrap_cases, attempt_cases,
}
use wgipam.IpAllocator.Simple.Loop.{
  loop-panic, loop-exhausted, loop-again, loop-got, loop-nil, attempt-none,
}
use wgipam.IpAllocator.Simple.Range.{with_cursor}
use wgipam.IpAllocator.Simple.Advance.{IsSpot}
use wgipam.IpAllocator.Simple.Skip.{IsOther, IsAscending, Stands}
use wgipam.IpAllocator.Simple.Skipped.{skip_reserved_lem}

module _ (pkg : IpAddr) (laws : CursorLaws pkg) where
  -- Where a round starts
  start-Stands :
      (s : Simple pkg)
      → IsReady pkg laws s
      → Stands pkg laws s.prefix (place pkg laws s) (pkg.next s.cursor).0 (pkg.next s.cursor).1
  start-Stands s h = elim (next_cases pkg laws s.cursor) [
    | inl e ↦ rw e (record { over = h.over; inside = here; ahead = inl refl })
    | inr (c', e, o, x) ↦ rw e (record {
      over = o ∙ h.over;
      inside = here;
      ahead = inr (rw (x, h.over) refl, omega (arith, x));
    })
  ]
    where
      here : place pkg laws s < pkg.num_nodes s.prefix
      here =
          subst (λ (p : IpNet). place pkg laws s < pkg.num_nodes p) h.over (laws.index-lt s.cursor)

  module _ {S : Type 0} (st : Store S) (v : StoreView S) (contract : StoreLaws st v) where
    -- The address that a round stands on is not reserved.
    advance-IsOther :
        (s : Simple pkg) (σ : S)
        → IsReady pkg laws s
        → (b : ℕ) → IsAscending pkg laws s.prefix b s.sub.reserved
        → (q : Ip) (n : Option Ip) (c : pkg.Cursor)
        → advance pkg st.ip_store (s, σ) ≡ (ok (some q, n), (record s { cursor = c }, σ))
        → IsOther s.sub.reserved q
    unfolding advance
    advance-IsOther s σ h b asc q n c e =
        let there : laws.at s.prefix (place pkg laws s) ≡ pkg.pos s.cursor =
          sym (laws.pos_lem s.cursor ∙ ap (λ (p : IpNet). laws.at p (place pkg laws s)) h.over) in
        let (k, same, _, other, _) =
          skip_reserved_lem pkg laws s.prefix h.valid b (place pkg laws s) (pkg.next s.cursor).0
            (pkg.next s.cursor).1 s.sub.reserved (start-Stands s h) asc q n c
            (rw there (ap (λ (r : _). (r.0, r.1.0.cursor)) e)) in
        rw same other

    -- No address that is returned is reserved.
    abbrev KeepsReserved : Simple pkg → Result (Option (List IpNet)) × W pkg st.ip_store → Type 0
    KeepsReserved s r =
        (ips : List IpNet)
        → r.0 ≡ ok (some ips)
        → All (λ (ip : IpNet). IsOther s.sub.reserved ip.ip) ips

    loop-hang : (out : Bool) (w : W pkg st.ip_store) → loop pkg st.ip_store 0 out w ≡ (hang, w)
    unfolding loop
    loop-hang out w = refl

    one-KeepsReserved :
        (s : Simple pkg) (ip : IpNet) (w : W pkg st.ip_store)
        → IsOther s.sub.reserved ip.ip
        → KeepsReserved s (ok (some (ip ∷ [])), w)
    one-KeepsReserved s ip w other ips e =
        let same : ip ∷ [] ≡ ips = cc e in
        subst (All (λ (ip : IpNet). IsOther s.sub.reserved ip.ip)) same (other, tt)

    -- A round that goes on after the test for the end; `rest` follows it if its address is taken.
    round-KeepsReserved :
        (fuel : ℕ) (out out' : Bool) (s : Simple pkg) (σ : S)
        → IsReady pkg laws s
        → v.Inv σ
        → v.registered σ (string s.prefix) ≡ true
        → (k : ℕ) (n : Option Ip) (w₁ : W pkg st.ip_store) (c : pkg.Cursor)
        → k < pkg.num_nodes s.prefix
        → laws.net c ≡ s.prefix
        → advance pkg st.ip_store (s, σ) ≡ (ok (some (laws.at s.prefix k), n), w₁)
        → wrap pkg st.ip_store out n w₁ ≡ (ok (some out'), (record s { cursor = c }, σ))
        → IsOther s.sub.reserved (laws.at s.prefix k)
        → KeepsReserved s (loop pkg st.ip_store fuel out' (record s { cursor = c }, σ))
        → KeepsReserved s (loop pkg st.ip_store (suc fuel) out (s, σ))
    round-KeepsReserved fuel out out' s σ h inv reg k n w₁ c lt o adv wr other rest =
        let s₂ : Simple pkg = record s { cursor = c } in
        elim (attempt_cases pkg laws st v contract s₂ k (family_mask s.family) σ
          (IsReady-moved pkg laws s c h o) inv reg lt (mask_of s.prefix s.family h.families)) [
            | inl (σ', done, _, _) ↦
                rw
                  (loop-got pkg st fuel out (s, σ) w₁ (some (laws.at s.prefix k)) n (s₂, σ) (s₂, σ')
                    adv out' wr (key pkg laws s₂ k (family_mask s.family)) done)
                  (one-KeepsReserved s (key pkg laws s₂ k (family_mask s.family)) (s₂, σ') other)
            | inr (done, _) ↦
                rw
                  (loop-again pkg st fuel out (s, σ) w₁ (some (laws.at s.prefix k)) n (s₂, σ)
                    (s₂, σ) adv out' wr done)
                  rest
          ]

    -- The same, from what is known of the round's position
    going-KeepsReserved :
        (fuel : ℕ) (out out' : Bool) (s : Simple pkg) (σ : S)
        → IsReady pkg laws s
        → v.Inv σ
        → v.registered σ (string s.prefix) ≡ true
        → (b : ℕ) → IsAscending pkg laws s.prefix b s.sub.reserved
        → (p n : Option Ip) (c₁ c : pkg.Cursor) → IsSpot pkg laws s.prefix p
        → laws.net c ≡ s.prefix
        → advance pkg st.ip_store (s, σ) ≡ (ok (p, n), (record s { cursor = c₁ }, σ))
        → wrap pkg st.ip_store out n (record s { cursor = c₁ }, σ)
          ≡ (ok (some out'), (record s { cursor = c }, σ))
        → KeepsReserved s (loop pkg st.ip_store fuel out' (record s { cursor = c }, σ))
        → KeepsReserved s (loop pkg st.ip_store (suc fuel) out (s, σ))
    going-KeepsReserved fuel out out' s σ h inv reg b asc p n c₁ c (inl e) o adv wr rest =
        let w₂ : W pkg st.ip_store = (record s { cursor = c }, σ) in
        rw
          (loop-nil pkg st fuel out (s, σ) (record s { cursor = c₁ }, σ) p n w₂ w₂ adv out' wr
            (rw e (attempt-none pkg st w₂)))
          (λ ips e. absurd (cc e))
    going-KeepsReserved fuel out out' s σ h inv reg b asc p n c₁ c (inr (k, lt, e)) o adv wr rest =
        let adv' : advance pkg st.ip_store (s, σ)
            ≡ (ok (some (laws.at s.prefix k), n), (record s { cursor = c₁ }, σ)) =
          rw (sym e) adv in
        round-KeepsReserved fuel out out' s σ h inv reg k n (record s { cursor = c₁ }, σ) c lt o
          adv' wr (advance-IsOther s σ h b asc (laws.at s.prefix k) n c₁ adv') rest

    -- What the loop returns is not reserved.
    loop-KeepsReserved :
        (fuel : ℕ) (out : Bool) (s : Simple pkg) (σ : S)
        → IsReady pkg laws s
        → v.Inv σ
        → v.registered σ (string s.prefix) ≡ true
        → (b : ℕ) → IsAscending pkg laws s.prefix b s.sub.reserved
        → KeepsReserved s (loop pkg st.ip_store fuel out (s, σ))
    loop-KeepsReserved zero out s σ h inv reg b asc = never
      where
        never : KeepsReserved s (loop pkg st.ip_store 0 out (s, σ))
        never = rw (loop-hang out (s, σ)) (λ ips e. absurd (cc e))
    loop-KeepsReserved (suc fuel) out s σ h inv reg b asc =
        elim (advance_cases pkg laws st.ip_store s σ h) [
          | inl (c, adv, _) ↦
              rw (loop-panic pkg st fuel out (s, σ) (record s { cursor = c }, σ) adv)
                (λ ips e. absurd (cc e))
          | inr (c, (p, n), adv, along) ↦
              elim (wrap_cases pkg laws st.ip_store out n (record s { cursor = c }) σ
                (IsReady-moved pkg laws s c h along.over)) [
                  | inl (_, _, wr) ↦
                      let w₁ : W pkg st.ip_store = (record s { cursor = c }, σ) in
                      rw (loop-exhausted pkg st fuel out (s, σ) w₁ p n w₁ w₁ adv wr)
                        (λ ips e. absurd (cc e))
                  | inr (inl (_, _, c', wr, o, _)) ↦
                      going-KeepsReserved fuel out true s σ h inv reg b asc p n c c' along.current o
                        adv wr
                        (loop-KeepsReserved fuel true (record s { cursor = c' }) σ
                          (with_cursor pkg laws s c' h o) inv reg b asc)
                  | inr (inr (_, wr)) ↦
                      going-KeepsReserved fuel out out s σ h inv reg b asc p n c c along.current
                        along.over adv wr
                        (loop-KeepsReserved fuel out (record s { cursor = c }) σ
                          (with_cursor pkg laws s c h along.over) inv reg b asc)
                ]
        ]

    allocate_lem :
        (s : Simple pkg) (σ : S)
        → allocate pkg st.ip_store s.family (s, σ)
          ≡ loop pkg st.ip_store (rounds pkg st.ip_store s) false (s, σ)
    unfolding allocate
    allocate_lem s σ = rw (beq_refl s.family) refl

    -- Reserved addresses are not handed out if they are listed in ascending order: over a Store that
    -- keeps its contract and a cursor package that keeps its laws, for a ready allocator whose
    -- subnet exists and whose reserved addresses are addresses of its prefix in ascending order,
    -- Allocate returns none of them.
    pub allocate-IsOther :
        (s : Simple pkg) (σ : S)
        → IsReady pkg laws s
        → v.Inv σ
        → v.registered σ (string s.prefix) ≡ true
        → IsAscending pkg laws s.prefix 0 s.sub.reserved
        → (ips : List IpNet) (w : W pkg st.ip_store)
        → allocate pkg st.ip_store s.family (s, σ) ≡ (ok (some ips), w)
        → All (λ (ip : IpNet). IsOther s.sub.reserved ip.ip) ips
    allocate-IsOther s σ h inv reg asc ips w e =
        loop-KeepsReserved (rounds pkg st.ip_store s) false s σ h inv reg 0 asc ips
          (cc (sym (allocate_lem s σ) ∙ e))
