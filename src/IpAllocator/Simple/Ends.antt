-- ===== src/IpAllocator/Simple/Ends.antt =====
-- simpleIPAllocator.Allocate (ipallocator.go) ends, for every store state and cursor position.
use wgipam.Base.{
  ℕ, zero, suc, ◌+◌, ◌-◌, ◌≤◌, ◌<◌, ◌≡◌, inl, inr, Bool, true, false, Option, some, List, arith,
  if◌then◌else◌, nat_eq,
}
use wgipam.Base.Map.{beq_refl}
use wgipam.Base.Result.{Result, ok}
use wgipam.Net.{Ip, IpNet, string}
use wgipam.Family.{mask_of, family_mask}
use wgipam.Store.{Store}
use wgipam.Store.Contract.{StoreView, StoreLaws}
use wgipam.IpAllocator.{IpAddr}
use wgipam.IpAllocator.Cursor.{CursorLaws}
use wgipam.IpAllocator.Simple.{Simple, W, advance, wrap, loop, rounds, allocate}
use wgipam.IpAllocator.Simple.Advance.{IsSpot}
use wgipam.IpAllocator.Simple.Allocate.{
  IsReady, IsReady-moved, place, key, advance_cases, wrap_cases, attempt_cases,
}
use wgipam.IpAllocator.Simple.Loop.{
  Outcome, panicked, exhausted, got, loop-panic, loop-exhausted, loop-again, loop-got, loop-nil,
  attempt-none,
}

module _ (pkg : IpAddr) (laws : CursorLaws pkg) {S : Type 0} (st : Store S) (v : StoreView S)
    (contract : StoreLaws st v) where
  Outcome-moved :
      (s : Simple pkg) (c : pkg.Cursor) (σ : S)
      (r : Result (Option (List IpNet)) × W pkg st.ip_store)
      → Outcome pkg laws st v (record s { cursor = c }) σ r
      → Outcome pkg laws st v s σ r
  Outcome-moved s c σ r (panicked c' o e) = panicked c' o e
  Outcome-moved s c σ r (exhausted c' o e) = exhausted c' o e
  Outcome-moved s c σ r (got c' i m σ' o lt em e new sets) = got c' i m σ' o lt em e new sets

  -- How many rounds are left at most: the rest of this run of the cursor, and a second run.
  abbrev budget : Bool → Simple pkg → ℕ
  budget out s =
      (if out then 0 else pkg.num_nodes s.prefix) + (pkg.num_nodes s.prefix - place pkg laws s)

  place-lt : (s : Simple pkg) → IsReady pkg laws s → place pkg laws s < pkg.num_nodes s.prefix
  place-lt s h = rw h.over at (laws.index-lt s.cursor)

  module _ (fuel : ℕ) (s : Simple pkg) (σ : S) (h : IsReady pkg laws s) (inv : v.Inv σ)
      (reg : v.registered σ (string s.prefix) ≡ true) where
    -- The second half of a round, which `rest` continues if the address is taken
    attempt-Outcome :
        (out out' : Bool) (p n : Option Ip) (w₁ : W pkg st.ip_store) (c : pkg.Cursor)
        → laws.net c ≡ s.prefix
        → advance pkg st.ip_store (s, σ) ≡ (ok (p, n), w₁)
        → wrap pkg st.ip_store out n w₁ ≡ (ok (some out'), (record s { cursor = c }, σ))
        → IsSpot pkg laws s.prefix p
        → Outcome pkg laws st v s σ (loop pkg st.ip_store fuel out' (record s { cursor = c }, σ))
        → Outcome pkg laws st v s σ (loop pkg st.ip_store (suc fuel) out (s, σ))
    attempt-Outcome out out' p n w₁ c o e e₁ (inl nil) rest = panicked c o (
        loop-nil pkg st fuel out (s, σ) w₁ p n _ _ e out' e₁
          (rw nil (attempt-none pkg st (record s { cursor = c }, σ))))
    attempt-Outcome out out' p n w₁ c o e e₁ (inr (j, lt, at)) rest =
        let s₂ : Simple pkg = record s { cursor = c } in
        let m = mask_of s.prefix s.family h.families in
        elim (attempt_cases pkg laws st v contract s₂ j (family_mask s.family) σ
          (IsReady-moved pkg laws s c h o) inv reg lt m) [
            | inl (σ', done, new, sets) ↦
                got c j (family_mask s.family) σ' o lt m
                  (loop-got pkg st fuel out (s, σ) w₁ p n (s₂, σ) (s₂, σ') e out' e₁
                    (key pkg laws s₂ j (family_mask s.family)) (rw at done))
                  new sets
            | inr (done, old) ↦
                rw (loop-again pkg st fuel out (s, σ) w₁ p n (s₂, σ) (s₂, σ) e out' e₁ (rw at done))
                  rest
          ]

  -- The loop ends within its budget, in one of the three ways.
  pub loop-Outcome :
      (fuel : ℕ) (out : Bool) (s : Simple pkg) (σ : S)
      → IsReady pkg laws s
      → v.Inv σ
      → v.registered σ (string s.prefix) ≡ true
      → budget out s ≤ fuel
      → Outcome pkg laws st v s σ (loop pkg st.ip_store fuel out (s, σ))
  loop-Outcome zero out s σ h inv reg b = absurd (omega (arith, place-lt s h))
  loop-Outcome (suc fuel) out s σ h inv reg b = elim (advance_cases pkg laws st.ip_store s σ h) [
    | inl (c, e, o) ↦ panicked c o (loop-panic pkg st fuel out (s, σ) _ e)
    | inr (c, (p, n), e, along) ↦
        let s₁ : Simple pkg = record s { cursor = c } in
        let h₁ = IsReady-moved pkg laws s c h along.over in
        elim (wrap_cases pkg laws st.ip_store out n s₁ σ h₁) [
          | inl (over, again, e₁) ↦
              exhausted c along.over (loop-exhausted pkg st fuel out (s, σ) _ p n _ (s₁, σ) e e₁)
          | inr (inl (over, first, c', e₁, o', x)) ↦
              let s₂ : Simple pkg = record s { cursor = c' } in
              attempt-Outcome fuel s σ h inv reg out true p n _ c' o' e e₁ along.current (
                Outcome-moved s c' σ _ (
                  loop-Outcome fuel true s₂ σ (IsReady-moved pkg laws s c' h o') inv reg
                    (ground (arith, place-lt s h, first, b))))
          | inr (inr (more, e₁)) ↦
              attempt-Outcome fuel s σ h inv reg out out p n _ c along.over e e₁ along.current (
                Outcome-moved s c σ _ (
                  loop-Outcome fuel out s₁ σ h₁ inv reg
                    (ground (arith, along.ahead, place-lt s h, place-lt s₁ h₁))))
        ]
  ]

  -- Over a Store that keeps its contract and a cursor package that keeps its laws, a ready allocator
  -- whose subnet exists ends when it is asked for its own family: with an address of its prefix that was free
  -- and is allocated now, with none, or in a panic, and then the store is as it was. It never
  -- returns an error.
  pub allocate-Outcome :
      (s : Simple pkg) (σ : S)
      → IsReady pkg laws s
      → v.Inv σ
      → v.registered σ (string s.prefix) ≡ true
      → Outcome pkg laws st v s σ (allocate pkg st.ip_store s.family (s, σ))
  unfolding allocate
  allocate-Outcome s σ h inv reg =
      rw (beq_refl s.family)
        (loop-Outcome (rounds pkg st.ip_store s) false s σ h inv reg (omega arith))
