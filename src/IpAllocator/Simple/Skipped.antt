-- ===== src/IpAllocator/Simple/Skipped.antt =====
-- simpleIPAllocator.Allocate (ipallocator.go): the loop over reserved addresses in ascending order.
use wgipam.Base.{
  ℕ, suc, ◌≤◌, ◌<◌, ◌≡◌, refl, inl, inr, true, false, Option, some, List, [], ◌∷◌, arith, ◌∙◌, sym,
  ap, nat_eq,
}
use wgipam.Base.Result.{ok}
use wgipam.Net.{Ip, IpNet, IsPrefix, equal}
use wgipam.IpAllocator.{IpAddr}
use wgipam.IpAllocator.Cursor.{CursorLaws}
use wgipam.IpAllocator.Simple.{Positions, skip_reserved}
use wgipam.IpAllocator.Simple.Skip.{
  IsOther, IsAscending, Stands, IsReached, Passes, skip_none, is_other, body_lem,
}

module _ (pkg : IpAddr) (laws : CursorLaws pkg) (prefix : IpNet) where
  IsReached-weaken :
      (b i j : ℕ) (n : Option Ip) (c : pkg.Cursor) (k : ℕ)
      → b ≤ i
      → IsReached pkg laws prefix i j n c k
      → IsReached pkg laws prefix b j n c k
  IsReached-weaken b i j n c k le (inl e) = inl e
  IsReached-weaken b i j n c k le (inr (inl e)) = inr (inl e)
  IsReached-weaken b i j n c k le (inr (inr l)) = inr (inr (omega (arith, le, l)))

  -- What the rest of the loop ends on is not `r` either.
  after_body :
      (valid : IsPrefix prefix) (r : Ip) (i : ℕ)
      → i < pkg.num_nodes prefix
      → equal r (laws.at prefix i) ≡ true
      → (b j : ℕ) (n : Option Ip) (c : pkg.Cursor) (r' : Positions pkg × pkg.Cursor) → b ≤ i
      → (P : Passes pkg laws prefix r i j n c r') → (k : ℕ) → k < pkg.num_nodes prefix
      → IsReached pkg laws prefix (suc i) P.at_j P.next_ip P.cursor k
      → (equal (laws.at prefix k) r ≡ false) × IsReached pkg laws prefix b j n c k
  after_body valid r i i_lt same b j n c r' le P k lt (inl e) =
      (rw e P.current_other, rw e (IsReached-weaken b i j n c P.at_j le P.current_reached))
  after_body valid r i i_lt same b j n c r' le P k lt (inr (inl (e, at_cursor))) = (
    P.next_other k e,
    elim P.next_reached [
      | inl e' ↦ absurd (cc (sym e' ∙ e))
      | inr h ↦ rw at_cursor (IsReached-weaken b i j n c (laws.index P.cursor) le h)
    ],
  )
  after_body valid r i i_lt same b j n c r' le P k lt (inr (inr more)) = (
    is_other pkg laws prefix valid r i i_lt same k lt (λ e. omega (arith, e, more)),
    inr (inr (omega (arith, le, more))),
  )

  -- With the reserved addresses in ascending order, the loop over them ends on another address.
  pub skip_reserved_lem :
      IsPrefix prefix
      → (b j : ℕ) (n : Option Ip) (c : pkg.Cursor) (rs : List Ip) → Stands pkg laws prefix j n c
      → IsAscending pkg laws prefix b rs
      → (q : Ip) (n' : Option Ip) (c' : pkg.Cursor)
      → skip_reserved pkg rs ((some (laws.at prefix j), n), c) ≡ (ok (some q, n'), c')
      → (k : ℕ) × (q ≡ laws.at prefix k)
        × (k < pkg.num_nodes prefix)
        × IsOther rs (laws.at prefix k)
        × IsReached pkg laws prefix b j n c k
  unfolding skip_reserved
  skip_reserved_lem valid b j n c [] h asc q n' c' e =
      (j, ground (arith, e), h.inside, tt, inl refl)
  skip_reserved_lem valid b j n c (r ∷ rs) h (i, le, i_lt, same, asc) q n' c' e =
      elim (body_lem pkg laws prefix valid r i i_lt same j n c h) [
        | inl (n₁, c₁, none_left) ↦ absurd (
            skip_none pkg laws prefix r rs n₁ c₁ c' q n'
              (ap (skip_reserved pkg rs) (sym none_left) ∙ e))
        | inr P ↦
            let (k, e₁, lt, others, reached) =
              skip_reserved_lem valid (suc i) P.at_j P.next_ip P.cursor rs P.stands asc q n' c'
                (ap (skip_reserved pkg rs) (sym P.result) ∙ e) in
            let (other, reached') = after_body valid r i i_lt same b j n c _ le P k lt reached in
            (k, e₁, lt, (other, others), reached')
      ]
