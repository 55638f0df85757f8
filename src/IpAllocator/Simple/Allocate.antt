-- ===== src/IpAllocator/Simple/Allocate.antt =====
-- simpleIPAllocator.Allocate (ipallocator.go) over a Store and package ipaddr that keep their laws.
use wgipam.Base.{
  ℕ, ◌<◌, ◌≡◌, ◌⊎◌, inl, inr, Bool, true, false, Option, none, some, arith, Bool-cases, ◌∙◌, nat_eq,
}
use wgipam.Base.Result.{ok, panic}
use wgipam.Net.{Ip, IpNet, Mask, IsPrefix, equal, string}
use wgipam.Family.{ip_mask, ip_family}
use wgipam.Store.{Store, IpStore}
use wgipam.Store.Contract.{StoreView, StoreLaws, Sets}
use wgipam.IpAllocator.{IpAddr}
use wgipam.IpAllocator.Cursor.{CursorLaws}
use wgipam.IpAllocator.Simple.{Simple, Positions, at_end, advance, wrap, attempt}
use wgipam.IpAllocator.Simple.Advance.{IsAlong, next-IsAlong, skip_reserved-IsAlong}

module _ (pkg : IpAddr) (laws : CursorLaws pkg) where
  -- An allocator as SimpleIPAllocator leaves it, whatever its cursor has moved to since
  pub record IsReady (s : Simple pkg) : Type 0 where
    pub valid : IsPrefix s.prefix
    pub same_net : string s.sub.subnet ≡ string s.prefix
    pub families : ip_family s.prefix ≡ ok s.family
    pub over : laws.net s.cursor ≡ s.prefix
    pub start_at : ℕ
    pub start-lt : start_at < pkg.num_nodes s.prefix
    pub start-eq : equal s.start (laws.at s.prefix start_at) ≡ true

  -- A ready allocator stays so with another cursor over its prefix.
  pub IsReady-moved :
      (s : Simple pkg) (c : pkg.Cursor)
      → IsReady s
      → laws.net c ≡ s.prefix
      → IsReady (record s { cursor = c })
  IsReady-moved s c h o = record {
    valid = h.valid;
    same_net = h.same_net;
    families = h.families;
    over = o;
    start_at = h.start_at;
    start-lt = h.start-lt;
    start-eq = h.start-eq;
  }

  -- The number of the cursor's address
  abbrev pub place : Simple pkg → ℕ
  place s = laws.index s.cursor

  -- The network of the address with number `i`
  abbrev pub key : Simple pkg → ℕ → Mask → IpNet
  key s i m = record { ip = laws.at s.prefix i; mask = m }

  module _ {S : Type 0} (store : IpStore S) where
    -- What a round's first half does: it panics, or stands on a position.
    pub advance_cases :
        (s : Simple pkg) (st : S)
        → IsReady s
        → ((c : pkg.Cursor) × (advance pkg store (s, st) ≡ (panic, (record s { cursor = c }, st)))
            × (laws.net c ≡ s.prefix))
          ⊎ ((c : pkg.Cursor) × (ps : Positions pkg) × (advance pkg store (s, st)
                ≡ (ok ps, (record s { cursor = c }, st)))
              × IsAlong pkg laws s.prefix (place s) ps c)
    unfolding advance
    advance_cases s st h =
        let (n, c) = pkg.next s.cursor in
        let start =
          next-IsAlong pkg laws s.prefix (place s) (some (pkg.pos s.cursor)) s.cursor h.over
            (omega arith)
            (inr (
              place s,
              rw h.over at (laws.index-lt s.cursor),
              rw (laws.pos_lem s.cursor, h.over),
            )) in
        elim (skip_reserved-IsAlong pkg laws s.prefix (place s) s.sub.reserved _ n c start) [
          | inl (e, o) ↦ inl (_, rw e, o)
          | inr (ps, e, along) ↦ inr (_, ps, rw e, along)
        ]

    -- The test for the end returns, starts over, or goes on.
    pub wrap_cases :
        (out : Bool) (n : Option Ip) (s : Simple pkg) (st : S) (h : IsReady s)
        → ((at_end pkg n s.last ≡ true)
            × (out ≡ true)
            × (wrap pkg store out n (s, st) ≡ (ok none, (s, st))))
          ⊎ ((at_end pkg n s.last ≡ true)
              × (out ≡ false)
              × (c : pkg.Cursor) × (wrap pkg store out n (s, st)
                  ≡ (ok (some true), (record s { cursor = c }, st)))
              × (laws.net c ≡ s.prefix)
              × (laws.index c ≡ h.start_at))
          ⊎ ((at_end pkg n s.last ≡ false)
              × (wrap pkg store out n (s, st) ≡ (ok (some out), (s, st))))
    unfolding wrap
    wrap_cases out n s st h = elim (Bool-cases (at_end pkg n s.last)) [
      | inr more ↦ inr (inr (more, rw more))
      | inl over ↦ elim (Bool-cases out) [
        | inl again ↦ inl (over, again, rw (over, again))
        | inr first ↦
            let (c, e, o, x) =
              laws.set_lem s.cursor s.start h.start_at (rw h.over h.start-lt)
                (rw h.over h.start-eq) in
            inr (inl (over, first, c, rw (over, first, e), o ∙ h.over, x))
      ]
    ]

  module _ {S : Type 0} (st : Store S) (v : StoreView S) (contract : StoreLaws st v) where
    -- AllocateIP for a position: the address is new and taken now, or it was taken.
    pub attempt_cases :
        (s : Simple pkg) (i : ℕ) (m : Mask) (σ : S)
        → IsReady s
        → v.Inv σ
        → v.registered σ (string s.prefix) ≡ true
        → i < pkg.num_nodes s.prefix
        → ip_mask s.prefix ≡ ok m
        → ((σ' : S) × (attempt pkg st.ip_store (some (laws.at s.prefix i)) (s, σ)
              ≡ (ok (some (key s i m)), (s, σ')))
            × (v.allocated σ (string s.prefix) (string (key s i m)) ≡ false)
            × Sets v (string s.prefix) (string (key s i m)) true σ σ')
          ⊎ ((attempt pkg st.ip_store (some (laws.at s.prefix i)) (s, σ) ≡ (ok none, (s, σ)))
              × (v.allocated σ (string s.prefix) (string (key s i m)) ≡ true))
    unfolding attempt
    attempt_cases s i m σ h inv reg lt e =
        let inside = laws.contains-at s.prefix i h.valid lt in
        elim (Bool-cases (v.allocated σ (string s.prefix) (string (key s i m)))) [
          | inl old ↦
              let done = contract.allocate_taken s.prefix (key s i m) σ inv reg inside old in
              inr (ground (arith, e, done), old)
          | inr new ↦
              let (σ', done, sets) =
                contract.allocate_free s.prefix (key s i m) σ inv h.valid.0
                  (laws.host-IsNet s.prefix m i h.valid lt e) reg inside new in
              inl (σ', ground (arith, e, done), new, sets)
        ]
