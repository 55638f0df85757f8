-- ===== src/IpAllocator/Simple/Range.antt =====
-- simpleIPAllocator.Allocate (ipallocator.go) without reserved addresses: its rounds within the range
-- from the start to the end.
use wgipam.Base.{
  ℕ, suc, ◌≤◌, ◌<◌, ◌≡◌, ◌⊎◌, refl, inl, inr, true, false, Option, none, some, [], arith, nat_eq,
  Bool-cases, ◌∙◌, ap,
}
use wgipam.Base.Result.{ok}
use wgipam.Net.{Ip, equal}
use wgipam.Net.Laws.{equal_refl}
use wgipam.Store.{Store}
use wgipam.IpAllocator.{IpAddr}
use wgipam.IpAllocator.Cursor.{CursorLaws, next_cases}
use wgipam.IpAllocator.Simple.{Simple, at_end, skip_reserved, advance, wrap}
use wgipam.IpAllocator.Simple.Allocate.{IsReady, place}

module _ (pkg : IpAddr) (laws : CursorLaws pkg) where
  -- The cursor stands in the range, whose last address has the number `e`; nothing is reserved.
  pub record IsInRange (s : Simple pkg) (start e : ℕ) : Type 0 where
    pub from_start : start ≤ place pkg laws s
    pub to_end : place pkg laws s ≤ e
    pub inside : e < pkg.num_nodes s.prefix
    pub end_eq :
        ((s.last ≡ none) × (suc e ≡ pkg.num_nodes s.prefix))
        ⊎ ((s.last ≡ some (laws.at s.prefix (suc e))) × (suc e < pkg.num_nodes s.prefix))
    pub no_reserved : s.sub.reserved ≡ []

  -- A ready allocator with another cursor
  abbrev pub with_cursor :
      (s : Simple pkg) (c : pkg.Cursor)
      → IsReady pkg laws s
      → laws.net c ≡ s.prefix
      → IsReady pkg laws (record s { cursor = c })
  with_cursor s c h o = record {
    valid = h.valid;
    same_net = h.same_net;
    families = h.families;
    over = o;
    start_at = h.start_at;
    start-lt = h.start-lt;
    start-eq = h.start-eq;
  }

  pub IsInRange-moved :
      (s : Simple pkg) (c : pkg.Cursor) (start e : ℕ)
      → IsInRange s start e
      → start ≤ laws.index c
      → laws.index c ≤ e
      → IsInRange (record s { cursor = c }) start e
  IsInRange-moved s c start e r from to = record {
    from_start = from;
    to_end = to;
    inside = r.inside;
    end_eq = r.end_eq;
    no_reserved = r.no_reserved;
  }

  module _ {S : Type 0} (st : Store S) (s : Simple pkg) (σ : S) (h : IsReady pkg laws s)
      (start e : ℕ) (r : IsInRange s start e) where
    -- Before the end of the range a round moves the cursor on by one.
    pub advance_lem :
        suc (place pkg laws s) < pkg.num_nodes s.prefix
        → (c : pkg.Cursor) × (advance pkg st.ip_store (s, σ) ≡ (
          ok (
            some (laws.at s.prefix (place pkg laws s)),
            some (laws.at s.prefix (suc (place pkg laws s))),
          ),
          (record s { cursor = c }, σ),
        ))
          × (laws.net c ≡ s.prefix)
          × (laws.index c ≡ suc (place pkg laws s))
    unfolding advance skip_reserved
    advance_lem more =
        let (c, e₁, o, x) = laws.next_more s.cursor (rw h.over more) in
        (c, rw (e₁, r.no_reserved, laws.pos_lem s.cursor, h.over) refl, o ∙ h.over, x)

    pub before_end :
        place pkg laws s < e
        → at_end pkg (some (laws.at s.prefix (suc (place pkg laws s)))) s.last ≡ false
    before_end lt = elim r.end_eq [
      | inl (e₁, _) ↦ rw e₁ refl
      | inr (e₁, more) ↦
          let here = laws.at s.prefix (suc (place pkg laws s)) in
          elim (Bool-cases (equal here (laws.at s.prefix (suc e)))) [
            | inr differ ↦ rw e₁ differ
            | inl same ↦
                let equal_numbers =
                  laws.at-injective s.prefix (suc (place pkg laws s)) (suc e) h.valid
                    (omega (arith, more, lt)) more same in
                absurd (omega (arith, equal_numbers, lt))
          ]
    ]

    at_last :
        (n : Option Ip) (c : pkg.Cursor)
        → place pkg laws s ≡ e
        → pkg.next s.cursor ≡ (n, c)
        → at_end pkg n s.last ≡ true
    at_last n c same e₁ = elim r.end_eq [
      | inl (_, no_more) ↦
          let e₂ = laws.next_end s.cursor (rw h.over (ap suc same ∙ no_more)) in
          let gone : n ≡ none = ground (arith, e₁, e₂) in rw gone refl
      | inr (e₂, more) ↦
          let (c', e₃, _, _) = laws.next_more s.cursor (rw (h.over, same) more) in
          let there : n ≡ some (laws.at s.prefix (suc e)) = ground (arith, e₁, e₃, same, h.over) in
          rw (there, e₂) (equal_refl (laws.at s.prefix (suc e)))
    ]

    -- A round that stands on the end of the range: it stops after the second run, and starts over
    -- after the first.
    pub last_lem :
        place pkg laws s ≡ e
        → (n : Option Ip) × (c₁ : pkg.Cursor) × (c : pkg.Cursor) × (laws.net c₁ ≡ s.prefix)
          × (suc e < pkg.num_nodes s.prefix → laws.index c₁ ≡ suc e)
          × (advance pkg st.ip_store (s, σ)
              ≡ (ok (some (laws.at s.prefix (place pkg laws s)), n), (record s { cursor = c₁ }, σ)))
          × (wrap pkg st.ip_store true n (record s { cursor = c₁ }, σ)
              ≡ (ok none, (record s { cursor = c₁ }, σ)))
          × (wrap pkg st.ip_store false n (record s { cursor = c₁ }, σ)
              ≡ (ok (some true), (record s { cursor = c }, σ)))
          × (laws.net c ≡ s.prefix)
          × (laws.index c ≡ h.start_at)
    unfolding advance skip_reserved wrap
    last_lem same =
        let n = (pkg.next s.cursor).0 in
        let c₁ = (pkg.next s.cursor).1 in
        let over : at_end pkg n s.last ≡ true = at_last n c₁ same refl in
        let net : laws.net c₁ ≡ s.prefix = next_net in
        let (c, moved, o, x) =
          laws.set_lem c₁ s.start h.start_at (rw net h.start-lt) (rw net h.start-eq) in
        (
          n,
          c₁,
          c,
          net,
          next_index,
          rw (r.no_reserved, laws.pos_lem s.cursor, h.over) refl,
          rw over refl,
          rw (over, moved) refl,
          o ∙ net,
          x,
        )
      where
        next_net : laws.net (pkg.next s.cursor).1 ≡ s.prefix
        next_net = elim (next_cases pkg laws s.cursor) [
          | inl e₁ ↦ rw e₁ h.over
          | inr (c', e₁, o, _) ↦ rw e₁ (o ∙ h.over)
        ]

        next_index : suc e < pkg.num_nodes s.prefix → laws.index (pkg.next s.cursor).1 ≡ suc e
        next_index more =
            let (c', e₁, _, x) = laws.next_more s.cursor (rw (h.over, same) more) in
            rw e₁ (x ∙ ap suc same)
