-- ===== src/Wgipamtest/Subnets.antt =====
-- wgipamtest/store.go: a Store that keeps its contract passes testSubnetsOK.
use wgipam.Base.{
  ◌≡◌, refl, Bool, true, false, List, [], ◌∷◌, map, All, ◌==◌, ◌⊎◌, arith, ◌∙◌, ap, sym, inl, inr,
  Bool-cases, subst, ◌||◌,
}
use wgipam.Base.Map.{pair_lem}
use wgipam.Base.Sort.{sort_by}
use wgipam.Net.{IpNet, Cidr, cidr_eq, cidr_beq_iff, string, network, clear}
use wgipam.Net.Laws.{restored, own_net}
use wgipam.Store.{Store}
use wgipam.Store.Contract.{StoreView, StoreLaws, widened}
use wgipam.Store.Contract.Listing.{ListingLaws, IsReadBack}
use wgipam.Wgipamtest.{ok_subnet4, ok_subnet6, equal_nets, each, by_text, test_subnets_ok}
use wgipam.Wgipamtest.Equal.{equal_nets_lem}
use wgipam.Wgipamtest.Leases.{IsNewStore, IsPassed}
use wgipam.Wgipamtest.Addresses.{subnet4-IsNet, subnet6-IsNet}

abbrev text4 : Cidr
text4 = string ok_subnet4

abbrev text6 : Cidr
text6 = string ok_subnet6

texts_differ : (text4 == text6) ≡ false
unfolding string network
texts_differ = refl

-- Neither has bits after its prefix.
masked4 : string (own_net text4) ≡ text4
unfolding string network clear
masked4 = refl

masked6 : string (own_net text6) ≡ text6
unfolding string network clear
masked6 = refl

widened4 : widened ok_subnet4 ≡ restored text4
unfolding string network
widened4 = refl

widened6 : widened ok_subnet6 ≡ restored text6
unfolding string network
widened6 = refl

equal_lem :
    (n m : IpNet)
    → string n ≡ text4
    → string m ≡ text6
    → IsReadBack n
    → IsReadBack m
    → equal_nets (ok_subnet4 ∷ ok_subnet6 ∷ []) (n ∷ m ∷ []) ≡ true
equal_lem n m hn hm back_n back_m =
    let wide_n : widened n ≡ widened ok_subnet4 = back_n ∙ ap restored hn ∙ sym widened4 in
    let wide_m : widened m ≡ widened ok_subnet6 = back_m ∙ ap restored hm ∙ sym widened6 in
    equal_nets_lem (ok_subnet4 ∷ ok_subnet6 ∷ []) (n ∷ m ∷ []) (cc (wide_n, wide_m))

-- A test of texts that puts the IPv4 subnet first
pub record PutsFirst (text_lt : Cidr → Cidr → Bool) : Type 0 where
  pub first : text_lt (string ok_subnet4) (string ok_subnet6) ≡ true
  pub then_ : text_lt (string ok_subnet6) (string ok_subnet4) ≡ false

module _ {S : Type 0} (st : Store S) (text_lt : Cidr → Cidr → Bool)
    (order : PutsFirst text_lt) where
  open order use {first, then_}

  -- The two subnets, listed in either order, are sorted and equal to what is wanted.
  both_equal :
      (ns : List IpNet)
      → (map string ns ≡ text4 ∷ text6 ∷ []) ⊎ (map string ns ≡ text6 ∷ text4 ∷ [])
      → All IsReadBack ns
      → equal_nets (by_text text_lt st (ok_subnet4 ∷ ok_subnet6 ∷ [])) (by_text text_lt st ns)
        ≡ true
  unfolding sort_by
  both_equal [] h back = absurd (ground (arith, h))
  both_equal (n ∷ []) h back = absurd (ground (arith, h))
  both_equal (n ∷ m ∷ []) (inl h) (back_n, (back_m, _)) =
      let hn : string n ≡ text4 = ground (arith, h) in
      let hm : string m ≡ text6 = ground (arith, h) in
      let before : text_lt (string m) (string n) ≡ false = rw (hn, hm) then_ in
      rw (then_, before) (equal_lem n m hn hm back_n back_m)
  both_equal (n ∷ m ∷ []) (inr h) (back_n, (back_m, _)) =
      let hn : string n ≡ text6 = ground (arith, h) in
      let hm : string m ≡ text4 = ground (arith, h) in
      let before : text_lt (string m) (string n) ≡ true = rw (hn, hm) first in
      rw (then_, before) (equal_lem m n hm hn back_m back_n)
  both_equal (n ∷ m ∷ k ∷ ns) h back = absurd (ground (arith, h))

module _ {S : Type 0} (st : Store S) (v : StoreView S) (contract : StoreLaws st v)
    (listing : ListingLaws st v) (text_lt : Cidr → Cidr → Bool) (order : PutsFirst text_lt) (s : S)
    (new : IsNewStore st v s) where
  pub subnets_ok-IsPassed : IsPassed st v s (test_subnets_ok text_lt st)
  unfolding test_subnets_ok each
  subnets_ok-IsPassed =
      let (s₁, e₁, w₁) = contract.save_subnet_lem ok_subnet4 s new.inv subnet4-IsNet in
      let (s₂, e₂, w₂) = contract.save_subnet_lem ok_subnet6 s₁ w₁.inv subnet6-IsNet in
      let registered : (c : Cidr) → v.registered s₂ c ≡ (text4 == c || text6 == c) =
        λ c. ground (arith, w₂.registers c, w₁.registers c, new.no_subnet c) in
      let (ns, e₃, (distinct, members, back)) =
        listing.subnets_lem s₂ w₂.inv (λ c there. both_masked c (sym (registered c) ∙ there)) in
      let texts =
        pair_lem text4 text6 (map string ns) texts_differ distinct
          (λ c. members c ∙ registered c) in
      ground (arith, e₁, e₂, e₃, both_equal st text_lt order ns texts back)
    where
      both_masked : (c : Cidr) → (text4 == c || text6 == c) ≡ true → string (own_net c) ≡ c
      both_masked c h = elim (Bool-cases (text4 == c)) [
        | inl is_4 ↦ subst (λ c. string (own_net c) ≡ c) ((cidr_beq_iff text4 c).0 is_4) masked4
        | inr other ↦
            subst (λ c. string (own_net c) ≡ c)
              ((cidr_beq_iff text6 c).0 (ground (arith, other, h))) masked6
      ]
