-- ===== src/Config/Usable.antt =====
-- Subnet.Validate (ipallocator.go) and checkSubnets (internal/config/config.go): what they make sure
-- of, said without them.
use wgipam.Base.{
  ◌≡◌, ◌⊎◌, inl, inr, Bool-cases, true, false, not, ◌&&◌, List, [], ◌∷◌, any, All, All-map, arith,
  ◌==◌,
}
use wgipam.Base.Map.{member}
use wgipam.Base.Result.{ok}
use wgipam.Net.{Ip, IpNet, Cidr, cidr_eq, string, contains, equal, masked}
use wgipam.IpAllocator.Subnet.{Subnet, validate, is_set, comes_after, masked_net}
use wgipam.IpAllocator.Multi.{is_empty}
use wgipam.Config.{Prefixes, has_duplicate, check_subnets}
use wgipam.Config.Subnets.{Clear, any_overlap-All, checked}

-- The address is unset, or one of the subnet's network.
abbrev pub IsInside : Subnet → Ip → Type 0
IsInside s ip = (is_set ip ≡ false) ⊎ (contains (masked_net s.subnet) ip ≡ true)

-- A subnet that addresses can be allocated from: its network has no bits after its prefix, its start
-- and end are within it and in order, and its reserved addresses are within it.
pub record IsUsable (s : Subnet) : Type 0 where
  pub network : equal s.subnet.ip (masked s.subnet.ip s.subnet.mask) ≡ true
  pub start_inside : IsInside s s.start
  pub last_inside : IsInside s s.last
  pub in_order :
      (is_set s.start ≡ false) ⊎ (is_set s.last ≡ false) ⊎ (comes_after s.start s.last ≡ false)
  pub reserved_inside : All (λ ip. contains (masked_net s.subnet) ip ≡ true) s.reserved

inside_lem :
    (s : Subnet) (ip : Ip)
    → (is_set ip && not (contains (masked_net s.subnet) ip)) ≡ false
    → IsInside s ip
inside_lem s ip h = elim (Bool-cases (is_set ip)) [
  | inr unset ↦ inl unset
  | inl set ↦ inr (ground (arith, h, set))
]

order_lem :
    (s : Subnet)
    → (is_set s.start && is_set s.last && comes_after s.start s.last) ≡ false
    → (is_set s.start ≡ false) ⊎ (is_set s.last ≡ false) ⊎ (comes_after s.start s.last ≡ false)
order_lem s h = elim (Bool-cases (is_set s.start)) [
  | inr unset ↦ inl unset
  | inl set ↦ elim (Bool-cases (is_set s.last)) [
    | inr unset' ↦ inr (inl unset')
    | inl set' ↦ inr (inr (ground (arith, h, set, set')))
  ]
]

reserved_lem :
    (n : IpNet) (ips : List Ip)
    → any (λ r. not (contains n r)) ips ≡ false
    → All (λ ip. contains n ip ≡ true) ips
reserved_lem n [] h = tt
reserved_lem n (ip ∷ ips) h = (ground (arith, h), reserved_lem n ips (ground (arith, h)))

pub validate-IsUsable : (s : Subnet) → validate s ≡ ok tt → IsUsable s
unfolding validate
validate-IsUsable s h = record {
  network = ground (arith, h);
  start_inside = inside_lem s s.start (ground (arith, h));
  last_inside = inside_lem s s.last (ground (arith, h));
  in_order = order_lem s (ground (arith, h));
  reserved_inside = reserved_lem (masked_net s.subnet) s.reserved (ground (arith, h));
}

-- No two of the networks have one text.
abbrev pub AreDifferent : List Subnet → Type 0
AreDifferent [] = Unit
AreDifferent (s ∷ ss) = All (λ t. string s.subnet == string t.subnet ≡ false) ss × AreDifferent ss

duplicates_lem :
    (seen : List Cidr) (ss : List Subnet)
    → has_duplicate seen ss ≡ false
    → All (λ t. member (string t.subnet) seen ≡ false) ss × AreDifferent ss
unfolding has_duplicate
duplicates_lem seen [] h = (tt, tt)
duplicates_lem seen (s ∷ ss) h =
    let (unseen, different) = duplicates_lem (string s.subnet ∷ seen) ss (ground (arith, h)) in
    (
      (ground (arith, h), All-map ss (λ t e. ground (arith, e)) unseen),
      (All-map ss (λ t e. ground (arith, e)) unseen, different),
    )

module _ (pre : Prefixes) where
  -- The networks are equal, or do not overlap.
  abbrev pub IsApart : Subnet → Subnet → Type 0
  IsApart s t = (pre.equals s.subnet t.subnet ≡ true) ⊎ (pre.overlaps s.subnet t.subnet ≡ false)

  -- There are subnets, they are different, and no two different ones overlap.
  abbrev pub AreSeparate : List Subnet → Type 0
  AreSeparate ss = (is_empty ss ≡ false) × AreDifferent ss × All (λ s. All (IsApart s) ss) ss

  apart_lem : (s t : Subnet) → Clear pre s t → IsApart s t
  apart_lem s t h = elim (Bool-cases (pre.equals s.subnet t.subnet)) [
    | inl same ↦ inl same
    | inr other ↦ inr (ground (arith, h, other))
  ]

  pub check_subnets-AreSeparate : (ss : List Subnet) → check_subnets pre ss ≡ ok tt → AreSeparate ss
  check_subnets-AreSeparate ss h =
      let (some_subnet, no_duplicate, clear) = checked pre ss h in
      (
        some_subnet,
        (duplicates_lem [] ss no_duplicate).1,
        All-map ss (λ s c. All-map ss (apart_lem s) c) (any_overlap-All pre ss ss clear),
      )
