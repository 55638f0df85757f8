-- ===== src/Tests/Prefixes.antt =====
-- Prefixes of package ipaddr that keep the laws that checkSubnets relies on.
use wgipam.Base.{
  refl, ℕ, ◌-◌, ◌≡◌, Bool, true, false, Option, none, some, arith, leb, ◌==◌, if◌then◌else◌,
}
use wgipam.Net.{
  Ip, nil, bytes4, bytes16, Cidr, cidr4, cidr6, unprintable, cidr_eq, cidr_beq_iff, agree, within,
  contains, string, to4,
}
use wgipam.Config.{Prefixes}
use wgipam.Config.Subnets.{PrefixLaws}
use wgipam.Tests.Numbered.{coarser}

abbrev shorter : ℕ → ℕ → ℕ
shorter k j = if leb k j then k else j

abbrev pub share : Cidr → Cidr → Bool
share (cidr4 a k) (cidr4 b j) = agree (32 - shorter k j) a b
share (cidr6 a k) (cidr6 b j) = agree (128 - shorter k j) a b
share unprintable unprintable = true
share _ _ = false

abbrev pub textual : Prefixes
textual = record {
  equals = λ p q. string p == string q;
  overlaps = λ p q. share (string p) (string q);
}

meet :
    (w k j a b x : ℕ)
    → agree (w - k) a x ≡ true
    → agree (w - j) b x ≡ true
    → agree (w - shorter k j) a b ≡ true
unfolding agree
meet w k j a b x h h' = ground (
  arith,
  coarser (w - k) (w - shorter k j) a x (ground arith) h,
  coarser (w - j) (w - shorter k j) b x (ground arith) h',
)

share_lem :
    (c d : Cidr) (o : Option ℕ) (ip : Ip)
    → within c o ip ≡ true
    → within d o ip ≡ true
    → share c d ≡ true
unfolding within
share_lem (cidr4 a k) (cidr4 b j) (some x) ip h h' = meet 32 k j a b x h h'
share_lem (cidr4 a k) (cidr4 b j) none ip h h' = absurd (cc h)
share_lem (cidr4 a k) (cidr6 b j) (some x) ip h h' = absurd (cc h')
share_lem (cidr4 a k) (cidr6 b j) none ip h h' = absurd (cc h)
share_lem (cidr4 a k) unprintable (some x) ip h h' = absurd (cc h')
share_lem (cidr4 a k) unprintable none ip h h' = absurd (cc h)
share_lem (cidr6 a k) d (some x) ip h h' = absurd (cc h)
share_lem (cidr6 a k) d none nil h h' = absurd (cc h)
share_lem (cidr6 a k) d none (bytes4 x) h h' = absurd (cc h)
share_lem (cidr6 a k) (cidr4 b j) none (bytes16 x) h h' = absurd (cc h')
share_lem (cidr6 a k) (cidr6 b j) none (bytes16 x) h h' = meet 128 k j a b x h h'
share_lem (cidr6 a k) unprintable none (bytes16 x) h h' = absurd (cc h')
share_lem unprintable d (some x) ip h h' = absurd (cc h)
share_lem unprintable d none (bytes4 x) h h' = absurd (cc h)
share_lem unprintable d none (bytes16 x) h h' = absurd (cc h)
share_lem unprintable (cidr4 b j) none nil h h' = absurd (cc h')
share_lem unprintable (cidr6 b j) none nil h h' = absurd (cc h')
share_lem unprintable unprintable none nil h h' = refl

pub textual_laws : PrefixLaws textual
unfolding contains
textual_laws = record {
  equals_lem = λ p q hp hq e. (cidr_beq_iff (string p) (string q)).0 e;
  overlaps_lem = λ p q ip hp hq h h'. share_lem (string p) (string q) (to4 ip) ip h h';
}
