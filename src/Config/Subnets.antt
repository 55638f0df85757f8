-- ===== src/Config/Subnets.antt =====
-- checkSubnets (internal/config/config.go): the subnets that pass it do not overlap.
use wgipam.Base.{
  ◌≡◌, Bool, Bool-cases, inl, inr, true, false, not, ◌&&◌, List, [], ◌∷◌, any, All, arith, ◌==◌,
  sym, ◌∙◌,
}
use wgipam.Base.Result.{ok}
use wgipam.Net.{Ip, IpNet, IsPrefix, cidr_eq, cidr_beq_iff, string, contains}
use wgipam.Net.Laws.{contains-of-string}
use wgipam.IpAllocator.Subnet.{Subnet}
use wgipam.IpAllocator.Multi.{is_empty}
use wgipam.IpAllocator.Multi.Allocate.{NoOverlap}
use wgipam.Config.{Prefixes, overlaps_any, any_overlap, has_duplicate, check_subnets}

-- What checkSubnets relies on of package ipaddr, for networks of one family: equal prefixes have
-- one text, and prefixes that share an address overlap. Beside an IPv4 network, Overlaps takes the
-- length of a mask of 128 bits for that of an IPv4 mask, so that nothing is said of a network whose
-- addresses are IPv4-mapped.
pub record PrefixLaws (pre : Prefixes) : Type 0 where
  pub equals_lem :
      (p q : IpNet) → IsPrefix p → IsPrefix q → pre.equals p q ≡ true → string p ≡ string q
  pub overlaps_lem :
      (p q : IpNet) (ip : Ip)
      → IsPrefix p
      → IsPrefix q
      → contains p ip ≡ true
      → contains q ip ≡ true
      → pre.overlaps p q ≡ true

-- The network is that of one of the subnets.
abbrev pub IsAmong : List Subnet → IpNet → Type 0
IsAmong ss n = any (λ s. string s.subnet == string n) ss ≡ true

-- What holds of all holds of one that is there.
pub any-All {ℓ} :
    {A : Type 0} (p : A → Bool) (P : A → Type ℓ) (xs : List A)
    → any p xs ≡ true
    → All P xs
    → (x : A) × (p x ≡ true) × P x
any-All p P [] h a = absurd (cc h)
any-All p P (x ∷ xs) h (here, rest) = elim (Bool-cases (p x)) [
  | inl e ↦ (x, e, here)
  | inr e ↦ any-All p P xs (rw e at h) rest
]

All-both {ℓ} :
    {A : Type 0} (P Q : A → Type ℓ) (xs : List A) → All P xs → All Q xs → All (λ x. P x × Q x) xs
All-both P Q [] p q = tt
All-both P Q (x ∷ xs) p q = ((p.0, q.0), All-both P Q xs p.1 q.1)

module _ (pre : Prefixes) where
  abbrev pub Clear : Subnet → Subnet → Type 0
  Clear s t = (not (pre.equals s.subnet t.subnet) && pre.overlaps s.subnet t.subnet) ≡ false

  overlaps_any-All :
      (s : Subnet) (ts : List Subnet) → overlaps_any pre s ts ≡ false → All (Clear s) ts
  unfolding overlaps_any
  overlaps_any-All s [] h = tt
  overlaps_any-All s (t ∷ ts) h = (ground (arith, h), overlaps_any-All s ts (ground (arith, h)))

  pub any_overlap-All :
      (ss all : List Subnet) → any_overlap pre ss all ≡ false → All (λ s. All (Clear s) all) ss
  unfolding any_overlap
  any_overlap-All [] all h = tt
  any_overlap-All (s ∷ ss) all h =
      (overlaps_any-All s all (ground (arith, h)), any_overlap-All ss all (ground (arith, h)))

  pub checked :
      (ss : List Subnet)
      → check_subnets pre ss ≡ ok tt
      → (is_empty ss ≡ false) × (has_duplicate [] ss ≡ false) × (any_overlap pre ss ss ≡ false)
  unfolding check_subnets
  checked ss h = ground (arith, h)

  module _ (laws : PrefixLaws pre) where
    pub check_subnets-NoOverlap :
        (ss : List Subnet)
        → All (λ s. IsPrefix s.subnet) ss
        → check_subnets pre ss ≡ ok tt
        → NoOverlap (IsAmong ss)
    check_subnets-NoOverlap ss valid h m n ip among_m among_n inside_m inside_n =
        let (s, same_m, (clear, is_m)) =
          any-All (λ s. string s.subnet == string m) (λ s. All (Clear s) ss × IsPrefix s.subnet) ss
            among_m
            (All-both (λ s. All (Clear s) ss) (λ s. IsPrefix s.subnet) ss
              (any_overlap-All ss ss (checked ss h).2) valid) in
        let (t, same_n, (apart, is_n)) =
          any-All (λ t. string t.subnet == string n) (λ t. Clear s t × IsPrefix t.subnet) ss among_n
            (All-both (Clear s) (λ t. IsPrefix t.subnet) ss clear valid) in
        let of_m : string s.subnet ≡ string m =
          (cidr_beq_iff (string s.subnet) (string m)).0 same_m in
        let of_n : string t.subnet ≡ string n =
          (cidr_beq_iff (string t.subnet) (string n)).0 same_n in
        let overlap =
          laws.overlaps_lem s.subnet t.subnet ip is_m is_n
            (contains-of-string s.subnet m ip of_m ∙ inside_m)
            (contains-of-string t.subnet n ip of_n ∙ inside_n) in
        sym of_m
        ∙ laws.equals_lem s.subnet t.subnet is_m is_n (ground (arith, apart, overlap))
        ∙ of_n
