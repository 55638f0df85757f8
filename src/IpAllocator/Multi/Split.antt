-- ===== src/IpAllocator/Multi/Split.antt =====
-- DualStackIPAllocator (ipallocator.go): how it splits the subnets by the family of their network.
use wgipam.Base.{ℕ, ◌≡◌, ◌⊎◌, refl, inl, inr, Option, none, some, List, [], ◌∷◌, All, arith, subst}
use wgipam.Base.Result.{ok}
use wgipam.Net.{IpNet, IsNet, string, to4}
use wgipam.Family.{ipv4, ipv6, ip_family}
use wgipam.IpAllocator.Subnet.{Subnet}
use wgipam.IpAllocator.Multi.{split_subnets}

-- Does a network go to the IPv4 allocators?
abbrev pub In4 : Subnet → Type 0
In4 s = (x : ℕ) × (to4 s.subnet.ip ≡ some x)

abbrev pub In6 : Subnet → Type 0
In6 s = to4 s.subnet.ip ≡ none

split_cases :
    (s : Subnet) (ss : List Subnet)
    → (In4 s × (split_subnets (s ∷ ss) ≡ (s ∷ (split_subnets ss).0, (split_subnets ss).1)))
      ⊎ (In6 s × (split_subnets (s ∷ ss) ≡ ((split_subnets ss).0, s ∷ (split_subnets ss).1)))
unfolding split_subnets
split_cases s ss = elim (option_cases (to4 s.subnet.ip)) [
  | inl (x, e) ↦ inl ((x, e), rw (e, split_subnets) refl)
  | inr e ↦ inr (e, rw (e, split_subnets) refl)
]
  where
    option_cases : (o : Option ℕ) → ((x : ℕ) × (o ≡ some x)) ⊎ (o ≡ none)
    option_cases none = inr refl
    option_cases (some x) = inl (x, refl)

-- What holds of the subnets holds of both parts.
pub split-All :
    (P : Subnet → Type 0) (ss : List Subnet)
    → All P ss
    → All P (split_subnets ss).0 × All P (split_subnets ss).1
unfolding split_subnets
split-All P [] h = (tt, tt)
split-All P (s ∷ ss) (h, hs) =
    let (a, b) = split-All P ss hs in
    elim (split_cases s ss) [ inl (_, e) ↦ rw e ((h, a), b) | inr (_, e) ↦ rw e (a, (h, b)) ]

-- What holds of both parts holds of the subnets.
pub All-split :
    (P : Subnet → Type 0) (ss : List Subnet)
    → All P (split_subnets ss).0
    → All P (split_subnets ss).1
    → All P ss
unfolding split_subnets
All-split P [] a b = tt
All-split P (s ∷ ss) a b = elim (split_cases s ss) [
  | inl (_, e) ↦
      let (h, a') = subst (λ (p : List Subnet × List Subnet). All P p.0) e a in
      (h, All-split P ss a' (subst (λ (p : List Subnet × List Subnet). All P p.1) e b))
  | inr (_, e) ↦
      let (h, b') = subst (λ (p : List Subnet × List Subnet). All P p.1) e b in
      (h, All-split P ss (subst (λ (p : List Subnet × List Subnet). All P p.0) e a) b')
]

-- The parts are what their names say.
pub split-In : (ss : List Subnet) → All In4 (split_subnets ss).0 × All In6 (split_subnets ss).1
unfolding split_subnets
split-In [] = (tt, tt)
split-In (s ∷ ss) =
    let (a, b) = split-In ss in
    elim (split_cases s ss) [ inl (h, e) ↦ rw e ((h, a), b) | inr (h, e) ↦ rw e (a, (h, b)) ]

pub family4 :
    (s : Subnet) (p : IpNet)
    → IsNet s.subnet
    → string p ≡ string s.subnet
    → In4 s
    → ip_family p ≡ ok ipv4
unfolding ip_family string
family4 s p h same (x, e) = ground (arith, e, same)

pub family6 :
    (s : Subnet) (p : IpNet)
    → IsNet s.subnet
    → string p ≡ string s.subnet
    → In6 s
    → ip_family p ≡ ok ipv6
unfolding ip_family string
family6 s p h same e = ground (arith, e, same)
