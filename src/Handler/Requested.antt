-- ===== src/Handler/Requested.antt =====
-- handler.go: what the addresses in a request mean to newLease and renewLease.
use wgipam.Base.{
  ℕ, ◌+◌, ◌≡◌, refl, Bool, true, false, not, ◌||◌, List, [], ◌∷◌, any, arith, if◌then◌else◌,
  Bool-cases, inl, inr, ap, ◌∙◌,
}
use Prim.Native.Nat.{bit_or}
use wgipam.Base.Result.{ok, err, ip_unavailable}
use wgipam.Net.{IpNet, equal, ipv4_zero, ipv6_zero}
use wgipam.Family.{Family, ipv4, ipv6, dual_stack, ip_family}
use wgipam.Store.{LeaseStore}
use wgipam.IpAllocator.{IpAllocator}
use wgipam.IpAllocator.Multi.{is_empty}
use wgipam.Base.Int.{ℤ}
use wgipam.Handler.{is_zero, requested_family, families, RequestIp, new_lease}

abbrev pub wants4 : List IpNet → Bool
wants4 = any λ n. equal n.ip ipv4_zero

abbrev pub wants6 : List IpNet → Bool
wants6 = any λ n. equal n.ip ipv6_zero

-- The two bits of a Family
abbrev pub bits : Bool → Bool → Family
bits b c = (if b then ipv4 else 0) + (if c then ipv6 else 0)

bit_or-bits : (a b c d : Bool) → bit_or (bits a b) (bits c d) ≡ bits (a || c) (b || d)
bit_or-bits true true true true = refl
bit_or-bits true true true false = refl
bit_or-bits true true false true = refl
bit_or-bits true true false false = refl
bit_or-bits true false true true = refl
bit_or-bits true false true false = refl
bit_or-bits true false false true = refl
bit_or-bits true false false false = refl
bit_or-bits false true true true = refl
bit_or-bits false true true false = refl
bit_or-bits false true false true = refl
bit_or-bits false true false false = refl
bit_or-bits false false true true = refl
bit_or-bits false false true false = refl
bit_or-bits false false false true = refl
bit_or-bits false false false false = refl

-- The zero address of each family is of that family.
zero_family :
    (n : IpNet)
    → is_zero n.ip ≡ true
    → ip_family n ≡ ok (bits (equal n.ip ipv4_zero) (equal n.ip ipv6_zero))
unfolding ip_family
zero_family n h = ground arith

requested_step :
    (n : IpNet) (ips : List IpNet) (f g : Family)
    → is_zero n.ip ≡ true
    → ip_family n ≡ ok g
    → requested_family (n ∷ ips) f ≡ requested_family ips (bit_or f g)
unfolding requested_family
requested_step n ips f g z e = ground (arith, z, e)

requested_family_lem :
    (ips : List IpNet) (b c : Bool)
    → any (λ n. not (is_zero n.ip)) ips ≡ false
    → requested_family ips (bits b c) ≡ ok (bits (b || wants4 ips) (c || wants6 ips))
unfolding requested_family
requested_family_lem [] b c h = rw (or-false b, or-false c) refl
  where
    or-false : (x : Bool) → (x || false) ≡ x
    or-false true = refl
    or-false false = refl
requested_family_lem (n ∷ ips) b c h =
    let four = equal n.ip ipv4_zero in
    let six = equal n.ip ipv6_zero in
    requested_step n ips (bits b c) (bits four six) (ground (arith, h))
      (zero_family n (ground (arith, h)))
    ∙ ap (requested_family ips) (bit_or-bits b c four six)
    ∙ requested_family_lem ips (b || four) (c || six) (ground (arith, h))
    ∙ rw (or-assoc b four (wants4 ips), or-assoc c six (wants6 ips)) refl
  where
    or-assoc : (x y z : Bool) → ((x || y) || z) ≡ (x || (y || z))
    or-assoc true y z = refl
    or-assoc false y z = refl

-- The families that newLease asks for: both, if the request names no address; else, if each one is
-- a zero address, those whose zero address it names.
pub families_lem :
    (ips : List IpNet)
    → any (λ n. not (is_zero n.ip)) ips ≡ false
    → families ips ≡ ok (if is_empty ips then dual_stack else bits (wants4 ips) (wants6 ips))
unfolding families
families_lem [] h = refl
families_lem (n ∷ ips) h = requested_family_lem (n ∷ ips) false false h

refused :
    (ips : List IpNet) (f : Family)
    → any (λ n. not (is_zero n.ip)) ips ≡ true
    → requested_family ips f ≡ err ip_unavailable
refused [] f h = absurd (cc h)
refused (n ∷ ips) f h = elim (Bool-cases (is_zero n.ip)) [
  | inr other ↦ unfold requested_family in ground (arith, other)
  | inl z ↦
      requested_step n ips f (bits (equal n.ip ipv4_zero) (equal n.ip ipv6_zero)) z
        (zero_family n z)
      ∙ refused ips _ (ground (arith, h, z))
]

families_refused :
    (ips : List IpNet)
    → any (λ n. not (is_zero n.ip)) ips ≡ true
    → families ips ≡ err ip_unavailable
unfolding families
families_refused [] h = absurd (cc h)
families_refused (n ∷ ips) h = refused (n ∷ ips) 0 h

module _ {S : Type 0} (leases : LeaseStore S) (allocator : IpAllocator S) (lease_duration : ℤ) where
  -- Without a lease, a request that names any address that is not zero is refused, and changes
  -- nothing.
  pub new_lease-refuses :
      (key : ℕ) (req : RequestIp) (stamp : ℕ) (s : S)
      → any (λ n. not (is_zero n.ip)) req.ips ≡ true
      → new_lease leases allocator lease_duration key req stamp s ≡ (err ip_unavailable, s)
  unfolding new_lease
  new_lease-refuses key req stamp s h = ground (arith, families_refused req.ips h)
