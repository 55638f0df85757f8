-- ===== src/Wgipamtest/Equal.antt =====
-- wgipamtest/store.go: what cmp.Diff finds equal.
use wgipam.Base.{◌≡◌, refl, true, List, [], ◌∷◌, map, arith, ◌∙◌, ap}
use wgipam.Base.Int.{ℤ, pos, negsuc, eqb_ℤ}
use wgipam.Net.{Ip, nil, bytes4, bytes16, to16, equal, Mask, w32, w128, IpNet}
use wgipam.Net.Laws.{equal_refl}
use wgipam.Lease.{Lease}
use wgipam.Store.Contract.{SameLease, widened}
use wgipam.Wgipamtest.{equal_mask, equal_nets, equal_lease}

-- IP.Equal does not see the form of an address.
equal-to16 : (a b : Ip) → equal a b ≡ equal (to16 a) (to16 b)
equal-to16 nil nil = refl
equal-to16 nil (bytes4 b) = refl
equal-to16 nil (bytes16 b) = refl
equal-to16 (bytes4 a) nil = refl
equal-to16 (bytes4 a) (bytes4 b) = ground arith
equal-to16 (bytes4 a) (bytes16 b) = refl
equal-to16 (bytes16 a) nil = refl
equal-to16 (bytes16 a) (bytes4 b) = refl
equal-to16 (bytes16 a) (bytes16 b) = refl

equal_nets-widened :
    (ms ns : List IpNet) → equal_nets ms ns ≡ equal_nets (map widened ms) (map widened ns)
unfolding equal_nets
equal_nets-widened [] [] = refl
equal_nets-widened [] (n ∷ ns) = refl
equal_nets-widened (m ∷ ms) [] = refl
equal_nets-widened (m ∷ ms) (n ∷ ns) = rw (equal_nets-widened ms ns, equal-to16 m.ip n.ip) refl

equal_mask_refl : (m : Mask) → equal_mask m m ≡ true
equal_mask_refl m =
    elim m.width as (λ w. equal_mask (record m { width = w }) (record m { width = w }) ≡ true) [
      | w32 ↦ ground arith
      | w128 ↦ ground arith
    ]

equal_nets_refl : (ns : List IpNet) → equal_nets ns ns ≡ true
unfolding equal_nets
equal_nets_refl [] = refl
equal_nets_refl (n ∷ ns) = rw (equal_refl n.ip, equal_mask_refl n.mask, equal_nets_refl ns) refl

-- Networks are equal that differ in the form of their addresses only.
pub equal_nets_lem :
    (ms ns : List IpNet) → map widened ns ≡ map widened ms → equal_nets ms ns ≡ true
equal_nets_lem ms ns h =
    equal_nets-widened ms ns ∙ ap (equal_nets (map widened ms)) h ∙ equal_nets_refl (map widened ms)

eqb_ℤ_refl : (x : ℤ) → eqb_ℤ x x ≡ true
eqb_ℤ_refl (pos n) = ground arith
eqb_ℤ_refl (negsuc n) = ground arith

pub equal_lease-SameLease : (l m : Lease) → SameLease l m → equal_lease l m ≡ true
unfolding equal_lease
equal_lease-SameLease l m h =
    rw
      (
        equal_nets_lem l.ips m.ips h.same_nets,
        h.same_start,
        h.same_length,
        eqb_ℤ_refl l.start,
        eqb_ℤ_refl l.length,
      )
      refl
