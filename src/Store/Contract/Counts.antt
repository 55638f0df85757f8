-- ===== src/Store/Contract/Counts.antt =====
-- store.go: how the statistics of Purge add up, for the proofs that a Store keeps the contract.
use wgipam.Base.{
  ℕ, ◌+◌, ◌≡◌, refl, Bool, true, List, [], ◌∷◌, ◌++◌, arith, nat_eq, ◌==◌, if◌then◌else◌,
}
use wgipam.Net.{IpNet, Cidr, cidr_eq, string}
use wgipam.Net.Laws.{contains-of-string}
use wgipam.Store.{PurgeStats, tally}
use wgipam.Store.Contract.{held_in, freed_from}

pub held_in-append :
    (n : IpNet) (xs ys : List IpNet) → held_in n (xs ++ ys) ≡ held_in n xs + held_in n ys
held_in-append n [] ys = ground arith
held_in-append n (x ∷ xs) ys = ground (arith, held_in-append n xs ys)

-- Networks of one text hold the same addresses.
pub held_in-of-string :
    (n m : IpNet) (fs : List IpNet) → string n ≡ string m → held_in n fs ≡ held_in m fs
held_in-of-string n m [] e = refl
held_in-of-string n m (f ∷ fs) e =
    ground (arith, held_in-of-string n m fs e, contains-of-string n m f.ip e)

-- One more subnet is counted, in statistics that have it with the same count or not at all.
pub freed_from-tally :
    (k c : Cidr) (n held : ℕ) (there : Bool) (ps : PurgeStats)
    → (k == c ≡ true → n ≡ held)
    → freed_from c ps ≡ (if there then held else 0)
    → freed_from c (tally k n ps) ≡ (if k == c then held else if there then held else 0)
freed_from-tally k c n held there ps same rest = ground (arith, same, rest)
