-- ===== src/Store/Memory/Counts.antt =====
-- memoryStore.Purge (store.go): the statistics that it returns.
use wgipam.Base.{
  ℕ, ◌+◌, ◌≡◌, refl, true, List, [], ◌∷◌, map, arith, nat_eq, ◌∙◌, sym, ap, if◌then◌else◌,
}
use wgipam.Base.Int.{ℤ}
use wgipam.Base.Map.{Map, discard}
use wgipam.Base.Sets.{has}
use wgipam.Base.Result.{ok, ok-injective}
use wgipam.Net.{IpNet, Cidr, cidr_eq, cidr_beq_iff, string, contains}
use wgipam.Net.Laws.{restored}
use wgipam.Lease.{Lease}
use wgipam.Store.{PurgeStats}
use wgipam.Store.Contract.{held_in, expired_in, freed_from}
use wgipam.Store.Contract.Counts.{held_in-append, freed_from-tally}
use wgipam.Store.Memory.{Memory, leases, sweep_leases, free_within, purge}
use wgipam.Store.Memory.Valid.{IsValid, stats, purge_lem}

count-free_within :
    (n : IpNet) (freed : List IpNet) (ips : List Cidr) (m : ℕ)
    → (free_within n freed ips m).1 ≡ m + held_in n freed
unfolding free_within
count-free_within n [] ips m = ground arith
count-free_within n (f ∷ freed) ips m = ground (
  arith,
  count-free_within n freed (if contains n f.ip then discard (string f) ips else ips)
      (if contains n f.ip then m + 1 else m),
)

freed_from-stats :
    (freed : List IpNet) (c : Cidr) (m : Map Cidr (List Cidr))
    → freed_from c (stats freed m) ≡ (if has c m then held_in (restored c) freed else 0)
freed_from-stats freed c [] = refl
freed_from-stats freed c ((k, ips) ∷ m) =
    freed_from-tally k c (free_within (restored k) freed ips 0).1 (held_in (restored c) freed)
      (has c m) (stats freed m)
      (λ same.
        count-free_within (restored k) freed ips 0
        ∙ ground (arith, ap (λ (z : Cidr). held_in (restored z) freed) ((cidr_beq_iff k c).0 same)))
      (freed_from-stats freed c m)
    ∙ ground arith

held_in-sweep :
    (t : ℤ) (n : IpNet) (ls : Map ℕ Lease)
    → held_in n (sweep_leases t ls).1 ≡ expired_in t n (map (λ e. e.1) ls)
unfolding sweep_leases
held_in-sweep t n [] = refl
held_in-sweep t n ((k, l) ∷ ls) =
    ground (arith, held_in-sweep t n ls, held_in-append n l.ips (sweep_leases t ls).1)

pub purge_counts :
    (t : ℤ) (s s' : Memory) (ps : PurgeStats) (ls : List Lease) (c : Cidr)
    → IsValid s
    → (leases s).0 ≡ ok ls
    → purge t s ≡ (ok ps, s')
    → has c s.subnets ≡ true
    → freed_from c ps ≡ expired_in t (restored c) ls
unfolding leases
purge_counts t s s' ps ls c v listed done there =
    let same : stats (sweep_leases t s.leases).1 s.subnets ≡ ps =
      ok-injective (ap (λ r. r.0) (sym (purge_lem t s v) ∙ done)) in
    let all : map (λ e. e.1) s.leases ≡ ls = ok-injective listed in
    sym (ap (freed_from c) same)
    ∙ freed_from-stats (sweep_leases t s.leases).1 c s.subnets
    ∙ ground (arith, there, held_in-sweep t (restored c) s.leases)
    ∙ ap (expired_in t (restored c)) all
