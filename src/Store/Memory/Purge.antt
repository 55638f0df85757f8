-- ===== src/Store/Memory/Purge.antt =====
-- memoryStore.Purge (store.go): what it removes, and that it is idempotent.
use wgipam.Base.{
  ℕ, ◌+◌, ◌≡◌, refl, false, Option, none, some, List, [], ◌∷◌, arith, nat_eq, ◌==◌, if◌then◌else◌,
  Option-cases, inl, inr, Bool-cases, true, ◌&&◌, ◌↔◌, ◌∙◌, sym,
}
use wgipam.Base.Int.{ℤ}
use wgipam.Base.Map.{Map, IsMap, lookup, member, discard, member-discard, beq_refl}
use wgipam.Base.Sets.{holds}
use wgipam.Base.Result.{ok}
use wgipam.Net.{IpNet, Cidr, cidr_eq, cidr_beq_iff, string, contains}
use wgipam.Net.Laws.{restored}
use wgipam.Lease.{Lease, expired}
use wgipam.Store.Contract.{frees, frees-append}
use wgipam.Store.Memory.{Memory, sweep_leases, free_within, purge}
use wgipam.Store.Memory.Valid.{IsValid, cleared, stats, purge_lem, purge-IsValid}

-- What Purge keeps of a lease that is found: nothing if it is expired.
abbrev pub unexpired : ℤ → Option Lease → Option Lease
unexpired t none = none
unexpired t (some l) = if expired l t then none else some l

lookup-sweep :
    (t : ℤ) (k : ℕ) (ls : Map ℕ Lease)
    → IsMap ls
    → lookup k (sweep_leases t ls).0 ≡ unexpired t (lookup k ls)
unfolding sweep_leases
lookup-sweep t k [] h = refl
lookup-sweep t k ((j, l) ∷ ls) h = ground (arith, lookup-sweep t k ls h.1)

-- After a purge of a valid store exactly the leases that are not expired are found, each under its
-- key.
pub lookup-purge :
    (t : ℤ) (k : ℕ) (s : Memory)
    → IsValid s
    → lookup k (purge t s).1.leases ≡ unexpired t (lookup k s.leases)
lookup-purge t k s v = rw (purge_lem t s v) (lookup-sweep t k s.leases v.leases)

member-free_within :
    (cidr : IpNet) (c : Cidr) (freed : List IpNet) (ips : List Cidr) (n : ℕ)
    → member c (free_within cidr freed ips n).0
      ≡ (if frees cidr c freed then false else member c ips)
unfolding free_within
member-free_within cidr c [] ips n = refl
member-free_within cidr c (f ∷ freed) ips n = ground (
  arith,
  member-discard (string f) c ips,
  member-free_within cidr c freed (if contains cidr f.ip then discard (string f) ips else ips)
      (if contains cidr f.ip then n + 1 else n),
)

-- What a purge leaves of a subnet's set.
lookup-cleared :
    (freed : List IpNet) (sub : Cidr) (m : Map Cidr (List Cidr))
    → lookup sub (cleared freed m) ≡ elim (lookup sub m) [
      | none ↦ none
      | some ips ↦ some (free_within (restored sub) freed ips 0).0
    ]
lookup-cleared freed sub [] = refl
lookup-cleared freed sub ((k, ips) ∷ m) = elim (Bool-cases (k == sub)) [
  | inl same ↦ let e : k ≡ sub = (cidr_beq_iff k sub).0 same in rw (same, e)
  | inr differ ↦ rw differ (lookup-cleared freed sub m)
]

-- The addresses of the expired leases.
abbrev pub freed_ips : ℤ → Memory → List IpNet
freed_ips t s = (sweep_leases t s.leases).1

pub holds-cleared :
    (t : ℤ) (sub c : Cidr) (s : Memory)
    → IsValid s
    → holds sub c (purge t s).1.subnets
      ≡ (if frees (restored sub) c (freed_ips t s) then false else holds sub c s.subnets)
holds-cleared t sub c s v = rw (purge_lem t s v) (
    rw (lookup-cleared (freed_ips t s) sub s.subnets, holds)
      (elim (Option-cases (lookup sub s.subnets)) [
        | inl e ↦ rw (e, holds) (ground arith)
        | inr (ips, e) ↦ rw (e, holds) (member-free_within (restored sub) c (freed_ips t s) ips 0)
      ]))

-- An expired lease holds the address `c`, within the network `n`.
abbrev pub IsExpiredIn : ℤ → IpNet → Cidr → Map ℕ Lease → Type 0
IsExpiredIn t n c ls =
    (k : ℕ) × (l : Lease) × (lookup k ls ≡ some l) × (expired l t ≡ true) × (frees n c l.ips ≡ true)

-- The sweep collects the addresses of each expired lease.
pub frees-sweep_all :
    (t : ℤ) (n : IpNet) (c : Cidr) (ls : Map ℕ Lease)
    → IsExpiredIn t n c ls
    → frees n c (sweep_leases t ls).1 ≡ true
unfolding sweep_leases
frees-sweep_all t n c [] (k, l, e, gone, held) = absurd (cc e)
frees-sweep_all t n c ((j, m) ∷ ls) (k, l, e, gone, held) = elim (Bool-cases (j == k)) [
  | inl same ↦ ground (arith, same, e, gone, held, frees-append n c m.ips (sweep_leases t ls).1)
  | inr other ↦ ground (
    arith,
    frees-sweep_all t n c ls (k, l, ground (arith, e, other), gone, held),
    frees-append n c m.ips (sweep_leases t ls).1,
  )
]

-- It collects no other.
pub frees-sweep_only :
    (t : ℤ) (n : IpNet) (c : Cidr) (ls : Map ℕ Lease)
    → IsMap ls
    → frees n c (sweep_leases t ls).1 ≡ true
    → IsExpiredIn t n c ls
unfolding sweep_leases
frees-sweep_only t n c [] m h = absurd (cc h)
frees-sweep_only t n c ((j, l) ∷ ls) m h = elim (Bool-cases (expired l t && frees n c l.ips)) [
  | inl here ↦ (j, l, ground (arith, beq_refl j), ground (arith, here), ground (arith, here))
  | inr not_here ↦
      let (k, l', e, gone, held) =
        frees-sweep_only t n c ls m.1
          (ground (arith, h, not_here, frees-append n c l.ips (sweep_leases t ls).1)) in
      (k, l', ground (arith, e, m.0), gone, held)
]

-- After a purge of a valid store an address is allocated from a subnet exactly when it was, and no
-- expired lease holds it inside that subnet.
pub holds-purge :
    (t : ℤ) (sub c : Cidr) (s : Memory)
    → IsValid s
    → (holds sub c (purge t s).1.subnets ≡ true)
      ↔ ((holds sub c s.subnets ≡ true) × (IsExpiredIn t (restored sub) c s.leases → ⊥))
holds-purge t sub c s v = (
  λ h.
      let none_ : frees (restored sub) c (freed_ips t s) ≡ false =
        ground (arith, h, holds-cleared t sub c s v) in
      (
        ground (arith, h, holds-cleared t sub c s v),
        λ held. absurd (cc (sym none_ ∙ frees-sweep_all t (restored sub) c s.leases held)),
      ),
  λ (h, untouched). elim (Bool-cases (frees (restored sub) c (freed_ips t s))) [
    | inl held ↦ absurd (untouched (frees-sweep_only t (restored sub) c s.leases v.leases held))
    | inr none_ ↦ ground (arith, h, none_, holds-cleared t sub c s v)
  ],
)

-- A second sweep at the same time finds nothing to free, and changes nothing.
sweep-sweep :
    (t : ℤ) (ls : Map ℕ Lease) → sweep_leases t (sweep_leases t ls).0 ≡ ((sweep_leases t ls).0, [])
unfolding sweep_leases
sweep-sweep t [] = refl
sweep-sweep t ((k, l) ∷ ls) = elim (Bool-cases (expired l t)) [
  | inl gone ↦ rw gone (sweep-sweep t ls)
  | inr kept ↦ rw (kept, kept, sweep-sweep t ls)
]

cleared-nil : (m : Map Cidr (List Cidr)) → cleared [] m ≡ m
unfolding free_within
cleared-nil [] = refl
cleared-nil ((k, ips) ∷ m) = rw (cleared-nil m)

stats-nil : (m : Map Cidr (List Cidr)) → stats [] m ≡ []
unfolding free_within
stats-nil [] = refl
stats-nil ((k, ips) ∷ m) = rw (stats-nil m)

-- Purging a valid store twice at one time is purging once: the second purge succeeds, frees nothing
-- and leaves the store as it is.
pub purge-purge : (t : ℤ) (s : Memory) → IsValid s → purge t (purge t s).1 ≡ (ok [], (purge t s).1)
purge-purge t s v =
    rw (purge_lem t (purge t s).1 (purge-IsValid t s v))
      (rw (purge_lem t s v) (rw (sweep-sweep t s.leases) (rw (cleared-nil _, stats-nil _))))
