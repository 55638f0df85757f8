-- ===== src/Store/Contract.antt =====
-- What store.go promises of every Store, stated on a view of its state: the leases that are found,
-- the subnets that exist and the addresses allocated from them. Clients are proved against this.
pub mod Listing
pub mod Counts
use wgipam.Base.{
  ℕ, ◌+◌, ◌≡◌, Bool, true, false, ◌&&◌, Option, none, some, List, [], ◌∷◌, ◌++◌, refl, arith, ◌||◌,
  map, any, ◌==◌, nat_eq, if◌then◌else◌, Bool-cases, inl, inr, subst,
}
use wgipam.Base.Int.{ℤ}
use wgipam.Base.Result.{ok}
use wgipam.Net.{to16, IpNet, Cidr, cidr_eq, cidr_beq_iff, IsNet, string, contains}
use wgipam.Net.Laws.{restored}
use wgipam.Lease.{Lease, expired}
use wgipam.Store.{Store, PurgeStats}

pub record StoreView (S : Type 0) : Type 1 where
  pub Inv : S → Type 0
  -- The numbers that are keys, the leases that can be saved, and what a lease is read back as
  pub IsKey : ℕ → Type 0
  pub Storable : Lease → Type 0
  pub stored : Lease → Lease
  pub leased : S → ℕ → Option Lease
  pub registered : S → Cidr → Bool
  -- The subnets that were saved since the store was opened, whose addresses a purge frees
  pub known : S → Cidr → Bool
  pub allocated : S → Cidr → Cidr → Bool

-- A network with its address in the 16-byte form, which IP.Equal takes for the same
abbrev pub widened : IpNet → IpNet
widened n = record n { ip = to16 n.ip }

-- The same lease, in which an address may have another form but prints the same
pub record SameLease (l l' : Lease) : Type 0 where
  pub same_start : l'.start ≡ l.start
  pub same_length : l'.length ≡ l.length
  pub same_nets : map widened l'.ips ≡ map widened l.ips
  pub same_texts : map string l'.ips ≡ map string l.ips

-- Does the list hold the address `c`, within `cidr`?
abbrev pub frees : IpNet → Cidr → List IpNet → Bool
frees cidr c = any λ f. contains cidr f.ip && string f == c

pub frees-append :
    (n : IpNet) (c : Cidr) (xs ys : List IpNet)
    → frees n c (xs ++ ys) ≡ (frees n c xs || frees n c ys)
frees-append n c [] ys = refl
frees-append n c (x ∷ xs) ys = ground (arith, frees-append n c xs ys)

-- The number of addresses of the list that lie in `n`
abbrev pub held_in : IpNet → List IpNet → ℕ
held_in n [] = 0
held_in n (f ∷ fs) = if contains n f.ip then 1 + held_in n fs else held_in n fs

-- The number of those that expired leases hold
abbrev pub expired_in : ℤ → IpNet → List Lease → ℕ
expired_in t n [] = 0
expired_in t n (l ∷ ls) =
    if expired l t then held_in n l.ips + expired_in t n ls else expired_in t n ls

-- FreedIPs of a subnet, zero where it is missing
abbrev pub freed_from : Cidr → PurgeStats → ℕ
freed_from c [] = 0
freed_from c ((k, n) ∷ ps) = if k == c then n else freed_from c ps

-- Only the allocation of `c` from `sub` changes, to `b`.
pub record Sets {S : Type 0} (v : StoreView S) (sub c : Cidr) (b : Bool) (s s' : S) : Type 0 where
  pub inv : v.Inv s'
  pub same_leases : (k : ℕ) → v.leased s' k ≡ v.leased s k
  pub same_subnets : (k : Cidr) → v.registered s' k ≡ v.registered s k
  pub same_known : (k : Cidr) → v.known s' k ≡ v.known s k
  pub sets :
      (k d : Cidr) → v.allocated s' k d ≡ (if sub == k && c == d then b else v.allocated s k d)

-- The subnet `sub` exists and is known; it may lose addresses, and nothing else changes.
pub record Registers {S : Type 0} (v : StoreView S) (sub : Cidr) (s s' : S) : Type 0 where
  pub inv : v.Inv s'
  pub same_leases : (k : ℕ) → v.leased s' k ≡ v.leased s k
  pub registers : (k : Cidr) → v.registered s' k ≡ (if sub == k then true else v.registered s k)
  pub knows : (k : Cidr) → v.known s' k ≡ (if sub == k then true else v.known s k)
  pub others : (k d : Cidr) → sub == k ≡ false → v.allocated s' k d ≡ v.allocated s k d
  pub no_more : (d : Cidr) → v.allocated s' sub d ≡ true → v.allocated s sub d ≡ true

-- Where nothing is allocated from the subnet, no allocation changes.
pub Registers-same_allocations :
    {S : Type 0} (v : StoreView S) (sub : Cidr) (s s' : S)
    → Registers v sub s s'
    → ((c : Cidr) → v.allocated s sub c ≡ false)
    → (k d : Cidr) → v.allocated s' k d ≡ v.allocated s k d
Registers-same_allocations v sub s s' r unused k d = elim (Bool-cases (sub == k)) [
  | inr other ↦ r.others k d other
  | inl same ↦
      let e : sub ≡ k = (cidr_beq_iff sub k).0 same in
      subst (λ (j : Cidr). v.allocated s' j d ≡ v.allocated s j d) e
        (ground (arith, r.no_more d, unused d))
]

-- Only the lease of `key` changes, to `l`.
pub record Saves {S : Type 0} (v : StoreView S) (key : ℕ) (l : Option Lease) (s s' : S)
    : Type 0 where
  pub inv : v.Inv s'
  pub saves : (k : ℕ) → v.leased s' k ≡ (if key == k then l else v.leased s k)
  pub same_subnets : (k : Cidr) → v.registered s' k ≡ v.registered s k
  pub same_known : (k : Cidr) → v.known s' k ≡ v.known s k
  pub same_allocations : (k d : Cidr) → v.allocated s' k d ≡ v.allocated s k d

-- Expired leases are gone; their addresses are free in every known subnet that contains them, and
-- no other address is touched.
pub record Purges {S : Type 0} (v : StoreView S) (t : ℤ) (s s' : S) : Type 0 where
  pub inv : v.Inv s'
  pub keeps_live :
      (k : ℕ) (l : Lease) → v.leased s k ≡ some l → expired l t ≡ false → v.leased s' k ≡ some l
  pub only_live :
      (k : ℕ) (l : Lease) → v.leased s' k ≡ some l → (v.leased s k ≡ some l) × (expired l t ≡ false)
  pub same_subnets : (k : Cidr) → v.registered s' k ≡ v.registered s k
  pub same_known : (k : Cidr) → v.known s' k ≡ v.known s k
  pub keeps :
      (sub c : Cidr)
      → ((k : ℕ) (l : Lease)
          → v.leased s k ≡ some l
          → expired l t ≡ true
          → frees (restored sub) c l.ips ≡ false)
      → v.allocated s' sub c ≡ v.allocated s sub c
  pub frees_expired :
      (sub c : Cidr) (k : ℕ) (l : Lease)
      → v.known s sub ≡ true
      → v.leased s k ≡ some l
      → expired l t ≡ true
      → frees (restored sub) c l.ips ≡ true
      → v.allocated s' sub c ≡ false

-- The laws of a Store, for an operation on a state that satisfies the invariant.
pub record StoreLaws {S : Type 0} (st : Store S) (v : StoreView S) : Type 0 where
  pub stored_lem : (l : Lease) → v.Storable l → SameLease l (v.stored l)
  pub lease_lem :
      (key : ℕ) (s : S) → v.Inv s → v.IsKey key → st.lease key s ≡ (ok (v.leased s key), s)
  pub save_lease_lem :
      (key : ℕ) (l : Lease) (s : S)
      → v.Inv s
      → v.IsKey key
      → v.Storable l
      → (s' : S) × (st.save_lease key l s ≡ (ok tt, s')) × Saves v key (some (v.stored l)) s s'
  pub delete_lease_lem :
      (key : ℕ) (s : S)
      → v.Inv s
      → v.IsKey key
      → (s' : S) × (st.delete_lease key s ≡ (ok tt, s')) × Saves v key none s s'
  pub save_subnet_lem :
      (sub : IpNet) (s : S)
      → v.Inv s
      → IsNet sub
      → (s' : S) × (st.save_subnet sub s ≡ (ok tt, s')) × Registers v (string sub) s s'
  pub allocate_free :
      (sub ip : IpNet) (s : S)
      → v.Inv s
      → IsNet sub
      → IsNet ip
      → v.registered s (string sub) ≡ true
      → contains sub ip.ip ≡ true
      → v.allocated s (string sub) (string ip) ≡ false
      → (s' : S) × (st.allocate_ip sub ip s ≡ (ok true, s'))
        × Sets v (string sub) (string ip) true s s'
  pub allocate_taken :
      (sub ip : IpNet) (s : S)
      → v.Inv s
      → v.registered s (string sub) ≡ true
      → contains sub ip.ip ≡ true
      → v.allocated s (string sub) (string ip) ≡ true
      → st.allocate_ip sub ip s ≡ (ok false, s)
  pub free_lem :
      (sub ip : IpNet) (s : S)
      → v.Inv s
      → v.registered s (string sub) ≡ true
      → contains sub ip.ip ≡ true
      → (s' : S) × (st.free_ip sub ip s ≡ (ok tt, s')) × Sets v (string sub) (string ip) false s s'
  pub purge_lem :
      (t : ℤ) (s : S)
      → v.Inv s
      → (ps : PurgeStats) × (s' : S) × (st.purge t s ≡ (ok ps, s')) × Purges v t s s'
  -- The statistics count, for a known subnet, the addresses in it that the expired ones of the
  -- listed leases hold.
  pub purge_counts :
      (t : ℤ) (s s' : S) (ps : PurgeStats) (ls : List Lease) (c : Cidr)
      → v.Inv s
      → (st.leases s).0 ≡ ok ls
      → st.purge t s ≡ (ok ps, s')
      → v.known s c ≡ true
      → freed_from c ps ≡ expired_in t (restored c) ls
