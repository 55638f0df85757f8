-- ===== src/Store/Memory/Valid.antt =====
-- The invariant of memoryStore (store.go), and that every operation keeps it.
use wgipam.Base.{
  ℕ, ◌≡◌, refl, Bool, true, false, none, List, [], ◌∷◌, All, arith, nat_eq, ◌∙◌, if◌then◌else◌,
}
use wgipam.Base.Int.{ℤ}
use wgipam.Base.Map.{
  Map, IsMap, Distinct, lookup, insert, discard, insert-IsMap, erase-IsMap, All-lookup, All-insert,
  discard-Distinct,
}
use wgipam.Base.Result.{ok}
use wgipam.Net.{IpNet, Cidr, cidr_eq, IsCidr, IsNet, string, contains}
use wgipam.Net.Laws.{
  address, restored, parse_cidr-eq, string-restored, contains-address, contains-of-string,
}
use wgipam.Lease.{Lease}
use wgipam.Store.{tally}
use wgipam.Store.Memory.Cases.{allocate_ip_cases, free_ip_cases}
use wgipam.Store.Memory.{
  Memory, memory_store, save_lease, delete_lease, sweep_leases, free_within, sweep_subnets, purge,
  save_subnet, allocate_ip, free_ip,
}

-- A subnet's set: well-formed texts, none of them twice, all of addresses inside the subnet.
abbrev pub IsMember : Cidr → Cidr → Type 0
IsMember sub c = IsCidr c × (contains (restored sub) (address c) ≡ true)

abbrev pub IsEntry : Cidr × List Cidr → Type 0
IsEntry (sub, ips) = IsCidr sub × Distinct ips × All (IsMember sub) ips

pub record IsValid (s : Memory) : Type 0 where
  pub leases : IsMap s.leases
  pub subnets : IsMap s.subnets
  pub entries : All IsEntry s.subnets

pub memory_store-IsValid : IsValid memory_store
memory_store-IsValid = record { leases = tt; subnets = tt; entries = tt }

pub save_lease-IsValid :
    (key : ℕ) (l : Lease) (s : Memory) → IsValid s → IsValid (save_lease key l s).1
unfolding save_lease
save_lease-IsValid key l s v = record {
  leases = insert-IsMap key l s.leases v.leases;
  subnets = v.subnets;
  entries = v.entries;
}

pub delete_lease-IsValid : (key : ℕ) (s : Memory) → IsValid s → IsValid (delete_lease key s).1
unfolding delete_lease
delete_lease-IsValid key s v = record {
  leases = erase-IsMap key s.leases v.leases;
  subnets = v.subnets;
  entries = v.entries;
}

-- The subnets after one set is replaced.
insert-entries :
    (sub : Cidr) (ips : List Cidr) (s : Memory)
    → IsValid s
    → IsEntry (sub, ips)
    → IsValid (record s { subnets = insert sub ips s.subnets })
insert-entries sub ips s v h = record {
  leases = v.leases;
  subnets = insert-IsMap sub ips s.subnets v.subnets;
  entries = All-insert IsEntry sub ips s.subnets v.entries h;
}

pub save_subnet-IsValid :
    (sub : IpNet) (s : Memory) → IsNet sub → IsValid s → IsValid (save_subnet sub s).1
unfolding save_subnet
save_subnet-IsValid sub s h v = insert-entries (string sub) [] s v (h, tt, tt)

-- A network and its text contain the same addresses, in either form.
pub contains-restored :
    (sub ip : IpNet)
    → IsNet sub
    → IsNet ip
    → contains (restored (string sub)) (address (string ip)) ≡ contains sub ip.ip
contains-restored sub ip hs hi =
    contains-of-string (restored (string sub)) sub _ (string-restored (string sub) hs)
    ∙ contains-address sub ip hi

-- AllocateIP, for a well-formed subnet and address and whatever its outcome, keeps a store valid:
-- every set holds well-formed addresses of its subnet, each once.
pub allocate_ip-IsValid :
    (sub ip : IpNet) (s : Memory)
    → IsNet sub
    → IsNet ip
    → IsValid s
    → IsValid (allocate_ip sub ip s).1
allocate_ip-IsValid sub ip s hs hi v =
    allocate_ip_cases sub ip s (λ r. IsValid r.1) (λ _. v) (λ _ _. v) (λ _ _ _ _. v)
      λ ips within e new.
        let (ok_sub, distinct, members) =
          All-lookup IsEntry (string sub) ips s.subnets v.entries e in
        insert-entries (string sub) (string ip ∷ ips) s v
          (ok_sub, (new, distinct), ((hi, contains-restored sub ip hs hi ∙ within), members))

discard-All : (P : Cidr → Type 0) (k : Cidr) (cs : List Cidr) → All P cs → All P (discard k cs)
discard-All P k [] h = tt
discard-All P k (c ∷ cs) h = ground (arith, discard-All P k cs h.1)

pub free_ip-IsValid : (sub ip : IpNet) (s : Memory) → IsValid s → IsValid (free_ip sub ip s).1
free_ip-IsValid sub ip s v =
    free_ip_cases sub ip s (λ r. IsValid r.1) (λ _. v) (λ _ _. v)
      λ ips within e.
        let (ok_sub, distinct, members) =
          All-lookup IsEntry (string sub) ips s.subnets v.entries e in
        insert-entries (string sub) (discard (string ip) ips) s v (
          ok_sub,
          discard-Distinct (string ip) ips distinct,
          discard-All (IsMember (string sub)) (string ip) ips members,
        )

-- Purge keeps the leases that are not expired, and so the keys that there were.
lookup-sweep_none :
    (t : ℤ) (k : ℕ) (ls : Map ℕ Lease) → lookup k ls ≡ none → lookup k (sweep_leases t ls).0 ≡ none
unfolding sweep_leases
lookup-sweep_none t k [] h = refl
lookup-sweep_none t k ((j, l) ∷ ls) h = ground (arith, lookup-sweep_none t k ls)

sweep_leases-IsMap : (t : ℤ) (ls : Map ℕ Lease) → IsMap ls → IsMap (sweep_leases t ls).0
unfolding sweep_leases
sweep_leases-IsMap t [] h = tt
sweep_leases-IsMap t ((j, l) ∷ ls) h =
    ground (arith, lookup-sweep_none t j ls, sweep_leases-IsMap t ls h.1)

-- One freed address: it leaves the set, or lies outside the subnet.
discard_if-IsEntry :
    (sub k : Cidr) (ips : List Cidr) (b : Bool)
    → IsEntry (sub, ips)
    → IsEntry (sub, if b then discard k ips else ips)
discard_if-IsEntry sub k ips true h =
    (h.0, discard-Distinct k ips h.1, discard-All (IsMember sub) k ips h.2)
discard_if-IsEntry sub k ips false h = h

free_within-IsEntry :
    (sub : Cidr) (cidr : IpNet) (freed : List IpNet) (ips : List Cidr) (n : ℕ)
    → IsEntry (sub, ips)
    → IsEntry (sub, (free_within cidr freed ips n).0)
unfolding free_within
free_within-IsEntry sub cidr [] ips n h = h
free_within-IsEntry sub cidr (f ∷ freed) ips n h =
    free_within-IsEntry sub cidr freed _ _
      (discard_if-IsEntry sub (string f) ips (contains cidr f.ip) h)

-- What the loop over the subnets comes to when every text parses.
abbrev pub cleared : List IpNet → Map Cidr (List Cidr) → Map Cidr (List Cidr)
cleared freed [] = []
cleared freed ((sub, ips) ∷ m) = (sub, (free_within (restored sub) freed ips 0).0) ∷ cleared freed m

abbrev pub stats : List IpNet → Map Cidr (List Cidr) → Map Cidr ℕ
stats freed [] = []
stats freed ((sub, ips) ∷ m) = tally sub (free_within (restored sub) freed ips 0).1 (stats freed m)

pub sweep_subnets_lem :
    (freed : List IpNet) (m : Map Cidr (List Cidr))
    → All IsEntry m
    → sweep_subnets freed m ≡ (ok (stats freed m), cleared freed m)
unfolding sweep_subnets
sweep_subnets_lem freed [] h = refl
sweep_subnets_lem freed ((sub, ips) ∷ m) h =
    ground (arith, parse_cidr-eq sub h.0.0, sweep_subnets_lem freed m h.1)

lookup-cleared :
    (freed : List IpNet) (k : Cidr) (m : Map Cidr (List Cidr))
    → lookup k m ≡ none
    → lookup k (cleared freed m) ≡ none
lookup-cleared freed k [] h = refl
lookup-cleared freed k ((j, ips) ∷ m) h = ground (arith, lookup-cleared freed k m)

cleared-IsMap : (freed : List IpNet) (m : Map Cidr (List Cidr)) → IsMap m → IsMap (cleared freed m)
cleared-IsMap freed [] h = tt
cleared-IsMap freed ((k, ips) ∷ m) h = (lookup-cleared freed k m h.0, cleared-IsMap freed m h.1)

cleared-All :
    (freed : List IpNet) (m : Map Cidr (List Cidr)) → All IsEntry m → All IsEntry (cleared freed m)
cleared-All freed [] h = tt
cleared-All freed ((k, ips) ∷ m) h =
    (free_within-IsEntry k (restored k) freed ips 0 h.0, cleared-All freed m h.1)

pub purge_lem :
    (t : ℤ) (s : Memory)
    → IsValid s
    → purge t s ≡ (
      ok (stats (sweep_leases t s.leases).1 s.subnets),
      record {
        leases = (sweep_leases t s.leases).0;
        subnets = cleared (sweep_leases t s.leases).1 s.subnets;
      },
    )
unfolding purge
purge_lem t s v = rw (sweep_subnets_lem (sweep_leases t s.leases).1 s.subnets v.entries)

-- A purge keeps a store valid: keys stay unique, and every set holds well-formed addresses of its
-- subnet, each once.
pub purge-IsValid : (t : ℤ) (s : Memory) → IsValid s → IsValid (purge t s).1
purge-IsValid t s v = rw (purge_lem t s v) (record {
  leases = sweep_leases-IsMap t s.leases v.leases;
  subnets = cleared-IsMap _ s.subnets v.subnets;
  entries = cleared-All _ s.subnets v.entries;
})
