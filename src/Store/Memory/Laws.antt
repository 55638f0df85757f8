-- ===== src/Store/Memory/Laws.antt =====
-- memoryStore (store.go) keeps the contract of a Store.
use wgipam.Base.{
  ℕ, ◌≡◌, refl, Bool, true, false, Option, none, some, List, [], ◌∷◌, arith, nat_eq, ◌∙◌, sym,
  subst,
}
use wgipam.Base.Int.{ℤ}
use wgipam.Base.Map.{
  Map, IsMap, lookup, insert, member, discard, lookup-insert, lookup-erase, beq_refl,
}
use wgipam.Base.Sets.{has, holds, has-insert, has-insert_new, holds-add, holds-discard}
use wgipam.Base.Result.{Result, ok}
use wgipam.Net.{IpNet, Cidr, cidr_eq, IsNet, string, contains}
use wgipam.Net.Laws.{restored}
use wgipam.Lease.{Lease, expired}
use wgipam.Store.{Store}
use wgipam.Store.Contract.{
  StoreView, StoreLaws, Sets, Registers, Saves, Purges, frees, frees-append,
}
use wgipam.Store.Memory.{
  Memory, leases as list_leases, lease, save_lease, delete_lease, save_subnet, allocated_ips, close,
  subnets as list_subnets, sweep_leases, allocate_ip, free_ip, purge,
}
use wgipam.Store.Memory.Valid.{
  IsValid, save_subnet-IsValid, save_lease-IsValid, delete_lease-IsValid, allocate_ip-IsValid,
  free_ip-IsValid, purge-IsValid, purge_lem, stats, cleared,
}
use wgipam.Store.Memory.Counts.{purge_counts}
use wgipam.Store.Memory.Purge.{lookup-purge, holds-cleared, frees-sweep_all, unexpired, freed_ips}

-- memoryStore as a Store
abbrev pub memory_ops : Store Memory
memory_ops = record {
  lease_store = record {
    leases = list_leases;
    lease = lease;
    save_lease = save_lease;
    delete_lease = delete_lease;
  };
  ip_store = record {
    subnets = list_subnets;
    save_subnet = save_subnet;
    allocated_ips = allocated_ips;
    allocate_ip = allocate_ip;
    free_ip = free_ip;
  };
  close = close;
  purge = purge;
}

-- What clients see of it
abbrev pub memory_view : StoreView Memory
memory_view = record {
  Inv = IsValid;
  IsKey = λ k. Unit;
  Storable = λ l. Unit;
  stored = λ l. l;
  leased = λ s k. lookup k s.leases;
  registered = λ s k. has k s.subnets;
  known = λ s k. has k s.subnets;
  allocated = λ s k c. holds k c s.subnets;
}

save_lem :
    (key : ℕ) (l : Lease) (s : Memory)
    → IsValid s
    → Saves memory_view key (some l) s (save_lease key l s).1
unfolding save_lease
save_lem key l s v = record {
  inv = save_lease-IsValid key l s v;
  saves = λ k. lookup-insert key k l s.leases;
  same_subnets = λ k. refl;
  same_known = λ k. refl;
  same_allocations = λ k d. refl;
}

delete_lem :
    (key : ℕ) (s : Memory) → IsValid s → Saves memory_view key none s (delete_lease key s).1
unfolding delete_lease
delete_lem key s v = record {
  inv = delete_lease-IsValid key s v;
  saves = λ k. lookup-erase key k s.leases;
  same_subnets = λ k. refl;
  same_known = λ k. refl;
  same_allocations = λ k d. refl;
}

register_lem :
    (sub : IpNet) (s : Memory)
    → IsValid s
    → IsNet sub
    → Registers memory_view (string sub) s (save_subnet sub s).1
unfolding save_subnet
register_lem sub s v valid = record {
  inv = save_subnet-IsValid sub s valid v;
  same_leases = λ k. refl;
  registers = λ k. has-insert_new (string sub) k [] s.subnets;
  knows = λ k. has-insert_new (string sub) k [] s.subnets;
  others = λ k d other. ground (arith, lookup-insert (string sub) k [] s.subnets, other);
  no_more = λ d h.
      ground
        (arith, lookup-insert (string sub) (string sub) [] s.subnets, beq_refl (string sub), h);
}

-- A subnet that exists has a set.
set_of :
    (k : Cidr) (s : Memory)
    → has k s.subnets ≡ true
    → (ips : List Cidr) × (lookup k s.subnets ≡ some ips)
set_of k s h = ground arith

module _ (sub ip : IpNet) (s : Memory) (inside : contains sub ip.ip ≡ true) (ips : List Cidr)
    (e : lookup (string sub) s.subnets ≡ some ips) where
  pub allocate_ip_new :
      member (string ip) ips ≡ false
      → allocate_ip sub ip s
        ≡ (ok true, record s { subnets = insert (string sub) (string ip ∷ ips) s.subnets })
  unfolding allocate_ip
  allocate_ip_new m = rw (inside, allocate_ip, e, m)

  pub allocate_ip_old : member (string ip) ips ≡ true → allocate_ip sub ip s ≡ (ok false, s)
  unfolding allocate_ip
  allocate_ip_old m = rw (inside, allocate_ip, e, m)

  pub free_ip_lem :
      free_ip sub ip s
      ≡ (ok tt, record s { subnets = insert (string sub) (discard (string ip) ips) s.subnets })
  unfolding free_ip
  free_ip_lem = rw (inside, free_ip, e)

module _ (sub ip : IpNet) (s : Memory) (v : IsValid s) (exists : has (string sub) s.subnets ≡ true)
    (inside : contains sub ip.ip ≡ true) where
  member_of :
      (ips : List Cidr) (b : Bool)
      → lookup (string sub) s.subnets ≡ some ips
      → holds (string sub) (string ip) s.subnets ≡ b
      → member (string ip) ips ≡ b
  member_of ips b e h = rw (e, holds) at h

  allocate_taken_lem :
      holds (string sub) (string ip) s.subnets ≡ true → allocate_ip sub ip s ≡ (ok false, s)
  allocate_taken_lem h =
      let (ips, e) = set_of (string sub) s exists in
      allocate_ip_old sub ip s inside ips e (member_of ips true e h)

  allocate_free_lem :
      IsNet sub
      → IsNet ip
      → holds (string sub) (string ip) s.subnets ≡ false
      → (s' : Memory) × (allocate_ip sub ip s ≡ (ok true, s'))
        × Sets memory_view (string sub) (string ip) true s s'
  allocate_free_lem hs hi h =
      let (ips, e) = set_of (string sub) s exists in
      let done = allocate_ip_new sub ip s inside ips e (member_of ips false e h) in
      (
        record s { subnets = insert (string sub) (string ip ∷ ips) s.subnets },
        done,
        record {
          inv =
              subst (λ (r : Result Bool × Memory). IsValid r.1) done
                (allocate_ip-IsValid sub ip s hs hi v);
          same_leases = λ k. refl;
          same_subnets = λ k. has-insert (string sub) k ips _ s.subnets e;
          same_known = λ k. has-insert (string sub) k ips _ s.subnets e;
          sets = λ k d. holds-add (string sub) ips s.subnets e (string ip) k d;
        },
      )

  free_lem :
      (s' : Memory) × (free_ip sub ip s ≡ (ok tt, s'))
      × Sets memory_view (string sub) (string ip) false s s'
  free_lem =
      let (ips, e) = set_of (string sub) s exists in
      let done = free_ip_lem sub ip s inside ips e in
      (
        record s { subnets = insert (string sub) (discard (string ip) ips) s.subnets },
        done,
        record {
          inv = subst (λ (r : Result Unit × Memory). IsValid r.1) done (free_ip-IsValid sub ip s v);
          same_leases = λ k. refl;
          same_subnets = λ k. has-insert (string sub) k ips _ s.subnets e;
          same_known = λ k. has-insert (string sub) k ips _ s.subnets e;
          sets = λ k d. holds-discard (string sub) ips s.subnets e (string ip) k d;
        },
      )

-- Purge

unexpired-eq_some :
    (t : ℤ) (o : Option Lease) (l : Lease)
    → unexpired t o ≡ some l
    → (o ≡ some l) × (expired l t ≡ false)
unexpired-eq_some t none l h = cc
unexpired-eq_some t (some m) l h = ground arith

-- An address that the expired leases do not hold is not among the freed ones.
frees-sweep :
    (t : ℤ) (n : IpNet) (c : Cidr) (ls : Map ℕ Lease)
    → IsMap ls
    → ((k : ℕ) (l : Lease) → lookup k ls ≡ some l → expired l t ≡ true → frees n c l.ips ≡ false)
    → frees n c (sweep_leases t ls).1 ≡ false
unfolding sweep_leases
frees-sweep t n c [] m h = refl
frees-sweep t n c ((k, l) ∷ ls) m h =
    let rest = frees-sweep t n c ls m.1 (λ j x e. h j x (ground (arith, e, m.0))) in
    ground (arith, rest, h k l, beq_refl k, frees-append n c l.ips (sweep_leases t ls).1)

has-cleared :
    (freed : List IpNet) (k : Cidr) (m : Map Cidr (List Cidr)) → has k (cleared freed m) ≡ has k m
has-cleared freed k [] = refl
has-cleared freed k ((j, ips) ∷ m) = ground (arith, has-cleared freed k m)

purge-Purges : (t : ℤ) (s : Memory) → IsValid s → Purges memory_view t s (purge t s).1
purge-Purges t s v = record {
  inv = purge-IsValid t s v;
  keeps_live = λ k l e live. rw (lookup-purge t k s v) (ground (arith, e, live));
  only_live = λ k l e. unexpired-eq_some t (lookup k s.leases) l (sym (lookup-purge t k s v) ∙ e);
  same_subnets = λ k. rw (purge_lem t s v) (has-cleared (freed_ips t s) k s.subnets);
  same_known = λ k. rw (purge_lem t s v) (has-cleared (freed_ips t s) k s.subnets);
  keeps = λ sub c h.
      rw (holds-cleared t sub c s v) (rw (frees-sweep t (restored sub) c s.leases v.leases h));
  frees_expired = λ sub c k l known e gone held.
      rw (holds-cleared t sub c s v)
        (rw (frees-sweep_all t (restored sub) c s.leases (k, l, e, gone, held)) refl);
}

-- memoryStore keeps every law of the contract of a Store: what each lookup, save, deletion,
-- allocation, release and purge returns and changes, for clients that see only its leases, subnets
-- and allocated addresses. The statistics of a purge count, for each subnet that exists, the
-- addresses in it that the expired leases hold.
pub memory-StoreLaws : StoreLaws memory_ops memory_view
unfolding lease save_lease delete_lease save_subnet
memory-StoreLaws = record {
  stored_lem =
      λ l h. record { same_start = refl; same_length = refl; same_nets = refl; same_texts = refl };
  lease_lem = λ key s v h. refl;
  save_lease_lem = λ key l s v h h'. (_, refl, save_lem key l s v);
  delete_lease_lem = λ key s v h. (_, refl, delete_lem key s v);
  save_subnet_lem = λ sub s v valid. (_, refl, register_lem sub s v valid);
  allocate_free = λ sub ip s v hs hi e i h. allocate_free_lem sub ip s v e i hs hi h;
  allocate_taken = λ sub ip s v e i h. allocate_taken_lem sub ip s v e i h;
  free_lem = λ sub ip s v e i. free_lem sub ip s v e i;
  purge_lem = λ t s v.
      (stats (freed_ips t s) s.subnets, (purge t s).1, rw (purge_lem t s v), purge-Purges t s v);
  purge_counts = λ t s s' ps ls c v e e' there. purge_counts t s s' ps ls c v e e' there;
}
