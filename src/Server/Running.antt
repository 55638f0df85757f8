-- ===== src/Server/Running.antt =====
-- The invariant of an interface (internal/wgipamd/server.go), and how what an allocator grants and
-- what a request saves keep it.
use wgipam.Base.{
  ℕ, ◌≡◌, ◌≢◌, refl, Bool, true, false, Option, some, List, [], ◌∷◌, All, All-map, arith, ◌==◌,
  nat_eq, ◌∙◌, sym, ap, subst, subst₂, ◌||◌, ◌&&◌,
}
use wgipam.Base.Int.{ℤ}
use wgipam.Base.Map.{beq_refl}
use wgipam.Base.Result.{Result, M, pure, ◌>>◌, >>=-keeps}
use wgipam.Net.{IsNet, IpNet, Cidr, cidr_eq, string, contains}
use wgipam.Net.Laws.{address, contains-address}
use wgipam.Lease.{Lease}
use wgipam.Store.{Store, LeaseStore}
use wgipam.Store.Contract.{StoreView, StoreLaws}
use wgipam.IpAllocator.{IpAddr, IpAllocator}
use wgipam.IpAllocator.Multi.{Multi}
use wgipam.IpAllocator.Cursor.{CursorLaws}
use wgipam.IpAllocator.Grants.{Grant, IsFresh, Gains, ips_of, granted}
use wgipam.IpAllocator.Multi.Each.{AllServing}
use wgipam.IpAllocator.Multi.Allocate.{NoOverlap, Allocates}
use wgipam.Handler.{RequestIp, time_now}
use wgipam.Server.{State, leases, allocator}
use wgipam.Server.Sound.{
  Apart, IsBacked, IsSound, IsSound-keeps, IsSound-save, IsBacked-texts, Apart-texts,
}

module _ (pkg : IpAddr) (laws : CursorLaws pkg) {S : Type 0} (st : Store S) (v : StoreView S)
    (contract : StoreLaws st v) (Served : IpNet → Type 0) (apart : NoOverlap Served)
    (lease_duration : ℤ) where
  -- An interface that runs: its allocators are set up, and its store is sound.
  pub record IsRunning (w : State pkg st lease_duration) : Type 0 where
    pub serving : AllServing pkg laws st v contract Served w.0
    pub sound : IsSound v Served w.1

  granted-in : (gs : List Grant) → All (λ g. granted (string g.0) (string g.1) gs ≡ true) gs
  granted-in [] = tt
  granted-in (g ∷ gs) = (
    ground (arith, beq_refl (string g.0), beq_refl (string g.1)),
    All-map gs (λ h e. rw e (or-true (string g.0 == string h.0 && string g.1 == string h.1)))
        (granted-in gs),
  )
    where
      or-true : (b : Bool) → (b || true) ≡ true
      or-true true = refl
      or-true false = refl

  -- What was granted is backed.
  gained-IsBacked :
      (σ σ' : S) (gs : List Grant) → Gains v Served σ σ' gs → All (IsBacked v Served σ') (ips_of gs)
  gained-IsBacked σ σ' gs h = each gs h.fresh (granted-in gs)
    where
      each :
          (xs : List Grant)
          → All (IsFresh v Served σ) xs
          → All (λ g. granted (string g.0) (string g.1) gs ≡ true) xs
          → All (IsBacked v Served σ') (ips_of xs)
      each [] f a = tt
      each ((n, ip) ∷ xs) ((s, valid, inside, free), fs) (a, as_) =
          ((n, s, valid, inside, h.exact (string n) (string ip) ∙ rw a refl), each xs fs as_)

  -- What was free is in no lease.
  fresh-Apart :
      (σ : S) (gs : List Grant) (ips : List IpNet)
      → All (IsFresh v Served σ) gs
      → All (IsBacked v Served σ) ips
      → Apart (ips_of gs) ips
  fresh-Apart σ [] ips f b = tt
  fresh-Apart σ (g ∷ gs) ips (f, fs) b =
      (All-map ips (λ y. other g y f) b, fresh-Apart σ gs ips fs b)
    where
      other :
          (g : Grant) (y : IpNet)
          → IsFresh v Served σ g
          → IsBacked v Served σ y
          → string g.1 ≢ string y
      other (n, x) y (s, valid, inside, free) (n', s', valid', inside', taken) e =
          let also : contains n' x.ip ≡ true =
            sym (contains-address n' x valid)
            ∙ ap (λ (c : Cidr). contains n' (address c)) e
            ∙ contains-address n' y valid'
            ∙ inside' in
          let same : string n ≡ string n' = apart n n' x.ip s s' inside also in
          cc (subst₂ (λ (a c : Cidr). v.allocated σ a c ≡ false) same e free)

  abbrev pub W : Type 0
  W = State pkg st lease_duration

  abbrev pub ls : LeaseStore W
  ls = leases pkg st lease_duration

  abbrev pub al : IpAllocator W
  al = allocator pkg st lease_duration

  -- At this time the Store can save a lease of any addresses.
  abbrev pub IsTimely : ℕ → Type 0
  IsTimely stamp =
      (ips : List IpNet)
      → All IsNet ips
      → v.Storable (record { ips = ips; start = time_now stamp; length = lease_duration })

  -- A lease is saved, of addresses that are backed and in no other lease.
  save_backed :
      (key : ℕ) (l : Lease) (m : Multi pkg) (σ : S)
      → v.IsKey key
      → v.Storable l
      → AllServing pkg laws st v contract Served m
      → IsSound v Served σ
      → All (IsBacked v Served σ) l.ips
      → ((k : ℕ) (m' : Lease) → key ≢ k → v.leased σ k ≡ some m' → Apart l.ips m'.ips)
      → IsRunning (ls.save_lease key l (m, σ)).1
  save_backed key l m σ is_key storable a h b others =
      let (σ', saved, s) = contract.save_lease_lem key l σ h.good.inv is_key storable in
      let texts = (contract.stored_lem l storable).same_texts in
      rw saved (record {
        serving = a;
        sound =
            IsSound-save v Served key (v.stored l) σ σ' h s
              (IsBacked-texts v Served σ (v.stored l).ips l.ips texts b)
              (λ k m' ne found.
                Apart-texts (v.stored l).ips l.ips m'.ips texts (others k m' ne found));
      })

  -- A lease of addresses just granted
  pub save_new :
      (key : ℕ) (l : Lease) (gs : List Grant) (m : Multi pkg) (σ σ' : S)
      → v.IsKey key
      → v.Storable l
      → IsSound v Served σ
      → AllServing pkg laws st v contract Served m
      → Gains v Served σ σ' gs
      → ((k d : Cidr) → v.allocated σ k d ≡ true → v.allocated σ' k d ≡ true)
      → l.ips ≡ ips_of gs
      → IsRunning (ls.save_lease key l (m, σ')).1
  save_new key l gs m σ σ' is_key storable h a g keeps e =
      save_backed key l m σ' is_key storable a
        (IsSound-keeps v Served σ σ' h g.good g.same_leases keeps)
        (rw e (gained-IsBacked σ σ' gs g))
        (λ k m' ne found.
          rw e (fresh-Apart σ gs m'.ips g.fresh (h.backed k m' (sym (g.same_leases k) ∙ found))))

  -- What a call of Allocate leaves runs.
  pub Allocates-IsRunning :
      (σ : S) (r : Result (Option (List IpNet)) × W)
      → IsSound v Served σ
      → Allocates pkg laws st v contract Served apart σ r
      → IsRunning r.1
  Allocates-IsRunning σ r h a = record {
    serving = a.serving;
    sound = IsSound-keeps v Served σ r.1.1 h a.good a.same_leases a.keeps;
  }

  pub saved-IsRunning :
      (call : M W Unit) (reply : RequestIp) (w : W)
      → IsRunning (call w).1
      → IsRunning ((call >> pure reply) w).1
  saved-IsRunning call reply w h =
      >>=-keeps IsRunning call (λ _. pure reply) w h
        (λ u s e. subst (λ (x : Result Unit × W). IsRunning x.1) e h)

  -- A lease that keeps its addresses
  pub save_old :
      (key : ℕ) (l l' : Lease) (m : Multi pkg) (σ : S)
      → v.IsKey key
      → v.Storable l'
      → IsRunning (m, σ)
      → v.leased σ key ≡ some l
      → l'.ips ≡ l.ips
      → IsRunning (ls.save_lease key l' (m, σ)).1
  save_old key l l' m σ is_key storable h found e =
      save_backed key l' m σ is_key storable h.serving h.sound (rw e (h.sound.backed key l found))
        (λ k m' ne e'. rw e (h.sound.apart key k l m' ne found e'))
