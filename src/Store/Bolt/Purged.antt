-- ===== src/Store/Bolt/Purged.antt =====
-- boltStore.Purge (store.go) on a database that keeps its laws.
use wgipam.Base.{
  ℕ, ltb, ◌^◌, ◌<◌, ◌≡◌, refl, Bool, true, false, Option, none, some, List, All-map, arith, ◌==◌,
  if◌then◌else◌, Bool-cases, Option-cases, inl, inr, ◌∙◌, sym, ap,
}
use wgipam.Base.Int.{ℤ}
use wgipam.Base.Map.{lookup}
use wgipam.Base.Result.{ok, ok-injective}
use wgipam.Net.{Cidr, cidr_eq, cidr_beq_iff, string}
use wgipam.Net.Laws.{restored}
use wgipam.Lease.{Lease, expired}
use wgipam.Store.{PurgeStats}
use wgipam.Store.Contract.{Purges, frees, held_in, expired_in, freed_from}
use wgipam.Store.Bolt.{
  Key, text, Bucket, bucket_leases, bucket_subnets, bucket_of, Bbolt, key_bytes, Bolt, purge_in,
  purge, leases,
}
use wgipam.Store.Bolt.Buckets.{is_some, key_eq, bucket_eq, BboltLaws}
use wgipam.Store.Bolt.Expired.{is_expired, Finds, find_expired-Finds, Deletes, delete_all-Deletes}
use wgipam.Store.Bolt.Cleared.{Clears, hits_any, is_saved, free_subnets-Clears}
use wgipam.Store.Bolt.Freed.{hits_any-frees, hits_any-known, known-is_saved}
use wgipam.Store.Bolt.Saved.{IsIntact, lease_of, bolt_view, update-ok}

module _ (db : Bbolt) (laws : BboltLaws db) where
  open db use {Db, Value, exists, get, delete, entries, unmarshal}

  abbrev seen : Bool → Option Value → Option Lease
  seen small o = if small then lease_of db laws o else none

  -- A lease that is not expired is still seen, and no other one is.
  after_live :
      (t : ℤ) (small : Bool) (o : Option Value) (l : Lease)
      → seen small o ≡ some l
      → expired l t ≡ false
      → seen small (if is_expired db laws t o then none else o) ≡ some l
  after_live t false o l e live = absurd (ground (arith, e))
  after_live t true o l e live =
      let here : lease_of db laws o ≡ some l = e in ground (arith, here, live)

  after_only :
      (t : ℤ) (small : Bool) (o : Option Value) (l : Lease)
      → seen small (if is_expired db laws t o then none else o) ≡ some l
      → (seen small o ≡ some l) × (expired l t ≡ false)
  after_only t false o l e = absurd (ground (arith, e))
  after_only t true o l e = elim (Option-cases (lease_of db laws o)) [
    | inl none_ ↦ absurd (ground (arith, none_, e))
    | inr (l', some_) ↦ elim (Bool-cases (expired l' t)) [
      | inl gone ↦ absurd (ground (arith, some_, gone, e))
      | inr live ↦ ground (arith, some_, live, e)
    ]
  ]

  module _ (t : ℤ) (s : Bolt db) (i : IsIntact db laws s) where
    open i use {fine, has_leases, has_subnets, readable, keyed, opened, nets, ips}

    abbrev visited : List (Key × Value)
    visited = entries bucket_leases s.file

    lookup-visited : (k : Key) → lookup k visited ≡ get bucket_leases k s.file
    lookup-visited = (laws.entries_lem bucket_leases s.file fine tt has_leases).1

    found : Finds db laws t visited
    found =
        find_expired-Finds db laws t visited
          (laws.entries_lem bucket_leases s.file fine tt has_leases).0
          (λ k x e. readable k x (sym (lookup-visited k) ∙ e))

    seen_lem :
        (j : ℕ) (k : Key) (x : Value) (l : Lease)
        → j < 2 ^ 64
        → key_bytes j ≡ k
        → get bucket_leases k s.file ≡ some x
        → unmarshal x ≡ ok l
        → seen (ltb j (2 ^ 64)) (get bucket_leases (key_bytes j) s.file) ≡ some l
    seen_lem j k x l small same e e' = ground (arith, small, same, e, e')

    -- A lease that is seen is a value that is read back as it.
    seen_value :
        (small : Bool) (k : Key) (l : Lease)
        → seen small (get bucket_leases k s.file) ≡ some l
        → (x : Value) × (get bucket_leases k s.file ≡ some x) × (unmarshal x ≡ ok l)
    seen_value small k l e = elim (Option-cases (get bucket_leases k s.file)) [
      | inl none_ ↦ absurd (ground (arith, e, none_))
      | inr (x, there) ↦
          let (m, e') = readable k x there in (x, there, ground (arith, e, there, e'))
    ]

    module _ (d₁ d₂ : Db) (a : Deletes db laws found.ks s.file d₁)
        (b : Clears db laws (hits_any db laws s.subnets found.freed) d₁ d₂) where
      -- The leases that are not expired stay.
      leases_after :
          (k : Key)
          → get bucket_leases k d₂ ≡ (
              if is_expired db laws t (get bucket_leases k s.file)
              then none
              else get bucket_leases k s.file)
      leases_after k =
          b.same_leases k
          ∙ a.gone k
          ∙ ap (λ (x : Bool). if x then none else get bucket_leases k s.file)
              (found.keys k ∙ ap (is_expired db laws t) (lookup-visited k))

      same_buckets_after : (c : Bucket) → exists c d₂ ≡ exists c s.file
      same_buckets_after c = b.same_buckets c ∙ a.same_buckets c

      purged-IsIntact : IsIntact db laws (record s { file = d₂ })
      purged-IsIntact = record {
        fine = b.fine;
        has_leases = same_buckets_after bucket_leases ∙ has_leases;
        has_subnets = same_buckets_after bucket_subnets ∙ has_subnets;
        readable = λ k x e. readable k x (ground (arith, leases_after k, e));
        keyed = λ k x e. keyed k x (ground (arith, leases_after k, e));
        opened =
            All-map s.subnets
              (λ (k, sub) (valid, x).
                (valid, same_buckets_after (bucket_of (text (string sub))) ∙ x))
              opened;
        nets = λ k e. nets k (sym (same_buckets_after (bucket_of k)) ∙ e);
        ips = λ c j x e. ips c j x (sym (a.others c j) ∙ b.shrinks c j x e);
      }

      purged-Purges : Purges (bolt_view db laws) t s (record s { file = d₂ })
      purged-Purges = record {
        inv = purged-IsIntact;
        keeps_live = λ k l e live.
            ap (seen (ltb k (2 ^ 64))) (leases_after (key_bytes k))
            ∙ after_live t (ltb k (2 ^ 64)) (get bucket_leases (key_bytes k) s.file) l e live;
        only_live = λ k l e.
            after_only t (ltb k (2 ^ 64)) (get bucket_leases (key_bytes k) s.file) l
              (sym (ap (seen (ltb k (2 ^ 64))) (leases_after (key_bytes k))) ∙ e);
        same_subnets = λ k. same_buckets_after (bucket_of (text k));
        same_known = λ k. refl;
        keeps = λ sub c h. ap is_some (
            b.spared (text sub) (text c) (
              hits_any-frees db laws sub c found.freed s.file s.subnets opened (
                found.frees_lem (restored sub) c (λ k x l e e' gone.
                  let (j, small, same) = keyed k x (sym (lookup-visited k) ∙ e) in
                  h j l (seen_lem j k x l small same (sym (lookup-visited k) ∙ e) e') gone)))
            ∙ a.others (text sub) (text c));
        frees_expired = λ sub c k l known e gone held.
            ap is_some
              (b.cleared (text sub) (text c) (hit sub c known (freed_lem sub c k l e gone held)));
      }
        where
          freed_lem :
              (sub c : Cidr) (k : ℕ) (l : Lease)
              → seen (ltb k (2 ^ 64)) (get bucket_leases (key_bytes k) s.file) ≡ some l
              → expired l t ≡ true
              → frees (restored sub) c l.ips ≡ true
              → frees (restored sub) c found.freed ≡ true
          freed_lem sub c k l e gone held =
              let (x, there, readable_x) = seen_value (ltb k (2 ^ 64)) (key_bytes k) l e in
              found.frees_all (restored sub) c (key_bytes k) x l
                (lookup-visited (key_bytes k) ∙ there) readable_x gone held

          hit :
              (sub c : Cidr)
              → (bolt_view db laws).known s sub ≡ true
              → frees (restored sub) c found.freed ≡ true
              → hits_any db laws s.subnets found.freed (text sub) (text c) ≡ true
          hit sub c known h = elim (Option-cases (lookup sub s.subnets)) [
            | inl none_ ↦ absurd (ground (arith, known, none_))
            | inr (n, e) ↦
                let same : string n == sub ≡ true = ground (arith, known, e) in
                hits_any-known db laws sub c n found.freed s.file s.subnets opened e
                  ((cidr_beq_iff (string n) sub).0 same) h
          ]

    -- The transaction succeeds; its statistics count the addresses that were found.
    abbrev Counts : PurgeStats → Type 0
    Counts ps =
        (c : Cidr)
        → freed_from c ps ≡ (if is_saved c s.subnets then held_in (restored c) found.freed else 0)

    purged :
        (ps : PurgeStats) × (s' : Bolt db) × (purge db t s ≡ (ok ps, s'))
        × Purges (bolt_view db laws) t s s'
        × Counts ps
    unfolding purge
    purged =
        let (d₁, done, a) = delete_all-Deletes db laws found.ks s.file fine has_leases in
        let (ps, d₂, done', b, counts) =
          free_subnets-Clears db laws s.subnets found.freed d₁ a.fine (
            All-map s.subnets
              (λ (k, sub) (valid, x). (valid, a.same_buckets (bucket_of (text (string sub))) ∙ x))
              opened) in
        (
          ps,
          record s { file = d₂ },
          update-ok db laws (purge_in db s.subnets t) ps d₂ s
              (ground (arith, found.found, done, done')) b.fine,
          purged-Purges d₁ d₂ a b,
          counts,
        )

    pub purge_lem :
        (ps : PurgeStats) × (s' : Bolt db) × (purge db t s ≡ (ok ps, s'))
        × Purges (bolt_view db laws) t s s'
    purge_lem = let (ps, s', done, p, counts) = purged in (ps, s', done, p)

    pub purge_counts :
        (s' : Bolt db) (ps : PurgeStats) (ls : List Lease) (c : Cidr)
        → (leases db s).0 ≡ ok ls
        → purge db t s ≡ (ok ps, s')
        → (bolt_view db laws).known s c ≡ true
        → freed_from c ps ≡ expired_in t (restored c) ls
    unfolding leases
    purge_counts s' ps ls c e e' known =
        let (qs, s₁, done, p, counts) = purged in
        let same : qs ≡ ps = ok-injective (ap (λ r. r.0) (sym done ∙ e')) in
        let all : found.all ≡ ls = ok-injective (sym found.listed ∙ e) in
        let saved : is_saved c s.subnets ≡ true = known-is_saved c s.subnets known in
        sym (ap (freed_from c) same)
        ∙ counts c
        ∙ ap (λ (x : Bool). if x then held_in (restored c) found.freed else 0) saved
        ∙ found.counts (restored c)
        ∙ ap (expired_in t (restored c)) all
