-- ===== src/Store/Bolt/Opened.antt =====
-- FileStore (store.go) on a database that keeps its laws: opening a file.
use wgipam.Base.{true, ℕ, ◌^◌, ◌<◌, ◌≡◌, refl, some, [], arith, ◌∙◌, sym}
use wgipam.Base.Result.{ok}
use wgipam.Store.Bolt.{
  bucket_of, Key, Bucket, bucket_leases, bucket_subnets, Bbolt, key_bytes, Bolt, file_store,
}
use wgipam.Store.Bolt.Buckets.{IsText, BboltLaws}
use wgipam.Store.Bolt.Saved.{IsLease, IsIntact}

module _ (db : Bbolt) (laws : BboltLaws db) where
  open db use {Db, Value, exists, get, create_bucket_if_not_exists}

  -- A file whose leases, when it has any, were saved by a store
  pub record IsOurs (d : Db) : Type 0 where
    pub fine : laws.Fine d
    pub readable : (k : Key) (x : Value) → get bucket_leases k d ≡ some x → IsLease db laws x
    pub keyed :
        (k : Key) (x : Value)
        → get bucket_leases k d ≡ some x
        → (j : ℕ) × (j < 2 ^ 64) × (key_bytes j ≡ k)
    pub nets : (k : Key) → exists (bucket_of k) d ≡ true → IsText k
    pub ips : (c k : Key) (x : Value) → get (bucket_of c) k d ≡ some x → IsText k

  -- FileStore succeeds on a file that is new or that a store wrote. The store satisfies the
  -- invariant of boltStore and knows of no subnet yet, and every value of the file is still there.
  pub file_store-IsIntact :
      (d : Db)
      → IsOurs d
      → (s : Bolt db) × (file_store db d ≡ ok s)
        × IsIntact db laws s
        × (s.subnets ≡ [])
        × ((c : Bucket) (j : Key) → get c j s.file ≡ get c j d)
  unfolding file_store
  file_store-IsIntact d h =
      let (d₁, done, a) = laws.create_lem bucket_leases d h.fine tt in
      let (d₂, done', b) = laws.create_lem bucket_subnets d₁ a.fine tt in
      let same : (c : Bucket) (j : Key) → get c j d₂ ≡ get c j d =
        λ c j. b.same_values c j ∙ a.same_values c j in
      (
        record { file = d₂; subnets = [] },
        ground (arith, done, done', laws.commit_lem d₂ b.fine),
        record {
          fine = b.fine;
          has_leases = b.creates bucket_leases ∙ a.creates bucket_leases;
          has_subnets = b.creates bucket_subnets;
          readable = λ k x e. h.readable k x (sym (same bucket_leases k) ∙ e);
          keyed = λ k x e. h.keyed k x (sym (same bucket_leases k) ∙ e);
          opened = tt;
          nets = λ k e. h.nets k (sym (b.creates (bucket_of k) ∙ a.creates (bucket_of k)) ∙ e);
          ips = λ c k x e. h.ips c k x (sym (same (bucket_of c) k) ∙ e);
        },
        refl,
        same,
      )
