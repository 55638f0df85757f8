-- ===== src/Store/Bolt/Saved.antt =====
-- boltStore (store.go) on a database that keeps its laws: what a client sees, and the leases.
use wgipam.Base.{
  ℕ, ltb, ◌^◌, ◌<◌, ◌≡◌, refl, true, false, Option, none, some, All, All-map, nat_eq, eqb_iff,
  ltb→lt, arith, ◌==◌, if◌then◌else◌, Bool-cases, Option-cases, inl, inr, ◌∙◌, sym, ap,
}
use wgipam.Base.Map.{Map, lookup, beq_refl, beq_ne}
use wgipam.Base.Result.{ok, M, lift, ◌>>=◌}
use wgipam.Net.{IpNet, IsNet, Cidr, cidr_eq, string}
use wgipam.Lease.{Lease}
use wgipam.Store.Bolt.Keys.{value_of, value_of-key_bytes}
use wgipam.Store.Contract.{StoreView, Saves}
use wgipam.Store.Bolt.{
  Key, text, Bucket, bucket_leases, bucket_subnets, bucket_of, Bbolt, key_bytes, Bolt, update,
  lease, save_lease, delete_lease,
}
use wgipam.Store.Bolt.Buckets.{
  is_some, IsText, key_eq, bucket_eq, same_key_iff, IsEncodable, decoded, Puts, BboltLaws,
}

module _ (db : Bbolt) (laws : BboltLaws db) where
  open db use {Db, Value, exists, get, put, delete, entries, commit, marshal, unmarshal}

  -- A value that is a lease
  abbrev pub IsLease : Value → Type 0
  IsLease x = (l : Lease) × (unmarshal x ≡ ok l)

  -- A subnet that was saved since the store was opened: its bucket exists.
  abbrev pub IsOpen : Db → Cidr × IpNet → Type 0
  IsOpen d (k, sub) = IsNet sub × (exists (bucket_of (text (string sub))) d ≡ true)

  pub record IsIntact (s : Bolt db) : Type 0 where
    pub fine : laws.Fine s.file
    pub has_leases : exists bucket_leases s.file ≡ true
    pub has_subnets : exists bucket_subnets s.file ≡ true
    pub readable : (k : Key) (x : Value) → get bucket_leases k s.file ≡ some x → IsLease x
    pub keyed :
        (k : Key) (x : Value)
        → get bucket_leases k s.file ≡ some x
        → (j : ℕ) × (j < 2 ^ 64) × (key_bytes j ≡ k)
    pub opened : All (IsOpen s.file) s.subnets
    pub nets : (k : Key) → exists (bucket_of k) s.file ≡ true → IsText k
    pub ips : (c k : Key) (x : Value) → get (bucket_of c) k s.file ≡ some x → IsText k

  abbrev pub lease_of : Option Value → Option Lease
  lease_of none = none
  lease_of (some x) = elim (unmarshal x) [ ok l ↦ some l | _ ↦ none ]

  -- What clients see of it. A key is a uint64.
  abbrev pub bolt_view : StoreView (Bolt db)
  bolt_view = record {
    Inv = IsIntact;
    IsKey = λ k. k < 2 ^ 64;
    Storable = IsEncodable;
    stored = decoded;
    leased =
        λ s k. if ltb k (2 ^ 64) then lease_of (get bucket_leases (key_bytes k) s.file) else none;
    registered = λ s k. exists (bucket_of (text k)) s.file;
    known = λ s k. elim (lookup k s.subnets) [ none ↦ false | some n ↦ string n == k ];
    allocated = λ s k c. is_some (get (bucket_of (text k)) (text c) s.file);
  }

  -- A transaction that succeeds is committed.
  pub update-ok :
      {A : Type 0} (f : M Db A) (a : A) (d' : Db) (s : Bolt db)
      → f s.file ≡ (ok a, d')
      → laws.Fine d'
      → update db f s ≡ (ok a, record s { file = d' })
  update-ok f a d' s e h = ground (arith, e, laws.commit_lem d' h)

  -- The database has the buckets that it had, or more.
  pub kept-IsOpen :
      (d d' : Db) (subs : Map Cidr IpNet)
      → ((b : Bucket) → exists b d ≡ true → exists b d' ≡ true)
      → All (IsOpen d) subs
      → All (IsOpen d') subs
  kept-IsOpen d d' subs h a = All-map subs (λ (k, sub) (valid, e). (valid, h _ e)) a

  pub put_lease-IsIntact :
      (key : ℕ) (o : Option Value) (s : Bolt db) (d' : Db)
      → key < 2 ^ 64
      → IsIntact s
      → Puts db laws.Fine bucket_leases (key_bytes key) o s.file d'
      → ((x : Value) → o ≡ some x → IsLease x)
      → IsIntact (record s { file = d' })
  put_lease-IsIntact key o s d' small i p r = record {
    fine = p.fine;
    has_leases = p.same_buckets bucket_leases ∙ i.has_leases;
    has_subnets = p.same_buckets bucket_subnets ∙ i.has_subnets;
    readable = λ j x e. elim (Bool-cases (key_bytes key == j)) [
      | inl same ↦ r x (ground (arith, same, e, p.puts bucket_leases j))
      | inr other ↦ i.readable j x (ground (arith, other, e, p.puts bucket_leases j))
    ];
    keyed = λ j x e. elim (Bool-cases (key_bytes key == j)) [
      | inl same ↦ (key, small, (same_key_iff (key_bytes key) j).0 same)
      | inr other ↦ i.keyed j x (ground (arith, other, e, p.puts bucket_leases j))
    ];
    opened = kept-IsOpen s.file d' s.subnets (λ b e. p.same_buckets b ∙ e) i.opened;
    nets = λ k e. i.nets k (sym (p.same_buckets (bucket_of k)) ∙ e);
    ips = λ c j x e. i.ips c j x (sym (p.puts (bucket_of c) j) ∙ e);
  }

  -- Keys of leases are told apart.
  pub key_bytes_beq : (j k : ℕ) → j < 2 ^ 64 → k < 2 ^ 64 → (key_bytes j == key_bytes k) ≡ (j == k)
  key_bytes_beq j k hj hk = elim (Bool-cases (j == k)) [
    | inl same ↦ rw (same, (eqb_iff j k).0 same) (beq_refl (key_bytes k))
    | inr other ↦ rw other (
        beq_ne (key_bytes j) (key_bytes k) (λ e. cc (
          sym other
          ∙ (eqb_iff j k).1
              (sym (value_of-key_bytes j hj) ∙ ap value_of e ∙ value_of-key_bytes k hk))))
  ]

  put_lease-Saves :
      (key : ℕ) (o : Option Value) (l : Option Lease) (s : Bolt db) (d' : Db)
      → key < 2 ^ 64
      → IsIntact s
      → Puts db laws.Fine bucket_leases (key_bytes key) o s.file d'
      → ((x : Value) → o ≡ some x → IsLease x)
      → lease_of o ≡ l
      → Saves bolt_view key l s (record s { file = d' })
  put_lease-Saves key o l s d' h i p r e = record {
    inv = put_lease-IsIntact key o s d' h i p r;
    saves = saves;
    same_subnets = λ k. p.same_buckets (bucket_of (text k));
    same_known = λ k. refl;
    same_allocations = λ k d. ap is_some (p.puts (bucket_of (text k)) (text d));
  }
    where
      saves :
          (k : ℕ)
          → bolt_view.leased (record s { file = d' }) k
            ≡ (if key == k then l else bolt_view.leased s k)
      saves k = elim (Bool-cases (ltb k (2 ^ 64))) [
        | inl small ↦ rw small (
            ap lease_of (p.puts bucket_leases (key_bytes k))
            ∙ ground (arith, e, key_bytes_beq key k h (ltb→lt k (2 ^ 64) small)))
        | inr large ↦
            rw (large, beq_ne key k (λ same. absurd (ground (arith, h, same, large)))) refl
      ]

  pub save_lease_lem :
      (key : ℕ) (l : Lease) (s : Bolt db)
      → IsIntact s
      → key < 2 ^ 64
      → IsEncodable l
      → (s' : Bolt db) × (save_lease db key l s ≡ (ok tt, s'))
        × Saves bolt_view key (some (decoded l)) s s'
  unfolding save_lease
  save_lease_lem key l s i h storable =
      let (x, e, e') = laws.json_lem l storable in
      let (d', done, p) =
        laws.put_lem bucket_leases (key_bytes key) x s.file i.fine tt i.has_leases in
      (
        record s { file = d' },
        update-ok (lift (marshal l) >>= λ v. put bucket_leases (key_bytes key) v) tt d' s
            (rw e done) p.fine,
        put_lease-Saves key (some x) (some (decoded l)) s d' h i p
            (λ y e₁. (decoded l, ground (arith, e₁, e'))) (ground (arith, e')),
      )

  pub delete_lease_lem :
      (key : ℕ) (s : Bolt db)
      → IsIntact s
      → key < 2 ^ 64
      → (s' : Bolt db) × (delete_lease db key s ≡ (ok tt, s')) × Saves bolt_view key none s s'
  unfolding delete_lease
  delete_lease_lem key s i h =
      let (d', done, p) =
        laws.delete_lem bucket_leases (key_bytes key) s.file i.fine tt i.has_leases in
      (
        record s { file = d' },
        update-ok (delete bucket_leases (key_bytes key)) tt d' s done p.fine,
        put_lease-Saves key none none s d' h i p (λ x e. absurd (cc e)) refl,
      )

  pub lease_lem :
      (key : ℕ) (s : Bolt db)
      → IsIntact s
      → key < 2 ^ 64
      → lease db key s ≡ (ok (bolt_view.leased s key), s)
  unfolding lease
  lease_lem key s i h =
      let small : ltb key (2 ^ 64) ≡ true = ground (arith, h) in
      elim (Option-cases (get bucket_leases (key_bytes key) s.file)) [
        | inl e ↦ ground (arith, e, small)
        | inr (x, e) ↦ let (l, e') = i.readable (key_bytes key) x e in ground (arith, e, e', small)
      ]
