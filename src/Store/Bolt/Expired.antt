-- ===== src/Store/Bolt/Expired.antt =====
-- boltStore.Purge (store.go) on a database that keeps its laws: the leases that it finds and deletes.
use wgipam.Base.{
  ◌≡◌, refl, Bool, true, false, Option, none, some, List, [], ◌∷◌, ◌++◌, nat_eq, arith,
  if◌then◌else◌, Bool-cases, inl, inr, ◌∙◌, sym, ap, ◌==◌,
}
use wgipam.Base.Int.{ℤ}
use wgipam.Base.Map.{IsMap, lookup, member, beq_refl}
use wgipam.Base.Result.{ok, ok-injective, >>=-ok}
use wgipam.Net.{IpNet, Cidr, cidr_eq}
use wgipam.Lease.{Lease, expired}
use wgipam.Store.Contract.{frees, frees-append, held_in, expired_in}
use wgipam.Store.Contract.Counts.{held_in-append}
use wgipam.Store.Bolt.{
  Key, Bucket, bucket_leases, bucket_of, Bbolt, unmarshal_all, find_expired, delete_all,
}
use wgipam.Store.Bolt.Buckets.{lookup-cons_later, key_eq, bucket_eq, same_key_iff, BboltLaws}
use wgipam.Store.Bolt.Saved.{IsLease, lease_of}

module _ (db : Bbolt) (laws : BboltLaws db) where
  open db use {Db, Value, exists, get, delete, entries, unmarshal}

  -- A stored lease that is expired
  abbrev pub is_expired : ℤ → Option Value → Bool
  is_expired t o = elim (lease_of db laws o) [ none ↦ false | some l ↦ expired l t ]

  -- What the first loop finds: the keys of the expired leases, and addresses that they hold.
  pub record Finds (t : ℤ) (es : List (Key × Value)) : Type 0 where
    pub ks : List Key
    pub freed : List IpNet
    pub found : find_expired db t es ≡ ok (ks, freed)
    -- What Leases lists of them, and how many of its addresses a network holds
    pub all : List Lease
    pub listed : unmarshal_all db es ≡ ok all
    pub counts : (n : IpNet) → held_in n freed ≡ expired_in t n all
    pub keys : (k : Key) → member k ks ≡ is_expired t (lookup k es)
    pub frees_lem :
        (n : IpNet) (c : Cidr)
        → ((k : Key) (x : Value) (l : Lease)
            → lookup k es ≡ some x
            → unmarshal x ≡ ok l
            → expired l t ≡ true
            → frees n c l.ips ≡ false)
        → frees n c freed ≡ false
    pub frees_all :
        (n : IpNet) (c : Cidr) (k : Key) (x : Value) (l : Lease)
        → lookup k es ≡ some x
        → unmarshal x ≡ ok l
        → expired l t ≡ true
        → frees n c l.ips ≡ true
        → frees n c freed ≡ true

  head_value :
      (k j : Key) (x y : Value) (es : List (Key × Value))
      → k == j ≡ true
      → lookup j ((k, x) ∷ es) ≡ some y
      → x ≡ y
  head_value k j x y es same h = ground (arith, same, h)

  Finds-cons :
      (t : ℤ) (k : Key) (x : Value) (l : Lease) (es : List (Key × Value))
      → lookup k es ≡ none
      → unmarshal x ≡ ok l
      → Finds t es
      → Finds t ((k, x) ∷ es)
  unfolding find_expired unmarshal_all
  Finds-cons t k x l es m e f = elim (Bool-cases (expired l t)) [
    | inl gone ↦ record {
      ks = k ∷ f.ks;
      freed = l.ips ++ f.freed;
      found = ground (arith, e, gone, f.found);
      all = l ∷ f.all;
      listed = ground (arith, e, f.listed);
      counts = λ n. ground (arith, gone, f.counts n, held_in-append n l.ips f.freed);
      keys = λ j. ground (arith, e, gone, f.keys j, same_key_iff k j, m);
      frees_lem = λ n c h.
          frees-append n c l.ips f.freed
          ∙ ground (
            arith,
            h k x l (rw (beq_refl k) refl) e gone,
            f.frees_lem n c (λ j y l' h'. h j y l' (lookup-cons_later k j x y es m h')),
          );
      frees_all = λ n c j y l' h' u e' held.
          frees-append n c l.ips f.freed ∙ elim (Bool-cases (k == j)) [
            | inl same ↦
                let here : ok l ≡ ok l' =
                  sym e ∙ ap unmarshal (head_value k j x y es same h') ∙ u in
                ground (arith, ok-injective here, held)
            | inr other ↦
                ground (arith, f.frees_all n c j y l' (ground (arith, h', other)) u e' held)
          ];
    }
    | inr live ↦ record {
      ks = f.ks;
      freed = f.freed;
      found = ground (arith, e, live, f.found);
      all = l ∷ f.all;
      listed = ground (arith, e, f.listed);
      counts = λ n. ground (arith, live, f.counts n);
      keys = λ j. ground (arith, e, live, f.keys j, same_key_iff k j, m);
      frees_lem =
          λ n c h. f.frees_lem n c (λ j y l' h'. h j y l' (lookup-cons_later k j x y es m h'));
      frees_all = λ n c j y l' h' u e' held. elim (Bool-cases (k == j)) [
        | inl same ↦
            let here : ok l ≡ ok l' = sym e ∙ ap unmarshal (head_value k j x y es same h') ∙ u in
            absurd (cc (sym live ∙ ap (λ (z : Lease). expired z t) (ok-injective here) ∙ e'))
        | inr other ↦ f.frees_all n c j y l' (ground (arith, h', other)) u e' held
      ];
    }
  ]

  pub find_expired-Finds :
      (t : ℤ) (es : List (Key × Value))
      → IsMap es
      → ((k : Key) (x : Value) → lookup k es ≡ some x → IsLease db laws x)
      → Finds t es
  unfolding find_expired unmarshal_all
  find_expired-Finds t [] m r = record {
    ks = [];
    freed = [];
    found = refl;
    all = [];
    listed = refl;
    counts = λ n. refl;
    keys = λ k. refl;
    frees_lem = λ n c h. refl;
    frees_all = λ n c k x l h. absurd (cc h);
  }
  find_expired-Finds t ((k, x) ∷ es) m r =
      let (l, e) = r k x (rw (beq_refl k) refl) in
      Finds-cons t k x l es m.0 e
        (find_expired-Finds t es m.1 (λ j y h. r j y (lookup-cons_later k j x y es m.0 h)))

  -- The second loop deletes those keys.
  pub record Deletes (ks : List Key) (d d' : Db) : Type 0 where
    pub fine : laws.Fine d'
    pub same_buckets : (c : Bucket) → exists c d' ≡ exists c d
    pub gone :
        (j : Key) → get bucket_leases j d' ≡ (if member j ks then none else get bucket_leases j d)
    pub others : (c j : Key) → get (bucket_of c) j d' ≡ get (bucket_of c) j d

  pub delete_all-Deletes :
      (ks : List Key) (d : Db)
      → laws.Fine d
      → exists bucket_leases d ≡ true
      → (d' : Db) × (delete_all db ks d ≡ (ok tt, d')) × Deletes ks d d'
  unfolding delete_all
  delete_all-Deletes [] d fine there = (
    d,
    refl,
    record { fine = fine; same_buckets = λ c. refl; gone = λ j. refl; others = λ c j. refl },
  )
  delete_all-Deletes (k ∷ ks) d fine there =
      let (d₁, done, p) = laws.delete_lem bucket_leases k d fine tt there in
      let (d₂, rest, q) = delete_all-Deletes ks d₁ p.fine (p.same_buckets bucket_leases ∙ there) in
      (
        d₂,
        >>=-ok (delete bucket_leases k) (λ _. delete_all db ks) d d₁ tt done ∙ rest,
        record {
          fine = q.fine;
          same_buckets = λ c. q.same_buckets c ∙ p.same_buckets c;
          gone = λ j. q.gone j ∙ ground (arith, p.puts bucket_leases j);
          others = λ c j. q.others c j ∙ p.puts (bucket_of c) j;
        },
      )
