-- ===== src/Store/Bolt/Addresses.antt =====
-- boltStore (store.go) on a database that keeps its laws: the subnets, and the addresses that are
-- allocated from them.
use wgipam.Base.{
  Bool-cases, inl, inr, ◌==◌, ◌&&◌, subst, ℕ, ltb, ◌^◌, ◌≡◌, refl, Bool, true, false, Option, none,
  some, nat_eq, arith, if◌then◌else◌, ◌∙◌, sym, ap,
}
use wgipam.Base.Map.{lookup, insert, lookup-insert, beq_refl, All-insert}
use wgipam.Base.Result.{ok}
use wgipam.Net.{IpNet, IsNet, Cidr, IsCidr, cidr_eq, string, contains}
use wgipam.Store.Contract.{Sets, Registers}
use wgipam.Store.Bolt.{
  Key, text, bucket_leases, bucket_subnets, bucket_of, Bbolt, key_bytes, Bolt, save_subnet,
  allocate_ip, free_ip,
}
use wgipam.Store.Bolt.Buckets.{
  is_some, IsText, same_key_iff, key_eq, bucket_eq, Puts, Creates, BboltLaws,
}
use wgipam.Store.Bolt.Saved.{IsOpen, IsIntact, lease_of, bolt_view, kept-IsOpen}

module _ (db : Bbolt) (laws : BboltLaws db) where
  open db use {Db, Value, exists, get, put, delete, entries, commit, marshal, unmarshal}

  pub put_ip-IsIntact :
      (c k : Key) (o : Option Value) (s : Bolt db) (d' : Db)
      → IsIntact db laws s
      → ((x : Value) → o ≡ some x → IsText k)
      → Puts db laws.Fine (bucket_of c) k o s.file d'
      → IsIntact db laws (record s { file = d' })
  put_ip-IsIntact c k o s d' i valid p = record {
    fine = p.fine;
    has_leases = p.same_buckets bucket_leases ∙ i.has_leases;
    has_subnets = p.same_buckets bucket_subnets ∙ i.has_subnets;
    readable = λ j x e. i.readable j x (sym (p.puts bucket_leases j) ∙ e);
    keyed = λ j x e. i.keyed j x (sym (p.puts bucket_leases j) ∙ e);
    opened = kept-IsOpen db laws s.file d' s.subnets (λ b e. p.same_buckets b ∙ e) i.opened;
    nets = λ j e. i.nets j (sym (p.same_buckets (bucket_of j)) ∙ e);
    ips = λ c' j x e. elim (Bool-cases (bucket_of c == bucket_of c' && k == j)) [
      | inl same ↦
          subst IsText ((same_key_iff k j).0 (ground (arith, same)))
            (valid x (ground (arith, same, e, p.puts (bucket_of c') j)))
      | inr other ↦ i.ips c' j x (ground (arith, other, e, p.puts (bucket_of c') j))
    ];
  }

  -- An address comes or goes in the bucket of a subnet that exists.
  put_ip-Sets :
      (sub c : Cidr) (o : Option Value) (b : Bool) (s : Bolt db) (d' : Db)
      → IsIntact db laws s
      → Puts db laws.Fine (bucket_of (text sub)) (text c) o s.file d'
      → ((x : Value) → o ≡ some x → IsCidr c)
      → is_some o ≡ b
      → Sets (bolt_view db laws) sub c b s (record s { file = d' })
  put_ip-Sets sub c o b s d' i p valid e = record {
    inv = put_ip-IsIntact (text sub) (text c) o s d' i valid p;
    same_leases = λ k. leases k (ltb k (2 ^ 64));
    same_subnets = λ k. p.same_buckets (bucket_of (text k));
    same_known = λ k. refl;
    sets = λ k d. ap is_some (p.puts (bucket_of (text k)) (text d)) ∙ ground (arith, e);
  }
    where
      leases :
          (k : ℕ) (small : Bool)
          → (if small then lease_of db laws (get bucket_leases (key_bytes k) d') else none)
            ≡ (if small then lease_of db laws (get bucket_leases (key_bytes k) s.file) else none)
      leases k true = ap (lease_of db laws) (p.puts bucket_leases (key_bytes k))
      leases k false = refl

  module _ (sub ip : IpNet) (s : Bolt db) (i : IsIntact db laws s)
      (there : exists (bucket_of (text (string sub))) s.file ≡ true)
      (inside : contains sub ip.ip ≡ true) where
    pub allocate_taken :
        (bolt_view db laws).allocated s (string sub) (string ip) ≡ true
        → allocate_ip db sub ip s ≡ (ok false, s)
    unfolding allocate_ip
    allocate_taken h = ground (arith, there, inside, h, laws.commit_lem s.file i.fine)

    pub allocate_free :
        IsNet ip
        → (bolt_view db laws).allocated s (string sub) (string ip) ≡ false
        → (s' : Bolt db) × (allocate_ip db sub ip s ≡ (ok true, s'))
          × Sets (bolt_view db laws) (string sub) (string ip) true s s'
    unfolding allocate_ip
    allocate_free valid h =
        let (d', done, p) =
          laws.put_lem (bucket_of (text (string sub))) (text (string ip)) db.empty s.file i.fine tt
            there in
        (
          record s { file = d' },
          ground (arith, there, inside, h, done, laws.commit_lem d' p.fine),
          put_ip-Sets (string sub) (string ip) (some db.empty) true s d' i p (λ x e. valid) refl,
        )

    pub free_lem :
        (s' : Bolt db) × (free_ip db sub ip s ≡ (ok tt, s'))
        × Sets (bolt_view db laws) (string sub) (string ip) false s s'
    unfolding free_ip
    free_lem =
        let (d', done, p) =
          laws.delete_lem (bucket_of (text (string sub))) (text (string ip)) s.file i.fine tt
            there in
        (
          record s { file = d' },
          ground (arith, there, inside, done, laws.commit_lem d' p.fine),
          put_ip-Sets (string sub) (string ip) none false s d' i p (λ x e. absurd (cc e)) refl,
        )

  pub save_subnet_lem :
      (sub : IpNet) (s : Bolt db)
      → IsIntact db laws s
      → IsNet sub
      → (s' : Bolt db) × (save_subnet db sub s ≡ (ok tt, s'))
        × Registers (bolt_view db laws) (string sub) s s'
  unfolding save_subnet
  save_subnet_lem sub s i valid =
      let (d', done, c) =
        laws.create_lem (bucket_of (text (string sub))) s.file i.fine i.has_subnets in
      let subs = insert (string sub) sub s.subnets in
      (
        record { file = d'; subnets = subs },
        ground (arith, done, laws.commit_lem d' c.fine),
        record {
          inv = record {
            fine = c.fine;
            has_leases = c.creates bucket_leases ∙ i.has_leases;
            has_subnets = c.creates bucket_subnets ∙ i.has_subnets;
            readable = λ j x e. i.readable j x (sym (c.same_values bucket_leases j) ∙ e);
            keyed = λ j x e. i.keyed j x (sym (c.same_values bucket_leases j) ∙ e);
            opened =
                All-insert (IsOpen db laws d') (string sub) sub s.subnets
                  (kept-IsOpen db laws s.file d' s.subnets (λ b e. ground (arith, c.creates b, e))
                    i.opened)
                  (
                    valid,
                    ground
                        (arith, c.creates (bucket_of (text (string sub))), beq_refl (string sub)),
                  );
            nets = λ k e. elim (Bool-cases (text (string sub) == k)) [
              | inl same ↦ subst IsText ((same_key_iff (text (string sub)) k).0 same) valid
              | inr other ↦ i.nets k (ground (arith, other, e, c.creates (bucket_of k)))
            ];
            ips = λ b k x e. i.ips b k x (sym (c.same_values (bucket_of b) k) ∙ e);
          };
          same_leases = λ k. leases d' c k (ltb k (2 ^ 64));
          registers = λ k. c.creates (bucket_of (text k));
          knows = λ k. knows k;
          others = λ k d _. ap is_some (c.same_values (bucket_of (text k)) (text d));
          no_more =
              λ d h. sym (ap is_some (c.same_values (bucket_of (text (string sub))) (text d))) ∙ h;
        },
      )
    where
      knows :
          (k : Cidr)
          → (elim (lookup k (insert (string sub) sub s.subnets)) [
            | none ↦ false
            | some n ↦ string n == k
          ])
            ≡ (if string sub == k
                then true
                else elim (lookup k s.subnets) [ none ↦ false | some n ↦ string n == k ])
      knows k = ground (arith, lookup-insert (string sub) k sub s.subnets)

      leases :
          (d' : Db)
          → Creates db laws.Fine (bucket_of (text (string sub))) s.file d'
          → (k : ℕ) (small : Bool)
          → (if small then lease_of db laws (get bucket_leases (key_bytes k) d') else none)
            ≡ (if small then lease_of db laws (get bucket_leases (key_bytes k) s.file) else none)
      leases d' c k true = ap (lease_of db laws) (c.same_values bucket_leases (key_bytes k))
      leases d' c k false = refl
