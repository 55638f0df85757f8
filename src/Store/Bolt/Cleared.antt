-- ===== src/Store/Bolt/Cleared.antt =====
-- boltStore.Purge (store.go) on a database that keeps its laws: the addresses that it frees.
use wgipam.Base.{
  ap, nat_eq, some, none, Option-cases, sym, ℕ, ◌+◌, ◌≡◌, refl, Bool, true, false, ◌&&◌, ◌||◌, List,
  [], ◌∷◌, any, All, All-map, arith, ◌==◌, if◌then◌else◌, Bool-cases, inl, inr, ◌∙◌,
}
use wgipam.Base.Map.{Map}
use wgipam.Base.Result.{ok, pure, ◌>>=◌, >>=-ok}
use wgipam.Net.{IpNet, IsNet, Cidr, cidr_eq, cidr_beq_iff, string, contains}
use wgipam.Net.Laws.{restored, string-restored}
use wgipam.Store.{PurgeStats, tally}
use wgipam.Store.Contract.{held_in, freed_from}
use wgipam.Store.Contract.Counts.{held_in-of-string, freed_from-tally}
use wgipam.Store.Bolt.{
  Key, text, Bucket, bucket_leases, bucket_of, Bbolt, free_in, free_within, free_subnets,
}
use wgipam.Store.Bolt.Buckets.{key_eq, bucket_eq, BboltLaws}
use wgipam.Store.Bolt.Saved.{IsOpen}

-- Is the subnet one of those that were saved?
abbrev pub is_saved : Cidr → Map Cidr IpNet → Bool
is_saved c = any λ (e : Cidr × IpNet). string e.1 == c

module _ (db : Bbolt) (laws : BboltLaws db) where
  open db use {Db, Value, exists, get, delete, entries, unmarshal}

  -- Only addresses that `hit` names go, by the key of their subnet and their own.
  pub record Clears (hit : Key → Key → Bool) (d d' : Db) : Type 0 where
    pub fine : laws.Fine d'
    pub same_buckets : (c : Bucket) → exists c d' ≡ exists c d
    pub same_leases : (j : Key) → get bucket_leases j d' ≡ get bucket_leases j d
    pub shrinks :
        (c j : Key) (x : Value) → get (bucket_of c) j d' ≡ some x → get (bucket_of c) j d ≡ some x
    pub spared : (c j : Key) → hit c j ≡ false → get (bucket_of c) j d' ≡ get (bucket_of c) j d
    pub cleared : (c j : Key) → hit c j ≡ true → get (bucket_of c) j d' ≡ none

  Clears-nil :
      (hit : Key → Key → Bool) (d : Db)
      → ((c j : Key) → hit c j ≡ false)
      → laws.Fine d
      → Clears hit d d
  Clears-nil hit d nothing fine = record {
    fine = fine;
    same_buckets = λ c. refl;
    same_leases = λ j. refl;
    shrinks = λ c j x e. e;
    spared = λ c j h. refl;
    cleared = λ c j h. absurd (cc (sym (nothing c j) ∙ h));
  }

  Clears-trans :
      (hit hit' : Key → Key → Bool) (d d₁ d₂ : Db)
      → Clears hit d d₁
      → Clears hit' d₁ d₂
      → Clears (λ c j. hit c j || hit' c j) d d₂
  Clears-trans hit hit' d d₁ d₂ a b = record {
    fine = b.fine;
    same_buckets = λ c. b.same_buckets c ∙ a.same_buckets c;
    same_leases = λ j. b.same_leases j ∙ a.same_leases j;
    shrinks = λ c j x e. a.shrinks c j x (b.shrinks c j x e);
    spared = λ c j h. b.spared c j (ground (arith, h)) ∙ a.spared c j (ground (arith, h));
    cleared = λ c j h. elim (Bool-cases (hit' c j)) [
      | inl again ↦ b.cleared c j again
      | inr other ↦
          let before = a.cleared c j (ground (arith, h, other)) in
          elim (Option-cases (get (bucket_of c) j d₂)) [
            | inl gone ↦ gone
            | inr (x, e) ↦ absurd (cc (sym before ∙ b.shrinks c j x e))
          ]
    ];
  }

  Clears-weaken :
      (hit hit' : Key → Key → Bool) (d d' : Db)
      → ((c j : Key) → hit' c j ≡ hit c j)
      → Clears hit d d'
      → Clears hit' d d'
  Clears-weaken hit hit' d d' w a = record {
    fine = a.fine;
    same_buckets = a.same_buckets;
    same_leases = a.same_leases;
    shrinks = a.shrinks;
    spared = λ c j h. a.spared c j (sym (w c j) ∙ h);
    cleared = λ c j h. a.cleared c j (sym (w c j) ∙ h);
  }

  abbrev hits : IpNet → List IpNet → Key → Key → Bool
  hits sub freed c j =
      (text (string sub) == c) && any (λ f. contains sub f.ip && text (string f) == j) freed

  free_in-Clears :
      (sub f : IpNet) (d : Db)
      → laws.Fine d
      → exists (bucket_of (text (string sub))) d ≡ true
      → (b : Bool) × (d' : Db) × (free_in db sub f d ≡ (ok b, d'))
        × Clears (hits sub (f ∷ [])) d d'
        × (b ≡ contains sub f.ip)
  free_in-Clears sub f d fine there = elim (Bool-cases (contains sub f.ip)) [
    | inr out ↦ (
      false,
      d,
      ground (arith, out),
      Clears-nil (hits sub (f ∷ [])) d (λ c j. ground (arith, out)) fine,
      sym out,
    )
    | inl inside ↦
        let (d', done, p) =
          laws.delete_lem (bucket_of (text (string sub))) (text (string f)) d fine tt there in
        (
          true,
          d',
          ground (arith, inside, there, done),
          record {
            fine = p.fine;
            same_buckets = p.same_buckets;
            same_leases = λ j. p.puts bucket_leases j;
            shrinks = λ c j x e. ground (arith, e, p.puts (bucket_of c) j);
            spared = λ c j h. ground (arith, inside, h, p.puts (bucket_of c) j);
            cleared = λ c j h. ground (arith, inside, h, p.puts (bucket_of c) j);
          },
          sym inside,
        )
  ]

  free_within-Clears :
      (sub : IpNet) (freed : List IpNet) (n : ℕ) (d : Db)
      → laws.Fine d
      → exists (bucket_of (text (string sub))) d ≡ true
      → (m : ℕ) × (d' : Db) × (free_within db sub freed n d ≡ (ok m, d'))
        × Clears (hits sub freed) d d'
        × (m ≡ n + held_in sub freed)
  unfolding free_within
  free_within-Clears sub [] n d fine there =
      (n, d, refl, Clears-nil (hits sub []) d (λ c j. ground arith) fine, ground arith)
  free_within-Clears sub (f ∷ freed) n d fine there =
      let (b, d₁, e, a, q) = free_in-Clears sub f d fine there in
      let (m, d₂, e', a', q') =
        free_within-Clears sub freed (if b then n + 1 else n) d₁ a.fine
          (a.same_buckets (bucket_of (text (string sub))) ∙ there) in
      (
        m,
        d₂,
        >>=-ok (free_in db sub f) (λ c. free_within db sub freed (if c then n + 1 else n)) d d₁ b e
            ∙ e',
        Clears-weaken (λ c j. hits sub (f ∷ []) c j || hits sub freed c j) (hits sub (f ∷ freed)) d
            d₂ (λ c j. ground arith)
            (Clears-trans (hits sub (f ∷ [])) (hits sub freed) d d₁ d₂ a a'),
        ground (arith, q, q'),
      )

  abbrev pub hits_any : Map Cidr IpNet → List IpNet → Key → Key → Bool
  hits_any subs freed c j = any (λ (e : Cidr × IpNet). hits e.1 freed c j) subs

  held_in-restored :
      (sub : IpNet) (c : Cidr) (freed : List IpNet)
      → IsNet sub
      → string sub == c ≡ true
      → 0 + held_in sub freed ≡ held_in (restored c) freed
  held_in-restored sub c freed valid same =
      let e : string sub ≡ c = (cidr_beq_iff (string sub) c).0 same in
      ground (
        arith,
        held_in-of-string sub (restored (string sub)) freed
            (sym (string-restored (string sub) valid)),
        ap (λ (z : Cidr). held_in (restored z) freed) e,
      )

  pub free_subnets-Clears :
      (subs : Map Cidr IpNet) (freed : List IpNet) (d : Db)
      → laws.Fine d
      → All (IsOpen db laws d) subs
      → (ps : PurgeStats) × (d' : Db) × (free_subnets db subs freed d ≡ (ok ps, d'))
        × Clears (hits_any subs freed) d d'
        × ((c : Cidr)
            → freed_from c ps ≡ (if is_saved c subs then held_in (restored c) freed else 0))
  unfolding free_subnets
  free_subnets-Clears [] freed d fine open_ =
      ([], d, refl, Clears-nil (hits_any [] freed) d (λ c j. refl) fine, λ c. refl)
  free_subnets-Clears ((k, sub) ∷ subs) freed d fine ((valid, there), rest) =
      let (n, d₁, e, a, q) = free_within-Clears sub freed 0 d fine there in
      let (ps, d₂, e', a', q') = free_subnets-Clears subs freed d₁ a.fine (
        All-map subs (λ (j, s) (v, x). (v, a.same_buckets (bucket_of (text (string s))) ∙ x))
          rest) in
      (
        tally (string sub) n ps,
        d₂,
        >>=-ok (free_within db sub freed 0)
              (λ m. free_subnets db subs freed >>= λ qs. pure (tally (string sub) m qs)) d d₁ n e
            ∙ >>=-ok (free_subnets db subs freed) (λ qs. pure (tally (string sub) n qs)) d₁ d₂ ps
                e',
        Clears-trans (hits sub freed) (hits_any subs freed) d d₁ d₂ a a',
        λ c.
            freed_from-tally (string sub) c n (held_in (restored c) freed) (is_saved c subs) ps
              (λ same. q ∙ held_in-restored sub c freed valid same) (q' c)
            ∙ ground arith,
      )
