-- ===== src/Tests/Database.antt =====
-- A database that is a map of buckets, for boltStore.
use wgipam.Base.{
  ◌∷◌, ◌≡◌, refl, Bool, true, false, Option, none, some, [], All, arith, Option-cases, inl, inr,
  ◌==◌, if◌then◌else◌, Bool-cases,
}
use wgipam.Base.Map.{
  Map, IsMap, lookup, insert, erase, lookup-insert, lookup-erase, insert-IsMap, erase-IsMap,
  All-lookup, All-insert,
}
use wgipam.Base.Result.{ok, err, panic, external}
use wgipam.Lease.{Lease}
use wgipam.Store.Bolt.{bucket_of, bucket_leases, bucket_subnets, Key, Bucket, Bbolt}
use wgipam.Store.Bolt.Buckets.{
  IsFlat, is_some, key_eq, bucket_eq, same_bucket_iff, decoded, Puts, Creates, BboltLaws,
}

-- A value is empty or holds a lease.
abbrev pub Value : Type 0
Value = Option Lease

abbrev pub Entries : Type 0
Entries = Map Key Value

abbrev pub Database : Type 0
Database = Map Bucket Entries

abbrev entries_of : Option Entries → Entries
entries_of none = []
entries_of (some es) = es

abbrev contents : Bucket → Database → Entries
contents b d = entries_of (lookup b d)

abbrev is_bucket : Option Entries → Bool
is_bucket none = false
is_bucket (some es) = true

abbrev is_there : Bucket → Database → Bool
is_there b d = is_bucket (lookup b d)

-- The buckets in the bucket of the subnets, with a nil value for each
abbrev nested : Database → Entries
nested [] = []
nested ((bucket_of k, es) ∷ d) = (k, none) ∷ nested d
nested ((bucket_leases, es) ∷ d) = nested d
nested ((bucket_subnets, es) ∷ d) = nested d

abbrev visited : Bucket → Database → Entries
visited bucket_subnets d = nested d
visited b d = contents b d

abbrev pub listed : Bbolt
listed = record {
  Db = Database;
  Value = Value;
  empty = none;
  exists = is_there;
  create_bucket_if_not_exists = λ b d. (ok tt, if is_there b d then d else insert b [] d);
  get = λ b k d. lookup k (contents b d);
  put = λ b k v d.
      if is_there b d then (ok tt, insert b (insert k v (contents b d)) d) else (panic, d);
  delete =
      λ b k d. if is_there b d then (ok tt, insert b (erase k (contents b d)) d) else (panic, d);
  entries = visited;
  commit = λ d. ok tt;
  close = λ d. (ok tt, d);
  marshal = λ l. ok (some (decoded l));
  unmarshal = λ v. elim v [ none ↦ err external | some l ↦ ok l ];
}

abbrev IsFine : Database → Type 0
IsFine d = IsMap d × All (λ (e : Bucket × Entries). IsMap e.1) d

pub contents-IsMap : (b : Bucket) (d : Database) → IsFine d → IsMap (contents b d)
contents-IsMap b d h = elim (Option-cases (lookup b d)) [
  | inl e ↦ rw e tt
  | inr (es, e) ↦ rw e (All-lookup (λ (e : Bucket × Entries). IsMap e.1) b es d h.1 e)
]

insert-IsFine :
    (b : Bucket) (es : Entries) (d : Database) → IsFine d → IsMap es → IsFine (insert b es d)
insert-IsFine b es d h m =
    (insert-IsMap b es d h.0, All-insert (λ (e : Bucket × Entries). IsMap e.1) b es d h.1 m)

-- A bucket that exists is given other entries.
pub changed-Puts :
    (b : Bucket) (k : Key) (o : Option Value) (es : Entries) (d : Database)
    → IsFine d
    → is_there b d ≡ true
    → IsMap es
    → ((j : Key) → lookup j es ≡ (if k == j then o else lookup j (contents b d)))
    → Puts listed IsFine b k o d (insert b es d)
changed-Puts b k o es d h there m e = record {
  fine = insert-IsFine b es d h m;
  same_buckets = λ c. ground (arith, lookup-insert b c es d, there, same_bucket_iff b c);
  puts = λ c j. ground (arith, lookup-insert b c es d, e j, same_bucket_iff b c);
}

pub created-Creates :
    (b : Bucket) (d : Database)
    → IsFine d
    → Creates listed IsFine b d (if is_there b d then d else insert b [] d)
created-Creates b d h = elim (Bool-cases (is_there b d)) [
  | inl there ↦ rw there record {
    fine = h;
    creates = λ c. ground (arith, there, same_bucket_iff b c);
    same_values = λ c j. refl;
  }
  | inr missing ↦ rw missing record {
    fine = insert-IsFine b [] d h tt;
    creates = λ c. ground (arith, lookup-insert b c [] d);
    same_values = λ c j.
        ground
          (arith, lookup-insert b c [] d, missing, same_bucket_iff b c, Option-cases (lookup c d));
  }
]

pub nested_lem : (k : Key) (d : Database) → is_some (lookup k (nested d)) ≡ is_there (bucket_of k) d
nested_lem k [] = refl
nested_lem k ((bucket_of j, es) ∷ d) = ground (arith, nested_lem k d)
nested_lem k ((bucket_leases, es) ∷ d) = nested_lem k d
nested_lem k ((bucket_subnets, es) ∷ d) = nested_lem k d

pub nested-IsMap : (d : Database) → IsMap d → IsMap (nested d)
nested-IsMap [] h = tt
nested-IsMap ((bucket_of j, es) ∷ d) h =
    (ground (arith, nested_lem j d, h.0, Option-cases (lookup j (nested d))), nested-IsMap d h.1)
nested-IsMap ((bucket_leases, es) ∷ d) h = nested-IsMap d h.1
nested-IsMap ((bucket_subnets, es) ∷ d) h = nested-IsMap d h.1

pub visited_lem :
    (b : Bucket) (d : Database)
    → IsFine d
    → IsFlat b
    → IsMap (visited b d) × ((k : Key) → lookup k (visited b d) ≡ lookup k (contents b d))
visited_lem bucket_leases d h flat = (contents-IsMap bucket_leases d h, λ k. refl)
visited_lem bucket_subnets d h flat = absurd flat
visited_lem (bucket_of j) d h flat = (contents-IsMap (bucket_of j) d h, λ k. refl)

unfoldable pub listed_laws : BboltLaws listed
listed_laws = record {
  Fine = IsFine;
  get_absent = λ b k d missing. ground (arith, missing);
  put_lem = λ b k x d h flat there. (
    insert b (insert k x (contents b d)) d,
    rw there refl,
    changed-Puts b k (some x) (insert k x (contents b d)) d h there
        (insert-IsMap k x (contents b d) (contents-IsMap b d h))
        (λ j. lookup-insert k j x (contents b d)),
  );
  delete_lem = λ b k d h flat there. (
    insert b (erase k (contents b d)) d,
    rw there refl,
    changed-Puts b k none (erase k (contents b d)) d h there
        (erase-IsMap k (contents b d) (contents-IsMap b d h))
        (λ j. lookup-erase k j (contents b d)),
  );
  create_lem = λ b d h parent. (_, refl, created-Creates b d h);
  entries_lem = λ b d h flat there. visited_lem b d h flat;
  nested_lem = λ d h there. (nested-IsMap d h.0, λ k. nested_lem k d);
  commit_lem = λ d h. refl;
  json_lem = λ l h. (some (decoded l), refl, refl);
}
