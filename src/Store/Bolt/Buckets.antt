-- ===== src/Store/Bolt/Buckets.antt =====
-- What boltStore (store.go) relies on of go.etcd.io/bbolt and of encoding/json.
use wgipam.Base.{
  ℕ, ◌*◌, ◌^◌, ◌<◌, ◌≡◌, refl, ◌↔◌, Eq, eqb, Bool, true, false, ◌&&◌, Option, none, some, List, [],
  ◌∷◌, map, All, arith, ◌==◌, if◌then◌else◌,
}
use wgipam.Base.Int.{ℤ, pos}
use wgipam.Base.Map.{Map, IsMap, lookup}
use wgipam.Base.Result.{ok}
use wgipam.Net.{Ip, IsCidr, IpNet, IsNet, cidr_eq, cidr_beq, cidr_beq_iff, string, network, to16}
use wgipam.Lease.{Lease}
use wgipam.Store.Contract.{widened, SameLease}
use wgipam.Store.Bolt.{Key, bytes, text, Bucket, bucket_leases, bucket_subnets, bucket_of, Bbolt}

abbrev pub same_bytes : List ℕ → List ℕ → Bool
same_bytes [] [] = true
same_bytes (x ∷ xs) (y ∷ ys) = eqb x y && same_bytes xs ys
same_bytes _ _ = false

same_bytes_iff : (xs ys : List ℕ) → (same_bytes xs ys ≡ true) ↔ (xs ≡ ys)
same_bytes_iff [] [] = ground arith
same_bytes_iff [] (y ∷ ys) = ground arith
same_bytes_iff (x ∷ xs) [] = ground arith
same_bytes_iff (x ∷ xs) (y ∷ ys) = ground (arith, same_bytes_iff xs ys)

abbrev pub same_key : Key → Key → Bool
same_key (bytes a) (bytes b) = same_bytes a b
same_key (text a) (text b) = cidr_beq a b
same_key _ _ = false

pub same_key_iff : (j k : Key) → (same_key j k ≡ true) ↔ (j ≡ k)
same_key_iff (bytes a) (bytes b) = ground (arith, same_bytes_iff a b)
same_key_iff (bytes a) (text b) = ground arith
same_key_iff (text a) (bytes b) = ground arith
same_key_iff (text a) (text b) = ground (arith, cidr_beq_iff a b)

instance abbrev pub key_eq : Eq Key
key_eq = record { beq = same_key; beq_iff = same_key_iff }

-- A key that is found after another one is found behind it too.
pub lookup-cons_later :
    {V : Type 0} (k j : Key) (x y : V) (es : Map Key V)
    → lookup k es ≡ none
    → lookup j es ≡ some y
    → lookup j ((k, x) ∷ es) ≡ some y
lookup-cons_later k j x y es m h = ground (arith, m, h, same_key_iff k j)

abbrev pub same_bucket : Bucket → Bucket → Bool
same_bucket bucket_leases bucket_leases = true
same_bucket bucket_subnets bucket_subnets = true
same_bucket (bucket_of a) (bucket_of b) = same_key a b
same_bucket _ _ = false

pub same_bucket_iff : (b c : Bucket) → (same_bucket b c ≡ true) ↔ (b ≡ c)
same_bucket_iff bucket_leases c = ground arith
same_bucket_iff bucket_subnets c = ground arith
same_bucket_iff (bucket_of a) bucket_leases = ground arith
same_bucket_iff (bucket_of a) bucket_subnets = ground arith
same_bucket_iff (bucket_of a) (bucket_of b) = ground (arith, same_key_iff a b)

instance abbrev pub bucket_eq : Eq Bucket
bucket_eq = record { beq = same_bucket; beq_iff = same_bucket_iff }

abbrev pub is_some : {V : Type 0} → Option V → Bool
is_some none = false
is_some (some x) = true

-- The text of a well-formed network
abbrev pub IsText : Key → Type 0
IsText (bytes b) = ⊥
IsText (text c) = IsCidr c

-- A bucket of keys and values, which holds no buckets
abbrev pub IsFlat : Bucket → Type 0
IsFlat bucket_subnets = ⊥
IsFlat _ = Unit

-- What encoding/json makes of a lease: an address is encoded as its text, and decoded from it in its
-- 16-byte form.
abbrev pub decoded : Lease → Lease
decoded l = record l { ips = map widened l.ips }

-- A time that encoding/json encodes: one before the year 10000, not before the epoch
abbrev pub IsEncodableTime : ℤ → Type 0
IsEncodableTime (pos t) = t < 253402300800 * 10 ^ 9
IsEncodableTime _ = ⊥

abbrev pub IsEncodable : Lease → Type 0
IsEncodable l = All IsNet l.ips × IsEncodableTime l.start

to16-to16 : (ip : Ip) → to16 (to16 ip) ≡ to16 ip
to16-to16 ip = ground arith

pub string-widened : (n : IpNet) → IsNet n → string (widened n) ≡ string n
unfolding string network
string-widened n h = ground arith

pub decoded_lem : (l : Lease) → IsEncodable l → SameLease l (decoded l)
decoded_lem l h = record {
  same_start = refl;
  same_length = refl;
  same_nets = nets l.ips;
  same_texts = texts l.ips h.0;
}
  where
    nets : (ips : List IpNet) → map widened (map widened ips) ≡ map widened ips
    nets [] = refl
    nets (n ∷ ips) = cc (to16-to16 n.ip, nets ips)

    texts : (ips : List IpNet) → All IsNet ips → map string (map widened ips) ≡ map string ips
    texts [] h = refl
    texts (n ∷ ips) h = cc (string-widened n h.0, texts ips h.1)

module _ (db : Bbolt) where
  open db use {
    Db, Value, exists, create_bucket_if_not_exists, get, put, delete, entries, commit, marshal,
    unmarshal,
  }

  -- One key of one bucket holds `o`, and nothing else has changed.
  pub record Puts (Fine : Db → Type 0) (b : Bucket) (k : Key) (o : Option Value) (d d' : Db)
      : Type 0 where
    pub fine : Fine d'
    pub same_buckets : (c : Bucket) → exists c d' ≡ exists c d
    pub puts : (c : Bucket) (j : Key) → get c j d' ≡ (if b == c && k == j then o else get c j d)

  -- One bucket exists, and nothing else has changed.
  pub record Creates (Fine : Db → Type 0) (b : Bucket) (d d' : Db) : Type 0 where
    pub fine : Fine d'
    pub creates : (c : Bucket) → exists c d' ≡ (if b == c then true else exists c d)
    pub same_values : (c : Bucket) (j : Key) → get c j d' ≡ get c j d

  -- A bucket at the top, or one in the bucket of the subnets, which exists
  abbrev pub HasParent : Bucket → Db → Type 0
  HasParent (bucket_of k) d = exists bucket_subnets d ≡ true
  HasParent _ d = Unit

  -- `Fine` is what bbolt keeps of a file that it can read and write. Its calls succeed then on a
  -- bucket that exists, and its documentation says what they change.
  pub record BboltLaws : Type 1 where
    pub Fine : Db → Type 0
    pub get_absent : (b : Bucket) (k : Key) (d : Db) → exists b d ≡ false → get b k d ≡ none
    pub put_lem :
        (b : Bucket) (k : Key) (x : Value) (d : Db)
        → Fine d
        → IsFlat b
        → exists b d ≡ true
        → (d' : Db) × (put b k x d ≡ (ok tt, d')) × Puts Fine b k (some x) d d'
    pub delete_lem :
        (b : Bucket) (k : Key) (d : Db)
        → Fine d
        → IsFlat b
        → exists b d ≡ true
        → (d' : Db) × (delete b k d ≡ (ok tt, d')) × Puts Fine b k none d d'
    pub create_lem :
        (b : Bucket) (d : Db)
        → Fine d
        → HasParent b d
        → (d' : Db) × (create_bucket_if_not_exists b d ≡ (ok tt, d')) × Creates Fine b d d'
    -- ForEach visits every key of the bucket once.
    pub entries_lem :
        (b : Bucket) (d : Db)
        → Fine d
        → IsFlat b
        → exists b d ≡ true
        → IsMap (entries b d) × ((k : Key) → lookup k (entries b d) ≡ get b k d)
    -- It visits the buckets in a bucket in the same way.
    pub nested_lem :
        (d : Db)
        → Fine d
        → exists bucket_subnets d ≡ true
        → IsMap (entries bucket_subnets d)
          × ((k : Key) → is_some (lookup k (entries bucket_subnets d)) ≡ exists (bucket_of k) d)
    pub commit_lem : (d : Db) → Fine d → commit d ≡ ok tt
    pub json_lem :
        (l : Lease)
        → IsEncodable l
        → (x : Value) × (marshal l ≡ ok x) × (unmarshal x ≡ ok (decoded l))
