-- ===== src/Store/Bolt.antt =====
-- store.go: boltStore. The database is a parameter, with what the store calls of go.etcd.io/bbolt
-- and encoding/json. Locks and transactions make each operation one step.
pub mod Keys
pub mod Buckets
pub mod Saved
pub mod Addresses
pub mod Expired
pub mod Cleared
pub mod Freed
pub mod Purged
pub mod Opened
pub mod Laws
pub mod Listed
use wgipam.Base.{
  ℕ, zero, suc, ◌+◌, ◌/◌, ◌%◌, Bool, true, false, not, Option, none, some, List, [], ◌∷◌, ◌++◌, map,
  ◌==◌, if◌then◌else◌,
}
use wgipam.Base.Int.{ℤ}
use wgipam.Base.Map.{Map, lookup, insert}
use wgipam.Base.Result.{
  Result, ok, err, panic, hang, M, pure, fail, lift, fail_if, ◌>>=◌, ◌>>◌, no_such_subnet,
  cannot_contain, invalid_cidr,
}
use wgipam.Net.{IpNet, Cidr, cidr_eq, string, contains, parse_cidr}
use wgipam.Lease.{Lease, expired}
use wgipam.Store.{Store, PurgeStats, check_subnet_contains, tally}

-- A key: bytes, or the text of a network
pub data Key : Type 0 where
  bytes : List ℕ → Key
  text : Cidr → Key

-- The two buckets at the top, and the buckets in that of the subnets
pub data Bucket : Type 0 where
  bucket_leases bucket_subnets : Bucket
  bucket_of : Key → Bucket

-- go.etcd.io/bbolt: a database, and the calls in one transaction. `commit` is the end of Update.
pub record Bbolt : Type 1 where
  pub Db : Type 0
  pub Value : Type 0
  -- `[]byte{}`
  pub empty : Value
  -- `Bucket(b) != nil`
  pub exists : Bucket → Db → Bool
  pub create_bucket_if_not_exists : Bucket → M Db Unit
  -- Get, Put, Delete and, by its list of what it visits, ForEach
  pub get : Bucket → Key → Db → Option Value
  pub put : Bucket → Key → Value → M Db Unit
  pub delete : Bucket → Key → M Db Unit
  pub entries : Bucket → Db → List (Key × Value)
  pub commit : Db → Result (Unit {0})
  pub close : M Db Unit
  -- encoding/json, of a Lease
  pub marshal : Lease → Result Value
  pub unmarshal : Value → Result Lease

-- keyBytes: the last `n` bytes of a number, the first one first
unfoldable pub big_endian : ℕ → ℕ → List ℕ
big_endian zero k = []
big_endian (suc n) k = big_endian n (k / 256) ++ (k % 256 ∷ [])

unfoldable pub key_bytes : ℕ → Key
unfolding big_endian
key_bytes k = bytes (big_endian 8 k)

-- marshalIPNet
abbrev pub marshal_ip_net : IpNet → Key
marshal_ip_net n = text (string n)

-- unmarshalIPNet. Every key that it is called on is the text of a network.
unfoldable pub unmarshal_ip_net : Key → Result IpNet
unmarshal_ip_net (bytes b) = err invalid_cidr
unmarshal_ip_net (text c) = elim (parse_cidr c) [
  | none ↦ err invalid_cidr
  | some (ip, cidr) ↦ ok (record cidr { ip = ip })
]

-- The loop of Subnets and AllocatedIPs
unfoldable pub unmarshal_keys : {V : Type 0} → List (Key × V) → Result (List IpNet)
unfolding unmarshal_ip_net
unmarshal_keys [] = ok []
unmarshal_keys ((k, v) ∷ es) =
    let rest = unmarshal_keys es in
    elim (unmarshal_ip_net k) [
      | ok ip ↦ elim rest [ ok ips ↦ ok (ip ∷ ips) | r ↦ r ]
      | err e ↦ err e
      | panic ↦ panic
      | hang ↦ hang
    ]

module _ (db : Bbolt) where
  open db use {
    Db, Value, empty, exists, create_bucket_if_not_exists, get, put, delete, entries, commit,
    marshal, unmarshal,
  }

  -- boltStore
  pub record Bolt : Type 0 where
    pub file : Db
    pub subnets : Map Cidr IpNet

  -- DB.View
  abbrev pub view : {A : Type 0} → (Db → Result A) → M Bolt A
  view f s = (f s.file, s)

  -- DB.Update: an error, of the function or of the commit, leaves the database as it was.
  abbrev pub update : {A : Type 0} → M Db A → M Bolt A
  update f s =
      let (r, d) = f s.file in
      elim r [
        | ok a ↦ elim (commit d) [
          | ok _ ↦ (ok a, record s { file = d })
          | err e ↦ (err e, s)
          | panic ↦ (panic, s)
          | hang ↦ (hang, s)
        ]
        | err e ↦ (err e, s)
        | panic ↦ (panic, s)
        | hang ↦ (hang, s)
      ]

  -- FileStore, after the file is opened
  unfoldable pub file_store : Db → Result Bolt
  file_store d =
      let (r, s) =
        update
          (create_bucket_if_not_exists bucket_leases >> create_bucket_if_not_exists bucket_subnets)
          (record { file = d; subnets = [] }) in
      elim r [ ok _ ↦ ok s | err e ↦ err e | panic ↦ panic | hang ↦ hang ]

  -- Close
  unfoldable pub close : M Bolt Unit
  close s = let (r, d) = db.close s.file in (r, record s { file = d })

  -- The loop of Leases
  unfoldable pub unmarshal_all : List (Key × Value) → Result (List Lease)
  unmarshal_all [] = ok []
  unmarshal_all ((k, v) ∷ es) =
      let rest = unmarshal_all es in
      elim (unmarshal v) [
        | ok l ↦ elim rest [ ok ls ↦ ok (l ∷ ls) | r ↦ r ]
        | err e ↦ err e
        | panic ↦ panic
        | hang ↦ hang
      ]

  -- Leases
  unfoldable pub leases : M Bolt (List Lease)
  unfolding unmarshal_all
  leases = view λ d. unmarshal_all (entries bucket_leases d)

  -- Lease
  unfoldable pub lease : ℕ → M Bolt (Option Lease)
  unfolding key_bytes
  lease key = view λ d. elim (get bucket_leases (key_bytes key) d) [
    | none ↦ ok none
    | some v ↦ elim (unmarshal v) [
      | ok l ↦ ok (some l)
      | err e ↦ err e
      | panic ↦ panic
      | hang ↦ hang
    ]
  ]

  -- SaveLease
  unfoldable pub save_lease : ℕ → Lease → M Bolt Unit
  unfolding key_bytes
  save_lease key l = update (lift (marshal l) >>= λ v. put bucket_leases (key_bytes key) v)

  -- DeleteLease
  unfoldable pub delete_lease : ℕ → M Bolt Unit
  unfolding key_bytes
  delete_lease key = update (delete bucket_leases (key_bytes key))

  -- Purge, the first loop: the keys and the addresses of the expired leases
  unfoldable pub find_expired : ℤ → List (Key × Value) → Result (List Key × List IpNet)
  find_expired t [] = ok ([], [])
  find_expired t ((k, v) ∷ es) =
      let rest = find_expired t es in
      elim (unmarshal v) [
        | ok l ↦
            if expired l t
            then elim rest [
              | ok (ks, freed) ↦ ok (k ∷ ks, l.ips ++ freed)
              | err e ↦ err e
              | panic ↦ panic
              | hang ↦ hang
            ]
            else rest
        | err e ↦ err e
        | panic ↦ panic
        | hang ↦ hang
      ]

  -- Purge, the second loop
  unfoldable pub delete_all : List Key → M Db Unit
  delete_all [] = pure tt
  delete_all (k ∷ ks) = delete bucket_leases k >> delete_all ks

  -- Purge, the body of the innermost loop: was the address counted? A bucket that does not exist is
  -- nil, and its Delete panics.
  abbrev pub free_in : IpNet → IpNet → M Db Bool
  free_in sub f d =
      let b = bucket_of (marshal_ip_net sub) in
      if contains sub f.ip
      then (if exists b d then (delete b (marshal_ip_net f) >> pure true) d else (panic, d))
      else (ok false, d)

  unfoldable pub free_within : IpNet → List IpNet → ℕ → M Db ℕ
  free_within sub [] n = pure n
  free_within sub (f ∷ freed) n = do
    counted ← free_in sub f
    free_within sub freed (if counted then n + 1 else n)

  -- Purge, the loop over the subnets that were saved since the store was opened
  unfoldable pub free_subnets : Map Cidr IpNet → List IpNet → M Db PurgeStats
  unfolding free_within
  free_subnets [] freed = pure []
  free_subnets ((k, sub) ∷ subs) freed = do
    n ← free_within sub freed 0
    ps ← free_subnets subs freed
    pure (tally (string sub) n ps)

  -- Purge, its transaction
  abbrev pub purge_in : Map Cidr IpNet → ℤ → M Db PurgeStats
  purge_in subs t d =
      (do
        (ks, freed) ← lift (find_expired t (entries bucket_leases d))
        delete_all ks
        free_subnets subs freed)
        d

  -- Purge
  unfoldable pub purge : ℤ → M Bolt PurgeStats
  unfolding find_expired delete_all free_subnets
  purge t s = update (purge_in s.subnets t) s

  -- Subnets
  unfoldable pub subnets : M Bolt (List IpNet)
  unfolding unmarshal_keys
  subnets = view λ d. unmarshal_keys (entries bucket_subnets d)

  -- SaveSubnet
  unfoldable pub save_subnet : IpNet → M Bolt Unit
  save_subnet sub s =
      update (create_bucket_if_not_exists (bucket_of (marshal_ip_net sub)))
        (record s { subnets = insert (string sub) sub s.subnets })

  -- AllocatedIPs
  unfoldable pub allocated_ips : IpNet → M Bolt (List IpNet)
  unfolding unmarshal_keys
  allocated_ips sub = view λ d.
      let b = bucket_of (marshal_ip_net sub) in
      if exists b d then unmarshal_keys (entries b d) else err no_such_subnet

  -- AllocateIP, its transaction
  abbrev pub take_ip : IpNet → IpNet → M Db Bool
  take_ip sub ip d =
      let b = bucket_of (marshal_ip_net sub) in
      if exists b d
      then elim (get b (marshal_ip_net ip) d) [
        | some _ ↦ (ok false, d)
        | none ↦ (put b (marshal_ip_net ip) empty >> pure true) d
      ]
      else (err no_such_subnet, d)

  -- AllocateIP
  unfoldable pub allocate_ip : IpNet → IpNet → M Bolt Bool
  allocate_ip sub ip = check_subnet_contains sub ip >> update (take_ip sub ip)

  -- FreeIP, its transaction
  abbrev pub drop_ip : IpNet → IpNet → M Db Unit
  drop_ip sub ip d =
      let b = bucket_of (marshal_ip_net sub) in
      if exists b d then delete b (marshal_ip_net ip) d else (err no_such_subnet, d)

  -- FreeIP
  unfoldable pub free_ip : IpNet → IpNet → M Bolt Unit
  free_ip sub ip = check_subnet_contains sub ip >> update (drop_ip sub ip)

  -- boltStore as a Store
  abbrev pub bolt_ops : Store Bolt
  bolt_ops = record {
    lease_store = record {
      leases = leases;
      lease = lease;
      save_lease = save_lease;
      delete_lease = delete_lease;
    };
    ip_store = record {
      subnets = subnets;
      save_subnet = save_subnet;
      allocated_ips = allocated_ips;
      allocate_ip = allocate_ip;
      free_ip = free_ip;
    };
    close = close;
    purge = purge;
  }
