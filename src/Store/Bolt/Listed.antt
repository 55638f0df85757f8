-- ===== src/Store/Bolt/Listed.antt =====
-- boltStore (store.go) on a database that keeps its laws: what Leases, Subnets and AllocatedIPs
-- list, and the calls that are refused.
use wgipam.Base.{
  ℕ, ltb, ◌^◌, ◌<◌, ◌≡◌, refl, Option, none, some, List, [], ◌∷◌, map, nat_eq, arith, ◌∙◌, ap, sym,
  inl, inr, Bool-cases, if◌then◌else◌, ltb→lt,
}
use wgipam.Base.Map.{Map, IsMap, lookup, beq_refl}
use wgipam.Base.Result.{ok}
use wgipam.Net.{IpNet, cidr_eq, IsCidr, string}
use wgipam.Net.Laws.{restored, parse_cidr-eq, string-restored}
use wgipam.Lease.{Lease}
use wgipam.Store.Contract.Listing.{IsListOf, restored-IsReadBack, ListingLaws}
use wgipam.Store.Bolt.{
  Key, bytes, text, bucket_leases, bucket_subnets, bucket_of, Bbolt, key_bytes, unmarshal_keys,
  unmarshal_all, leases, subnets, allocated_ips, allocate_ip, free_ip, bolt_ops,
}
use wgipam.Store.Bolt.Buckets.{key_eq, bucket_eq, is_some, IsText, lookup-cons_later, BboltLaws}
use wgipam.Store.Bolt.Saved.{IsLease, lease_of, bolt_view, key_bytes_beq}

-- The loop of Subnets and AllocatedIPs
unmarshal_keys_lem :
    {V : Type 0} (es : Map Key V)
    → IsMap es
    → ((k : Key) (x : V) → lookup k es ≡ some x → IsText k)
    → (ips : List IpNet) × (unmarshal_keys es ≡ ok ips)
      × IsListOf (λ c. is_some (lookup (text c) es)) ips
unfolding unmarshal_keys
unmarshal_keys_lem [] m h = ([], refl, (tt, (λ c. refl), tt))
unmarshal_keys_lem ((bytes b, x) ∷ es) m h =
    absurd (h (bytes b) x (ground (arith, beq_refl (bytes b))))
unmarshal_keys_lem ((text k, x) ∷ es) m h =
    let valid : IsCidr k = h (text k) x (ground (arith, beq_refl k)) in
    let (ips, e, (distinct, members, back)) =
      unmarshal_keys_lem es m.1
        (λ j y found. h j y (lookup-cons_later (text k) j x y es m.0 found)) in
    (
      restored k ∷ ips,
      ground (arith, e, parse_cidr-eq k valid),
      (
        (members (string (restored k)) ∙ ground (arith, string-restored k valid, m.0), distinct),
        (λ c. ground (arith, string-restored k valid, members c)),
        (restored-IsReadBack k valid, back),
      ),
    )

module _ (db : Bbolt) (laws : BboltLaws db) where
  open db use {Db, Value, exists, get, entries, unmarshal}

  abbrev finds : Map Key Value → ℕ → Option Lease
  finds es k = if ltb k (2 ^ 64) then lease_of db laws (lookup (key_bytes k) es) else none

  finds-cons :
      (n : ℕ) (x : Value) (l : Lease) (es : Map Key Value) (ls : Map ℕ Lease)
      → n < 2 ^ 64
      → unmarshal x ≡ ok l
      → ((k : ℕ) → lookup k ls ≡ finds es k)
      → (k : ℕ) → lookup k ((n, l) ∷ ls) ≡ finds ((key_bytes n, x) ∷ es) k
  finds-cons n x l es ls small read found k = elim (Bool-cases (ltb k (2 ^ 64))) [
    | inl h ↦
        ground (arith, h, read, found k, key_bytes_beq db laws n k small (ltb→lt k (2 ^ 64) h))
    | inr h ↦ ground (arith, h, small, found k)
  ]

  -- The loop of Leases
  unmarshal_all_lem :
      (es : Map Key Value)
      → IsMap es
      → ((k : Key) (x : Value) → lookup k es ≡ some x → IsLease db laws x)
      → ((k : Key) (x : Value) → lookup k es ≡ some x → (j : ℕ) × (j < 2 ^ 64) × (key_bytes j ≡ k))
      → (ls : Map ℕ Lease) × (unmarshal_all db es ≡ ok (map (λ e. e.1) ls))
        × IsMap ls
        × ((k : ℕ) → lookup k ls ≡ finds es k)
  unfolding unmarshal_all
  unmarshal_all_lem [] m r h = ([], refl, tt, λ k. ground arith)
  unmarshal_all_lem ((j, x) ∷ es) m r h =
      let (l, read) = r j x (rw (beq_refl j) refl) in
      let (n, small, same) = h j x (rw (beq_refl j) refl) in
      let (ls, e, unique, found) =
        unmarshal_all_lem es m.1 (λ k y e. r k y (lookup-cons_later j k x y es m.0 e))
          (λ k y e. h k y (lookup-cons_later j k x y es m.0 e)) in
      (
        (n, l) ∷ ls,
        ground (arith, read, e),
        (found n ∙ ground (arith, same, m.0), unique),
        λ k.
            finds-cons n x l es ls small read found k
            ∙ ap (λ (i : Key). finds ((i, x) ∷ es) k) same,
      )

  -- boltStore lists what is there, on a database that keeps its laws: Leases lists each lease once,
  -- AllocatedIPs each address that is allocated from its subnet, and Subnets each subnet. A call for
  -- a subnet that does not exist, or for an address outside of its subnet, is refused with its own
  -- error and changes nothing.
  pub bolt-ListingLaws : ListingLaws (bolt_ops db) (bolt_view db laws)
  unfolding leases subnets allocated_ips allocate_ip free_ip
  bolt-ListingLaws = record {
    leases_lem = λ s i.
        let (unique, same) = laws.entries_lem bucket_leases s.file i.fine tt i.has_leases in
        let (ls, e, m, found) =
          unmarshal_all_lem (entries bucket_leases s.file) unique
            (λ k x e. i.readable k x (sym (same k) ∙ e))
            (λ k x e. i.keyed k x (sym (same k) ∙ e)) in
        (
          ls,
          ground (arith, e),
          m,
          λ k.
              found k
              ∙ ap (λ (o : Option Value). if ltb k (2 ^ 64) then lease_of db laws o else none)
                  (same (key_bytes k)),
        );
    subnets_lem = λ s i masked.
        let (unique, same) = laws.nested_lem s.file i.fine i.has_subnets in
        let (ns, e, (distinct, members, back)) =
          unmarshal_keys_lem (entries bucket_subnets s.file) unique
            (λ k x e. i.nets k (sym (same k) ∙ ap is_some e)) in
        (ns, ground (arith, e), (distinct, (λ c. members c ∙ same (text c)), back));
    allocated_ips_lem = λ sub s i there.
        let (unique, same) =
          laws.entries_lem (bucket_of (text (string sub))) s.file i.fine tt there in
        let (ns, e, (distinct, members, back)) =
          unmarshal_keys_lem (entries (bucket_of (text (string sub))) s.file) unique
            (λ k x e. i.ips (text (string sub)) k x (sym (same k) ∙ e)) in
        (
          ns,
          ground (arith, e, there),
          (distinct, (λ c. members c ∙ ap is_some (same (text c))), back),
        );
    allocated_ips_missing = λ sub s missing. ground (arith, missing);
    allocate_outside = λ sub ip s outside. ground (arith, outside);
    allocate_missing = λ sub ip s missing inside. ground (arith, missing, inside);
    free_outside = λ sub ip s outside. ground (arith, outside);
    free_missing = λ sub ip s missing inside. ground (arith, missing, inside);
  }
