-- ===== src/Store/Memory/Listed.antt =====
-- memoryStore (store.go): what Leases, Subnets and AllocatedIPs list, and the calls that are refused.
use wgipam.Base.{◌≡◌, refl, true, List, [], ◌∷◌, map, All, arith, ◌∙◌, sym, Option-cases, inl, inr}
use wgipam.Base.Map.{Map, IsMap, Distinct, All-lookup, lookup, member, beq_refl}
use wgipam.Base.Sets.{has, holds}
use wgipam.Base.Result.{ok}
use wgipam.Net.{IpNet, Cidr, cidr_eq, string}
use wgipam.Net.Laws.{own_net, parse_cidr-eq}
use wgipam.Store.Contract.Listing.{IsReadBack, own_net-IsReadBack, IsListOf, ListingLaws}
use wgipam.Store.Memory.{Memory, parse_nets, leases, subnets, allocated_ips, allocate_ip, free_ip}
use wgipam.Store.Memory.Valid.{IsValid, IsEntry}
use wgipam.Store.Memory.Contents.{allocated_ips_lem}
use wgipam.Store.Memory.Laws.{memory_ops, memory_view}

abbrev texts : Map Cidr (List Cidr) → List Cidr
texts = map λ e. e.0

member-texts : (c : Cidr) (m : Map Cidr (List Cidr)) → member c (texts m) ≡ has c m
member-texts c [] = refl
member-texts c ((k, ips) ∷ m) = ground (arith, member-texts c m)

texts-Distinct : (m : Map Cidr (List Cidr)) → IsMap m → Distinct (texts m)
texts-Distinct [] h = tt
texts-Distinct ((k, ips) ∷ m) h = (member-texts k m ∙ ground (arith, h.0), texts-Distinct m h.1)

-- The loop of Subnets, where no subnet has bits after its prefix
parse_nets_lem :
    (m : Map Cidr (List Cidr))
    → All IsEntry m
    → ((c : Cidr) → member c (texts m) ≡ true → string (own_net c) ≡ c)
    → (ns : List IpNet) × (parse_nets (texts m) ≡ ok ns)
      × (map string ns ≡ texts m)
      × All IsReadBack ns
unfolding parse_nets
parse_nets_lem [] h masked = ([], refl, refl, tt)
parse_nets_lem ((k, ips) ∷ m) h masked =
    let (ns, e, same, back) = parse_nets_lem m h.1 (λ c there. masked c (ground (arith, there))) in
    (
      own_net k ∷ ns,
      ground (arith, e, parse_cidr-eq k h.0.0),
      ground (arith, same, masked k (ground (arith, beq_refl k))),
      (own_net-IsReadBack k h.0.0 (masked k (ground (arith, beq_refl k))), back),
    )

subnets_lem :
    (s : Memory)
    → IsValid s
    → ((c : Cidr) → has c s.subnets ≡ true → string (own_net c) ≡ c)
    → (subs : List IpNet) × (subnets s ≡ (ok subs, s)) × IsListOf (λ c. has c s.subnets) subs
unfolding subnets
subnets_lem s v masked =
    let (ns, e, same, back) =
      parse_nets_lem s.subnets v.entries
        (λ c there. masked c (sym (member-texts c s.subnets) ∙ there)) in
    (
      ns,
      rw e refl,
      (
        rw same (texts-Distinct s.subnets v.subnets),
        (λ c. rw same (member-texts c s.subnets)),
        back,
      ),
    )

listed_ips_lem :
    (sub : IpNet) (s : Memory)
    → IsValid s
    → has (string sub) s.subnets ≡ true
    → (ips : List IpNet) × (allocated_ips sub s ≡ (ok ips, s))
      × IsListOf (λ c. holds (string sub) c s.subnets) ips
listed_ips_lem sub s v there = elim (Option-cases (lookup (string sub) s.subnets)) [
  | inl missing ↦ absurd (ground (arith, missing, there))
  | inr (ks, found) ↦
      let (ips, e, same, back) = allocated_ips_lem sub s ks v found in
      (
        ips,
        e,
        (
          rw same (All-lookup IsEntry (string sub) ks s.subnets v.entries found).1,
          (λ c. rw same (ground (arith, found))),
          back,
        ),
      )
]

-- memoryStore lists what is there: Leases lists each lease once, AllocatedIPs each address that is
-- allocated from its subnet, and Subnets each subnet, where none has bits after its prefix. A call
-- for a subnet that does not exist, or for an address outside of its subnet, is refused with its own
-- error and changes nothing.
pub memory-ListingLaws : ListingLaws memory_ops memory_view
unfolding leases allocated_ips allocate_ip free_ip
memory-ListingLaws = record {
  leases_lem = λ s v. (s.leases, refl, v.leases, λ k. refl);
  subnets_lem = subnets_lem;
  allocated_ips_lem = listed_ips_lem;
  allocated_ips_missing = λ sub s missing. ground (arith, missing);
  allocate_outside = λ sub ip s outside. ground (arith, outside);
  allocate_missing = λ sub ip s missing inside. ground (arith, missing, inside);
  free_outside = λ sub ip s outside. ground (arith, outside);
  free_missing = λ sub ip s missing inside. ground (arith, missing, inside);
}
