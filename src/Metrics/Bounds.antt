-- ===== src/Metrics/Bounds.antt =====
-- metricsIPStore (metrics.go) around a memoryStore: how the gauge of a subnet and the number of its
-- allocated addresses compare.
use wgipam.Base.{
  ℕ, zero, suc, ◌+◌, ◌≤◌, ◌≡◌, false, some, List, [], ◌∷◌, arith, length, ◌==◌, sym, ap, subst,
  Bool-cases, inl, inr, All, if◌then◌else◌, nat_eq,
}
use wgipam.Base.Int.{ℤ, pos, negsuc, ◌+ℤ◌, ◌≤ℤ◌}
use wgipam.Base.Map.{
  Map, lookup, insert, member, discard, Distinct, lookup-insert, All-lookup, discard-absent,
  discard-Distinct,
}
use wgipam.Net.{IpNet, Cidr, cidr_eq, cidr_beq_iff, string, contains}
use wgipam.Net.Laws.{restored}
use wgipam.Base.Result.{Result}
use wgipam.Lease.{Lease}
use wgipam.Store.{Store, PurgeStats, tally}
use wgipam.Store.Memory.{Memory, free_within, sweep_leases}
use wgipam.Store.Memory.Cases.{allocate_ip_cases, free_ip_cases}
use wgipam.Store.Memory.Valid.{IsValid, IsEntry, cleared, stats, purge_lem}
use wgipam.Store.Memory.Laws.{memory_ops}
use wgipam.Metrics.{Gauges, gauge_of, add_to, negated, sub_all, allocate_ip, free_ip, purge}
use wgipam.Metrics.Gauge.{allocated_count, allocating, freeing, count_of}

-- The gauge of the subnet shows the number of its allocated addresses, or less.
abbrev pub IsAtMost : Cidr → Memory × Gauges → Type 0
IsAtMost k (s, g) = gauge_of k g.ips_allocated ≤ℤ pos (allocated_count k s)

-- A set that holds each address once loses at most one.
length-discard :
    (c : Cidr) (ips : List Cidr) → Distinct ips → length ips ≤ length (discard c ips) + 1
length-discard c [] d = omega arith
length-discard c (x ∷ xs) d = elim (Bool-cases (x == c)) [
  | inl same ↦
      let absent : member c xs ≡ false =
        subst (λ (y : Cidr). member y xs ≡ false) ((cidr_beq_iff x c).0 same) d.0 in
      ground (arith, same, ap length (discard-absent c xs absent))
  | inr other ↦ ground (arith, other, length-discard c xs d.1)
]

-- What Purge removes from a set is no more than what it counts.
length-free_within :
    (cidr : IpNet) (freed : List IpNet) (ips : List Cidr) (n : ℕ)
    → Distinct ips
    → length ips + n ≤ length (free_within cidr freed ips n).0 + (free_within cidr freed ips n).1
unfolding free_within
length-free_within cidr [] ips n d = omega arith
length-free_within cidr (f ∷ freed) ips n d = elim (Bool-cases (contains cidr f.ip)) [
  | inl inside ↦
      let rest =
        length-free_within cidr freed (discard (string f) ips) (n + 1)
          (discard-Distinct (string f) ips d) in
      rw (inside, free_within) (omega (arith, rest, length-discard (string f) ips d))
  | inr outside ↦ rw (outside, free_within) (length-free_within cidr freed ips n d)
]

-- How many addresses of the subnet the statistics count
abbrev counted : Cidr → PurgeStats → ℕ
counted k [] = 0
counted k ((c, n) ∷ ps) = (if c == k then n else 0) + counted k ps

counted-tally :
    (k c : Cidr) (n : ℕ) (ps : PurgeStats)
    → counted k (tally c n ps) ≡ (if c == k then n else 0) + counted k ps
counted-tally k c zero ps = ground arith
counted-tally k c (suc n) ps = ground arith

allocated_lem :
    (freed : List IpNet) (k : Cidr) (m : Map Cidr (List Cidr))
    → All IsEntry m
    → (ls ls' : Map ℕ Lease)
    → allocated_count k (record { leases = ls; subnets = m })
      ≤ allocated_count k (record { leases = ls'; subnets = cleared freed m })
        + counted k (stats freed m)
allocated_lem freed k [] h ls ls' = ground arith
allocated_lem freed k ((c, ips) ∷ m) h ls ls' = elim (Bool-cases (c == k)) [
  | inl same ↦ ground (
    arith,
    same,
    length-free_within (restored c) freed ips 0 h.0.1,
    counted-tally k c (free_within (restored c) freed ips 0).1 (stats freed m),
  )
  | inr other ↦ ground (
    arith,
    other,
    allocated_lem freed k m h.1 ls ls',
    counted-tally k c (free_within (restored c) freed ips 0).1 (stats freed m),
  )
]

fewer : (z : ℤ) (a n : ℕ) → z ≤ℤ pos (n + a) → z +ℤ negated n ≤ℤ pos a
unfolding ◌+ℤ◌
fewer z a zero h = ground (arith, h)
fewer z a (suc n) h = ground (arith, h)

gauge-sub_all :
    (k : Cidr) (ps : PurgeStats) (m : Map Cidr ℤ) (a : ℕ)
    → gauge_of k m ≤ℤ pos (counted k ps + a)
    → gauge_of k (sub_all ps m) ≤ℤ pos a
unfolding sub_all
gauge-sub_all k [] m a h = omega (arith, h)
gauge-sub_all k ((c, n) ∷ ps) m a h =
    gauge-sub_all k ps (add_to c (negated n) m) a (elim (Bool-cases (c == k)) [
      | inl same ↦
          let here : c ≡ k = (cidr_beq_iff c k).0 same in
          let at_k : gauge_of k m ≤ℤ pos (n + (counted k ps + a)) = ground (arith, same, h) in
          let at_c : gauge_of c m ≤ℤ pos (n + (counted k ps + a)) =
            subst (λ (x : Cidr). gauge_of x m ≤ℤ pos (n + (counted k ps + a))) (sym here) at_k in
          ground (
            arith,
            lookup-insert c k (gauge_of c m +ℤ negated n) m,
            same,
            fewer (gauge_of c m) (counted k ps + a) n at_c,
          )
      | inr other ↦ ground (arith, lookup-insert c k (gauge_of c m +ℤ negated n) m, other, h)
    ])

-- The gauge of `c` moves by `d`, and its set becomes `ips`.
IsAtMost-after :
    (c k : Cidr) (d : ℤ) (ips : List Cidr) (s : Memory) (g : Gauges)
    → IsAtMost k (s, g)
    → (gauge_of c g.ips_allocated ≤ℤ pos (allocated_count c s)
        → gauge_of c g.ips_allocated +ℤ d ≤ℤ pos (length ips))
    → IsAtMost k (
      record s { subnets = insert c ips s.subnets },
      record g { ips_allocated = add_to c d g.ips_allocated },
    )
IsAtMost-after c k d ips s g h moved = elim (Bool-cases (c == k)) [
  | inl same ↦
      let here : IsAtMost c (s, g) =
        subst (λ (x : Cidr). IsAtMost x (s, g)) (sym ((cidr_beq_iff c k).0 same)) h in
      ground (
        arith,
        lookup-insert c k (gauge_of c g.ips_allocated +ℤ d) g.ips_allocated,
        lookup-insert c k ips s.subnets,
        same,
        moved here,
      )
  | inr other ↦ ground (
    arith,
    lookup-insert c k (gauge_of c g.ips_allocated +ℤ d) g.ips_allocated,
    lookup-insert c k ips s.subnets,
    other,
    h,
  )
]

one_more : (z : ℤ) (a : ℕ) → z ≤ℤ pos a → z +ℤ pos 1 ≤ℤ pos (suc a)
unfolding ◌+ℤ◌
one_more z a h = ground (arith, h)

-- A memoryStore whose Purge has a given outcome
abbrev purging : Result PurgeStats × Memory → Store Memory
purging r = record memory_ops { purge = λ _ _. r }

module _ (current_time : ℕ → ℤ) where
  allocate_ip-IsAtMost :
      (sub ip : IpNet) (k : Cidr) (w : Memory × Gauges)
      → IsAtMost k w
      → IsAtMost k (allocate_ip memory_ops current_time sub ip w).1
  unfolding allocate_ip
  allocate_ip-IsAtMost sub ip k (s, g) h =
      allocate_ip_cases sub ip s
        (λ r. IsAtMost k (allocate_ip (allocating r) current_time sub ip (s, g)).1) (λ _. h)
        (λ _ _. h) (λ _ _ _ _. h)
        (λ ips inside found new. IsAtMost-after (string sub) k (pos 1) (string ip ∷ ips) s g h (λ e.
          one_more (gauge_of (string sub) g.ips_allocated) (length ips) (
            subst (λ (n : ℕ). gauge_of (string sub) g.ips_allocated ≤ℤ pos n)
              (count_of (string sub) ips s found) e)))

  free_ip-IsAtMost :
      (sub ip : IpNet) (k : Cidr) (w : Memory × Gauges)
      → IsValid w.0
      → IsAtMost k w
      → IsAtMost k (free_ip memory_ops current_time sub ip w).1
  unfolding free_ip
  free_ip-IsAtMost sub ip k (s, g) v h =
      free_ip_cases sub ip s (λ r. IsAtMost k (free_ip (freeing r) current_time sub ip (s, g)).1)
        (λ _. h) (λ _ _. h)
        (λ ips inside found.
          IsAtMost-after (string sub) k (negsuc 0) (discard (string ip) ips) s g h (λ e.
            fewer (gauge_of (string sub) g.ips_allocated) (length (discard (string ip) ips)) 1
              (at_least ips found e)))
    where
      at_least :
          (ips : List Cidr)
          → lookup (string sub) s.subnets ≡ some ips
          → gauge_of (string sub) g.ips_allocated ≤ℤ pos (allocated_count (string sub) s)
          → gauge_of (string sub) g.ips_allocated ≤ℤ pos (1 + length (discard (string ip) ips))
      at_least ips found e = omega (
        arith,
        e,
        count_of (string sub) ips s found,
        length-discard (string ip) ips
            (All-lookup IsEntry (string sub) ips s.subnets v.entries found).1,
      )

  purge-IsAtMost :
      (t : ℤ) (k : Cidr) (w : Memory × Gauges)
      → IsValid w.0
      → IsAtMost k w
      → IsAtMost k (purge memory_ops current_time t w).1
  unfolding purge
  purge-IsAtMost t k (s, g) v h =
      let freed = (sweep_leases t s.leases).1 in
      let kept = (sweep_leases t s.leases).0 in
      subst
        (λ (r : Result PurgeStats × Memory). IsAtMost k (purge (purging r) current_time t (s, g)).1)
        (sym (purge_lem t s v))
        (gauge-sub_all k (stats freed s.subnets) g.ips_allocated
          (allocated_count k (record s { leases = kept; subnets = cleared freed s.subnets }))
          (omega (arith, h, allocated_lem freed k s.subnets v.entries s.leases kept)))

  -- Around a valid memoryStore the gauge of a subnet never shows more addresses than are allocated:
  -- if it does not, it does not after AllocateIP, FreeIP and Purge either, whatever their outcome.
  pub gauges-IsAtMost :
      (sub ip : IpNet) (t : ℤ) (k : Cidr) (w : Memory × Gauges)
      → IsValid w.0
      → IsAtMost k w
      → IsAtMost k (allocate_ip memory_ops current_time sub ip w).1
        × IsAtMost k (free_ip memory_ops current_time sub ip w).1
        × IsAtMost k (purge memory_ops current_time t w).1
  gauges-IsAtMost sub ip t k w v h =
      (allocate_ip-IsAtMost sub ip k w h, free_ip-IsAtMost sub ip k w v h, purge-IsAtMost t k w v h)
