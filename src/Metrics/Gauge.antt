-- ===== src/Metrics/Gauge.antt =====
-- metricsIPStore (metrics.go) around a memoryStore: the gauge of a subnet shows how many of its
-- addresses are allocated.
use wgipam.Base.{
  ℕ, suc, ◌+◌, ◌≡◌, refl, Bool, true, false, none, some, List, [], ◌∷◌, arith, length, ◌==◌, ◌∙◌,
  sym, ap, subst, Bool-cases, inl, inr,
}
use wgipam.Base.Int.{ℤ, pos, negsuc, ◌+ℤ◌}
use wgipam.Base.Map.{
  lookup, insert, member, discard, discard-absent, Distinct, lookup-insert, All-lookup,
}
use wgipam.Base.Sets.{holds}
use wgipam.Base.Result.{Result}
use wgipam.Net.{IpNet, Cidr, cidr_eq, cidr_beq_iff, string}
use wgipam.Store.{Store}
use wgipam.Store.Memory.{Memory}
use wgipam.Store.Memory.Cases.{allocate_ip_cases, free_ip_cases}
use wgipam.Store.Memory.Valid.{IsValid, IsEntry}
use wgipam.Store.Memory.Laws.{memory_ops}
use wgipam.Metrics.{Gauges, gauge_of, add_to, allocate_ip, free_ip}

-- How many addresses are allocated from the subnet
abbrev pub allocated_count : Cidr → Memory → ℕ
allocated_count k s = elim (lookup k s.subnets) [ none ↦ 0 | some ips ↦ length ips ]

abbrev pub IsExact : Cidr → Memory × Gauges → Type 0
IsExact k (s, g) = gauge_of k g.ips_allocated ≡ pos (allocated_count k s)

-- The gauge of `c` moves by `d`, and its set becomes `ips`.
IsExact-after :
    (c k : Cidr) (d : ℤ) (ips : List Cidr) (s : Memory) (g : Gauges)
    → IsExact k (s, g)
    → (gauge_of c g.ips_allocated ≡ pos (allocated_count c s)
        → gauge_of c g.ips_allocated +ℤ d ≡ pos (length ips))
    → IsExact k (
      record s { subnets = insert c ips s.subnets },
      record g { ips_allocated = add_to c d g.ips_allocated },
    )
IsExact-after c k d ips s g h moved = elim (Bool-cases (c == k)) [
  | inl same ↦
      let here : IsExact c (s, g) =
        subst (λ (x : Cidr). IsExact x (s, g)) (sym ((cidr_beq_iff c k).0 same)) h in
      ground (
        arith,
        lookup-insert c k (gauge_of c g.ips_allocated +ℤ d) g.ips_allocated,
        lookup-insert c k ips s.subnets,
        same,
        moved here,
      )
  | inr other ↦ ground (
    arith,
    lookup-insert c k (gauge_of c g.ips_allocated +ℤ d) g.ips_allocated,
    lookup-insert c k ips s.subnets,
    other,
    h,
  )
]

pub count_of :
    (c : Cidr) (ips : List Cidr) (s : Memory)
    → lookup c s.subnets ≡ some ips
    → allocated_count c s ≡ length ips
count_of c ips s h = rw (h, allocated_count) refl

one_more : (n : ℕ) → pos n +ℤ pos 1 ≡ pos (suc n)
unfolding ◌+ℤ◌
one_more n = ground arith

one_less : (m n : ℕ) → m + 1 ≡ n → pos n +ℤ negsuc 0 ≡ pos m
unfolding ◌+ℤ◌
one_less m n h = ground arith

length-discard :
    (c : Cidr) (ips : List Cidr)
    → Distinct ips
    → member c ips ≡ true
    → length (discard c ips) + 1 ≡ length ips
length-discard c [] d h = absurd (cc h)
length-discard c (x ∷ xs) d h = elim (Bool-cases (x == c)) [
  | inl same ↦
      let absent : member c xs ≡ false =
        subst (λ (y : Cidr). member y xs ≡ false) ((cidr_beq_iff x c).0 same) d.0 in
      ground (arith, same, ap length (discard-absent c xs absent))
  | inr other ↦ ground (arith, other, h, length-discard c xs d.1)
]

-- A memoryStore whose AllocateIP or FreeIP has a given outcome
abbrev pub allocating : Result Bool × Memory → Store Memory
allocating r = record memory_ops {
  ip_store = record memory_ops.ip_store { allocate_ip = λ _ _ _. r };
}

abbrev pub freeing : Result (Unit {0}) × Memory → Store Memory
freeing r = record memory_ops { ip_store = record memory_ops.ip_store { free_ip = λ _ _ _. r } }

module _ (current_time : ℕ → ℤ) where
  -- AllocateIP keeps the gauge of every subnet exact, whatever its outcome.
  pub allocate_ip-IsExact :
      (sub ip : IpNet) (k : Cidr) (w : Memory × Gauges)
      → IsExact k w
      → IsExact k (allocate_ip memory_ops current_time sub ip w).1
  unfolding allocate_ip
  allocate_ip-IsExact sub ip k (s, g) h =
      allocate_ip_cases sub ip s
        (λ r. IsExact k (allocate_ip (allocating r) current_time sub ip (s, g)).1) (λ _. h)
        (λ _ _. h) (λ _ _ _ _. h)
        (λ ips inside found new. IsExact-after (string sub) k (pos 1) (string ip ∷ ips) s g h (λ e.
          ap (λ (z : ℤ). z +ℤ pos 1) (e ∙ ap pos (count_of (string sub) ips s found))
          ∙ one_more (length ips)))

  -- FreeIP of an address that is allocated in a valid store keeps the gauge of every subnet exact.
  pub free_ip-IsExact :
      (sub ip : IpNet) (k : Cidr) (w : Memory × Gauges)
      → IsValid w.0
      → holds (string sub) (string ip) w.0.subnets ≡ true
      → IsExact k w
      → IsExact k (free_ip memory_ops current_time sub ip w).1
  unfolding free_ip
  free_ip-IsExact sub ip k (s, g) v taken h =
      free_ip_cases sub ip s (λ r. IsExact k (free_ip (freeing r) current_time sub ip (s, g)).1)
        (λ _. h) (λ _ _. h)
        (λ ips inside found.
          IsExact-after (string sub) k (negsuc 0) (discard (string ip) ips) s g h (λ e.
            ap (λ (z : ℤ). z +ℤ negsuc 0) (e ∙ ap pos (count_of (string sub) ips s found))
            ∙ one_less (length (discard (string ip) ips)) (length ips) (
                length-discard (string ip) ips
                  (All-lookup IsEntry (string sub) ips s.subnets v.entries found).1
                  (rw (found, holds) at taken))))
