-- ===== src/Store/Memory/Cases.antt =====
-- The branches of memoryStore's AllocateIP and FreeIP (store.go), for proofs that split on them.
use wgipam.Base.{◌≡◌, Bool, true, false, none, some, List, ◌∷◌, Option-cases, Bool-cases, inl, inr}
use wgipam.Base.Map.{lookup, insert, member, discard}
use wgipam.Base.Result.{Result, ok, err, no_such_subnet, cannot_contain}
use wgipam.Net.{IpNet, Cidr, cidr_eq, string, contains}
use wgipam.Store.Memory.{Memory, allocate_ip, free_ip}

module _ (sub ip : IpNet) (s : Memory) where
  pub allocate_ip_cases {ℓ} :
      (P : Result Bool × Memory → Type ℓ)
      → (contains sub ip.ip ≡ false → P (err cannot_contain, s))
      → (contains sub ip.ip ≡ true
          → lookup (string sub) s.subnets ≡ none
          → P (err no_such_subnet, s))
      → ((ips : List Cidr)
          → contains sub ip.ip ≡ true
          → lookup (string sub) s.subnets ≡ some ips
          → member (string ip) ips ≡ true
          → P (ok false, s))
      → ((ips : List Cidr)
          → contains sub ip.ip ≡ true
          → lookup (string sub) s.subnets ≡ some ips
          → member (string ip) ips ≡ false
          → P (ok true, record s { subnets = insert (string sub) (string ip ∷ ips) s.subnets }))
      → P (allocate_ip sub ip s)
  unfolding allocate_ip
  allocate_ip_cases P outside missing taken free = elim (Bool-cases (contains sub ip.ip)) [
    | inr out ↦ rw (out, allocate_ip) (outside out)
    | inl within ↦ elim (Option-cases (lookup (string sub) s.subnets)) [
      | inl e ↦ rw (within, allocate_ip, e) (missing within e)
      | inr (ips, e) ↦ elim (Bool-cases (member (string ip) ips)) [
        | inl m ↦ rw (within, allocate_ip, e, m) (taken ips within e m)
        | inr m ↦ rw (within, allocate_ip, e, m) (free ips within e m)
      ]
    ]
  ]

  pub free_ip_cases {ℓ} :
      (P : Result Unit × Memory → Type ℓ)
      → (contains sub ip.ip ≡ false → P (err cannot_contain, s))
      → (contains sub ip.ip ≡ true
          → lookup (string sub) s.subnets ≡ none
          → P (err no_such_subnet, s))
      → ((ips : List Cidr)
          → contains sub ip.ip ≡ true
          → lookup (string sub) s.subnets ≡ some ips
          → P (
            ok tt,
            record s { subnets = insert (string sub) (discard (string ip) ips) s.subnets },
          ))
      → P (free_ip sub ip s)
  unfolding free_ip
  free_ip_cases P outside missing done = elim (Bool-cases (contains sub ip.ip)) [
    | inr out ↦ rw (out, free_ip) (outside out)
    | inl within ↦ elim (Option-cases (lookup (string sub) s.subnets)) [
      | inl e ↦ rw (within, free_ip, e) (missing within e)
      | inr (ips, e) ↦ rw (within, free_ip, e) (done ips within e)
    ]
  ]
