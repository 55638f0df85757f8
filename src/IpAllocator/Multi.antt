-- ===== src/IpAllocator/Multi.antt =====
-- ipallocator.go: multiIPAllocator. The map from families to allocators is a pair of lists, and its
-- allocators are those that DualStackIPAllocator makes, one for each subnet.
pub mod Each
pub mod Split
pub mod Setup
pub mod Frees
pub mod Allocate
use wgipam.Base.{
  Bool, true, false, Option, none, some, List, [], ◌∷◌, ◌++◌, nat_eq, ◌==◌, ◌||◌, if◌then◌else◌,
}
use wgipam.Base.Result.{
  Result, ok, err, panic, hang, M, pure, fail, lift, ◌>>=◌, ◌>>◌, no_subnets, failed_to_free,
}
use wgipam.Net.{Ip, IpNet, to4}
use wgipam.Family.{Family, ipv4, ipv6, dual_stack, ip_family}
use wgipam.Store.{IpStore}
use wgipam.IpAllocator.{IpAddr, IpAllocator}
use wgipam.IpAllocator.Subnet.{Subnet}
use wgipam.IpAllocator.Simple
use wgipam.IpAllocator.Simple.{Simple, simple_ip_allocator}

-- DualStackIPAllocator, the split: IPv4 subnets, and the others
unfoldable pub split_subnets : List Subnet → List Subnet × List Subnet
split_subnets [] = ([], [])
split_subnets (s ∷ ss) =
    let (sub4, sub6) = split_subnets ss in
    elim (to4 s.subnet.ip) [ some _ ↦ (s ∷ sub4, sub6) | none ↦ (sub4, s ∷ sub6) ]

-- `len(out) == 0`
abbrev pub is_empty {ℓ} : {A : Type ℓ} → List A → Bool
is_empty [] = true
is_empty (x ∷ xs) = false

module _ (pkg : IpAddr) where
  -- multiIPAllocator
  pub record Multi : Type 0 where
    pub v4 : List (Simple pkg)
    pub v6 : List (Simple pkg)

  -- `mia.m[f]`
  abbrev pub pick : Family → Multi → List (Simple pkg)
  pick f m = if f == ipv4 then m.v4 else if f == ipv6 then m.v6 else []

  -- The allocators of a family after their cursors have moved
  abbrev pub put : Family → List (Simple pkg) → Multi → Multi
  put f ipas m =
      if f == ipv4 then record m { v4 = ipas } else if f == ipv6 then record m { v6 = ipas } else m

module _ (pkg : IpAddr) {S : Type 0} (store : IpStore S) where
  abbrev pub W : Type 0
  W = Multi pkg × S

  -- What tryAllocate returns: `out` beside its flag and error.
  abbrev pub Tried : Type 0
  Tried = List IpNet × Result Bool

  -- tryAllocate, the inner loop: an address from each allocator, up to the first that fails
  unfoldable pub allocate_each :
      Family → List (Simple pkg) → List IpNet → S → Tried × List (Simple pkg) × S
  allocate_each f [] out st = ((out, ok true), [], st)
  allocate_each f (a ∷ ipas) out st =
      let (r, (a', st')) = Simple.allocate pkg store f (a, st) in
      elim r [
        | ok none ↦ ((out, ok false), a' ∷ ipas, st')
        | ok (some ips) ↦
            let (tried, ipas', st'') = allocate_each f ipas (out ++ ips) st' in
            (tried, a' ∷ ipas', st'')
        | err e ↦ ((out, err e), a' ∷ ipas, st')
        | panic ↦ ((out, panic), a' ∷ ipas, st')
        | hang ↦ ((out, hang), a' ∷ ipas, st')
      ]

  -- tryAllocate
  unfoldable pub try_allocate : List Family → List IpNet → W → Tried × W
  unfolding allocate_each
  try_allocate [] out w = ((out, ok (if is_empty out then false else true)), w)
  try_allocate (f ∷ fs) out (m, st) =
      let ((out', r), ipas, st') = allocate_each f (pick pkg f m) out st in
      let w' : W = (put pkg f ipas m, st') in
      elim r [
        | ok true ↦ try_allocate fs out' w'
        | ok false ↦ ((out', ok false), w')
        | err e ↦ ((out', err e), w')
        | panic ↦ ((out', panic), w')
        | hang ↦ ((out', hang), w')
      ]

  -- The loop of Free
  unfoldable pub free_each : IpNet → List (Simple pkg) → M S Unit
  free_each ip [] st = (ok tt, st)
  free_each ip (a ∷ ipas) st =
      let (r, (_, st')) = Simple.free pkg store ip (a, st) in
      elim r [
        | ok _ ↦ free_each ip ipas st'
        | err e ↦ (err e, st')
        | panic ↦ (panic, st')
        | hang ↦ (hang, st')
      ]

  -- Free
  unfoldable pub free : IpNet → M W Unit
  unfolding free_each ip_family
  free ip (m, st) = elim (ip_family ip) [
    | ok f ↦ let (r, st') = free_each ip (pick pkg f m) st in (r, (m, st'))
    | err e ↦ (err e, (m, st))
    | panic ↦ (panic, (m, st))
    | hang ↦ (hang, (m, st))
  ]

  -- The clean-up of Allocate
  unfoldable pub free_all : List IpNet → M W Unit
  unfolding free
  free_all [] w = (ok tt, w)
  free_all (ip ∷ ips) w =
      let (r, w') = free ip w in
      elim r [
        | ok _ ↦ free_all ips w'
        | err e ↦ (err failed_to_free, w')
        | panic ↦ (panic, w')
        | hang ↦ (hang, w')
      ]

  -- Allocate, after tryAllocate: the addresses, or their release and the failure
  unfoldable pub settle : Tried × W → Result (Option (List IpNet)) × W
  unfolding free_all
  settle ((ips, ok true), w) = (ok (some ips), w)
  settle ((ips, ok false), w) = (free_all ips >> pure none) w
  settle ((ips, err e), w) = (free_all ips >> fail e) w
  settle ((ips, panic), w) = (panic, w)
  settle ((ips, hang), w) = (hang, w)

  -- Allocate
  unfoldable pub allocate : Family → M W (Option (List IpNet))
  unfolding try_allocate settle
  allocate family w =
      if family == ipv4 || family == ipv6
      then settle (try_allocate (family ∷ []) [] w)
      else if family == dual_stack
      then settle (try_allocate (ipv4 ∷ ipv6 ∷ []) [] w)
      else (panic, w)

  -- DualStackIPAllocator, one of its two loops
  unfoldable pub make_each : List Subnet → M S (List (Simple pkg))
  make_each [] = pure []
  make_each (s ∷ ss) = do a ← simple_ip_allocator pkg store s; ipas ← make_each ss; pure (a ∷ ipas)

  -- DualStackIPAllocator
  unfoldable pub dual_stack_ip_allocator : List Subnet → M S (Multi pkg)
  unfolding split_subnets make_each
  dual_stack_ip_allocator subnets = if is_empty subnets then fail no_subnets else (do
    v4 ← make_each (split_subnets subnets).0
    v6 ← make_each (split_subnets subnets).1
    pure (record { v4 = v4; v6 = v6 }))

  -- multiIPAllocator as an IPAllocator
  abbrev pub multi_ip_allocator : IpAllocator W
  multi_ip_allocator = record { allocate = allocate; free = free }
