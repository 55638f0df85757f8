-- ===== src/Metrics.antt =====
-- metrics.go: metricsIPStore, a Store that counts what its inner Store does. A Prometheus gauge is
-- an integer, which float64 holds exactly up to 2 ^ 53.
pub mod Wrapped
pub mod Transparent
pub mod Gauge
pub mod Bounds
use wgipam.Base.{
  ℕ, zero, suc, ◌+◌, ◌^◌, ltb, Bool, true, false, not, ◌&&◌, Option, none, some, List, [], ◌∷◌,
  if◌then◌else◌,
}
use wgipam.Base.{length}
use wgipam.Base.Int.{ℤ, pos, negsuc, ◌+ℤ◌}
use wgipam.Base.Map.{Map, lookup, insert}
use wgipam.Base.Result.{Result, ok, err, panic, hang, M}
use wgipam.Net.{Ip, IpNet, Cidr, cidr_eq, string, contains}
use wgipam.Store.{Store, PurgeStats}
use wgipam.IpAllocator.{IpAddr}
use wgipam.IpAllocator.Subnet.{Subnet, is_set}

-- A size as a float64: a whole number, or infinity
pub data Size : Type 0 where
  finite : ℤ → Size
  infinite : Size

-- The gauges of metricsIPStore, by their labels, and how often the clock was read
pub record Gauges : Type 0 where
  pub ips_allocated : Map Cidr ℤ
  pub subnet_allocatable_size : Map Cidr Size
  pub last_purge : Option ℤ
  pub readings : ℕ

abbrev pub gauge_of : Cidr → Map Cidr ℤ → ℤ
gauge_of c m = elim (lookup c m) [ none ↦ pos 0 | some v ↦ v ]

-- `WithLabelValues(c).Add(v)`
abbrev pub add_to : Cidr → ℤ → Map Cidr ℤ → Map Cidr ℤ
add_to c v m = insert c (gauge_of c m +ℤ v) m

abbrev pub negated : ℕ → ℤ
negated zero = pos 0
negated (suc n) = negsuc n

-- Purge, the loop over the statistics
unfoldable pub sub_all : PurgeStats → Map Cidr ℤ → Map Cidr ℤ
sub_all [] m = m
sub_all ((c, n) ∷ ps) m = sub_all ps (add_to c (negated n) m)

-- github.com/mikioh/ipaddr: Prefix.Last and Summarize
pub record Summaries : Type 0 where
  pub last : IpNet → Ip
  pub summarize : Ip → Ip → List IpNet

-- `size += n` and `size--`
abbrev pub plus : Size → ℤ → Size
plus (finite a) b = finite (a +ℤ b)
plus infinite b = infinite

-- allocatableSize, the loop over the reserved addresses
unfoldable pub less_reserved : IpNet → List Ip → Size → Size
less_reserved p [] size = size
less_reserved p (r ∷ rs) size =
    less_reserved p rs (if contains p r then plus size (negsuc 0) else size)

module _ (pkg : IpAddr) (sums : Summaries) where
  -- allocatableSize, the loop over the prefixes
  unfoldable pub sum_sizes : List IpNet → List Ip → Size → Size
  unfolding less_reserved
  sum_sizes [] reserved size = size
  sum_sizes (p ∷ ps) reserved size = sum_sizes ps reserved (
      less_reserved p reserved
        (if ltb (pkg.num_nodes p) (2 ^ 64) then plus size (pos (pkg.num_nodes p)) else infinite))

  -- allocatableSize
  unfoldable pub allocatable_size : Subnet → Size
  unfolding sum_sizes
  allocatable_size s =
      if not (is_set s.subnet.ip)
      then finite (pos 0)
      else let p = pkg.new_prefix s.subnet in
        let first = if is_set s.start then s.start else s.subnet.ip in
        let final = if is_set s.last then s.last else sums.last p in
        sum_sizes
          (if not (is_set s.start) && not (is_set s.last)
            then p ∷ []
            else sums.summarize first final)
          s.reserved (finite (pos 0))

  -- IPStoreMetrics, the loop over the subnets that are served
  unfoldable pub set_sizes : List Subnet → Map Cidr Size → Map Cidr Size
  unfolding allocatable_size
  set_sizes [] m = m
  set_sizes (s ∷ ss) m = set_sizes ss (insert (string s.subnet) (allocatable_size s) m)

-- `current_time` is what the clock reads, one reading after another.
module _ {S : Type 0} (st : Store S) (current_time : ℕ → ℤ) where
  abbrev pub W : Type 0
  W = S × Gauges

  -- IPStoreMetrics, the loop over the registered subnets
  unfoldable pub set_allocated : List IpNet → M W Unit
  set_allocated [] w = (ok tt, w)
  set_allocated (r ∷ rs) (s, g) =
      let (ips, s') = st.allocated_ips r s in
      elim ips [
        | ok xs ↦
            set_allocated rs
              (s', record g { ips_allocated = insert (string r) (pos (length xs)) g.ips_allocated })
        | err e ↦ (err e, (s', g))
        | panic ↦ (panic, (s', g))
        | hang ↦ (hang, (s', g))
      ]

  -- IPStoreMetrics; every gauge starts at zero
  unfoldable pub ip_store_metrics : IpAddr → Summaries → List Subnet → M W Unit
  unfolding set_sizes set_allocated
  ip_store_metrics pkg sums served (s, g) =
      let sizes = set_sizes pkg sums served [] in
      let fresh : Gauges = record g {
        ips_allocated = [];
        subnet_allocatable_size = sizes;
        last_purge = none;
      } in
      let (registered, s') = st.subnets s in
      elim registered [
        | ok rs ↦ set_allocated rs (s', fresh)
        | err e ↦ (err e, (s', fresh))
        | panic ↦ (panic, (s', fresh))
        | hang ↦ (hang, (s', fresh))
      ]

  -- AllocateIP
  unfoldable pub allocate_ip : IpNet → IpNet → M W Bool
  allocate_ip sub ip (s, g) =
      let (r, s') = st.allocate_ip sub ip s in
      elim r [
        | ok true ↦ (
          ok true,
          (s', record g { ips_allocated = add_to (string sub) (pos 1) g.ips_allocated }),
        )
        | ok false ↦ (ok false, (s', g))
        | err e ↦ (err e, (s', g))
        | panic ↦ (panic, (s', g))
        | hang ↦ (hang, (s', g))
      ]

  -- FreeIP
  unfoldable pub free_ip : IpNet → IpNet → M W Unit
  free_ip sub ip (s, g) =
      let (r, s') = st.free_ip sub ip s in
      elim r [
        | ok _ ↦ (
          ok tt,
          (s', record g { ips_allocated = add_to (string sub) (negsuc 0) g.ips_allocated }),
        )
        | err e ↦ (err e, (s', g))
        | panic ↦ (panic, (s', g))
        | hang ↦ (hang, (s', g))
      ]

  -- Purge
  unfoldable pub purge : ℤ → M W PurgeStats
  unfolding sub_all
  purge t (s, g) =
      let (r, s') = st.purge t s in
      elim r [
        | ok stats ↦ (
          ok stats,
          (
            s',
            record g {
              ips_allocated = sub_all stats g.ips_allocated;
              last_purge = some (current_time g.readings);
              readings = g.readings + 1;
            },
          ),
        )
        | err e ↦ (err e, (s', g))
        | panic ↦ (panic, (s', g))
        | hang ↦ (hang, (s', g))
      ]

  -- A method of the embedded Store
  abbrev pub embedded : {A : Type 0} → M S A → M W A
  embedded m (s, g) = let (r, s') = m s in (r, (s', g))

  -- metricsIPStore
  abbrev pub metrics_ip_store : Store W
  metrics_ip_store = record {
    lease_store = record {
      leases = embedded st.leases;
      lease = λ key. embedded (st.lease key);
      save_lease = λ key l. embedded (st.save_lease key l);
      delete_lease = λ key. embedded (st.delete_lease key);
    };
    ip_store = record {
      subnets = embedded st.subnets;
      save_subnet = λ sub. embedded (st.save_subnet sub);
      allocated_ips = λ sub. embedded (st.allocated_ips sub);
      allocate_ip = allocate_ip;
      free_ip = free_ip;
    };
    close = embedded st.close;
    purge = purge;
  }
