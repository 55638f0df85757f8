-- ===== src/Metrics/Transparent.antt =====
-- metricsIPStore (metrics.go) returns what the Store that it wraps returns.
use wgipam.Base.{ℕ, ◌≡◌, refl, Bool, true, false, arith}
use wgipam.Base.Int.{ℤ}
use wgipam.Base.Result.{Result, ok, err, panic, hang}
use wgipam.Net.{IpNet}
use wgipam.Lease.{Lease}
use wgipam.Store.{Store, PurgeStats}
use wgipam.Metrics.{Gauges, metrics_ip_store, allocate_ip, free_ip, purge}

-- The result and the state of the wrapped Store
abbrev pub shown {ℓ} : {S : Type 0} {A : Type ℓ} → Result A × (S × Gauges) → Result A × S
shown (r, (s, g)) = (r, s)

module _ {S : Type 0} (st : Store S) (current_time : ℕ → ℤ) where
  allocate_ip_lem :
      (sub ip : IpNet) (s : S) (g : Gauges) (r : Result Bool)
      → (st.allocate_ip sub ip s).0 ≡ r
      → shown (allocate_ip st current_time sub ip (s, g)) ≡ st.allocate_ip sub ip s
  unfolding allocate_ip
  allocate_ip_lem sub ip s g (ok true) e = ground (arith, e)
  allocate_ip_lem sub ip s g (ok false) e = ground (arith, e)
  allocate_ip_lem sub ip s g (err x) e = ground (arith, e)
  allocate_ip_lem sub ip s g panic e = ground (arith, e)
  allocate_ip_lem sub ip s g hang e = ground (arith, e)

  free_ip_lem :
      (sub ip : IpNet) (s : S) (g : Gauges) (r : Result Unit)
      → (st.free_ip sub ip s).0 ≡ r
      → shown (free_ip st current_time sub ip (s, g)) ≡ st.free_ip sub ip s
  unfolding free_ip
  free_ip_lem sub ip s g (ok x) e = ground (arith, e)
  free_ip_lem sub ip s g (err x) e = ground (arith, e)
  free_ip_lem sub ip s g panic e = ground (arith, e)
  free_ip_lem sub ip s g hang e = ground (arith, e)

  purge_lem :
      (t : ℤ) (s : S) (g : Gauges) (r : Result PurgeStats)
      → (st.purge t s).0 ≡ r
      → shown (purge st current_time t (s, g)) ≡ st.purge t s
  unfolding purge
  purge_lem t s g (ok x) e = ground (arith, e)
  purge_lem t s g (err x) e = ground (arith, e)
  purge_lem t s g panic e = ground (arith, e)
  purge_lem t s g hang e = ground (arith, e)

  -- Around any Store, and whatever it does, every method of metricsIPStore returns what that of the
  -- Store returns, errors included, and leaves the Store as that does.
  pub metrics_ip_store-IsTransparent :
      (key : ℕ) (l : Lease) (sub ip : IpNet) (t : ℤ) (s : S) (g : Gauges)
      → let m = metrics_ip_store st current_time in
        (shown (m.allocate_ip sub ip (s, g)) ≡ st.allocate_ip sub ip s)
        × (shown (m.free_ip sub ip (s, g)) ≡ st.free_ip sub ip s)
        × (shown (m.purge t (s, g)) ≡ st.purge t s)
        × (shown (m.leases (s, g)) ≡ st.leases s)
        × (shown (m.lease key (s, g)) ≡ st.lease key s)
        × (shown (m.save_lease key l (s, g)) ≡ st.save_lease key l s)
        × (shown (m.delete_lease key (s, g)) ≡ st.delete_lease key s)
        × (shown (m.subnets (s, g)) ≡ st.subnets s)
        × (shown (m.save_subnet sub (s, g)) ≡ st.save_subnet sub s)
        × (shown (m.allocated_ips sub (s, g)) ≡ st.allocated_ips sub s)
        × (shown (m.close (s, g)) ≡ st.close s)
  metrics_ip_store-IsTransparent key l sub ip t s g = (
    allocate_ip_lem sub ip s g (st.allocate_ip sub ip s).0 refl,
    free_ip_lem sub ip s g (st.free_ip sub ip s).0 refl,
    purge_lem t s g (st.purge t s).0 refl,
    refl,
    refl,
    refl,
    refl,
    refl,
    refl,
    refl,
    refl,
  )
