-- ===== src/Server.antt =====
-- internal/wgipamd/server.go: what runServer connects for one interface. The Handler's leases and
-- the allocators share one Store, and a ticker purges it. Requests and purges are taken one at a
-- time.
pub mod Sound
pub mod Release
pub mod Running
pub mod Start
pub mod Cases
pub mod Requests
pub mod Replies
pub mod Daemon
pub mod Registered
pub mod Ready
use wgipam.Base.{ℕ, List, [], ◌∷◌}
use wgipam.Base.Int.{ℤ}
use wgipam.Base.Result.{Result, M}
use wgipam.Store.{LeaseStore, Store, PurgeStats}
use wgipam.IpAllocator.{IpAddr, IpAllocator}
use wgipam.IpAllocator.Multi.{Multi, multi_ip_allocator}
use wgipam.Handler.{RequestIp, Clock, request_ip}

pub data Event : Type 0 where
  requests : ℕ → RequestIp → Clock → Event
  ticks : ℤ → Event

module _ (pkg : IpAddr) {S : Type 0} (st : Store S) (lease_duration : ℤ) where
  -- One interface's state: its allocators' cursors and its store
  abbrev pub State : Type 0
  State = Multi pkg × S

  abbrev pub on_store : {A : Type 0} → M S A → M State A
  on_store m (a, s) = let (r, s') = m s in (r, (a, s'))

  -- `Leases: store`
  abbrev pub leases : LeaseStore State
  leases = record {
    leases = on_store st.leases;
    lease = λ key. on_store (st.lease key);
    save_lease = λ key l. on_store (st.save_lease key l);
    delete_lease = λ key. on_store (st.delete_lease key);
  }

  -- `IPs: ipa`
  abbrev pub allocator : IpAllocator State
  allocator = multi_ip_allocator pkg st.ip_store

  -- `RequestIP: h.RequestIP`, less its metrics
  unfoldable pub request : ℕ → RequestIp → Clock → M State RequestIp
  request key req clock = request_ip leases allocator lease_duration key req clock

  -- `ips.Purge(t)` in the ticker's loop, whose error is only logged
  unfoldable pub purge : ℤ → M State PurgeStats
  purge t = on_store (st.purge t)

  unfoldable pub step : Event → State → State
  unfolding request purge
  step (requests key req clock) w = (request key req clock w).1
  step (ticks t) w = (purge t w).1

  unfoldable pub run : List Event → State → State
  unfolding step
  run [] w = w
  run (e ∷ es) w = run es (step e w)
