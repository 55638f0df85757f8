-- ===== src/Server/Requests.antt =====
-- handler.go and the ticker of internal/wgipamd/server.go: each request and each purge keeps the
-- invariant of the interface.
use wgipam.Base.{
  ℕ, ◌≡◌, refl, Option, none, some, List, [], ◌∷◌, All, All-map, nat_eq, Bool-cases, inl, inr,
}
use wgipam.Base.Int.{ℤ}
use wgipam.Base.Result.{
  Result, ok, err, panic, hang, M, pure, fail, ◌>>=◌, ◌>>◌, lift-keeps, ip_unavailable,
}
use wgipam.Net.{IpNet, IsNet, cidr_eq}
use wgipam.Lease.{Lease}
use wgipam.Store.{Store, LeaseStore}
use wgipam.Store.Contract.{StoreView, StoreLaws}
use wgipam.IpAllocator.{IpAddr, IpAllocator}
use wgipam.IpAllocator.Cursor.{CursorLaws}
use wgipam.IpAllocator.Grants.{Grant, IsFresh, ips_of}
use wgipam.IpAllocator.Multi.Allocate.{NoOverlap, Allocates, allocate-Allocates}
use wgipam.Handler.{
  RequestIp, Clock, new_lease, renew_lease, request_ip, families, time_now, all_found,
}
use wgipam.Server.{State, leases, allocator, request, purge, Event, requests, ticks, step, run}
use wgipam.Server.Sound.{IsSound-purge}
use wgipam.Server.Running.{
  IsRunning, IsTimely, save_new, save_old, saved-IsRunning, Allocates-IsRunning,
}
use wgipam.Server.Cases.{request_ip_cases}

module _ (pkg : IpAddr) (laws : CursorLaws pkg) {S : Type 0} (st : Store S) (v : StoreView S)
    (contract : StoreLaws st v) (Served : IpNet → Type 0) (apart : NoOverlap Served)
    (lease_duration : ℤ) where
  abbrev W : Type 0
  W = State pkg st lease_duration

  abbrev ls : LeaseStore W
  ls = leases pkg st lease_duration

  abbrev al : IpAllocator W
  al = allocator pkg st lease_duration

  abbrev Runs : W → Type 0
  Runs = IsRunning pkg laws st v contract Served apart lease_duration

  abbrev Timely : ℕ → Type 0
  Timely = IsTimely pkg laws st v contract Served apart lease_duration

  pub fresh-IsNet : (σ : S) (gs : List Grant) → All (IsFresh v Served σ) gs → All IsNet (ips_of gs)
  fresh-IsNet σ [] h = tt
  fresh-IsNet σ (g ∷ gs) (f, fs) = (f.1, fresh-IsNet σ gs fs)

  -- newLease, after Allocate
  abbrev pub next : ℕ → ℕ → Option (List IpNet) → M W RequestIp
  next key stamp found = elim found [
    | none ↦ fail ip_unavailable
    | some ips ↦
        ls.save_lease key (record { ips = ips; start = time_now stamp; length = lease_duration })
        >> pure (record { ips = ips; lease_start = time_now stamp; lease_time = lease_duration })
  ]

  next-IsRunning :
      (key stamp : ℕ) (w : W) (r : Result (Option (List IpNet)) × W)
      → v.IsKey key
      → Timely stamp
      → Runs w
      → Allocates pkg laws st v contract Served apart w.1 r
      → Runs (((λ (_ : W). r) >>= next key stamp) w).1
  next-IsRunning key stamp w (ok none, (m, σ')) is_key timely h a =
      Allocates-IsRunning pkg laws st v contract Served apart lease_duration w.1 (ok none, (m, σ'))
        h.sound a
  next-IsRunning key stamp w (err e, (m, σ')) is_key timely h a =
      Allocates-IsRunning pkg laws st v contract Served apart lease_duration w.1 (err e, (m, σ'))
        h.sound a
  next-IsRunning key stamp w (panic, (m, σ')) is_key timely h a =
      Allocates-IsRunning pkg laws st v contract Served apart lease_duration w.1 (panic, (m, σ'))
        h.sound a
  next-IsRunning key stamp w (hang, (m, σ')) is_key timely h a =
      Allocates-IsRunning pkg laws st v contract Served apart lease_duration w.1 (hang, (m, σ'))
        h.sound a
  next-IsRunning key stamp w (ok (some ips), (m, σ')) is_key timely h a = elim a.ends [
    | inr (inl e) ↦ absurd cc
    | inr (inr e) ↦ absurd cc
    | inl (gs, e, g) ↦
        let l : Lease = record { ips = ips; start = time_now stamp; length = lease_duration } in
        let same : ips ≡ ips_of gs = cc e in
        saved-IsRunning pkg laws st v contract Served apart lease_duration (ls.save_lease key l) _
          (m, σ')
          (save_new pkg laws st v contract Served apart lease_duration key l gs m w.1 σ' is_key
            (timely ips (rw same (fresh-IsNet w.1 gs g.fresh))) h.sound a.serving g a.keeps same)
  ]

  -- newLease
  new_lease-IsRunning :
      (key : ℕ) (req : RequestIp) (stamp : ℕ) (w : W)
      → v.IsKey key
      → Timely stamp
      → Runs w
      → Runs (new_lease ls al lease_duration key req stamp w).1
  unfolding new_lease
  new_lease-IsRunning key req stamp w is_key timely h =
      lift-keeps Runs (families req.ips) (λ f. al.allocate f >>= next key stamp) w h
        (λ f e.
          next-IsRunning key stamp w (al.allocate f w) is_key timely h (
            allocate-Allocates pkg laws st v contract Served apart f w.0 w.1 h.serving
              h.sound.good))

  -- renewLease, where the lease is the client's
  renew_lease-IsRunning :
      (key : ℕ) (req : RequestIp) (l : Lease) (stamp : ℕ) (w : W)
      → v.IsKey key
      → Timely stamp
      → Runs w
      → v.leased w.1 key ≡ some l
      → Runs (renew_lease ls al lease_duration key req l stamp w).1
  unfolding renew_lease
  renew_lease-IsRunning key req l stamp (m, σ) is_key timely h found =
      elim (Bool-cases (all_found req.ips l.ips)) [
        | inr e ↦ rw e h
        | inl e ↦
            let l' : Lease = record {
              ips = l.ips;
              start = time_now stamp;
              length = lease_duration;
            } in
            rw e (
              saved-IsRunning pkg laws st v contract Served apart lease_duration
                (ls.save_lease key l') _ (m, σ)
                (save_old pkg laws st v contract Served apart lease_duration key l l' m σ is_key
                  (timely l.ips (All-map l.ips (λ ip b. b.2) (h.sound.backed key l found))) h found
                  refl))
      ]

  -- requestIP
  request_ip-IsRunning :
      (key : ℕ) (req : RequestIp) (clock : Clock) (w : W)
      → v.IsKey key
      → Timely clock.stamp
      → Runs w
      → Runs (request_ip ls al lease_duration key req clock w).1
  request_ip-IsRunning key req clock (m, σ) is_key timely h =
      request_ip_cases pkg laws st v contract Served apart lease_duration key req clock m σ
        (λ r. Runs r.1) is_key h
        (λ σ₂ runs. new_lease-IsRunning key req clock.stamp (m, σ₂) is_key timely runs)
        (λ l found. renew_lease-IsRunning key req l clock.stamp (m, σ) is_key timely h found)

  -- The ticker's purge
  purge-IsRunning : (t : ℤ) (w : W) → Runs w → Runs (purge pkg st lease_duration t w).1
  unfolding purge
  purge-IsRunning t (m, σ) h =
      let (ps, σ', done, p) = contract.purge_lem t σ h.sound.good.inv in
      rw done (record { serving = h.serving; sound = IsSound-purge v Served t σ σ' h.sound p })

  -- A request by a key, at a time at which leases can be saved
  abbrev pub IsTimelyEvent : Event → Type 0
  IsTimelyEvent (requests key req clock) = v.IsKey key × Timely clock.stamp
  IsTimelyEvent (ticks t) = Unit

  pub step-IsRunning :
      (e : Event) (w : W) → IsTimelyEvent e → Runs w → Runs (step pkg st lease_duration e w)
  unfolding step request
  step-IsRunning (requests key req clock) w (is_key, timely) h =
      request_ip-IsRunning key req clock w is_key timely h
  step-IsRunning (ticks t) w timely h = purge-IsRunning t w h

  -- Over a Store that keeps its contract and a cursor package that keeps its laws, an interface that
  -- runs, on networks that do not overlap, still runs after any history of purges and of requests by keys at times at which leases can be saved:
  -- every leased address is allocated from a network that is served and contains it, and no address is in
  -- the leases of two clients.
  pub run-IsRunning :
      (es : List Event) (w : W)
      → All IsTimelyEvent es
      → Runs w
      → Runs (run pkg st lease_duration es w)
  unfolding run
  run-IsRunning [] w timely h = h
  run-IsRunning (e ∷ es) w (timely, rest) h =
      run-IsRunning es (step pkg st lease_duration e w) rest (step-IsRunning e w timely h)
