-- ===== src/Server/Replies.antt =====
-- requestIP (handler.go): what a client is told, and what is saved for it.
use wgipam.Base.{
  ℕ, ◌≡◌, refl, Option, none, some, List, nat_eq, Bool-cases, inl, inr, if◌then◌else◌, ap,
}
use wgipam.Base.Int.{ℤ}
use wgipam.Base.Result.{Result, ok, err, panic, hang, pure, ◌>>=◌, ◌>>◌, >>=-ok, ip_unavailable}
use wgipam.Net.{IpNet, cidr_eq}
use wgipam.Lease.{Lease}
use wgipam.Store.{Store, LeaseStore}
use wgipam.Store.Contract.{StoreView, StoreLaws}
use wgipam.IpAllocator.{IpAddr, IpAllocator}
use wgipam.IpAllocator.Cursor.{CursorLaws}
use wgipam.IpAllocator.Multi.Allocate.{NoOverlap, Allocates, allocate-Allocates}
use wgipam.Handler.{
  RequestIp, Clock, new_lease, renew_lease, request_ip, families, time_now, all_found,
}
use wgipam.Server.{State, leases, allocator}
use wgipam.Server.Running.{IsRunning, IsTimely}
use wgipam.Handler.Requested.{families_lem, new_lease-refuses, bits, wants4, wants6}
use wgipam.IpAllocator.Multi.{Multi, is_empty}
use wgipam.Base.{arith, All-map, any, not, sym, subst, ap, ◌⊎◌, if◌then◌else◌}
use wgipam.Base.Map.{beq_refl}
use wgipam.Family.{Family, dual_stack}
use wgipam.Handler.{is_zero}
use wgipam.Base.Result.{lift}
use wgipam.Server.Cases.{request_ip_cases}
use wgipam.Server.Requests.{next, fresh-IsNet}
use wgipam.IpAllocator.Grants.{ips_of}

module _ (pkg : IpAddr) (laws : CursorLaws pkg) {S : Type 0} (st : Store S) (v : StoreView S)
    (contract : StoreLaws st v) (Served : IpNet → Type 0) (apart : NoOverlap Served)
    (lease_duration : ℤ) where
  abbrev W : Type 0
  W = State pkg st lease_duration

  abbrev ls : LeaseStore W
  ls = leases pkg st lease_duration

  abbrev al : IpAllocator W
  al = allocator pkg st lease_duration

  abbrev Runs : W → Type 0
  Runs = IsRunning pkg laws st v contract Served apart lease_duration

  abbrev Timely : ℕ → Type 0
  Timely = IsTimely pkg laws st v contract Served apart lease_duration

  -- The reply to a client is the lease that is saved for it, or the IP unavailable error, or the
  -- call panicked.
  abbrev pub Replied : ℕ → Result RequestIp × W → Type 0
  Replied key r =
      ((res : RequestIp) × (r.0 ≡ ok res)
        × (v.leased r.1.1 key
            ≡ some (
                v.stored
                  (record { ips = res.ips; start = res.lease_start; length = res.lease_time }))))
      ⊎ (r.0 ≡ err ip_unavailable)
      ⊎ (r.0 ≡ panic)

  saved_reply :
      (key : ℕ) (l : Lease) (m : Multi pkg) (σ : S)
      → v.Inv σ
      → v.IsKey key
      → v.Storable l
      → Replied key (
          (ls.save_lease key l
              >> pure (record { ips = l.ips; lease_start = l.start; lease_time = l.length }))
            (m, σ))
  saved_reply key l m σ inv is_key storable =
      let (σ', saved, s) = contract.save_lease_lem key l σ inv is_key storable in
      subst (Replied key)
        (sym (>>=-ok (ls.save_lease key l) (λ _. pure reply) (m, σ) (m, σ') tt (rw saved refl)))
        (inl (reply, refl, ground (arith, s.saves key, beq_refl key)))
    where
      reply : RequestIp
      reply = record { ips = l.ips; lease_start = l.start; lease_time = l.length }

  next_reply :
      (key stamp : ℕ) (w : W) (r : Result (Option (List IpNet)) × W)
      → v.IsKey key
      → Timely stamp
      → Allocates pkg laws st v contract Served apart w.1 r
      → Replied key
          (((λ (_ : W). r) >>= next pkg laws st v contract Served apart lease_duration key stamp) w)
  next_reply key stamp w (ok none, (m, σ')) is_key timely a = inr (inl refl)
  next_reply key stamp w (err e, (m, σ')) is_key timely a =
      absurd (elim a.ends [ inl (gs, x, g) ↦ cc | inr (inl x) ↦ cc | inr (inr x) ↦ cc ])
  next_reply key stamp w (panic, (m, σ')) is_key timely a = inr (inr refl)
  next_reply key stamp w (hang, (m, σ')) is_key timely a =
      absurd (elim a.ends [ inl (gs, x, g) ↦ cc | inr (inl x) ↦ cc | inr (inr x) ↦ cc ])
  next_reply key stamp w (ok (some ips), (m, σ')) is_key timely a = elim a.ends [
    | inr (inl e) ↦ absurd cc
    | inr (inr e) ↦ absurd cc
    | inl (gs, e, g) ↦
        let same : ips ≡ ips_of gs = cc e in
        saved_reply key (record { ips = ips; start = time_now stamp; length = lease_duration }) m σ'
          a.good.inv is_key
          (timely ips (
            rw same
              (fresh-IsNet pkg laws st v contract Served apart lease_duration w.1 gs g.fresh)))
  ]

  new_lease-Replied :
      (key : ℕ) (req : RequestIp) (stamp : ℕ) (w : W)
      → v.IsKey key
      → Timely stamp
      → Runs w
      → Replied key (new_lease ls al lease_duration key req stamp w)
  unfolding new_lease
  new_lease-Replied key req stamp w is_key timely h =
      elim (Bool-cases (any (λ n. not (is_zero n.ip)) req.ips)) [
        | inl e ↦
            subst (Replied key) (sym (new_lease-refuses ls al lease_duration key req stamp w e))
              (inr (inl refl))
        | inr e ↦
            subst (Replied key)
              (sym (
                >>=-ok (lift (families req.ips))
                  (λ f.
                    al.allocate f
                    >>= next pkg laws st v contract Served apart lease_duration key stamp)
                  w w (wanted req.ips)
                  (ap (λ (r : Result Family). (r, w)) (families_lem req.ips e))))
              (next_reply key stamp w (al.allocate (wanted req.ips) w) is_key timely (
                allocate-Allocates pkg laws st v contract Served apart (wanted req.ips) w.0 w.1
                  h.serving h.sound.good))
      ]
    where
      wanted : List IpNet → Family
      wanted ips = if is_empty ips then dual_stack else bits (wants4 ips) (wants6 ips)

  renew_lease-Replied :
      (key : ℕ) (req : RequestIp) (l : Lease) (stamp : ℕ) (w : W)
      → v.IsKey key
      → Timely stamp
      → Runs w
      → v.leased w.1 key ≡ some l
      → Replied key (renew_lease ls al lease_duration key req l stamp w)
  unfolding renew_lease
  renew_lease-Replied key req l stamp (m, σ) is_key timely h found =
      elim (Bool-cases (all_found req.ips l.ips)) [
        | inr e ↦ rw e (inr (inl refl))
        | inl e ↦ rw e (
            saved_reply key
              (record { ips = l.ips; start = time_now stamp; length = lease_duration }) m σ
              h.sound.good.inv is_key
              (timely l.ips (All-map l.ips (λ ip b. b.2) (h.sound.backed key l found))))
      ]

  -- Over a Store that keeps its contract and a cursor package that keeps its laws, in an interface
  -- that runs on networks that do not overlap, every request by a key at a time at which leases can be saved is answered: with the lease that is then saved for
  -- the client, with the IP unavailable error, or by a panic; never with another error.
  pub request_ip-Replied :
      (key : ℕ) (req : RequestIp) (clock : Clock) (w : W)
      → v.IsKey key
      → Timely clock.stamp
      → Runs w
      → Replied key (request_ip ls al lease_duration key req clock w)
  request_ip-Replied key req clock (m, σ) is_key timely h =
      request_ip_cases pkg laws st v contract Served apart lease_duration key req clock m σ
        (Replied key) is_key h
        (λ σ₂ runs. new_lease-Replied key req clock.stamp (m, σ₂) is_key timely runs)
        (λ l found. renew_lease-Replied key req l clock.stamp (m, σ) is_key timely h found)
