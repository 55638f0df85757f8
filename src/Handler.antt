-- ===== src/Handler.antt =====
-- handler.go: the requests of clients. Logging is left out; a call's two readings of the clock, and
-- the hash of the client's address, are arguments.
pub mod Requested
pub mod Counted
use wgipam.Base.{
  ℕ, ◌*◌, ◌/◌, ◌^◌, Bool, true, not, ◌&&◌, ◌||◌, none, some, List, [], ◌∷◌, any, nat_eq,
  if◌then◌else◌,
}
use Prim.Native.Nat.{bit_or}
use wgipam.Base.Int.{ℤ, pos, ltb_ℤ}
use wgipam.Base.Result.{
  Result, ok, err, panic, hang, M, pure, fail, lift, ◌>>=◌, ◌>>◌, ip_unavailable,
}
use wgipam.Net.{Ip, IpNet, equal, ipv4_zero, ipv6_zero}
use wgipam.Family.{Family, dual_stack, ip_family}
use wgipam.Lease.{Lease, expiry}
use wgipam.Store.{LeaseStore}
use wgipam.IpAllocator.{IpAllocator}

-- wgdynamic.RequestIP, which is both the request and the response
pub record RequestIp : Type 0 where
  pub ips : List IpNet
  pub lease_start : ℤ
  pub lease_time : ℤ

-- The clock in nanoseconds since the epoch: where requestIP calls time.Since, and at timeNow.
pub record Clock : Type 0 where
  pub since : ℕ
  pub stamp : ℕ

-- timeNow (store.go): the clock in whole seconds
unfoldable pub time_now : ℕ → ℤ
time_now t = pos (t / 10 ^ 9 * 10 ^ 9)

abbrev pub is_zero : Ip → Bool
is_zero ip = equal ip ipv4_zero || equal ip ipv6_zero

-- newLease, the loop over the requested addresses
unfoldable pub requested_family : List IpNet → Family → Result Family
unfolding ip_family
requested_family [] f = ok f
requested_family (ip ∷ ips) f =
    let rest = λ (g : ℕ). requested_family ips (bit_or f g) in
    if not (equal ip.ip ipv4_zero) && not (equal ip.ip ipv6_zero)
    then err ip_unavailable
    else elim (ip_family ip) [ ok g ↦ rest g | err e ↦ err e | panic ↦ panic | hang ↦ hang ]

-- newLease, the families that a request asks for: both, if it names no address
unfoldable pub families : List IpNet → Result Family
unfolding requested_family
families [] = ok dual_stack
families (ip ∷ ips) = requested_family (ip ∷ ips) 0

-- renewLease, the loop over the requested addresses: each is zero, or found in the lease
unfoldable pub all_found : List IpNet → List IpNet → Bool
all_found [] leased = true
all_found (ip ∷ ips) leased =
    (is_zero ip.ip || any (λ lip. equal ip.ip lip.ip) leased) && all_found ips leased

module _ {S : Type 0} (leases : LeaseStore S) (allocator : IpAllocator S) (lease_duration : ℤ) where
  -- newLease
  unfoldable pub new_lease : ℕ → RequestIp → ℕ → M S RequestIp
  unfolding families time_now
  new_lease key req stamp = do
    family ← lift (families req.ips)
    found ← allocator.allocate family
    elim found [
      | none ↦ fail ip_unavailable
      | some ips ↦ do
        let l : Lease = record { ips = ips; start = time_now stamp; length = lease_duration }
        leases.save_lease key l
        pure (record { ips = ips; lease_start = l.start; lease_time = l.length })
    ]

  -- renewLease
  unfoldable pub renew_lease : ℕ → RequestIp → Lease → ℕ → M S RequestIp
  unfolding all_found time_now
  renew_lease key req l stamp =
      if all_found req.ips l.ips
      then (do
        let l' : Lease = record l { start = time_now stamp; length = lease_duration }
        leases.save_lease key l'
        pure (record { ips = l'.ips; lease_start = l'.start; lease_time = l'.length }))
      else fail ip_unavailable

  -- A call whose error is only logged
  abbrev pub logged : M S Unit → M S Unit
  logged m s =
      let (r, s') = m s in
      elim r [ ok _ ↦ (ok tt, s') | err _ ↦ (ok tt, s') | panic ↦ (panic, s') | hang ↦ (hang, s') ]

  -- requestIP, the release of an expired lease's addresses
  unfoldable pub free_ips : List IpNet → M S Unit
  free_ips [] = pure tt
  free_ips (ip ∷ ips) = logged (allocator.free ip) >> free_ips ips

  -- requestIP; `key` is strKey(src.String())
  unfoldable pub request_ip : ℕ → RequestIp → Clock → M S RequestIp
  unfolding new_lease renew_lease free_ips
  request_ip key req clock = do
    found ← leases.lease key
    elim found [
      | none ↦ new_lease key req clock.stamp
      | some l ↦
          if ltb_ℤ (pos clock.since) (expiry l)
          then renew_lease key req l clock.stamp
          else (do logged (leases.delete_lease key); free_ips l.ips; new_lease key req clock.stamp)
    ]
