-- ===== src/Server/Cases.antt =====
-- requestIP (handler.go) in an interface that runs: the ways that it goes.
use wgipam.Base.{
  ℕ, ◌≡◌, refl, Option, none, some, All-map, nat_eq, Bool-cases, inl, inr, if◌then◌else◌, ap,
}
use wgipam.Base.Int.{ℤ, pos, ltb_ℤ}
use wgipam.Base.Result.{Result, M, ◌>>◌, >>=-ok}
use wgipam.Net.{IpNet, cidr_eq}
use wgipam.Lease.{Lease, expiry}
use wgipam.Store.{Store, LeaseStore}
use wgipam.Store.Contract.{StoreView, StoreLaws, Saves}
use wgipam.IpAllocator.{IpAddr, IpAllocator}
use wgipam.IpAllocator.Cursor.{CursorLaws}
use wgipam.IpAllocator.Multi.Allocate.{NoOverlap}
use wgipam.Handler.{RequestIp, Clock, new_lease, renew_lease, request_ip, free_ips, logged}
use wgipam.IpAllocator.Multi.{Multi}
use wgipam.Base.{◌∙◌, sym, subst}
use wgipam.Server.{State, leases, allocator}
use wgipam.Server.Sound.{Apart, deleted_cases, IsSound, IsSound-delete}
use wgipam.Server.Running.{IsRunning}
use wgipam.Server.Release.{free_ips-FreesAll, IsSound-free}

module _ (pkg : IpAddr) (laws : CursorLaws pkg) {S : Type 0} (st : Store S) (v : StoreView S)
    (contract : StoreLaws st v) (Served : IpNet → Type 0) (apart : NoOverlap Served)
    (lease_duration : ℤ) where
  abbrev pub W : Type 0
  W = State pkg st lease_duration

  abbrev pub ls : LeaseStore W
  ls = leases pkg st lease_duration

  abbrev pub al : IpAllocator W
  al = allocator pkg st lease_duration

  abbrev pub Runs : W → Type 0
  Runs = IsRunning pkg laws st v contract Served apart lease_duration

  -- The clean-up of an expired lease leads to newLease in an interface that runs.
  expired_lem :
      (key : ℕ) (req : RequestIp) (l : Lease) (stamp : ℕ) (m : Multi pkg) (σ : S)
      → v.IsKey key
      → Runs (m, σ)
      → v.leased σ key ≡ some l
      → (σ₂ : S) × Runs (m, σ₂)
        × ((logged ls al lease_duration (ls.delete_lease key)
                >> (free_ips ls al lease_duration l.ips
                    >> new_lease ls al lease_duration key req stamp))
              (m, σ)
            ≡ new_lease ls al lease_duration key req stamp (m, σ₂))
  expired_lem key req l stamp m σ is_key h found =
      let (σ₁, deleted, s) = contract.delete_lease_lem key σ h.sound.good.inv is_key in
      let sound : IsSound v Served σ₁ = IsSound-delete v Served key σ σ₁ h.sound s in
      let (σ₂, freed, f) =
        free_ips-FreesAll pkg laws st v contract Served lease_duration l.ips m σ₁
          (All-map l.ips (λ ip b. b.2) (h.sound.backed key l found)) h.serving sound.good in
      (
        σ₂,
        record {
          serving = h.serving;
          sound =
              IsSound-free pkg laws st v contract Served lease_duration l.ips σ₁ σ₂ sound
                (others σ₁ s) f;
        },
        >>=-ok (logged ls al lease_duration (ls.delete_lease key)) (λ _. after) (m, σ) (m, σ₁) tt
              (ap
                (λ (r : Result Unit × S).
                  logged ls al lease_duration (λ (_ : W). (r.0, (m, r.1))) (m, σ))
                deleted)
            ∙ >>=-ok (free_ips ls al lease_duration l.ips)
                (λ _. new_lease ls al lease_duration key req stamp) (m, σ₁) (m, σ₂) tt freed,
      )
    where
      after : M W RequestIp
      after = free_ips ls al lease_duration l.ips >> new_lease ls al lease_duration key req stamp

      others :
          (σ₁ : S)
          → Saves v key none σ σ₁
          → (k : ℕ) (m' : Lease) → v.leased σ₁ k ≡ some m'
          → Apart l.ips m'.ips
      others σ₁ s k m' e =
          let (ne, old) = deleted_cases v Served key k m' σ σ₁ s e in
          h.sound.apart key k l m' ne found old

  -- requestIP, after the lease is looked up
  abbrev dispatch : ℕ → RequestIp → Clock → Option Lease → M W RequestIp
  dispatch key req clock found = elim found [
    | none ↦ new_lease ls al lease_duration key req clock.stamp
    | some l ↦
        if ltb_ℤ (pos clock.since) (expiry l)
        then renew_lease ls al lease_duration key req l clock.stamp
        else (logged ls al lease_duration (ls.delete_lease key)
            >> (free_ips ls al lease_duration l.ips
                >> new_lease ls al lease_duration key req clock.stamp))
  ]

  -- requestIP in an interface that runs: newLease for a client without a lease, or whose lease
  -- expired and has been cleaned up, and renewLease for any other.
  pub request_ip_cases :
      (key : ℕ) (req : RequestIp) (clock : Clock) (m : Multi pkg) (σ : S)
      (P : Result RequestIp × W → Type 0)
      → v.IsKey key
      → Runs (m, σ)
      → ((σ₂ : S) → Runs (m, σ₂) → P (new_lease ls al lease_duration key req clock.stamp (m, σ₂)))
      → ((l : Lease)
          → v.leased σ key ≡ some l
          → P (renew_lease ls al lease_duration key req l clock.stamp (m, σ)))
      → P (request_ip ls al lease_duration key req clock (m, σ))
  unfolding request_ip
  request_ip_cases key req clock m σ P is_key h new renew =
      subst P
        (sym (
          >>=-ok (ls.lease key) (dispatch key req clock) (m, σ) (m, σ) (v.leased σ key)
            (rw (contract.lease_lem key σ h.sound.good.inv is_key) refl)))
        (go (v.leased σ key) refl)
    where
      go : (o : Option Lease) → v.leased σ key ≡ o → P (dispatch key req clock o (m, σ))
      go none found = new σ h
      go (some l) found = elim (Bool-cases (ltb_ℤ (pos clock.since) (expiry l))) [
        | inl e ↦ rw e (renew l found)
        | inr e ↦
            let (σ₂, runs, same) = expired_lem key req l clock.stamp m σ is_key h found in
            rw e (subst P (sym same) (new σ₂ runs))
      ]
