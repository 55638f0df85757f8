-- ===== src/Store/Memory/Twice.antt =====
-- memoryStore (store.go): what a second call finds after a first one.
use wgipam.Base.{ℕ, ◌≡◌, refl, Bool, true, false, List, [], ◌∷◌, arith, Eq, ◌∙◌, ap}
use wgipam.Base.Map.{
  Map, insert, discard, erase-erase, beq_refl, lookup-insert_self, member-discard,
}
use wgipam.Base.Result.{Result, ok}
use wgipam.Net.{IpNet, Cidr, cidr_eq, string}
use wgipam.Store.Memory.{Memory, allocate_ip, free_ip, delete_lease}
use wgipam.Store.Memory.Cases.{allocate_ip_cases, free_ip_cases}
use wgipam.Store.Memory.Laws.{allocate_ip_new, allocate_ip_old, free_ip_lem}

insert-insert :
    {K V : Type 0}
    → ⦃e : Eq K⦄ → (k : K) (a b : V) (m : Map K V) → insert k b (insert k a m) ≡ insert k b m
insert-insert k a b [] = ground (arith, beq_refl k)
insert-insert k a b ((j, v) ∷ m) = ground (arith, beq_refl k, beq_refl j, insert-insert k a b m)

discard-discard :
    {K : Type 0} → ⦃e : Eq K⦄ → (k : K) (xs : List K) → discard k (discard k xs) ≡ discard k xs
discard-discard k [] = refl
discard-discard k (x ∷ xs) = ground (arith, discard-discard k xs)

module _ (sub ip : IpNet) (s : Memory) where
  -- After AllocateIP returned true, a second call for the same address returns false and changes
  -- nothing: the address is not allocated again.
  pub allocate_ip-allocate_ip :
      (allocate_ip sub ip s).0 ≡ ok true
      → allocate_ip sub ip (allocate_ip sub ip s).1 ≡ (ok false, (allocate_ip sub ip s).1)
  allocate_ip-allocate_ip =
      allocate_ip_cases sub ip s (λ r. r.0 ≡ ok true → allocate_ip sub ip r.1 ≡ (ok false, r.1))
        (λ out e. absurd (cc e)) (λ i n e. absurd (cc e)) (λ ips i f m e. absurd (cc e))
        (λ ips inside found new e.
          allocate_ip_old sub ip _ inside (string ip ∷ ips)
            (lookup-insert_self (string sub) (string ip ∷ ips) s.subnets)
            (ground (arith, beq_refl (string ip))))

  -- After FreeIP succeeded, AllocateIP returns true for the address.
  pub allocate_ip-free_ip :
      (free_ip sub ip s).0 ≡ ok tt → (allocate_ip sub ip (free_ip sub ip s).1).0 ≡ ok true
  allocate_ip-free_ip =
      free_ip_cases sub ip s (λ r. r.0 ≡ ok tt → (allocate_ip sub ip r.1).0 ≡ ok true)
        (λ out e. absurd (cc e)) (λ i n e. absurd (cc e))
        (λ ips inside found e.
          ap (λ (r : Result Bool × Memory). r.0)
            (allocate_ip_new sub ip _ inside (discard (string ip) ips)
              (lookup-insert_self (string sub) (discard (string ip) ips) s.subnets)
              (ground (arith, member-discard (string ip) (string ip) ips, beq_refl (string ip)))))

  -- Freeing an address twice does what freeing it once does, whatever the outcome.
  pub free_ip-free_ip : free_ip sub ip (free_ip sub ip s).1 ≡ free_ip sub ip s
  unfolding free_ip
  free_ip-free_ip =
      free_ip_cases sub ip s (λ r. free_ip sub ip r.1 ≡ r) (λ out. rw (out, free_ip) refl)
        (λ inside missing. rw (inside, free_ip, missing) refl)
        (λ ips inside found.
          free_ip_lem sub ip _ inside (discard (string ip) ips)
            (lookup-insert_self (string sub) (discard (string ip) ips) s.subnets)
          ∙ ap (λ (m : Map Cidr (List Cidr)). (ok tt, record s { subnets = m }))
              (rw (discard-discard (string ip) ips) (
                insert-insert (string sub) (discard (string ip) ips) (discard (string ip) ips)
                  s.subnets)))

-- Deleting a lease twice does what deleting it once does.
pub delete_lease-delete_lease :
    (key : ℕ) (s : Memory) → delete_lease key (delete_lease key s).1 ≡ delete_lease key s
unfolding delete_lease
delete_lease-delete_lease key s = rw (erase-erase key s.leases)
