-- ===== src/Server/Sound.antt =====
-- The invariant of an interface's store (internal/wgipamd/server.go, handler.go): every leased
-- address is allocated, and no address is in the leases of two clients. Here: how the single
-- changes of the store keep it.
use wgipam.Base.{
  ℕ, ◌≡◌, ◌≢◌, ◌⊎◌, refl, true, false, Option, none, some, List, [], ◌∷◌, map, All, All-map, arith,
  ◌==◌, nat_eq, Bool-cases, inl, inr, ◌∙◌, sym, ap, subst, eqb_iff,
}
use wgipam.Base.Map.{beq_ne}
use wgipam.Net.{IpNet, Cidr, cidr_eq, IsNet, string, contains}
use wgipam.Net.Laws.{restored, address, contains-address}
use wgipam.Base.Int.{ℤ}
use wgipam.Lease.{Lease, expired}
use wgipam.Store.Contract.{StoreView, Saves, Purges, frees}
use wgipam.IpAllocator.Grants.{IsGood}

-- No address of the one list is in the other.
abbrev pub Apart : List IpNet → List IpNet → Type 0
Apart xs ys = All (λ x. All (λ y. string x ≢ string y) ys) xs

Apart-cons :
    (y : IpNet) (xs ys : List IpNet)
    → All (λ x. string x ≢ string y) xs
    → Apart xs ys
    → Apart xs (y ∷ ys)
Apart-cons y [] ys h a = tt
Apart-cons y (x ∷ xs) ys h a = ((h.0, a.0), Apart-cons y xs ys h.1 a.1)

cons_injective : {A : Type 0} {x y : A} {xs ys : List A} → x ∷ xs ≡ y ∷ ys → (x ≡ y) × (xs ≡ ys)
cons_injective e = (cc e, cc e)

-- Whether lists are apart is seen from their texts.
pub Apart-texts :
    (xs ys zs : List IpNet) → map string xs ≡ map string ys → Apart ys zs → Apart xs zs
Apart-texts [] ys zs e h = tt
Apart-texts (x ∷ xs) [] zs e h = absurd (cc e)
Apart-texts (x ∷ xs) (y ∷ ys) zs e h =
    let (same, rest) = cons_injective e in
    (All-map zs (λ z ne e'. ne (sym same ∙ e')) h.0, Apart-texts xs ys zs rest h.1)

Apart-nil : (xs : List IpNet) → Apart xs []
Apart-nil [] = tt
Apart-nil (x ∷ xs) = (tt, Apart-nil xs)

pub Apart-sym : (xs ys : List IpNet) → Apart xs ys → Apart ys xs
Apart-sym [] ys h = Apart-nil ys
Apart-sym (x ∷ xs) ys h =
    Apart-cons x ys xs (All-map ys (λ y ne e. ne (sym e)) h.0) (Apart-sym xs ys h.1)

module _ {S : Type 0} (v : StoreView S) (Served : IpNet → Type 0) where
  -- The address is allocated from a network that is served.
  abbrev pub IsBacked : S → IpNet → Type 0
  IsBacked σ ip =
      (n : IpNet) × Served n
      × IsNet ip
      × (contains n ip.ip ≡ true)
      × (v.allocated σ (string n) (string ip) ≡ true)

  -- Whether addresses are backed is seen from their texts.
  pub IsBacked-texts :
      (σ : S) (xs ys : List IpNet)
      → map string xs ≡ map string ys
      → All (IsBacked σ) ys
      → All (IsBacked σ) xs
  IsBacked-texts σ [] ys e h = tt
  IsBacked-texts σ (x ∷ xs) [] e h = absurd (cc e)
  IsBacked-texts σ (x ∷ xs) (y ∷ ys) e ((n, s, valid, inside, taken), hs) =
      let (same, rest) = cons_injective e in
      let well : IsNet x = rw same valid in
      (
        (
          n,
          s,
          well,
          sym (contains-address n x well)
              ∙ ap (λ (c : Cidr). contains n (address c)) same
              ∙ contains-address n y valid
              ∙ inside,
          rw same taken,
        ),
        IsBacked-texts σ xs ys rest hs,
      )

  pub record IsSound (σ : S) : Type 0 where
    pub good : IsGood v Served σ
    pub backed : (k : ℕ) (l : Lease) → v.leased σ k ≡ some l → All (IsBacked σ) l.ips
    pub apart :
        (j k : ℕ) (l m : Lease)
        → j ≢ k
        → v.leased σ j ≡ some l
        → v.leased σ k ≡ some m
        → Apart l.ips m.ips

  -- An allocation of the address that is there after the change, if it was before
  abbrev pub IsKept : S → S → IpNet → Type 0
  IsKept σ σ' ip =
      (n : IpNet)
      → v.allocated σ (string n) (string ip) ≡ true
      → v.allocated σ' (string n) (string ip) ≡ true

  IsBacked-kept :
      (σ σ' : S) (ips : List IpNet)
      → All (IsKept σ σ') ips
      → All (IsBacked σ) ips
      → All (IsBacked σ') ips
  IsBacked-kept σ σ' [] keeps h = tt
  IsBacked-kept σ σ' (ip ∷ ips) keeps ((n, s, valid, i, a), h) =
      ((n, s, valid, i, keeps.0 n a), IsBacked-kept σ σ' ips keeps.1 h)

  All-IsKept :
      (σ σ' : S) (ips : List IpNet)
      → ((k d : Cidr) → v.allocated σ k d ≡ true → v.allocated σ' k d ≡ true)
      → All (IsKept σ σ') ips
  All-IsKept σ σ' [] h = tt
  All-IsKept σ σ' (ip ∷ ips) h = (λ n a. h (string n) (string ip) a, All-IsKept σ σ' ips h)

  -- Leases only go, and those that stay keep their addresses.
  pub IsSound-shrink :
      (σ σ' : S)
      → IsSound σ
      → IsGood v Served σ'
      → ((k : ℕ) (l : Lease) → v.leased σ' k ≡ some l → v.leased σ k ≡ some l)
      → ((k : ℕ) (l : Lease) → v.leased σ' k ≡ some l → All (IsKept σ σ') l.ips)
      → IsSound σ'
  IsSound-shrink σ σ' h g old keeps = record {
    good = g;
    backed = λ k l e. IsBacked-kept σ σ' l.ips (keeps k l e) (h.backed k l (old k l e));
    apart = λ j k l m ne e e'. h.apart j k l m ne (old j l e) (old k m e');
  }

  -- The leases are the same and no allocation is lost.
  pub IsSound-keeps :
      (σ σ' : S)
      → IsSound σ
      → IsGood v Served σ'
      → ((k : ℕ) → v.leased σ' k ≡ v.leased σ k)
      → ((k d : Cidr) → v.allocated σ k d ≡ true → v.allocated σ' k d ≡ true)
      → IsSound σ'
  IsSound-keeps σ σ' h g same keeps =
      IsSound-shrink σ σ' h g (λ k l e. sym (same k) ∙ e) (λ k l e. All-IsKept σ σ' l.ips keeps)

  saved-IsGood :
      (key : ℕ) (o : Option Lease) (σ σ' : S)
      → IsGood v Served σ
      → Saves v key o σ σ'
      → IsGood v Served σ'
  saved-IsGood key o σ σ' g s = record {
    inv = s.inv;
    exists = λ n p. s.same_subnets (string n) ∙ g.exists n p;
  }

  saved-IsKept :
      (key : ℕ) (o : Option Lease) (σ σ' : S) (ips : List IpNet)
      → Saves v key o σ σ'
      → All (IsKept σ σ') ips
  saved-IsKept key o σ σ' ips s = All-IsKept σ σ' ips (λ k d a. s.same_allocations k d ∙ a)

  -- What is found after a save
  saved_cases :
      (key k : ℕ) (o : Option Lease) (m : Lease) (σ σ' : S)
      → Saves v key o σ σ'
      → v.leased σ' k ≡ some m
      → ((key ≡ k) × (o ≡ some m)) ⊎ ((key ≢ k) × (v.leased σ k ≡ some m))
  saved_cases key k o m σ σ' s e = elim (Bool-cases (key == k)) [
    | inl same ↦ inl ((eqb_iff key k).0 same, ground (arith, s.saves k, e, same))
    | inr other ↦ inr (ground arith, ground (arith, s.saves k, e, other))
  ]

  pub deleted_cases :
      (key k : ℕ) (l : Lease) (σ σ' : S)
      → Saves v key none σ σ'
      → v.leased σ' k ≡ some l
      → (key ≢ k) × (v.leased σ k ≡ some l)
  deleted_cases key k l σ σ' s e = elim (saved_cases key k none l σ σ' s e) [
    | inl (same, no_lease) ↦ absurd (cc)
    | inr old ↦ old
  ]

  -- A lease goes.
  pub IsSound-delete : (key : ℕ) (σ σ' : S) → IsSound σ → Saves v key none σ σ' → IsSound σ'
  IsSound-delete key σ σ' h s =
      IsSound-shrink σ σ' h (saved-IsGood key none σ σ' h.good s)
        (λ k l e. (deleted_cases key k l σ σ' s e).1) (λ k l e. saved-IsKept key none σ σ' l.ips s)

  -- A lease that is found after `l` is saved is that one, or an old one under another key.
  abbrev Found : ℕ → Lease → S → ℕ → Lease → Type 0
  Found key l σ k m = ((key ≡ k) × (l ≡ m)) ⊎ ((key ≢ k) × (v.leased σ k ≡ some m))

  -- A lease comes or changes: its addresses are allocated, and in no other lease.
  pub IsSound-save :
      (key : ℕ) (l : Lease) (σ σ' : S)
      → IsSound σ
      → Saves v key (some l) σ σ'
      → All (IsBacked σ) l.ips
      → ((k : ℕ) (m : Lease) → key ≢ k → v.leased σ k ≡ some m → Apart l.ips m.ips)
      → IsSound σ'
  IsSound-save key l σ σ' h s new others = record {
    good = saved-IsGood key (some l) σ σ' h.good s;
    backed = λ k m e.
        IsBacked-kept σ σ' m.ips (saved-IsKept key (some l) σ σ' m.ips s)
          (backed k m (cases k m e));
    apart = λ j k m m' ne e e'. apart j k m m' ne (cases j m e) (cases k m' e');
  }
    where
      cases : (k : ℕ) (m : Lease) → v.leased σ' k ≡ some m → Found key l σ k m
      cases k m e = elim (saved_cases key k (some l) m σ σ' s e) [
        | inl (same, found) ↦ inl (same, cc)
        | inr old ↦ inr old
      ]

      backed : (k : ℕ) (m : Lease) → Found key l σ k m → All (IsBacked σ) m.ips
      backed k m (inl (same, e)) = subst (λ (x : Lease). All (IsBacked σ) x.ips) e new
      backed k m (inr (other, e)) = h.backed k m e

      apart :
          (j k : ℕ) (m m' : Lease)
          → j ≢ k
          → Found key l σ j m
          → Found key l σ k m'
          → Apart m.ips m'.ips
      apart j k m m' ne (inl (a, e)) (inl (b, e')) = absurd (ne (sym a ∙ b))
      apart j k m m' ne (inl (a, e)) (inr (b, e')) =
          subst (λ (x : Lease). Apart x.ips m'.ips) e (others k m' b e')
      apart j k m m' ne (inr (a, e)) (inl (b, e')) =
          subst (λ (x : Lease). Apart m.ips x.ips) e' (Apart-sym l.ips m.ips (others j m a e))
      apart j k m m' ne (inr (a, e)) (inr (b, e')) = h.apart j k m m' ne e e'

  -- A purge
  not_freed :
      (n : IpNet) (c : Cidr) (xs : List IpNet) → All (λ x. c ≢ string x) xs → frees n c xs ≡ false
  not_freed n c [] h = refl
  not_freed n c (x ∷ xs) h =
      ground (arith, not_freed n c xs h.1, beq_ne (string x) c (λ e. h.0 (sym e)))

  purge-IsKept :
      (t : ℤ) (σ σ' : S) (ips : List IpNet)
      → Purges v t σ σ'
      → ((j : ℕ) (m : Lease) → v.leased σ j ≡ some m → expired m t ≡ true → Apart ips m.ips)
      → All (IsKept σ σ') ips
  purge-IsKept t σ σ' [] p h = tt
  purge-IsKept t σ σ' (ip ∷ ips) p h = (
    λ n a.
        p.keeps (string n) (string ip)
          (λ j m e gone. not_freed (restored (string n)) (string ip) m.ips (h j m e gone).0)
        ∙ a,
    purge-IsKept t σ σ' ips p (λ j m e gone. (h j m e gone).1),
  )

  -- A purge at any time
  pub IsSound-purge : (t : ℤ) (σ σ' : S) → IsSound σ → Purges v t σ σ' → IsSound σ'
  IsSound-purge t σ σ' h p =
      IsSound-shrink σ σ' h
        (record { inv = p.inv; exists = λ n s. p.same_subnets (string n) ∙ h.good.exists n s })
        (λ k l e. (p.only_live k l e).0)
        (λ k l e. purge-IsKept t σ σ' l.ips p (λ j m e' gone.
          let (found, live) = p.only_live k l e in
          h.apart k j l m (λ same. expired_other k j l m same found e' live gone) found e'))
    where
      expired_other :
          (k j : ℕ) (l m : Lease)
          → k ≡ j
          → v.leased σ k ≡ some l
          → v.leased σ j ≡ some m
          → expired l t ≡ false
          → expired m t ≡ true
          → ⊥
      expired_other k j l m same found e' live gone = ground (arith, ap (v.leased σ) same)
