-- ===== src/IpAllocator/Cursor.antt =====
-- What ipallocator.go relies on of package ipaddr: a cursor stands on one of the numbered addresses
-- of its prefix, moves on by one, stops at the last, and can be set on any of them.
use wgipam.Base.{ℕ, suc, ◌<◌, ◌≡◌, ◌⊎◌, inl, inr, true, none, some, arith, Bool-cases, ltb}
use wgipam.Base.Result.{ok}
use wgipam.Net.{Ip, IpNet, Mask, IsNet, IsPrefix, equal, contains, string}
use wgipam.Family.{ip_mask}
use wgipam.IpAllocator.{IpAddr}

pub record CursorLaws (pkg : IpAddr) : Type 0 where
  -- the address with a number, the prefix of a cursor and the number that it stands on
  pub at : IpNet → ℕ → Ip
  pub net : pkg.Cursor → IpNet
  pub index : pkg.Cursor → ℕ
  -- NewPrefix changes the form of the address only.
  pub string-new_prefix : (n : IpNet) → string (pkg.new_prefix n) ≡ string n
  pub net-new_cursor : (p : IpNet) → net (pkg.new_cursor p) ≡ p
  pub index-new_cursor : (p : IpNet) → index (pkg.new_cursor p) ≡ 0
  pub index-lt : (c : pkg.Cursor) → index c < pkg.num_nodes (net c)
  pub pos_lem : (c : pkg.Cursor) → pkg.pos c ≡ at (net c) (index c)
  pub first_lem : (c : pkg.Cursor) → pkg.first c ≡ at (net c) 0
  pub next_more :
      (c : pkg.Cursor)
      → suc (index c) < pkg.num_nodes (net c)
      → (c' : pkg.Cursor) × (pkg.next c ≡ (some (at (net c) (suc (index c))), c'))
        × (net c' ≡ net c)
        × (index c' ≡ suc (index c))
  pub next_end : (c : pkg.Cursor) → suc (index c) ≡ pkg.num_nodes (net c) → pkg.next c ≡ (none, c)
  pub set_lem :
      (c : pkg.Cursor) (ip : Ip) (i : ℕ)
      → i < pkg.num_nodes (net c)
      → equal ip (at (net c) i) ≡ true
      → (c' : pkg.Cursor) × (pkg.set ip c ≡ some c') × (net c' ≡ net c) × (index c' ≡ i)
  -- The numbered addresses are those of the network, each with one number.
  pub contains-at :
      (p : IpNet) (i : ℕ) → IsPrefix p → i < pkg.num_nodes p → contains p (at p i) ≡ true
  pub at_of_contains :
      (p : IpNet) (ip : Ip)
      → IsPrefix p
      → contains p ip ≡ true
      → (i : ℕ) × (i < pkg.num_nodes p) × (equal ip (at p i) ≡ true)
  pub host-IsNet :
      (p : IpNet) (m : Mask) (i : ℕ)
      → IsPrefix p
      → i < pkg.num_nodes p
      → ip_mask p ≡ ok m
      → IsNet (record { ip = at p i; mask = m })
  pub at-injective :
      (p : IpNet) (i j : ℕ)
      → IsPrefix p
      → i < pkg.num_nodes p
      → j < pkg.num_nodes p
      → equal (at p i) (at p j) ≡ true
      → i ≡ j

module _ (pkg : IpAddr) (laws : CursorLaws pkg) where
  -- Next has two outcomes.
  pub next_cases :
      (c : pkg.Cursor)
      → (pkg.next c ≡ (none, c))
        ⊎ ((c' : pkg.Cursor) × (pkg.next c ≡ (some (laws.at (laws.net c) (suc (laws.index c))), c'))
            × (laws.net c' ≡ laws.net c)
            × (laws.index c' ≡ suc (laws.index c)))
  next_cases c = elim (Bool-cases (ltb (suc (laws.index c)) (pkg.num_nodes (laws.net c)))) [
    | inl more ↦ inr (laws.next_more c (ground arith))
    | inr done ↦ inl (laws.next_end c (ground (arith, laws.index-lt c)))
  ]
