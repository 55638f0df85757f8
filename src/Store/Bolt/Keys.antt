-- ===== src/Store/Bolt/Keys.antt =====
-- keyBytes and marshalIPNet (store.go): the keys are read back, and so tell their values apart.
use wgipam.Base.{
  ℕ, zero, suc, ◌+◌, ◌*◌, ◌/◌, ◌%◌, ◌^◌, ◌<◌, ◌≡◌, refl, List, [], ◌∷◌, ◌++◌, arith, ◌∙◌,
}
use native.Mathlib.Nat.{pow-suc, pow-zero}
use wgipam.Base.Result.{ok}
use wgipam.Net.{IpNet, IsNet, string}
use wgipam.Net.Laws.{restored, parse_cidr-eq, string-restored}
use wgipam.Store.Bolt.{Key, bytes, text, big_endian, key_bytes, marshal_ip_net, unmarshal_ip_net}

-- The number that bytes denote, the first one first
abbrev pub value_from : ℕ → List ℕ → ℕ
value_from a [] = a
value_from a (b ∷ bs) = value_from (a * 256 + b) bs

value_from-append :
    (a b : ℕ) (xs : List ℕ) → value_from a (xs ++ (b ∷ [])) ≡ value_from a xs * 256 + b
value_from-append a b [] = refl
value_from-append a b (x ∷ xs) = value_from-append (a * 256 + x) b xs

value_from-big_endian : (n k : ℕ) → k < 256 ^ n → value_from 0 (big_endian n k) ≡ k
unfolding big_endian
value_from-big_endian zero k h = ground (arith, pow-zero 256)
value_from-big_endian (suc n) k h =
    value_from-append 0 (k % 256) (big_endian n (k / 256))
    ∙ ground (arith, value_from-big_endian n (k / 256) (ground (arith, h, pow-suc 256 n)))

abbrev pub value_of : Key → ℕ
value_of (bytes bs) = value_from 0 bs
value_of (text c) = 0

-- The bytes of a 64-bit key denote it, so keyBytes tells all keys apart.
pub value_of-key_bytes : (k : ℕ) → k < 2 ^ 64 → value_of (key_bytes k) ≡ k
unfolding key_bytes
value_of-key_bytes k h = value_from-big_endian 8 k h

-- A network that was marshaled is unmarshaled to one with the same text, for every well-formed
-- network.
pub unmarshal-marshal :
    (n : IpNet)
    → IsNet n
    → (m : IpNet) × (unmarshal_ip_net (marshal_ip_net n) ≡ ok m) × (string m ≡ string n)
unfolding unmarshal_ip_net
unmarshal-marshal n h =
    (restored (string n), ground (arith, parse_cidr-eq (string n) h), string-restored (string n) h)
