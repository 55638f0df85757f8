-- ===== src/Tests/Numbered.antt =====
-- A package ipaddr whose cursor is a network and a number, which keeps the laws that ipallocator.go
-- relies on.
use wgipam.Base.{
  ℕ, zero, suc, ◌+◌, ◌-◌, ◌*◌, ◌/◌, ◌%◌, ◌^◌, ◌<◌, ◌≤◌, ◌≡◌, ◌≢◌, leb, eqb, inl, inr, refl, true,
  false, ◌&&◌, none, some, arith, ltb, Bool-cases, if◌then◌else◌, sym, ap, ◌∙◌, nat_eq,
}
use native.Mathlib.Nat.{
  mod-lt, div-add-mod, mul-add-div_right, div-eq_of_lt, div-div-eq-div-mul, one-le-pow, pow-zero,
  pow-suc,
}
use wgipam.Base.Result.{ok}
use wgipam.Net.{
  Ip, nil, bytes4, bytes16, w32, w128, IpNet, Mask, Cidr, cidr4, cidr6, unprintable, mapped, block,
  clear, agree, within, equal, string, contains, IsCidr, IsNet, IsPrefix, covers_mapped, network,
  to4,
}
use wgipam.Family.{ip_mask, ip_family}
use wgipam.IpAllocator.{IpAddr}
use wgipam.IpAllocator.Cursor.{CursorLaws}

abbrev pub size_of : Cidr → ℕ
size_of (cidr4 a k) = 2 ^ (32 - k)
size_of (cidr6 a k) = 2 ^ (128 - k)
size_of unprintable = 1

abbrev pub base_of : Cidr → ℕ
base_of (cidr4 a k) = mapped + clear (32 - k) a
base_of (cidr6 a k) = clear (128 - k) a
base_of unprintable = 0

abbrev pub number_at : IpNet → ℕ → Ip
number_at n i = bytes16 (base_of (string n) + i)

abbrev number_of : IpNet → Ip → ℕ
number_of n (bytes4 a) = mapped + a - base_of (string n)
number_of n (bytes16 a) = a - base_of (string n)
number_of n nil = 0

abbrev pub NumberCursor : Type 0
NumberCursor = IpNet × ℕ

-- A number past the end stands for the first address.
abbrev pub place_of : NumberCursor → ℕ
place_of (n, i) = if ltb i (size_of (string n)) then i else 0

abbrev pub numbered : IpAddr
numbered = record {
  new_prefix = λ n. n;
  num_nodes = λ n. size_of (string n);
  Cursor = NumberCursor;
  new_cursor = λ n. (n, 0);
  first = λ c. number_at c.0 0;
  pos = λ c. number_at c.0 (place_of c);
  next = λ c.
      if ltb (suc (place_of c)) (size_of (string c.0))
      then (some (number_at c.0 (suc (place_of c))), (c.0, suc (place_of c)))
      else (none, c);
  set = λ ip c.
      if ltb (number_of c.0 ip) (size_of (string c.0))
        && equal ip (number_at c.0 (number_of c.0 ip))
      then some (c.0, number_of c.0 ip)
      else none;
}

pow-pos : (k : ℕ) → 0 < 2 ^ k
pow-pos k = one-le-pow k 2 (omega arith)

pow-add : (s r : ℕ) → 2 ^ (s + r) ≡ 2 ^ s * 2 ^ r
pow-add s zero = same (s + 0) s (omega arith) ∙ sym (grind (arith, pow-zero 2))
  where
    same : (m n : ℕ) → m ≡ n → 2 ^ m ≡ 2 ^ n
    same m n e = ap (λ (i : ℕ). 2 ^ i) e
pow-add s (suc r) =
    same (s + suc r) (suc (s + r)) (omega arith)
    ∙ grind (arith, pow-suc 2 (s + r), pow-suc 2 r, pow-add s r)
  where
    same : (m n : ℕ) → m ≡ n → 2 ^ m ≡ 2 ^ n
    same m n e = ap (λ (i : ℕ). 2 ^ i) e

pub size-lt : (c : Cidr) → 0 < size_of c
size-lt (cidr4 a k) = pow-pos (32 - k)
size-lt (cidr6 a k) = pow-pos (128 - k)
size-lt unprintable = omega arith

-- Numbers that agree but for their last `s` bits do so but for more.
pub coarser : (s t a b : ℕ) → s ≤ t → agree s a b ≡ true → agree t a b ≡ true
unfolding agree
coarser s t a b h e = ground (arith, split a, split b)
  where
    split : (x : ℕ) → x / 2 ^ t ≡ x / 2 ^ s / 2 ^ (t - s)
    split x =
        rw (div-div-eq-div-mul x (2 ^ s) (2 ^ (t - s)), sym (pow-add s (t - s)))
          (ap (λ (n : ℕ). x / 2 ^ n) (omega (arith, h)))

-- What is added to a number whose last bits are cleared stands in those bits.
added : (k a i : ℕ) → i < 2 ^ k → agree k a (clear k a + i) ≡ true
unfolding agree clear
added k a i h = ground (arith, mul-add-div_right (pow-pos k) (a / 2 ^ k) i, div-eq_of_lt h)

remainder : (k a b : ℕ) → agree k a b ≡ true → (i : ℕ) × (i < 2 ^ k) × (b ≡ clear k a + i)
unfolding agree clear
remainder k a b h = (b % 2 ^ k, mod-lt b (pow-pos k), ground (arith, div-add-mod b (2 ^ k)))

in_range4 : (a k x : ℕ) → a < block → k ≤ 32 → agree (32 - k) a x ≡ true → x < block
unfolding agree
in_range4 a k x h l e = ground (arith, coarser (32 - k) 32 a x (omega (arith, l)) e)

in_range6 :
    (a k x : ℕ)
    → k ≤ 128
    → a / block ≢ 0xffff
    → agree (128 - k) a mapped ≡ false
    → agree (128 - k) a x ≡ true
    → x / block ≢ 0xffff
unfolding agree
in_range6 a k x l h m e same = elim (Bool-cases (leb 96 k)) [
  | inl small ↦ ground (arith, coarser (128 - k) 32 a x (ground arith) e)
  | inr large ↦ ground (arith, coarser 32 (128 - k) x mapped (ground arith))
]

pub within_number :
    (c : Cidr) (i : ℕ)
    → IsCidr c
    → covers_mapped c ≡ false
    → i < size_of c
    → within c (to4 (bytes16 (base_of c + i))) (bytes16 (base_of c + i)) ≡ true
unfolding within
within_number (cidr4 a k) i v m h =
    let near = added (32 - k) a i h in
    ground (arith, near, in_range4 a k (clear (32 - k) a + i) v.0 v.1 near)
within_number (cidr6 a k) i v m h =
    let near = added (128 - k) a i h in
    ground (arith, near, in_range6 a k (clear (128 - k) a + i) v.1 v.0 m near)
within_number unprintable i v m h = absurd v

pub number_of_within :
    (c : Cidr) (ip : Ip)
    → IsCidr c
    → within c (to4 ip) ip ≡ true
    → (i : ℕ) × (i < size_of c) × (equal ip (bytes16 (base_of c + i)) ≡ true)
unfolding within
number_of_within (cidr4 a k) (bytes4 b) v h =
    let (i, lt, e) = remainder (32 - k) a b h in (i, lt, ground arith)
number_of_within (cidr4 a k) nil v h = absurd (ground arith)
number_of_within (cidr4 a k) (bytes16 b) v h = elim (Bool-cases (eqb (b / block) 0xffff)) [
  | inr other ↦ absurd (ground arith)
  | inl e ↦
      let (i, lt, same) = remainder (32 - k) a (b % block) (ground arith) in (i, lt, ground arith)
]
number_of_within (cidr6 a k) nil v h = absurd (ground arith)
number_of_within (cidr6 a k) (bytes4 b) v h = absurd (ground arith)
number_of_within (cidr6 a k) (bytes16 b) v h =
    let (i, lt, same) = remainder (128 - k) a b (ground arith) in (i, lt, ground arith)
number_of_within unprintable ip v h = absurd v

pub number_of_at :
    (n : IpNet) (ip : Ip) (i : ℕ) → equal ip (number_at n i) ≡ true → number_of n ip ≡ i
number_of_at n ip i e = ground arith

abbrev mask_for : Cidr → Mask
mask_for (cidr4 a k) = record { ones = 32; width = w32 }
mask_for _ = record { ones = 128; width = w128 }

ip_mask_text : (p : IpNet) (m : Mask) → IsNet p → ip_mask p ≡ ok m → m ≡ mask_for (string p)
unfolding ip_mask ip_family string network
ip_mask_text p m v e = ground (arith, e)

number_IsNet :
    (c : Cidr) (i : ℕ)
    → IsCidr c
    → covers_mapped c ≡ false
    → i < size_of c
    → IsNet (record { ip = bytes16 (base_of c + i); mask = mask_for c })
unfolding string network
number_IsNet (cidr4 a k) i v m h =
    ground (arith, in_range4 a k (clear (32 - k) a + i) v.0 v.1 (added (32 - k) a i h))
number_IsNet (cidr6 a k) i v m h =
    ground (arith, in_range6 a k (clear (128 - k) a + i) v.1 v.0 m (added (128 - k) a i h))
number_IsNet unprintable i v m h = absurd v

pub host_number :
    (p : IpNet) (m : Mask) (i : ℕ)
    → IsPrefix p
    → i < size_of (string p)
    → ip_mask p ≡ ok m
    → IsNet (record { ip = number_at p i; mask = m })
host_number p m i v h e = rw (ip_mask_text p m v.0 e) (number_IsNet (string p) i v.0 v.1 h)

unfoldable pub numbered_laws : CursorLaws numbered
unfolding contains
numbered_laws = record {
  at = number_at;
  net = λ c. c.0;
  index = place_of;
  string-new_prefix = λ n. refl;
  net-new_cursor = λ p. refl;
  index-new_cursor = λ p. ground arith;
  index-lt = λ c. ground (arith, size-lt (string c.0));
  pos_lem = λ c. refl;
  first_lem = λ c. refl;
  next_more = λ c h. ((c.0, suc (place_of c)), ground arith, refl, ground arith);
  next_end = λ c h. ground arith;
  set_lem = λ c ip i h e. ((c.0, i), ground (arith, number_of_at c.0 ip i e), refl, ground arith);
  contains-at = λ p i valid h. within_number (string p) i valid.0 valid.1 h;
  at_of_contains = λ p ip valid h. number_of_within (string p) ip valid.0 h;
  host-IsNet = λ p m i valid h e. host_number p m i valid h e;
  at-injective = λ p i j valid hi hj e. ground arith;
}
