-- ===== src/IpAllocator/Simple/Setup.antt =====
-- SimpleIPAllocator (ipallocator.go): for a valid subnet it succeeds if the subnet can be saved, and
-- the allocator that it returns is ready.
use wgipam.Base.{
  ℕ, suc, ltb, ltb→lt, ◌⊎◌, false, ◌-◌, ◌%◌, ◌<◌, ◌^◌, ◌≡◌, refl, Bool-cases, inl, inr, true,
  Option, none, some, arith, sym, ap, ◌∙◌,
}
use native.Mathlib.Nat.{div-mul-le_self}
use wgipam.Base.Result.{ok}
use wgipam.Net.{
  Ip, nil, bytes4, bytes16, IpNet, IsNet, IsPrefix, block, equal, masked, clear, network, string,
  contains,
}
use wgipam.Net.Laws.{contains-of-string, equal_refl}
use wgipam.Family.{Family, ipv4, ipv6, ip_family, family_cases}
use wgipam.Store.{IpStore}
use wgipam.IpAllocator.{IpAddr}
use wgipam.IpAllocator.Cursor.{CursorLaws}
use wgipam.IpAllocator.Subnet.{Subnet, validate, masked_net, is_set}
use wgipam.IpAllocator.Simple.{Simple, start_cursor, end_position, simple_ip_allocator}
use wgipam.IpAllocator.Simple.Allocate.{IsReady}

-- A network that is its own network address prints the same.
masked_text :
    (n : IpNet)
    → IsNet n
    → equal n.ip (masked n.ip n.mask) ≡ true
    → string (masked_net n) ≡ string n
unfolding masked string network clear
masked_text n h e = ground (arith, h, e, div-mul-le_self (host % block) (2 ^ (32 - n.mask.ones)))
  where
    host : ℕ
    host = elim n.ip [ nil ↦ 0 | bytes4 a ↦ a | bytes16 a ↦ a ]

-- What Validate has checked
valid_text :
    (s : Subnet) → validate s ≡ ok tt → equal s.subnet.ip (masked s.subnet.ip s.subnet.mask) ≡ true
unfolding validate
valid_text s h = ground (arith, h)

valid_start :
    (s : Subnet)
    → validate s ≡ ok tt
    → is_set s.start ≡ true
    → contains (masked_net s.subnet) s.start ≡ true
unfolding validate
valid_start s h e = ground (arith, h, e)

valid_last :
    (s : Subnet)
    → validate s ≡ ok tt
    → is_set s.last ≡ true
    → contains (masked_net s.subnet) s.last ≡ true
unfolding validate
valid_last s h e = ground (arith, h, e)

family_of_prefix : (p : IpNet) → IsNet p → (f : Family) × (ip_family p ≡ ok f)
family_of_prefix p h = elim (family_cases p h) [ inl e ↦ (ipv4, e) | inr e ↦ (ipv6, e) ]

module _ (pkg : IpAddr) (laws : CursorLaws pkg) where
  new_prefix-IsPrefix : (n : IpNet) → IsPrefix n → IsPrefix (pkg.new_prefix n)
  new_prefix-IsPrefix n h = rw (laws.string-new_prefix n) h

  -- A new cursor can be set on any address of its prefix.
  set_inside :
      (p : IpNet) (ip : Ip)
      → IsPrefix p
      → contains p ip ≡ true
      → (c : pkg.Cursor) × (i : ℕ) × (pkg.set ip (pkg.new_cursor p) ≡ some c)
        × (laws.net c ≡ p)
        × (laws.index c ≡ i)
        × (i < pkg.num_nodes p)
        × (equal ip (laws.at p i) ≡ true)
  set_inside p ip h inside =
      let (i, lt, same) = laws.at_of_contains p ip h inside in
      let (c, done, net_c, index_c) =
        laws.set_lem (pkg.new_cursor p) ip i (rw (laws.net-new_cursor p) lt)
          (rw (laws.net-new_cursor p) same) in
      (c, i, done, net_c ∙ laws.net-new_cursor p, index_c, lt, same)

  -- The allocator starts at number `i`: that of the configured start, if there is one.
  abbrev pub StartsAt : IpNet → Ip → ℕ → Type 0
  StartsAt p ip i =
      ((is_set ip ≡ false) × (i ≡ 0)) ⊎ ((is_set ip ≡ true) × (equal ip (laws.at p i) ≡ true))

  -- Its end is the address after the configured one: none, if that is the last one or is not set.
  abbrev pub EndsAfter : IpNet → Ip → Option Ip → Type 0
  EndsAfter p ip last =
      ((is_set ip ≡ false) × (last ≡ none))
      ⊎ ((is_set ip ≡ true)
          × (i : ℕ) × (i < pkg.num_nodes p)
          × (equal ip (laws.at p i) ≡ true)
          × (((suc i ≡ pkg.num_nodes p) × (last ≡ none))
              ⊎ ((suc i < pkg.num_nodes p) × (last ≡ some (laws.at p (suc i))))))

  -- The allocator is that of the subnet.
  pub record IsConfigured (sub : Subnet) (a : Simple pkg) (start_at : ℕ) : Type 0 where
    pub of_subnet : a.prefix ≡ pkg.new_prefix sub.subnet
    pub same_reserved : a.sub.reserved ≡ sub.reserved
    pub stands : laws.index a.cursor ≡ start_at
    pub starts : StartsAt a.prefix sub.start start_at
    pub ends : EndsAfter a.prefix sub.last a.last

  next_lem :
      (p : IpNet) (c : pkg.Cursor) (i : ℕ)
      → laws.net c ≡ p
      → laws.index c ≡ i
      → i < pkg.num_nodes p
      → ((suc i ≡ pkg.num_nodes p) × ((pkg.next c).0 ≡ none))
        ⊎ ((suc i < pkg.num_nodes p) × ((pkg.next c).0 ≡ some (laws.at p (suc i))))
  next_lem p c i over at_i lt = elim (Bool-cases (ltb (suc i) (pkg.num_nodes p))) [
    | inl more ↦
        let (c', e, _, _) =
          laws.next_more c (rw (over, at_i) (ltb→lt (suc i) (pkg.num_nodes p) more)) in
        inr (ltb→lt (suc i) (pkg.num_nodes p) more, rw e (rw (over, at_i) refl))
    | inr last ↦
        let here : suc i ≡ pkg.num_nodes p = ground (arith, last, lt) in
        inl (here, rw (laws.next_end c (rw (over, at_i) here)) refl)
  ]

  some_node : (p : IpNet) → 0 < pkg.num_nodes p
  some_node p =
      let lt = laws.index-lt (pkg.new_cursor p) in
      omega (arith, lt, ap pkg.num_nodes (laws.net-new_cursor p))

  module _ {S : Type 0} (store : IpStore S) where
    -- The cursor and the start are found.
    start_lem :
        (p : IpNet) (ip : Ip)
        → IsPrefix p
        → 0 < pkg.num_nodes p
        → (is_set ip ≡ true → contains p ip ≡ true)
        → (start : Ip) × (c : pkg.Cursor) × (i : ℕ) × (start_cursor pkg store ip (pkg.new_cursor p)
            ≡ ok (start, c))
          × (laws.net c ≡ p)
          × (i < pkg.num_nodes p)
          × (equal start (laws.at p i) ≡ true)
          × (laws.index c ≡ i)
          × StartsAt p ip i
    unfolding start_cursor
    start_lem p ip h some_node inside = elim (Bool-cases (is_set ip)) [
      | inr e ↦ (
        pkg.first (pkg.new_cursor p),
        pkg.new_cursor p,
        0,
        ground (arith, e),
        laws.net-new_cursor p,
        some_node,
        rw (laws.first_lem (pkg.new_cursor p), laws.net-new_cursor p) (equal_refl (laws.at p 0)),
        laws.index-new_cursor p,
        inl (e, refl),
      )
      | inl e ↦
          let (c, i, done, over, at_i, lt, same) = set_inside p ip h (inside e) in
          (ip, c, i, ground (arith, e, done), over, lt, same, at_i, inr (e, same))
    ]

    -- The end is found, or there is none.
    last_lem :
        (p : IpNet) (ip : Ip)
        → IsPrefix p
        → (is_set ip ≡ true → contains p ip ≡ true)
        → (last : Option Ip) × (end_position pkg store ip (pkg.new_cursor p) ≡ ok last)
          × EndsAfter p ip last
    unfolding end_position
    last_lem p ip h inside = elim (Bool-cases (is_set ip)) [
      | inr e ↦ (none, ground (arith, e), inl (e, refl))
      | inl e ↦
          let (c, i, done, over, at_i, lt, same) = set_inside p ip h (inside e) in
          (
            (pkg.next c).0,
            ground (arith, e, done),
            inr (e, i, lt, same, next_lem p c i over at_i lt),
          )
    ]

    simple_ip_allocator_steps :
        (sub : Subnet) (st st' : S) (start : Ip) (c : pkg.Cursor) (last : Option Ip) (f : Family)
        → validate sub ≡ ok tt
        → store.save_subnet sub.subnet st ≡ (ok tt, st')
        → start_cursor pkg store sub.start (pkg.new_cursor (pkg.new_prefix sub.subnet))
          ≡ ok (start, c)
        → end_position pkg store sub.last (pkg.new_cursor (pkg.new_prefix sub.subnet)) ≡ ok last
        → ip_family (pkg.new_prefix sub.subnet) ≡ ok f
        → simple_ip_allocator pkg store sub st ≡ (
          ok (record {
            family = f;
            sub = record sub { subnet = pkg.new_prefix sub.subnet };
            prefix = pkg.new_prefix sub.subnet;
            cursor = c;
            start = start;
            last = last;
          }),
          st',
        )
    unfolding simple_ip_allocator
    simple_ip_allocator_steps sub st st' start c last f v saved e₁ e₂ e₃ =
        ground (arith, v, saved, e₁, e₂, e₃)

    -- Over a cursor package that keeps its laws, SimpleIPAllocator succeeds for a valid subnet whose
    -- network is of one family and that the store can save. The allocator that it returns is ready,
    -- has the subnet's prefix and reserved addresses, stands on the configured start, or else on the
    -- first address, and has as its end the address after the configured one, or else none.
    pub simple_ip_allocator-IsReady :
        (sub : Subnet) (st st' : S)
        → IsPrefix sub.subnet
        → validate sub ≡ ok tt
        → store.save_subnet sub.subnet st ≡ (ok tt, st')
        → (a : Simple pkg) × (simple_ip_allocator pkg store sub st ≡ (ok a, st'))
          × (ready : IsReady pkg laws a) × IsConfigured sub a ready.start_at
    simple_ip_allocator-IsReady sub st st' h v saved =
        let p = pkg.new_prefix sub.subnet in
        let hp = new_prefix-IsPrefix sub.subnet h in
        let (start, c, i, e₁, over, lt, same, at_i, starts) =
          start_lem p sub.start hp (some_node p) (λ e. inside sub.start (valid_start sub v e)) in
        let (last, e₂, ends) = last_lem p sub.last hp (λ e. inside sub.last (valid_last sub v e)) in
        let (f, e₃) = family_of_prefix p hp.0 in
        (
          record {
            family = f;
            sub = record sub { subnet = p };
            prefix = p;
            cursor = c;
            start = start;
            last = last;
          },
          simple_ip_allocator_steps sub st st' start c last f v saved e₁ e₂ e₃,
          record {
            valid = hp;
            same_net = refl;
            families = e₃;
            over = over;
            start_at = i;
            start-lt = lt;
            start-eq = same;
          },
          record {
            of_subnet = refl;
            same_reserved = refl;
            stands = at_i;
            starts = starts;
            ends = ends;
          },
        )
      where
        inside :
            (ip : Ip)
            → contains (masked_net sub.subnet) ip ≡ true
            → contains (pkg.new_prefix sub.subnet) ip ≡ true
        inside ip e =
            contains-of-string (pkg.new_prefix sub.subnet) (masked_net sub.subnet) ip (
              laws.string-new_prefix sub.subnet
              ∙ sym (masked_text sub.subnet h.0 (valid_text sub v)))
            ∙ e
