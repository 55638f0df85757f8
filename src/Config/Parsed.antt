-- ===== src/Config/Parsed.antt =====
-- Parse (internal/config/config.go): what a configuration that it accepts can be relied on for.
use wgipam.Base.{
  ◌≡◌, refl, Bool, Bool-cases, Option-cases, subst, inl, inr, Option, none, some, List, [], ◌∷◌,
  All, All-map,
}
use wgipam.Base.Int.{ℤ}
use wgipam.Base.Result.{Result, ok, err, panic, hang, ok-injective}
use wgipam.Net.{IpNet, equal, parse_cidr}
use wgipam.IpAllocator.Subnet.{Subnet, validate}
use wgipam.IpAllocator.Multi.{is_empty}
use wgipam.Config.Usable.{IsUsable, validate-IsUsable, AreSeparate, check_subnets-AreSeparate}
use wgipam.Config.{
  Prefixes, RawSubnet, RawInterface, Interface, File, Config, next, validated, parse_subnet,
  parse_subnets, check_subnets, parse_addresses, parse_duration, parse_debug, parse_interface,
  parse_interfaces, parse,
}

-- What follows a result succeeds only on a value.
next_cases :
    {A B : Type 0} (r : Result A) (f : A → Result B) (b : B)
    → next r f ≡ ok b
    → (a : A) × (r ≡ ok a) × (f a ≡ ok b)
unfolding next
next_cases (ok a) f b h = (a, refl, h)
next_cases (err e) f b h = absurd (cc h)
next_cases panic f b h = absurd (cc h)
next_cases hang f b h = absurd (cc h)

validated_lem : (s t : Subnet) → validated s ≡ ok t → validate t ≡ ok tt
validated_lem s t h = go (validate s) refl h
  where
    go :
        (r : Result (Unit {0}))
        → validate s ≡ r
        → (elim r [ ok _ ↦ ok s | err e ↦ err e | panic ↦ panic | hang ↦ hang ]) ≡ ok t
        → validate t ≡ ok tt
    go (ok x) e h' = subst (λ (u : Subnet). validate u ≡ ok tt) (ok-injective h') e
    go (err x) e h' = absurd (cc h')
    go panic e h' = absurd (cc h')
    go hang e h' = absurd (cc h')

addresses_lem :
    (r : RawSubnet) (sub : IpNet) (s : Subnet) → parse_addresses r sub ≡ ok s → validate s ≡ ok tt
addresses_lem r sub s h =
    let (start, e₁, h₁) = next_cases _ _ s h in
    let (last, e₂, h₂) = next_cases _ _ s h₁ in
    let (reserved, e₃, h₃) = next_cases _ _ s h₂ in
    validated_lem (record { subnet = sub; start = start; last = last; reserved = reserved }) s h₃

parse_subnet_lem : (r : RawSubnet) (s : Subnet) → parse_subnet r ≡ ok s → validate s ≡ ok tt
unfolding parse_subnet
parse_subnet_lem r s h = elim (Option-cases (parse_cidr r.subnet)) [
  | inl e ↦ absurd (cc (rw (e, parse_subnet) at h))
  | inr ((ip, sub), e) ↦ elim (Bool-cases (equal ip sub.ip)) [
    | inl same ↦ addresses_lem r sub s (rw (e, parse_subnet, same) at h)
    | inr other ↦ absurd (cc (rw (e, parse_subnet, other) at h))
  ]
]

parse_subnets_lem :
    (rs : List RawSubnet) (ss : List Subnet)
    → parse_subnets rs ≡ ok ss
    → All (λ s. validate s ≡ ok tt) ss
unfolding parse_subnets
parse_subnets_lem [] [] h = tt
parse_subnets_lem [] (s ∷ ss) h = absurd (cc h)
parse_subnets_lem (r ∷ rs) ss h =
    let (sub, e, h₁) = next_cases (parse_subnet r) _ ss h in
    let (subs, e₂, h₂) = next_cases (parse_subnets rs) _ ss h₁ in
    subst (All λ s. validate s ≡ ok tt) (ok-injective h₂)
      (parse_subnet_lem r sub e, parse_subnets_lem rs subs e₂)

module _ {T : Type 0} (pre : Prefixes) (resolves : T → Bool) (duration : T → Option ℤ) where
  -- An interface that can be set up
  abbrev pub IsServable : Interface T → Type 0
  IsServable i = All IsUsable i.subnets × AreSeparate pre i.subnets

  interface_lem :
      (r : RawInterface T) (i : Interface T)
      → parse_interface pre resolves duration r ≡ ok i
      → IsServable i
  unfolding parse_interface
  interface_lem r i h = go r.name refl
    where
      go : (o : Option T) → r.name ≡ o → IsServable i
      go none e = absurd (cc (rw (e, parse_interface) at h))
      go (some name) e =
          let (dur, e₁, h₁) =
            next_cases (parse_duration pre resolves duration r.lease_duration) _ i
              (rw (e, parse_interface) at h) in
          let (subs, e₂, h₂) = next_cases (parse_subnets r.subnets) _ i h₁ in
          let (u, e₃, h₃) = next_cases (check_subnets pre subs) _ i h₂ in
          subst IsServable (ok-injective h₃) (
            All-map subs (λ s v. validate-IsUsable s v) (parse_subnets_lem r.subnets subs e₂),
            check_subnets-AreSeparate pre subs e₃,
          )

  interfaces_lem :
      (rs : List (RawInterface T)) (is : List (Interface T))
      → parse_interfaces pre resolves duration rs ≡ ok is
      → All IsServable is
  unfolding parse_interfaces
  interfaces_lem [] [] h = tt
  interfaces_lem [] (i ∷ is) h = absurd (cc h)
  interfaces_lem (r ∷ rs) is h =
      let (i, e, h₁) = next_cases (parse_interface pre resolves duration r) _ is h in
      let (rest, e₂, h₂) = next_cases (parse_interfaces pre resolves duration rs) _ is h₁ in
      subst (All IsServable) (ok-injective h₂) (interface_lem r i e, interfaces_lem rs rest e₂)

  -- A configuration that Parse accepts has interfaces only that can be set up: there are subnets, each
  -- has a network without bits after its prefix, a start and an end within it and in order, and
  -- reserved addresses within it, and the subnets do not repeat and are found not to overlap.
  pub parse-IsServable :
      (decoded : Result (File T × Bool)) (c : Config T)
      → parse pre resolves duration decoded ≡ ok c
      → All IsServable c.interfaces
  unfolding parse
  parse-IsServable decoded c h =
      let ((f, undecoded), e, h₁) = next_cases decoded _ c h in
      elim (Bool-cases undecoded) [
        | inl u ↦ absurd (cc (rw u at h₁))
        | inr u ↦ elim (Bool-cases (is_empty f.interfaces)) [
          | inl n ↦ absurd (cc (rw (u, n) at h₁))
          | inr n ↦
              let (debug, e₂, h₂) =
                next_cases (parse_debug pre resolves duration f.debug) _ c (rw (u, n) at h₁) in
              let (ifis, e₃, h₃) =
                next_cases (parse_interfaces pre resolves duration f.interfaces) _ c h₂ in
              subst (λ (x : Config T). All IsServable x.interfaces) (ok-injective h₃)
                (interfaces_lem f.interfaces ifis e₃)
        ]
      ]
