-- ===== src/Base/Sort.antt =====
-- Package sort: a sort by a test of which element is before which. Go leaves the order of elements
-- of which neither is before the other open; here they keep it.
use mathlib.Core.Path.{◌≡◌, refl, ap, ap₂, sym, subst, subst₂, ◌∙◌}
use mathlib.Core.Logic.{◌≢◌, inl, inr}
use mathlib.Core.Bool.{Bool, true, false}
use mathlib.Core.List.{List, [], ◌∷◌, Permᴰ}
use native.Mathlib.Omega.{arith}
use wgipam.Base.Tests.{if◌then◌else◌, Bool-cases}
use wgipam.Base.Lists.{All, All-map}

module _ {ℓ} {A : Type ℓ} (before : A → A → Bool) where
  abbrev pub insert_sorted : A → List A → List A
  insert_sorted x [] = x ∷ []
  insert_sorted x (y ∷ ys) = if before y x then y ∷ insert_sorted x ys else x ∷ y ∷ ys

  -- sort.Slice and sort.Strings
  unfoldable pub sort_by : List A → List A
  sort_by [] = []
  sort_by (x ∷ xs) = insert_sorted x (sort_by xs)

-- A test that orders keys: of two that differ exactly one is before the other.
pub record Order {ℓ} {K : Type ℓ} (lt : K → K → Bool) : Type ℓ where
  pub asym_lem : (a b : K) → lt a b ≡ true → lt b a ≡ false
  pub trans_lem : (a b c : K) → lt a b ≡ true → lt b c ≡ true → lt a c ≡ true
  pub total_lem : (a b : K) → lt a b ≡ false → lt b a ≡ false → a ≡ b

-- No two elements have one key.
abbrev pub DistinctBy {ℓ κ} : {A : Type ℓ} {K : Type κ} → (A → K) → List A → Type (ℓ ⊔ κ)
DistinctBy key [] = Unit
DistinctBy key (x ∷ xs) = All (λ y. key x ≢ key y) xs × DistinctBy key xs

module _ {ℓ} {A : Type ℓ} where
  perm_refl : (xs : List A) → Permᴰ xs xs
  perm_refl [] = Permᴰ.nil
  perm_refl (x ∷ xs) = Permᴰ.cons refl (perm_refl xs)

  pub All-perm {κ} : (P : A → Type κ) {xs ys : List A} → Permᴰ xs ys → All P xs → All P ys
  All-perm P Permᴰ.nil h = h
  All-perm P (Permᴰ.cons e d) h = (subst P e h.0, All-perm P d h.1)
  All-perm P (Permᴰ.swap e e') h = (subst P e' h.1.0, (subst P e h.0, h.1.1))
  All-perm P (Permᴰ.trans d d') h = All-perm P d' (All-perm P d h)

module _ {ℓ κ} {A : Type ℓ} {K : Type κ} (key : A → K) (lt : K → K → Bool) (o : Order lt) where
  abbrev before : A → A → Bool
  before a b = lt (key a) (key b)

  -- No element is before an earlier one.
  abbrev pub IsSorted : List A → Type ℓ
  IsSorted [] = Unit
  IsSorted (x ∷ xs) = All (λ y. before y x ≡ false) xs × IsSorted xs

  not_before_trans : (a b c : K) → lt a b ≡ false → lt b c ≡ false → lt a c ≡ false
  not_before_trans a b c h h' = elim (Bool-cases (lt a c)) [
    | inr e ↦ e
    | inl e ↦ elim (Bool-cases (lt b a)) [
      | inl e' ↦ absurd (cc (sym h' ∙ o.trans_lem b a c e' e))
      | inr e' ↦ absurd (cc (sym h' ∙ ap (λ k. lt k c) (sym (o.total_lem a b h e')) ∙ e))
    ]
  ]

  distinct-perm : {xs ys : List A} → Permᴰ xs ys → DistinctBy key xs → DistinctBy key ys
  distinct-perm Permᴰ.nil h = tt
  distinct-perm (Permᴰ.cons {a = a} {l₂ = ys} e d) h = (
    subst (λ c. All (λ y. key c ≢ key y) ys) e (All-perm (λ y. key a ≢ key y) d h.0),
    distinct-perm d h.1,
  )
  distinct-perm (Permᴰ.swap {l = l} e e') h =
      subst₂
        (λ u v.
          (key u ≢ key v × All (λ y. key u ≢ key y) l)
          × (All (λ y. key v ≢ key y) l × DistinctBy key l))
        e' e ((λ q. h.0.0 (sym q), h.1.0), (h.0.1, h.1.1))
  distinct-perm (Permᴰ.trans d d') h = distinct-perm d' (distinct-perm d h)

  insert-All {ι} :
      (P : A → Type ι) (x : A) (xs : List A) → P x → All P xs → All P (insert_sorted before x xs)
  insert-All P x [] p h = (p, tt)
  insert-All P x (y ∷ ys) p h = elim (Bool-cases (before y x)) [
    | inl e ↦ rw e (h.0, insert-All P x ys p h.1)
    | inr e ↦ rw e (p, h)
  ]

  insert-IsSorted : (x : A) (xs : List A) → IsSorted xs → IsSorted (insert_sorted before x xs)
  insert-IsSorted x [] h = (tt, tt)
  insert-IsSorted x (y ∷ ys) h = elim (Bool-cases (before y x)) [
    | inl e ↦ rw e (
      insert-All (λ z. before z y ≡ false) x ys (o.asym_lem (key y) (key x) e) h.0,
      insert-IsSorted x ys h.1,
    )
    | inr e ↦ rw e ((e, All-map ys (λ z e'. not_before_trans (key z) (key y) (key x) e' e) h.0), h)
  ]

  pub sort-IsSorted : (xs : List A) → IsSorted (sort_by before xs)
  unfolding sort_by
  sort-IsSorted [] = tt
  sort-IsSorted (x ∷ xs) = insert-IsSorted x (sort_by before xs) (sort-IsSorted xs)

  insert-perm : (x : A) (xs : List A) → Permᴰ (insert_sorted before x xs) (x ∷ xs)
  insert-perm x [] = perm_refl (x ∷ [])
  insert-perm x (y ∷ ys) = elim (Bool-cases (before y x)) [
    | inl e ↦ rw e (Permᴰ.trans (Permᴰ.cons refl (insert-perm x ys)) (Permᴰ.swap refl refl))
    | inr e ↦ rw e (perm_refl (x ∷ y ∷ ys))
  ]

  pub sort-perm : (xs : List A) → Permᴰ (sort_by before xs) xs
  unfolding sort_by
  sort-perm [] = Permᴰ.nil
  sort-perm (x ∷ xs) =
      Permᴰ.trans (insert-perm x (sort_by before xs)) (Permᴰ.cons refl (sort-perm xs))

  insert-insert :
      (x y : A) (zs : List A)
      → key x ≢ key y
      → insert_sorted before x (insert_sorted before y zs)
        ≡ insert_sorted before y (insert_sorted before x zs)
  insert-insert x y [] ne =
      ground
        (arith, o.asym_lem (key x) (key y), o.asym_lem (key y) (key x), o.total_lem (key x) (key y))
  insert-insert x y (z ∷ zs) ne = ground (
    arith,
    insert-insert x y zs ne,
    o.asym_lem (key x) (key y),
    o.asym_lem (key y) (key x),
    o.total_lem (key x) (key y),
    o.trans_lem (key z) (key x) (key y),
    o.trans_lem (key z) (key y) (key x),
    not_before_trans (key z) (key x) (key y),
    not_before_trans (key z) (key y) (key x),
  )

  -- A sort of elements with different keys forgets their order.
  pub sort_unique :
      {xs ys : List A} → Permᴰ xs ys → DistinctBy key xs → sort_by before xs ≡ sort_by before ys
  unfolding sort_by
  sort_unique Permᴰ.nil h = refl
  sort_unique (Permᴰ.cons e d) h = ap₂ (insert_sorted before) e (sort_unique d h.1)
  sort_unique (Permᴰ.swap {a = a} {b = b} {l = l} e e') h =
      insert-insert a b (sort_by before l) h.0.0
      ∙ ap₂ (λ u v. insert_sorted before u (insert_sorted before v (sort_by before l))) e' e
  sort_unique (Permᴰ.trans d d') h = sort_unique d h ∙ sort_unique d' (distinct-perm d h)
