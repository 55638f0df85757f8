-- ===== src/Base/Map.antt =====
-- A Go map as an association list, and a map into `struct{}` as a list of keys. The order of the
-- entries stands for the iteration order, which Go leaves open.
use mathlib.Core.Path.{subst, ◌∙◌, sym, ◌≡◌, refl, subst₂}
use mathlib.Core.Logic.{◌⊎◌, ◌≢◌, inl, inr}
use mathlib.Core.Bool.{Bool, true, false, ◌||◌}
use mathlib.Core.Option.{Option, none, some}
use mathlib.Core.List.{List, [], ◌∷◌, map}
use native.Mathlib.Omega.{arith}
use wgipam.Base.Lists.{All}
use wgipam.Base.Tests.{Eq, ◌==◌, if◌then◌else◌, Bool-cases}

abbrev pub Map {ℓ κ} : Type ℓ → Type κ → Type (ℓ ⊔ κ)
Map K V = List (K × V)

module _ {ℓ} {K : Type ℓ} ⦃e : Eq K⦄ where
  pub beq_refl : (k : K) → (k == k) ≡ true
  beq_refl k = (e.beq_iff k k).1 refl

  pub beq_ne : (j k : K) → j ≢ k → (j == k) ≡ false
  beq_ne j k h = elim (Bool-cases (j == k)) [
    | inl same ↦ absurd (h ((e.beq_iff j k).0 same))
    | inr differ ↦ differ
  ]

  -- `_, ok := s[k]` on a set
  abbrev pub member : K → List K → Bool
  member k [] = false
  member k (x ∷ s) = x == k || member k s

  -- `delete(s, k)` on a set
  abbrev pub discard : K → List K → List K
  discard k [] = []
  discard k (x ∷ s) = if x == k then discard k s else x ∷ discard k s

  -- No key stands twice.
  abbrev pub Distinct : List K → Type 0
  Distinct [] = Unit
  Distinct (x ∷ s) = (member x s ≡ false) × Distinct s

  pub member-discard :
      (k j : K) (s : List K) → member j (discard k s) ≡ (if k == j then false else member j s)
  member-discard k j [] = ground arith
  member-discard k j (x ∷ s) =
      ground (arith, e.beq_iff k j, e.beq_iff x j, e.beq_iff x k, member-discard k j s)

  pub discard-Distinct : (k : K) (s : List K) → Distinct s → Distinct (discard k s)
  discard-Distinct k [] h = tt
  discard-Distinct k (x ∷ s) h = ground (arith, member-discard k x s, discard-Distinct k s h.1)

  pub discard-absent : (k : K) (s : List K) → member k s ≡ false → discard k s ≡ s
  discard-absent k [] h = refl
  discard-absent k (x ∷ s) h =
      let x_s : discard k s ≡ s = discard-absent k s (ground (arith, h)) in ground (arith, h, x_s)

  -- A key of a list that holds two keys is one of them.
  of_two : (a b x : K) → (a == b) ≡ false → (a == x || b == x) ≡ true → (x ≡ a) ⊎ (x ≡ b)
  of_two a b x ne h = elim (Bool-cases (a == x)) [
    | inl same ↦ inl (sym ((e.beq_iff a x).0 same))
    | inr other ↦ inr (sym ((e.beq_iff b x).0 (ground (arith, other, h))))
  ]

  -- A list that holds two keys, each once
  pub pair_lem :
      (a b : K) (s : List K)
      → (a == b) ≡ false
      → Distinct s
      → ((k : K) → member k s ≡ (a == k || b == k))
      → (s ≡ a ∷ b ∷ []) ⊎ (s ≡ b ∷ a ∷ [])
  pair_lem a b [] ne d h = absurd (ground (arith, h a, beq_refl a))
  pair_lem a b (x ∷ []) ne d h =
      absurd (ground (arith, ne, h a, h b, beq_refl a, beq_refl b, e.beq_iff x a, e.beq_iff x b))
  pair_lem a b (x ∷ y ∷ []) ne d h =
      let differ : (y == x) ≡ false = ground (arith, d) in
      elim (of_two a b x ne (sym (h x) ∙ ground (arith, beq_refl x))) [
        | inl x_a ↦ elim (of_two a b y ne (sym (h y) ∙ ground (arith, beq_refl y))) [
          | inl y_a ↦ absurd (ground (arith, differ, x_a, y_a, beq_refl a))
          | inr y_b ↦ inl (cc (x_a, y_b))
        ]
        | inr x_b ↦ elim (of_two a b y ne (sym (h y) ∙ ground (arith, beq_refl y))) [
          | inl y_a ↦ inr (cc (x_b, y_a))
          | inr y_b ↦ absurd (ground (arith, differ, x_b, y_b, beq_refl b))
        ]
      ]
  pair_lem a b (x ∷ y ∷ z ∷ s) ne d h =
      let y_x : (y == x) ≡ false = ground (arith, d) in
      let z_x : (z == x) ≡ false = ground (arith, d) in
      let z_y : (z == y) ≡ false = ground (arith, d) in
      let at_x = of_two a b x ne (sym (h x) ∙ ground (arith, beq_refl x)) in
      let at_y = of_two a b y ne (sym (h y) ∙ ground (arith, beq_refl y)) in
      let at_z = of_two a b z ne (sym (h z) ∙ ground (arith, beq_refl z)) in
      absurd (ground (arith, y_x, z_x, z_y, at_x, at_y, at_z, beq_refl a, beq_refl b))

module _ {ℓ κ} {K : Type ℓ} {V : Type κ} ⦃e : Eq K⦄ where
  -- `v, ok := m[k]`
  abbrev pub lookup : K → Map K V → Option V
  lookup k [] = none
  lookup k ((j, v) ∷ m) = if j == k then some v else lookup k m

  -- `m[k] = v`
  abbrev pub insert : K → V → Map K V → Map K V
  insert k v [] = (k, v) ∷ []
  insert k v ((j, w) ∷ m) = if j == k then (k, v) ∷ m else (j, w) ∷ insert k v m

  -- `delete(m, k)`
  abbrev pub erase : K → Map K V → Map K V
  erase k [] = []
  erase k ((j, w) ∷ m) = if j == k then erase k m else (j, w) ∷ erase k m

  -- Every key stands once, as in a Go map.
  abbrev pub IsMap : Map K V → Type κ
  IsMap [] = Unit
  IsMap ((k, v) ∷ m) = (lookup k m ≡ none) × IsMap m

  pub lookup-insert :
      (k j : K) (v : V) (m : Map K V)
      → lookup j (insert k v m) ≡ (if k == j then some v else lookup j m)
  lookup-insert k j v [] = refl
  lookup-insert k j v ((i, w) ∷ m) =
      ground (arith, e.beq_iff k j, e.beq_iff i k, e.beq_iff i j, lookup-insert k j v m)

  pub lookup-insert_self : (k : K) (v : V) (m : Map K V) → lookup k (insert k v m) ≡ some v
  lookup-insert_self k v m = ground (arith, lookup-insert k k v m, beq_refl k)

  pub lookup-insert_ne :
      (k j : K) (v : V) (m : Map K V) → k ≢ j → lookup j (insert k v m) ≡ lookup j m
  lookup-insert_ne k j v m h = ground (arith, lookup-insert k j v m, beq_ne k j h)

  pub lookup-erase :
      (k j : K) (m : Map K V) → lookup j (erase k m) ≡ (if k == j then none else lookup j m)
  lookup-erase k j [] = ground arith
  lookup-erase k j ((i, w) ∷ m) =
      ground (arith, e.beq_iff k j, e.beq_iff i k, e.beq_iff i j, lookup-erase k j m)

  pub insert-IsMap : (k : K) (v : V) (m : Map K V) → IsMap m → IsMap (insert k v m)
  insert-IsMap k v [] h = (refl, tt)
  insert-IsMap k v ((i, w) ∷ m) h =
      ground (arith, e.beq_iff i k, e.beq_iff k i, lookup-insert k i v m, insert-IsMap k v m h.1)

  pub erase-IsMap : (k : K) (m : Map K V) → IsMap m → IsMap (erase k m)
  erase-IsMap k [] h = tt
  erase-IsMap k ((i, w) ∷ m) h = ground (arith, lookup-erase k i m, erase-IsMap k m h.1)

  pub erase-erase : (k : K) (m : Map K V) → erase k (erase k m) ≡ erase k m
  erase-erase k [] = refl
  erase-erase k ((i, w) ∷ m) = ground (arith, erase-erase k m)

  pub All-lookup {ι} :
      (P : K × V → Type ι) (k : K) (v : V) (m : Map K V) → All P m → lookup k m ≡ some v → P (k, v)
  All-lookup P k v [] h p = cc
  All-lookup P k v ((j, w) ∷ m) h p = elim (Bool-cases (j == k)) [
    | inl same ↦
        let e₁ : j ≡ k = (e.beq_iff j k).0 same in
        let e₂ : w ≡ v = ground arith in subst₂ (λ i u. P (i, u)) e₁ e₂ h.0
    | inr differ ↦ All-lookup P k v m h.1 (rw differ at p)
  ]

  pub All-insert {ι} :
      (P : K × V → Type ι) (k : K) (v : V) (m : Map K V) → All P m → P (k, v) → All P (insert k v m)
  All-insert P k v [] h p = (p, tt)
  All-insert P k v ((j, w) ∷ m) h p = elim (Bool-cases (j == k)) [
    | inl same ↦ rw same (p, h.1)
    | inr differ ↦ rw differ (h.0, All-insert P k v m h.1 p)
  ]

  uniform-discard :
      (v : V) (k : K) (ks : List K)
      → Distinct ks
      → member k ks ≡ true
      → map (λ _. v) ks ≡ v ∷ map (λ _. v) (discard k ks)
  uniform-discard v k [] d h = absurd (cc h)
  uniform-discard v k (j ∷ ks) d h = elim (Bool-cases (j == k)) [
    | inl same ↦ ground (
      arith,
      same,
      discard-absent k ks (subst (λ i. member i ks ≡ false) ((e.beq_iff j k).0 same) d.0),
    )
    | inr other ↦ ground (arith, other, uniform-discard v k ks d.1 (ground (arith, h, other)))
  ]

  -- The values of a map that holds one value at some keys
  pub values-uniform :
      (v : V) (ks : List K) (m : Map K V)
      → Distinct ks
      → IsMap m
      → ((k : K) → lookup k m ≡ (if member k ks then some v else none))
      → map (λ e. e.1) m ≡ map (λ _. v) ks
  values-uniform v [] [] d u h = refl
  values-uniform v (k ∷ ks) [] d u h = absurd (ground (arith, h k, beq_refl k))
  values-uniform v ks ((j, w) ∷ m) d u h =
      let here : some w ≡ (if member j ks then some v else none) =
        ground (arith, h j, beq_refl j) in
      elim (Bool-cases (member j ks)) [
        | inr missing ↦ absurd (ground (arith, missing, here))
        | inl there ↦
            let same : w ≡ v = ground (arith, there, here) in
            let rest : map (λ e. e.1) m ≡ map (λ _. v) (discard j ks) =
              values-uniform v (discard j ks) m (discard-Distinct j ks d) u.1
                (λ k. ground (arith, h k, member-discard j k ks, e.beq_iff j k, u.0)) in
            cc (same, rest, sym (uniform-discard v j ks d there))
      ]
