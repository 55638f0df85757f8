-- ===== src/Base/Result.antt =====
-- What a Go function returns beside its state: a value, an error or a panic.
use mathlib.Core.Path.{◌≡◌, refl, ap}
use mathlib.Core.Bool.{Bool}
use wgipam.Base.Tests.{if◌then◌else◌}

-- The errors that the program makes, one for each message. A dependency's error is `external`.
pub data Error : Type 0 where
  no_such_subnet cannot_contain invalid_cidr : Error
  no_subnets only_manages failed_to_free : Error
  individual_address start_outside end_outside end_before_start reserved_outside : Error
  position_out_of_range external : Error
  unrecognized_keys no_interfaces bad_debug_address empty_interface_name : Error
  invalid_lease_duration invalid_start invalid_end invalid_reserved : Error
  invalid_storage no_subnets_configured duplicate_subnet subnets_overlap : Error
  -- package wgdynamic: its three named errors, and any other
  invalid_request unsupported_protocol ip_unavailable other_protocol : Error

pub data Result {ℓ} (A : Type ℓ) : Type ℓ where
  ok : A → Result A
  err : Error → Result A
  -- a nil dereference or a call of `panic`
  panic : Result A
  -- a loop of the model ran out of fuel
  hang : Result A

pub ok-injective {ℓ} : {A : Type ℓ} {a b : A} → ok a ≡ ok b → a ≡ b
ok-injective h = cc h

-- A call over the state `S`. What was written before an error stays written.
abbrev pub M {ℓ} : Type ℓ → Type ℓ → Type ℓ
M S A = S → Result A × S

module _ {ℓ} {S : Type ℓ} where
  abbrev pub pure : {A : Type ℓ} → A → M S A
  pure a s = (ok a, s)

  abbrev pub fail : {A : Type ℓ} → Error → M S A
  fail e s = (err e, s)

  abbrev pub lift : {A : Type ℓ} → Result A → M S A
  lift r s = (r, s)

  -- `if test { return err }`
  abbrev pub fail_if : Bool → Error → M S (Unit {ℓ})
  fail_if b e s = (if b then err e else ok tt, s)

infixl 5 ◌>>=◌ ◌>>◌
abbrev pub ◌>>=◌ {ℓ} : {S A B : Type ℓ} → M S A → (A → M S B) → M S B
◌>>=◌ m f s =
    let (r, s') = m s in
    elim r [ ok a ↦ f a s' | err e ↦ (err e, s') | panic ↦ (panic, s') | hang ↦ (hang, s') ]

abbrev pub ◌>>◌ {ℓ} : {S A B : Type ℓ} → M S A → M S B → M S B
m >> k = m >>= λ _. k

-- After a call that succeeds comes what follows it.
pub >>=-ok {ℓ} :
    {S A B : Type ℓ} (m : M S A) (f : A → M S B) (s s' : S) (a : A)
    → m s ≡ (ok a, s')
    → (m >>= f) s ≡ f a s'
>>=-ok {S = S} {A = A} m f s s' a e = ap (λ (r : Result A × S). ((λ (_ : S). r) >>= f) s) e

-- A call and what follows it succeed only if both do.
pub >>=-eq-ok {ℓ} :
    {S A B : Type ℓ} (m : M S A) (f : A → M S B) (s : S) (b : B)
    → ((m >>= f) s).0 ≡ ok b
    → (a : A) × ((m s).0 ≡ ok a) × ((f a (m s).1).0 ≡ ok b)
>>=-eq-ok {S = S} {A = A} {B = B} m f s b h = go (m s) h
  where
    go :
        (r : Result A × S)
        → (((λ (_ : S). r) >>= f) s).0 ≡ ok b
        → (a : A) × (r.0 ≡ ok a) × ((f a r.1).0 ≡ ok b)
    go (ok a, s') h' = (a, refl, h')
    go (err e, s') h' = cc
    go (panic, s') h' = cc
    go (hang, s') h' = cc

module _ {ℓ κ} {S A B : Type ℓ} (P : S → Type κ) where
  continue_keeps :
      (r : Result A × S) (f : A → M S B)
      → P r.1
      → ((a : A) (s : S) → r ≡ (ok a, s) → P (f a s).1)
      → P (((λ (_ : S). r) >>= f) r.1).1
  continue_keeps (ok a, s) f h k = k a s refl
  continue_keeps (err e, s) f h k = h
  continue_keeps (panic, s) f h k = h
  continue_keeps (hang, s) f h k = h

  -- A property of the state that a call and what follows it keep is kept by both together.
  pub >>=-keeps :
      (m : M S A) (f : A → M S B) (s : S)
      → P (m s).1
      → ((a : A) (s' : S) → m s ≡ (ok a, s') → P (f a s').1)
      → P ((m >>= f) s).1
  >>=-keeps m f s h k = continue_keeps (m s) f h k

  pub lift-keeps :
      (r : Result A) (f : A → M S B) (s : S)
      → P s
      → ((a : A) → r ≡ ok a → P (f a s).1)
      → P ((lift r >>= f) s).1
  lift-keeps (ok a) f s h k = k a refl
  lift-keeps (err e) f s h k = h
  lift-keeps panic f s h k = h
  lift-keeps hang f s h k = h
