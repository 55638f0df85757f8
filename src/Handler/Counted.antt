-- ===== src/Handler/Counted.antt =====
-- Handler.RequestIP (handler.go): requestIP with the Handler's hook and its metrics (metrics.go).
use wgipam.Base.{
  Bool, true, false, ℕ, suc, ◌+◌, ◌≡◌, refl, eqb, Option, none, some, List, [], ◌∷◌, if◌then◌else◌,
  arith, ap, ◌∙◌, sym, subst, length,
}
use wgipam.Base.Int.{ℤ}
use wgipam.Base.Result.{
  Error, invalid_request, unsupported_protocol, ip_unavailable, other_protocol, Result, ok, err,
  panic, hang,
}
use wgipam.Store.{LeaseStore}
use wgipam.IpAllocator.{IpAllocator}
use wgipam.Handler.{RequestIp, Clock, request_ip}

-- The label of an error
pub data ErrorType : Type 0 where
  generic_type invalid_request_type unsupported_protocol_type : ErrorType
  ip_unavailable_type unknown_type : ErrorType

-- RequestIP, the type assertion and the switch
unfoldable pub error_type : Error → ErrorType
error_type invalid_request = invalid_request_type
error_type unsupported_protocol = unsupported_protocol_type
error_type ip_unavailable = ip_unavailable_type
error_type other_protocol = unknown_type
error_type _ = generic_type

abbrev pub code : ErrorType → ℕ
code generic_type = 0
code invalid_request_type = 1
code unsupported_protocol_type = 2
code ip_unavailable_type = 3
code unknown_type = 4

-- HandlerMetrics, for the one operation
pub record HandlerMetrics : Type 0 where
  pub requests_total : ℕ
  pub errors_total : ErrorType → ℕ

-- `WithLabelValues(op, typ).Inc()`
abbrev pub inc_error : ErrorType → HandlerMetrics → HandlerMetrics
inc_error t h = record h {
  errors_total = λ u. if eqb (code t) (code u) then suc (h.errors_total u) else h.errors_total u;
}

abbrev pub inc_requests : HandlerMetrics → HandlerMetrics
inc_requests h = record h { requests_total = suc h.requests_total }

-- The method metrics: nothing without a HandlerMetrics
abbrev pub metrics :
    (HandlerMetrics → HandlerMetrics) → Option HandlerMetrics → Option HandlerMetrics
metrics f none = none
metrics f (some h) = some (f h)

-- NewRequest, over the state of its owner: nothing if it is nil
abbrev pub notify {ℓ} : {H : Type ℓ} → Option (ℕ → H → H) → ℕ → H → H
notify none key h = h
notify (some f) key h = f key h

-- RequestIP, after requestIP
unfoldable pub count_error : Result RequestIp → Option HandlerMetrics → Option HandlerMetrics
unfolding error_type
count_error (err e) m = metrics (inc_error (error_type e)) m
count_error _ m = m

-- Which errors a label is for: one of the three that wg-dynamic names, one that it does not name, or
-- one that is not its own
abbrev pub stands_for : ErrorType → Error → Bool
stands_for invalid_request_type invalid_request = true
stands_for unsupported_protocol_type unsupported_protocol = true
stands_for ip_unavailable_type ip_unavailable = true
stands_for unknown_type other_protocol = true
stands_for generic_type invalid_request = false
stands_for generic_type unsupported_protocol = false
stands_for generic_type ip_unavailable = false
stands_for generic_type other_protocol = false
stands_for generic_type _ = true
stands_for _ _ = false

-- The label that is counted is the one that stands for the error.
error_type_lem : (e : Error) (t : ErrorType) → eqb (code (error_type e)) (code t) ≡ stands_for t e
unfolding error_type
error_type_lem e t = ground arith

-- How many of the results are errors that the label is for?
abbrev pub errors_of : ErrorType → List (Result RequestIp) → ℕ
errors_of t [] = 0
errors_of t (err e ∷ rs) = (if stands_for t e then 1 else 0) + errors_of t rs
errors_of t (_ ∷ rs) = errors_of t rs

module _ {S H : Type 0} (leases : LeaseStore S) (allocator : IpAllocator S) (lease_duration : ℤ)
    (new_request : Option (ℕ → H → H)) where
  -- A client's key, its request, and the clock
  abbrev pub Call : Type 0
  Call = ℕ × RequestIp × Clock

  abbrev pub W : Type 0
  W = S × Option HandlerMetrics × H

  -- RequestIP
  unfoldable pub counted_request_ip : Call → W → Result RequestIp × W
  unfolding count_error
  counted_request_ip (key, req, clock) (s, m, h) =
      let (r, s') = request_ip leases allocator lease_duration key req clock s in
      (r, (s', count_error r (metrics inc_requests m), notify new_request key h))

  -- Calls of RequestIP, one after another, and calls of requestIP
  abbrev pub counted_calls : List Call → W → List (Result RequestIp) × W
  counted_calls [] w = ([], w)
  counted_calls (c ∷ cs) w =
      let (r, w') = counted_request_ip c w in let (rs, w'') = counted_calls cs w' in (r ∷ rs, w'')

  abbrev pub plain_calls : List Call → S → List (Result RequestIp) × S
  plain_calls [] s = ([], s)
  plain_calls ((key, req, clock) ∷ cs) s =
      let (r, s') = request_ip leases allocator lease_duration key req clock s in
      let (rs, s'') = plain_calls cs s' in (r ∷ rs, s'')

  -- What the metrics show after results
  pub record Counts (h h' : HandlerMetrics) (rs : List (Result RequestIp)) : Type 0 where
    pub requests_lem : h'.requests_total ≡ length rs + h.requests_total
    pub errors_lem : (t : ErrorType) → h'.errors_total t ≡ errors_of t rs + h.errors_total t

  -- One request more
  Counts-cons :
      (h h' : HandlerMetrics) (r : Result RequestIp) (rs : List (Result RequestIp))
      → ((h₁ : HandlerMetrics) → some h₁ ≡ count_error r (some (inc_requests h)) → Counts h₁ h' rs)
      → Counts h h' (r ∷ rs)
  unfolding count_error
  Counts-cons h h' (ok a) rs k =
      let c = k (inc_requests h) refl in
      record { requests_lem = ground (arith, c.requests_lem); errors_lem = λ t. c.errors_lem t }
  Counts-cons h h' (err e) rs k =
      let c = k (inc_error (error_type e) (inc_requests h)) refl in
      record {
        requests_lem = ground (arith, c.requests_lem);
        errors_lem = λ t. ground (arith, c.errors_lem t, error_type_lem e t);
      }
  Counts-cons h h' panic rs k =
      let c = k (inc_requests h) refl in
      record { requests_lem = ground (arith, c.requests_lem); errors_lem = λ t. c.errors_lem t }
  Counts-cons h h' hang rs k =
      let c = k (inc_requests h) refl in
      record { requests_lem = ground (arith, c.requests_lem); errors_lem = λ t. c.errors_lem t }

  count_error-none : (r : Result RequestIp) → count_error r none ≡ none
  unfolding count_error
  count_error-none (ok a) = refl
  count_error-none (err e) = refl
  count_error-none panic = refl
  count_error-none hang = refl

  count_error-some :
      (r : Result RequestIp) (h : HandlerMetrics)
      → (h' : HandlerMetrics) × (count_error r (some h) ≡ some h')
  unfolding count_error
  count_error-some (ok a) h = (h, refl)
  count_error-some (err e) h = (inc_error (error_type e) h, refl)
  count_error-some panic h = (h, refl)
  count_error-some hang h = (h, refl)

  some-injective : {A : Type 0} {a b : A} → some a ≡ some b → a ≡ b
  some-injective h = cc h

  calls-Counts :
      (cs : List Call) (s : S) (m : Option HandlerMetrics) (x : H) (h : HandlerMetrics)
      → m ≡ some h
      → (h' : HandlerMetrics) × ((counted_calls cs (s, m, x)).1.1 ≡ some h')
        × Counts h h' (plain_calls cs s).0
  unfolding counted_request_ip
  calls-Counts [] s m x h e =
      (h, e, record { requests_lem = ground arith; errors_lem = λ t. ground arith })
  calls-Counts ((key, req, clock) ∷ cs) s m x h e =
      let (r, s') = request_ip leases allocator lease_duration key req clock s in
      let (h₁, e₁) = count_error-some r (inc_requests h) in
      let (h', e', c) =
        calls-Counts cs s' (count_error r (metrics inc_requests m)) (notify new_request key x) h₁
          (rw e e₁) in
      (
        h',
        e',
        Counts-cons h h' r (plain_calls cs s').0 (λ h₂ e₂.
            subst (λ (g : HandlerMetrics). Counts g h' (plain_calls cs s').0)
              (some-injective (sym e₁ ∙ sym e₂)) c),
      )

  calls-plain :
      (cs : List Call) (s : S) (m : Option HandlerMetrics) (x : H)
      → ((counted_calls cs (s, m, x)).0 ≡ (plain_calls cs s).0)
        × ((counted_calls cs (s, m, x)).1.0 ≡ (plain_calls cs s).1)
  unfolding counted_request_ip
  calls-plain [] s m x = (refl, refl)
  calls-plain ((key, req, clock) ∷ cs) s m x =
      let (r, s') = request_ip leases allocator lease_duration key req clock s in
      let (same, same_state) =
        calls-plain cs s' (count_error r (metrics inc_requests m)) (notify new_request key x) in
      (ap (λ rs. r ∷ rs) same, same_state)

  -- What the metrics show after results: nothing without a HandlerMetrics
  abbrev pub Shows :
      Option HandlerMetrics → Option HandlerMetrics → List (Result RequestIp) → Type 0
  Shows none m rs = m ≡ none
  Shows (some h) m rs = (h' : HandlerMetrics) × (m ≡ some h') × Counts h h' rs

  calls-none : (cs : List Call) (s : S) (x : H) → (counted_calls cs (s, none, x)).1.1 ≡ none
  unfolding counted_request_ip
  calls-none [] s x = refl
  calls-none ((key, req, clock) ∷ cs) s x =
      let (r, s') = request_ip leases allocator lease_duration key req clock s in
      ap (λ (m : Option HandlerMetrics). (counted_calls cs (s', m, notify new_request key x)).1.1)
        (count_error-none r)
      ∙ calls-none cs s' (notify new_request key x)

  calls-Shows :
      (cs : List Call) (s : S) (m : Option HandlerMetrics) (x : H)
      → Shows m (counted_calls cs (s, m, x)).1.1 (plain_calls cs s).0
  calls-Shows cs s none x = calls-none cs s x
  calls-Shows cs s (some h) x = calls-Counts cs s (some h) x h refl

  -- Calls of RequestIP return what requestIP returns and leave the state that it leaves, whatever
  -- the hook is, with metrics and without. With metrics, the counter of requests grows by the number
  -- of calls, and each counter of errors by the number of the results that are errors that its label
  -- is for; without, there are none afterwards.
  pub counted_calls-Counts :
      (cs : List Call) (s : S) (m : Option HandlerMetrics) (x : H)
      → ((counted_calls cs (s, m, x)).0 ≡ (plain_calls cs s).0)
        × ((counted_calls cs (s, m, x)).1.0 ≡ (plain_calls cs s).1)
        × Shows m (counted_calls cs (s, m, x)).1.1 (counted_calls cs (s, m, x)).0
  counted_calls-Counts cs s m x =
      let (same, same_state) = calls-plain cs s m x in
      (
        same,
        same_state,
        subst (Shows m (counted_calls cs (s, m, x)).1.1) (sym same) (calls-Shows cs s m x),
      )
