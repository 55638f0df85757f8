-- ===== src/Http/Routes.antt =====
-- NewHTTPHandler and ServeHTTP (http.go): which paths reach which handler.
use Prim.Native.String.{String}
use text.Mathlib.Text.{starts_with, ◌==◌ as str_eq}
use Prim.Native.String.{◌++◌ as str_append}
use wgipam.Base.{
  ◌≡◌, refl, Bool, true, false, ◌&&◌, Bool-cases, Option, none, some, inl, inr, List, [], ◌∷◌, All,
}
use wgipam.Base.Result.{Result, ok, err, panic, hang}
use wgipam.Net.{Cidr}
use wgipam.Store.{Store}
use wgipam.Http.{
  Endpoint, interfaces_api, prometheus, pprof_index, pprof_cmdline, pprof_profile, pprof_symbol,
  pprof_trace, Routes, new_http_handler, exact, subtree, ends_in_slash, longer, Response, served,
  handle, answer, reply, collect, JsonInterface, interfaces, serve_http,
}

-- What a configuration must say for an endpoint to be served
abbrev pub IsEnabled : Bool → Bool → Endpoint → Type 0
IsEnabled use_prometheus use_pprof interfaces_api = Unit
IsEnabled use_prometheus use_pprof prometheus = use_prometheus ≡ true
IsEnabled use_prometheus use_pprof _ = use_pprof ≡ true

module _ (P : Endpoint → Type 0) (path : String) where
  abbrev Found : Option Endpoint → Type 0
  Found none = Unit
  Found (some e) = P e

  abbrev FoundAt : Option (String × Endpoint) → Type 0
  FoundAt none = Unit
  FoundAt (some (p, e)) = P e

  exact-Found : (rs : Routes) → All (λ r. P r.1) rs → Found (exact path rs)
  unfolding exact
  exact-Found [] a = tt
  exact-Found ((p, e) ∷ rs) a = elim (Bool-cases (str_eq p path)) [
    | inl same ↦ rw same a.0
    | inr differ ↦ rw differ (exact-Found rs a.1)
  ]

  longer-FoundAt :
      (p : String) (e : Endpoint) (o : Option (String × Endpoint))
      → P e
      → FoundAt o
      → FoundAt (longer p e o)
  longer-FoundAt p e none h h' = h
  longer-FoundAt p e (some (q, f)) h h' = elim (Bool-cases (starts_with q p)) [
    | inl e₁ ↦ rw e₁ h'
    | inr e₁ ↦ rw e₁ h
  ]

  subtree-FoundAt : (rs : Routes) → All (λ r. P r.1) rs → FoundAt (subtree path rs)
  unfolding subtree
  subtree-FoundAt [] a = tt
  subtree-FoundAt ((p, e) ∷ rs) a = elim (Bool-cases (ends_in_slash p && starts_with path p)) [
    | inl e₁ ↦ rw e₁ (longer-FoundAt p e (subtree path rs) a.0 (subtree-FoundAt rs a.1))
    | inr e₁ ↦ rw e₁ (subtree-FoundAt rs a.1)
  ]

new_http_handler-IsEnabled :
    (use_prometheus use_pprof : Bool)
    → All (λ r. IsEnabled use_prometheus use_pprof r.1) (new_http_handler use_prometheus use_pprof)
unfolding new_http_handler
new_http_handler-IsEnabled true true = (tt, (refl, (refl, (refl, (refl, (refl, (refl, tt)))))))
new_http_handler-IsEnabled true false = (tt, (refl, tt))
new_http_handler-IsEnabled false true = (tt, (refl, (refl, (refl, (refl, (refl, tt))))))
new_http_handler-IsEnabled false false = (tt, tt)

module _ {T S : Type 0} (name_lt : T → T → Bool) (text_lt : Cidr → Cidr → Bool) (st : Store S) where
  -- What a response says of the endpoints that are enabled
  abbrev pub IsAllowed : Bool → Bool → Response T → Type 0
  IsAllowed use_prometheus use_pprof (served e) = IsEnabled use_prometheus use_pprof e
  IsAllowed use_prometheus use_pprof _ = Unit

  interfaces-IsAllowed :
      (b c : Bool) (ss : List (T × S)) → IsAllowed b c (interfaces name_lt text_lt st ss).0
  unfolding interfaces
  interfaces-IsAllowed b c ss = go (collect name_lt text_lt st ss).0
    where
      go : (r : Result (List (JsonInterface T))) → IsAllowed b c (reply name_lt text_lt st r)
      go (ok js) = tt
      go (err e) = tt
      go panic = tt
      go hang = tt

  handle-IsAllowed :
      (b c : Bool) (e : Endpoint) (ss : List (T × S))
      → IsEnabled b c e
      → IsAllowed b c (handle name_lt text_lt st e ss).0
  handle-IsAllowed b c interfaces_api ss h = interfaces-IsAllowed b c ss
  handle-IsAllowed b c prometheus ss h = h
  handle-IsAllowed b c pprof_index ss h = h
  handle-IsAllowed b c pprof_cmdline ss h = h
  handle-IsAllowed b c pprof_profile ss h = h
  handle-IsAllowed b c pprof_symbol ss h = h
  handle-IsAllowed b c pprof_trace ss h = h

  answer-IsAllowed :
      (b c : Bool) (path : String) (o o' : Option Endpoint) (p : Option (String × Endpoint))
      (ss : List (T × S))
      → Found (IsEnabled b c) path o
      → FoundAt (IsEnabled b c) path p
      → IsAllowed b c (answer name_lt text_lt st o o' p ss).0
  answer-IsAllowed b c path (some e) o' p ss h h' = handle-IsAllowed b c e ss h
  answer-IsAllowed b c path none (some e) p ss h h' = tt
  answer-IsAllowed b c path none none (some (p, e)) ss h h' = handle-IsAllowed b c e ss h'
  answer-IsAllowed b c path none none none ss h h' = tt

  -- Whatever path is asked for, a handler of Prometheus answers only if Prometheus is enabled, and
  -- one of pprof only if pprof is.
  pub serve_http-IsAllowed :
      (use_prometheus use_pprof : Bool) (path : String) (ss : List (T × S))
      → IsAllowed use_prometheus use_pprof
          (serve_http name_lt text_lt st use_prometheus use_pprof path ss).0
  unfolding serve_http
  serve_http-IsAllowed b c path ss = elim (Bool-cases (str_eq path "/")) [
    | inl e ↦ rw e tt
    | inr e ↦
        let routes = new_http_handler b c in
        let enabled = new_http_handler-IsEnabled b c in
        rw e (
          answer-IsAllowed b c path (exact path routes) (exact (str_append path "/") routes)
            (subtree path routes) ss (exact-Found (IsEnabled b c) path routes enabled)
            (subtree-FoundAt (IsEnabled b c) path routes enabled))
  ]
