-- ===== src/Http.antt =====
-- http.go: the debug API. Paths are taken as cleaned, which ServeMux does first. The JSON response
-- is the record that is encoded, and the texts in it what they denote.
pub mod Listing
pub mod Routes
use Prim.Native.Char.{code}
use Prim.Native.String.{String, ◌++◌ as str_append}
use text.Mathlib.Text.{starts_with, ◌==◌ as str_eq}
use wgipam.Base.{
  ℕ, zero, suc, eqb, ◌+◌, ◌-◌, ◌/◌, ◌^◌, Bool, true, false, ◌&&◌, Option, none, some, List, [], ◌∷◌,
  ◌++◌, map, if◌then◌else◌,
}
use wgipam.Base.Int.{ℤ, pos, negsuc, ltb_ℤ}
use wgipam.Base.Result.{Error, Result, ok, err, panic, hang, M, pure, ◌>>=◌}
use wgipam.Base.Sort.{sort_by}
use wgipam.Net.{IpNet, Cidr, string}
use wgipam.Lease.{Lease}
use wgipam.Store.{Store}

-- jsonLease
pub record JsonLease : Type 0 where
  pub ips : List Cidr
  pub start : ℤ
  pub length : ℤ

-- jsonInterface
pub record JsonInterface (T : Type 0) : Type 0 where
  pub name : T
  pub subnets : List Cidr
  pub leases : List JsonLease

-- Time.Unix: whole seconds, rounded down
unfoldable pub unix : ℤ → ℤ
unix (pos n) = pos (n / 10 ^ 9)
unix (negsuc n) = negsuc (n / 10 ^ 9)

-- `int(d.Seconds())`: whole seconds, cut off. A float64 does it exactly below 2 ^ 24 seconds.
unfoldable pub whole_seconds : ℤ → ℤ
whole_seconds (pos n) = pos (n / 10 ^ 9)
whole_seconds (negsuc n) = elim ((n + 1) / 10 ^ 9) [ zero ↦ pos 0 | suc k ↦ negsuc k ]

-- What the mux serves besides
pub data Endpoint : Type 0 where
  interfaces_api prometheus : Endpoint
  pprof_index pprof_cmdline pprof_profile pprof_symbol pprof_trace : Endpoint

abbrev pub Routes : Type 0
Routes = List (String × Endpoint)

abbrev prometheus_routes : Bool → Routes
prometheus_routes use_prometheus = if use_prometheus then ("/metrics", prometheus) ∷ [] else []

abbrev pprof_routes : Bool → Routes
pprof_routes use_pprof =
    if use_pprof
    then ("/debug/pprof/", pprof_index)
      ∷ ("/debug/pprof/cmdline", pprof_cmdline)
      ∷ ("/debug/pprof/profile", pprof_profile)
      ∷ ("/debug/pprof/symbol", pprof_symbol)
      ∷ ("/debug/pprof/trace", pprof_trace)
      ∷ []
    else []

-- NewHTTPHandler: the patterns of its mux
unfoldable pub new_http_handler : Bool → Bool → Routes
new_http_handler use_prometheus use_pprof =
    ("/api/v0/interfaces", interfaces_api)
    ∷ (prometheus_routes use_prometheus ++ pprof_routes use_pprof)

-- ServeMux: the handler of a pattern
unfoldable pub exact : String → Routes → Option Endpoint
exact path [] = none
exact path ((p, e) ∷ rs) = if str_eq p path then some e else exact path rs

unfoldable pub ends_in_slash : String → Bool
ends_in_slash String.[] = false
ends_in_slash (String.◌∷◌ c String.[]) = eqb (code c) b'/'
ends_in_slash (String.◌∷◌ c (String.◌∷◌ d s)) = ends_in_slash (String.◌∷◌ d s)

-- Of two patterns that start one path, the longer one
abbrev longer : String → Endpoint → Option (String × Endpoint) → Option (String × Endpoint)
longer p e none = some (p, e)
longer p e (some (q, f)) = if starts_with q p then some (q, f) else some (p, e)

-- ServeMux: of the patterns that end in a slash and start the path, the longest
unfoldable pub subtree : String → Routes → Option (String × Endpoint)
unfolding ends_in_slash
subtree path [] = none
subtree path ((p, e) ∷ rs) =
    let rest = subtree path rs in
    if ends_in_slash p && starts_with path p then longer p e rest else rest

-- What a request is answered with
pub data Response (T : Type 0) : Type 0 where
  -- "wgipamd\n"
  service_name : Response T
  encoded : List (JsonInterface T) → Response T
  -- status 500
  failed : Error → Response T
  -- a handler that is not this program's
  served : Endpoint → Response T
  -- status 301, to the path with a slash
  redirected : Response T
  -- status 404
  not_found : Response T
  -- a panic, which package http recovers
  crashed : Response T

-- jsonLease, for a lease
unfoldable pub json_lease : Lease → JsonLease
unfolding unix whole_seconds
json_lease l = record {
  ips = map string l.ips;
  start = unix l.start;
  length = whole_seconds l.length;
}

-- `name_lt` and `text_lt` are `<` on names, and on the texts of networks.
module _ {T S : Type 0} (name_lt : T → T → Bool) (text_lt : Cidr → Cidr → Bool) (st : Store S) where
  abbrev pub Stores : Type 0
  Stores = List (T × S)

  -- interfaces, what it makes of the leases and the subnets of a store
  abbrev pub json_of : T → List Lease → List IpNet → JsonInterface T
  json_of name leases subnets = record {
    name = name;
    subnets = sort_by text_lt (map string subnets);
    leases = map json_lease (sort_by (λ (l m : Lease). ltb_ℤ l.start m.start) leases);
  }

  -- interfaces, the body of its loop
  unfoldable pub json_interface : T → M S (JsonInterface T)
  unfolding json_lease
  json_interface name = do
    leases ← st.leases
    subnets ← st.subnets
    pure (json_of name leases subnets)

  -- interfaces, the end of a round: an interface's record, and those of the rounds that follow
  abbrev pub appended :
      Result (JsonInterface T) → Result (List (JsonInterface T)) → Result (List (JsonInterface T))
  appended (ok j) (ok js) = ok (j ∷ js)
  appended (ok j) r = r
  appended (err e) r = err e
  appended panic r = panic
  appended hang r = hang

  -- interfaces, its loop, in the order in which the map is ranged over
  unfoldable pub collect : Stores → Result (List (JsonInterface T)) × Stores
  unfolding json_interface
  collect [] = (ok [], [])
  collect ((name, s) ∷ ss) =
      let (r, s') = json_interface name s in
      let (rest, ss') = collect ss in (appended r rest, (name, s') ∷ elim r [ ok j ↦ ss' | _ ↦ ss ])

  -- interfaces, after its loop: the status, or the sorted list that is encoded
  abbrev pub reply : Result (List (JsonInterface T)) → Response T
  reply (ok js) = encoded (sort_by (λ (i j : JsonInterface T). name_lt i.name j.name) js)
  reply (err e) = failed e
  reply panic = crashed
  reply hang = crashed

  -- interfaces
  unfoldable pub interfaces : Stores → Response T × Stores
  unfolding collect
  interfaces ss = let (r, ss') = collect ss in (reply r, ss')

  -- ServeMux.ServeHTTP, of a pattern's handler
  abbrev pub handle : Endpoint → Stores → Response T × Stores
  handle interfaces_api ss = interfaces ss
  handle e ss = (served e, ss)

  -- ServeMux.ServeHTTP, from what matches the path, what matches it with one slash more, to which it
  -- is redirected, and the subtree it is in
  abbrev pub answer :
      Option Endpoint → Option Endpoint → Option (String × Endpoint) → Stores → Response T × Stores
  answer (some e) slashed tree ss = handle e ss
  answer none (some e) tree ss = (redirected, ss)
  answer none none (some (p, e)) ss = handle e ss
  answer none none none ss = (not_found, ss)

  -- ServeMux.ServeHTTP
  unfoldable pub route : Routes → String → Stores → Response T × Stores
  unfolding interfaces exact subtree
  route routes path ss =
      answer (exact path routes) (exact (str_append path "/") routes) (subtree path routes) ss

  -- HTTPHandler.ServeHTTP, of a HTTPHandler from NewHTTPHandler
  unfoldable pub serve_http : Bool → Bool → String → Stores → Response T × Stores
  unfolding route new_http_handler
  serve_http use_prometheus use_pprof path ss =
      if str_eq path "/"
      then (service_name, ss)
      else route (new_http_handler use_prometheus use_pprof) path ss
