-- ===== src/Tests/Web.antt =====
-- The theorems on the debug API, for two interfaces: one with a lease, one without.
use mathlib.Core.List.{Permᴰ}
use wgipam.Base.{ℕ, ◌≡◌, refl, Bool, true, false, ◌&&◌, ◌||◌, List, [], ◌∷◌, arith, ltb, eqb}
use wgipam.Base.Int.{pos}
use wgipam.Base.Sort.{Order, IsSorted, sort_by}
use wgipam.Net.{
  Cidr, cidr4, cidr6, unprintable, string, network, contains, within, agree, parse_cidr, clear,
}
use wgipam.Store.Memory.{Memory, leases, subnets, save_subnet, save_lease, allocate_ip, parse_nets}
use wgipam.Store.Memory.Laws.{memory_ops}
use wgipam.Http.{
  JsonInterface, encoded, json_lease, json_interface, collect, interfaces, unix, whole_seconds,
  serve_http,
}
use wgipam.Http.Listing.{interfaces-perm, interfaces-Shows, Shows, Zipped}
use wgipam.Http.Routes.{serve_http-IsAllowed, IsAllowed}
use wgipam.Tests.World.{office_store, office_text, leased_store}

pub ltb-Order : Order ltb
ltb-Order = record {
  asym_lem = λ a b h. ground arith;
  trans_lem = λ a b c h h'. ground arith;
  total_lem = λ a b h h'. ground arith;
}

-- An order of the texts of networks: IPv4 before IPv6, and by the numbers
abbrev text_lt : Cidr → Cidr → Bool
text_lt (cidr4 a k) (cidr4 b j) = ltb a b || eqb a b && ltb k j
text_lt (cidr4 a k) _ = true
text_lt (cidr6 a k) (cidr4 b j) = false
text_lt (cidr6 a k) (cidr6 b j) = ltb a b || eqb a b && ltb k j
text_lt (cidr6 a k) unprintable = true
text_lt unprintable _ = false

text_asym : (a b : Cidr) → text_lt a b ≡ true → text_lt b a ≡ false
text_asym a b h = ground arith

text_trans : (a b c : Cidr) → text_lt a b ≡ true → text_lt b c ≡ true → text_lt a c ≡ true
text_trans a b c h h' = ground arith

text_total : (a b : Cidr) → text_lt a b ≡ false → text_lt b a ≡ false → a ≡ b
text_total a b h h' = ground arith

text_lt-Order : Order text_lt
text_lt-Order = record { asym_lem = text_asym; trans_lem = text_trans; total_lem = text_total }

abbrev two_stores : List (ℕ × Memory)
two_stores = (1, leased_store) ∷ (0, office_store) ∷ []

abbrev listing : List (JsonInterface ℕ)
listing =
    record { name = 0; subnets = office_text ∷ []; leases = [] }
    ∷ record {
      name = 1;
      subnets = office_text ∷ [];
      leases = record { ips = cidr4 0xc0000201 32 ∷ []; start = pos 0; length = pos 60 } ∷ [];
    }
    ∷ []

lists_them : (interfaces ltb text_lt memory_ops two_stores).0 ≡ encoded listing
unfolding interfaces collect json_interface json_lease unix whole_seconds sort_by leases subnets
    parse_nets save_subnet save_lease allocate_ip string network contains within agree parse_cidr
    clear
lists_them = refl

interfaces-perm_example :
    (interfaces ltb text_lt memory_ops ((0, office_store) ∷ (1, leased_store) ∷ [])).0
    ≡ encoded listing
interfaces-perm_example =
    interfaces-perm ltb text_lt memory_ops ltb-Order two_stores
      ((0, office_store) ∷ (1, leased_store) ∷ []) listing (Permᴰ.swap refl refl)
      (((λ e. omega (arith, e)), tt), (tt, tt)) lists_them

interfaces-Shows_example :
    (ks : List (JsonInterface ℕ)) × Permᴰ listing ks
    × Zipped (Shows ltb text_lt memory_ops ltb-Order text_lt-Order) two_stores ks
    × IsSorted (λ (j : JsonInterface ℕ). j.name) ltb ltb-Order listing
interfaces-Shows_example =
    interfaces-Shows ltb text_lt memory_ops ltb-Order text_lt-Order two_stores listing lists_them

serve_http-IsAllowed_example :
    IsAllowed ltb text_lt memory_ops false true
      (serve_http ltb text_lt memory_ops false true "/metrics" two_stores).0
serve_http-IsAllowed_example =
    serve_http-IsAllowed ltb text_lt memory_ops false true "/metrics" two_stores
