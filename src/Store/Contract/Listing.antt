-- ===== src/Store/Contract/Listing.antt =====
-- What store.go promises of the lists that every Store returns, and of the calls that it refuses.
use wgipam.Base.{refl, All, arith, ℕ, ◌≡◌, Bool, true, false, List, map, nat_eq}
use wgipam.Base.Map.{Map, IsMap, Distinct, lookup, member}
use wgipam.Base.Result.{ok, err, no_such_subnet, cannot_contain}
use wgipam.Net.{IpNet, IsCidr, cidr4, cidr6, unprintable, Cidr, cidr_eq, string, contains}
use wgipam.Net.Laws.{own_net, restored, string-restored}
use wgipam.Lease.{Lease}
use wgipam.Store.{Store}
use wgipam.Store.Contract.{StoreView, widened}

-- A network that is the one that its text denotes, in either form of its address
abbrev pub IsReadBack : IpNet → Type 0
IsReadBack n = widened n ≡ restored (string n)

pub restored-IsReadBack : (c : Cidr) → IsCidr c → IsReadBack (restored c)
restored-IsReadBack (cidr4 a k) h = rw (string-restored (cidr4 a k) h) refl
restored-IsReadBack (cidr6 a k) h = rw (string-restored (cidr6 a k) h) refl
restored-IsReadBack unprintable h = absurd h

pub own_net-IsReadBack : (c : Cidr) → IsCidr c → string (own_net c) ≡ c → IsReadBack (own_net c)
unfolding string
own_net-IsReadBack (cidr4 a k) h e = ground (arith, h, e)
own_net-IsReadBack (cidr6 a k) h e = ground (arith, h, e)
own_net-IsReadBack unprintable h e = absurd h

-- The networks that are listed are those whose texts `b` names, each once.
abbrev pub IsListOf : (Cidr → Bool) → List IpNet → Type 0
IsListOf b ns =
    Distinct (map string ns) × ((c : Cidr) → member c (map string ns) ≡ b c) × All IsReadBack ns

-- A subnet that exists is one that has no bits after its prefix.
abbrev pub AllMasked : {S : Type 0} → StoreView S → S → Type 0
AllMasked v s = (c : Cidr) → v.registered s c ≡ true → string (own_net c) ≡ c

pub record ListingLaws {S : Type 0} (st : Store S) (v : StoreView S) : Type 0 where
  -- The order of a list is left open.
  pub leases_lem :
      (s : S)
      → v.Inv s
      → (ls : Map ℕ Lease) × (st.leases s ≡ (ok (map (λ e. e.1) ls), s))
        × IsMap ls
        × ((k : ℕ) → lookup k ls ≡ v.leased s k)
  pub subnets_lem :
      (s : S)
      → v.Inv s
      → AllMasked v s
      → (subs : List IpNet) × (st.subnets s ≡ (ok subs, s)) × IsListOf (v.registered s) subs
  pub allocated_ips_lem :
      (sub : IpNet) (s : S)
      → v.Inv s
      → v.registered s (string sub) ≡ true
      → (ips : List IpNet) × (st.allocated_ips sub s ≡ (ok ips, s))
        × IsListOf (v.allocated s (string sub)) ips
  pub allocated_ips_missing :
      (sub : IpNet) (s : S)
      → v.registered s (string sub) ≡ false
      → st.allocated_ips sub s ≡ (err no_such_subnet, s)
  pub allocate_outside :
      (sub ip : IpNet) (s : S)
      → contains sub ip.ip ≡ false
      → st.allocate_ip sub ip s ≡ (err cannot_contain, s)
  pub allocate_missing :
      (sub ip : IpNet) (s : S)
      → v.registered s (string sub) ≡ false
      → contains sub ip.ip ≡ true
      → st.allocate_ip sub ip s ≡ (err no_such_subnet, s)
  pub free_outside :
      (sub ip : IpNet) (s : S)
      → contains sub ip.ip ≡ false
      → st.free_ip sub ip s ≡ (err cannot_contain, s)
  pub free_missing :
      (sub ip : IpNet) (s : S)
      → v.registered s (string sub) ≡ false
      → contains sub ip.ip ≡ true
      → st.free_ip sub ip s ≡ (err no_such_subnet, s)
