-- ===== src/Config.antt =====
-- internal/config/config.go: from the decoded TOML file to the configuration of the interfaces.
--
-- A string that is tested against "" is an Option, none for "". The text of a network or of an
-- address is what it denotes; all other text is of a type that is a parameter.
pub mod Subnets
pub mod Usable
pub mod Parsed
use wgipam.Base.{
  ℕ, ◌+◌, ◌*◌, ◌^◌, Bool, true, false, not, ◌&&◌, Option, none, some, List, [], ◌∷◌, map,
  if◌then◌else◌,
}
use wgipam.Base.Int.{ℤ, pos}
use wgipam.Base.Map.{member}
use wgipam.Base.Result.{
  Result, ok, err, panic, hang, M, invalid_cidr, individual_address, unrecognized_keys,
  no_interfaces, bad_debug_address, empty_interface_name, invalid_lease_duration, invalid_start,
  invalid_end, invalid_reserved, no_subnets_configured, duplicate_subnet, subnets_overlap,
}
use wgipam.Net.{Ip, nil, bytes16, IpNet, Cidr, cidr_eq, mapped, equal, string, parse_cidr}
use wgipam.IpAllocator.Subnet.{Subnet, is_set, validate}
use wgipam.IpAllocator.Multi.{is_empty}

-- The text of an address
pub data IpText : Type 0 where
  malformed : IpText
  ipv4_text ipv6_text : ℕ → IpText

-- net.ParseIP: an address in its 16-byte form, nil for other text
abbrev pub parse_ip : IpText → Ip
parse_ip malformed = nil
parse_ip (ipv4_text a) = bytes16 (mapped + a)
parse_ip (ipv6_text a) = bytes16 a

-- subnet, the raw TOML structure
pub record RawSubnet : Type 0 where
  pub subnet : Cidr
  pub start : Option IpText
  pub last : Option IpText
  pub reserved : List IpText

-- parseSubnet, for `start` and `end`: nil if it is not set
abbrev pub parse_bound : Option IpText → Result Ip → Result Ip
parse_bound none bad = ok nil
parse_bound (some t) bad = if is_set (parse_ip t) then ok (parse_ip t) else bad

-- parseSubnet, the loop over the reserved addresses
unfoldable pub parse_reserved : List IpText → Result (List Ip)
parse_reserved [] = ok []
parse_reserved (t ∷ ts) =
    let rest = parse_reserved ts in
    if is_set (parse_ip t)
    then elim rest [ ok ips ↦ ok (parse_ip t ∷ ips) | r ↦ r ]
    else err invalid_reserved

-- parseSubnet, from the parsed addresses on
abbrev pub validated : Subnet → Result Subnet
validated s = elim (validate s) [ ok _ ↦ ok s | err e ↦ err e | panic ↦ panic | hang ↦ hang ]

-- `if err != nil { return nil, err }` around what follows
unfoldable pub next : {A B : Type 0} → Result A → (A → Result B) → Result B
next r f = elim r [ ok a ↦ f a | err e ↦ err e | panic ↦ panic | hang ↦ hang ]

-- parseSubnet, after the network is found to be one
abbrev pub parse_addresses : RawSubnet → IpNet → Result Subnet
parse_addresses s sub = next (parse_bound s.start (err invalid_start)) λ start.
    next (parse_bound s.last (err invalid_end)) λ last. next (parse_reserved s.reserved) λ reserved.
      validated (record { subnet = sub; start = start; last = last; reserved = reserved })

-- parseSubnet
unfoldable pub parse_subnet : RawSubnet → Result Subnet
unfolding parse_reserved validate
parse_subnet s = elim (parse_cidr s.subnet) [
  | none ↦ err invalid_cidr
  | some (ip, sub) ↦ if not (equal ip sub.ip) then err individual_address else parse_addresses s sub
]

-- checkSubnets, the first loop
unfoldable pub has_duplicate : List Cidr → List Subnet → Bool
has_duplicate seen [] = false
has_duplicate seen (s ∷ ss) =
    let rest = has_duplicate (string s.subnet ∷ seen) ss in
    if member (string s.subnet) seen then true else rest

-- github.com/mikioh/ipaddr: Prefix.Equal and Prefix.Overlaps
pub record Prefixes : Type 0 where
  pub equals : IpNet → IpNet → Bool
  pub overlaps : IpNet → IpNet → Bool

module _ (pre : Prefixes) where
  -- checkSubnets, the inner loop: does a subnet overlap one of the list?
  unfoldable pub overlaps_any : Subnet → List Subnet → Bool
  overlaps_any s [] = false
  overlaps_any s (t ∷ ts) =
      let rest = overlaps_any s ts in
      if not (pre.equals s.subnet t.subnet) && pre.overlaps s.subnet t.subnet then true else rest

  -- checkSubnets, the outer loop
  unfoldable pub any_overlap : List Subnet → List Subnet → Bool
  unfolding overlaps_any
  any_overlap [] all = false
  any_overlap (s ∷ ss) all =
      let rest = any_overlap ss all in if overlaps_any s all then true else rest

  -- checkSubnets
  unfoldable pub check_subnets : List Subnet → Result (Unit {0})
  unfolding has_duplicate any_overlap
  check_subnets ss =
      if is_empty ss
      then err no_subnets_configured
      else if has_duplicate [] ss
      then err duplicate_subnet
      else if any_overlap ss ss
      then err subnets_overlap
      else ok tt

-- parseSubnet, one by one
unfoldable pub parse_subnets : List RawSubnet → Result (List Subnet)
unfolding parse_subnet
parse_subnets [] = ok []
parse_subnets (s ∷ ss) =
    let rest = parse_subnets ss in next (parse_subnet s) λ sub. next rest λ subs. ok (sub ∷ subs)

-- Storage; `none` stands for an empty name
pub record Storage (T : Type 0) : Type 0 where
  pub memory : Bool
  pub file : Option T

-- parseStorage
unfoldable pub parse_storage : {T : Type 0} → Option T → Storage T
parse_storage none = record { memory = true; file = none }
parse_storage (some name) = record { memory = false; file = some name }

pub record Debug (T : Type 0) : Type 0 where
  pub address : Option T
  pub prometheus : Bool
  pub pprof : Bool

-- The interfaces of file, the raw top-level representation
pub record RawInterface (T : Type 0) : Type 0 where
  pub name : Option T
  pub lease_duration : Option T
  pub subnets : List RawSubnet

pub record File (T : Type 0) : Type 0 where
  pub storage : Option T
  pub interfaces : List (RawInterface T)
  pub debug : Debug T

pub record Interface (T : Type 0) : Type 0 where
  pub name : T
  pub lease_duration : ℤ
  pub subnets : List Subnet

pub record Config (T : Type 0) : Type 0 where
  pub storage : Storage T
  pub interfaces : List (Interface T)
  pub debug : Debug T

-- An hour, in nanoseconds
abbrev pub hour : ℤ
hour = pos (3600 * 10 ^ 9)

-- `resolves` is net.ResolveTCPAddr and `duration` is time.ParseDuration.
module _ {T : Type 0} (pre : Prefixes) (resolves : T → Bool) (duration : T → Option ℤ) where
  -- Parse, the lease duration
  abbrev pub parse_duration : Option T → Result ℤ
  parse_duration none = ok hour
  parse_duration (some t) = elim (duration t) [ none ↦ err invalid_lease_duration | some d ↦ ok d ]

  -- Parse, the body of the loop over the interfaces
  unfoldable pub parse_interface : RawInterface T → Result (Interface T)
  unfolding parse_subnets check_subnets
  parse_interface ifi = elim ifi.name [
    | none ↦ err empty_interface_name
    | some name ↦ next (parse_duration ifi.lease_duration) λ dur.
        next (parse_subnets ifi.subnets) λ subnets.
          next (check_subnets pre subnets)
            λ _. ok (record { name = name; lease_duration = dur; subnets = subnets })
  ]

  -- Parse, the loop over the interfaces
  unfoldable pub parse_interfaces : List (RawInterface T) → Result (List (Interface T))
  unfolding parse_interface
  parse_interfaces [] = ok []
  parse_interfaces (i ∷ is) =
      let rest = parse_interfaces is in
      next (parse_interface i) λ ifi. next rest λ ifis. ok (ifi ∷ ifis)

  -- Parse, the debug configuration: kept only if its address is set
  abbrev pub parse_debug : Debug T → Result (Debug T)
  parse_debug d = elim d.address [
    | none ↦ ok (record { address = none; prometheus = false; pprof = false })
    | some a ↦ if resolves a then ok d else err bad_debug_address
  ]

  -- Parse: `decoded` is what the TOML decoder returns, and whether it left keys undecoded.
  unfoldable pub parse : Result (File T × Bool) → Result (Config T)
  unfolding parse_interfaces parse_storage
  parse decoded = next decoded λ d.
      if d.1
      then err unrecognized_keys
      else if is_empty d.0.interfaces
      then err no_interfaces
      else next (parse_debug d.0.debug) λ debug. next (parse_interfaces d.0.interfaces) λ ifis.
        ok (record { storage = parse_storage d.0.storage; interfaces = ifis; debug = debug })
