-- ===== src/Net/Laws.antt =====
-- Facts on networks: the text and the parser are inverse, and containment depends on the text.
use wgipam.Base.{◌+◌, ◌-◌, ◌≡◌, true, some, arith}
use wgipam.Net.{
  Ip, IpNet, Cidr, cidr4, cidr6, unprintable, IsCidr, IsNet, mapped, bytes4, bytes16, w32, w128,
  clear, string, contains, within, parse_cidr, equal,
}

-- What ParseCIDR returns for a well-formed text, by parts.
abbrev pub address : Cidr → Ip
address (cidr4 a k) = bytes16 (mapped + a)
address (cidr6 a k) = bytes16 a
address unprintable = Ip.nil

abbrev pub own_net : Cidr → IpNet
own_net (cidr4 a k) = record {
  ip = bytes4 (clear (32 - k) a);
  mask = record { ones = k; width = w32 };
}
own_net (cidr6 a k) = record {
  ip = bytes16 (clear (128 - k) a);
  mask = record { ones = k; width = w128 };
}
own_net unprintable = record { ip = Ip.nil; mask = record { ones = 0; width = w32 } }

-- The network with the whole address put back, as the stores do.
abbrev pub restored : Cidr → IpNet
restored c = record (own_net c) { ip = address c }

pub parse_cidr-eq : (c : Cidr) → IsCidr c → parse_cidr c ≡ some (address c, own_net c)
unfolding parse_cidr
parse_cidr-eq (cidr4 a k) h = ground arith
parse_cidr-eq (cidr6 a k) h = ground arith
parse_cidr-eq unprintable h = absurd h

pub string-restored : (c : Cidr) → IsCidr c → string (restored c) ≡ c
unfolding string
string-restored (cidr4 a k) h = ground arith
string-restored (cidr6 a k) h = ground arith
string-restored unprintable h = absurd h

-- Containment depends on the text of the network alone.
pub contains-of-string :
    (m n : IpNet) (ip : Ip) → string m ≡ string n → contains m ip ≡ contains n ip
unfolding contains
contains-of-string m n ip h = rw h

-- A network contains an address, or does not, whichever of its forms the address has.
pub contains-address :
    (n ip : IpNet) → IsNet ip → contains n (address (string ip)) ≡ contains n ip.ip
unfolding contains string within
contains-address n ip h = ground arith

pub equal_refl : (ip : Ip) → equal ip ip ≡ true
equal_refl ip = ground arith
