-- ===== src/IpAllocator.antt =====
-- ipallocator.go: the interface IPAllocator, and what the allocators call of package ipaddr.
pub mod Subnet
pub mod Cursor
pub mod Simple
pub mod Grants
pub mod Multi
use wgipam.Base.{ℕ, Option, List}
use wgipam.Base.Result.{M}
use wgipam.Net.{Ip, IpNet}
use wgipam.Family.{Family}

-- IPAllocator. `Allocate` returns a list and a flag; `none` is a false flag, beside which every
-- implementation returns a nil list.
pub record IpAllocator (S : Type 0) : Type 0 where
  pub allocate : Family → M S (Option (List IpNet))
  pub free : IpNet → M S Unit

-- github.com/mikioh/ipaddr, for a cursor over a single prefix: a position is its address, since
-- its prefix is that of the cursor. `Next` returns nil at the end; `Set` fails outside the prefix.
pub record IpAddr : Type 1 where
  -- NewPrefix, which also leaves its result in its argument
  pub new_prefix : IpNet → IpNet
  -- Prefix.NumNodes
  pub num_nodes : IpNet → ℕ
  pub Cursor : Type 0
  -- NewCursor
  pub new_cursor : IpNet → Cursor
  -- Cursor.First, Pos, Next and Set
  pub first : Cursor → Ip
  pub pos : Cursor → Ip
  pub next : Cursor → Option Ip × Cursor
  pub set : Ip → Cursor → Option Cursor
