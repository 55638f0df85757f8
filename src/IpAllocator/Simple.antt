-- ===== src/IpAllocator/Simple.antt =====
-- ipallocator.go: simpleIPAllocator. Its lock makes each call one step.
pub mod Advance
pub mod Allocate
pub mod Loop
pub mod Ends
pub mod Setup
pub mod Range
pub mod Found
pub mod Overrun
pub mod Skip
pub mod Skipped
pub mod Reserved
use wgipam.Base.{
  ℕ, zero, suc, ◌+◌, ◌*◌, Bool, true, false, not, ◌&&◌, ◌||◌, Option, none, some, List, [], ◌∷◌,
  nat_eq, ◌==◌, if◌then◌else◌,
}
use wgipam.Base.Result.{
  Result, ok, err, panic, hang, M, pure, fail, lift, ◌>>=◌, ◌>>◌, only_manages,
  position_out_of_range,
}
use wgipam.Net.{Ip, IpNet, Mask, equal, contains}
use wgipam.Family.{Family, ip_family, ip_mask}
use wgipam.Store.{IpStore}
use wgipam.IpAllocator.{IpAddr}
use wgipam.IpAllocator.Subnet.{Subnet, is_set, validate}

module _ (pkg : IpAddr) where
  open pkg use {new_prefix, num_nodes, Cursor, new_cursor, first, pos, next, set}

  -- simpleIPAllocator; `prefix` is the prefix of its cursor's positions
  pub record Simple : Type 0 where
    pub family : Family
    pub sub : Subnet
    pub prefix : IpNet
    pub cursor : Cursor
    pub start : Ip
    pub last : Option Ip

  -- The positions that an allocation round works with: Go's `p` and `next`, nil at the end.
  abbrev pub Positions : Type 0
  Positions = Option Ip × Option Ip

  -- `if p.IP.Equal(ip) { p = next; next = s.c.Next() }`
  unfoldable pub skip_current : Ip → Ip → Option Ip → Cursor → Positions × Cursor
  skip_current r p n c =
      if equal p r then (let (n', c') = next c in ((n, n'), c')) else ((some p, n), c)

  -- `if next != nil && next.IP.Equal(ip) { next = s.c.Next() }`
  unfoldable pub skip_next : Ip → Positions × Cursor → Positions × Cursor
  skip_next r ((p, none), c) = ((p, none), c)
  skip_next r ((p, some n), c) =
      if equal n r then (let (n', c') = next c in ((p, n'), c')) else ((p, some n), c)

  -- The loop over the reserved addresses. It reads `p.IP`, and so panics once `p` is nil.
  unfoldable pub skip_reserved : List Ip → Positions × Cursor → Result Positions × Cursor
  unfolding skip_current skip_next
  skip_reserved [] (ps, c) = (ok ps, c)
  skip_reserved (r ∷ rs) ((none, n), c) = (panic, c)
  skip_reserved (r ∷ rs) ((some p, n), c) = skip_reserved rs (skip_next r (skip_current r p n c))

  -- `next == nil || (next != nil && s.end != nil && next.IP.Equal(s.end.IP))`
  abbrev pub at_end : Option Ip → Option Ip → Bool
  at_end none last = true
  at_end (some n) none = false
  at_end (some n) (some e) = equal n e

module _ (pkg : IpAddr) {S : Type 0} (store : IpStore S) where
  open pkg use {new_prefix, num_nodes, Cursor, new_cursor, first, pos, next, set}

  -- The allocator and the store behind it
  abbrev pub W : Type 0
  W = Simple pkg × S

  abbrev pub on_store : {A : Type 0} → M S A → M W A
  on_store m (s, st) = let (r, st') = m st in (r, (s, st'))

  -- `p := s.c.Pos(); next := s.c.Next()` and the loop over the reserved addresses
  unfoldable pub advance : M W (Positions pkg)
  unfolding skip_reserved
  advance (s, st) =
      let (n, c) = next s.cursor in
      let (r, c') = skip_reserved pkg s.sub.reserved ((some (pos s.cursor), n), c) in
      (r, (record s { cursor = c' }, st))

  -- The test for the end: `none` returns with no address, else the new value of `out`
  unfoldable pub wrap : Bool → Option Ip → M W (Option Bool)
  wrap out n (s, st) =
      if at_end pkg n s.last
      then if out then (ok none, (s, st)) else elim (set s.start s.cursor) [
        | none ↦ (err position_out_of_range, (s, st))
        | some c ↦ (ok (some true), (record s { cursor = c }, st))
      ]
      else (ok (some out), (s, st))

  -- AllocateIP for the address of `p`; `none` says that it is taken
  unfoldable pub attempt : Option Ip → M W (Option IpNet)
  attempt none w = (panic, w)
  attempt (some p) (s, st) =
      (do
        m ← lift (ip_mask s.prefix)
        let ip : IpNet = record { ip = p; mask = m }
        fresh ← on_store (store.allocate_ip s.prefix ip)
        pure (if fresh then some ip else none))
        (s, st)

  -- The `for` of Allocate
  unfoldable pub loop : ℕ → Bool → M W (Option (List IpNet))
  loop zero out w = (hang, w)
  loop (suc fuel) out w =
      (do
        (p, n) ← advance
        going ← wrap out n
        elim going [
          | none ↦ pure none
          | some out' ↦ do
            got ← attempt p
            elim got [ none ↦ loop fuel out' | some ip ↦ pure (some (ip ∷ [])) ]
        ])
        w

  -- Each round moves the cursor on, and it runs over the prefix at most twice.
  abbrev pub rounds : Simple pkg → ℕ
  rounds s = 2 * num_nodes s.prefix + 1

  -- Allocate
  unfoldable pub allocate : Family → M W (Option (List IpNet))
  allocate family (s, st) =
      if not (family == s.family)
      then (err only_manages, (s, st))
      else loop (rounds s) false (s, st)

  -- Free
  unfoldable pub free : IpNet → M W Unit
  free ip (s, st) =
      if not (contains s.sub.subnet ip.ip)
      then (ok tt, (s, st))
      else on_store (store.free_ip s.sub.subnet ip) (s, st)

  -- The cursor and the start of SimpleIPAllocator
  unfoldable pub start_cursor : Ip → Cursor → Result (Ip × Cursor)
  start_cursor ip c =
      if is_set ip
      then elim (set ip c) [ none ↦ err position_out_of_range | some c' ↦ ok (ip, c') ]
      else ok (first c, c)

  -- Its end: the address after the last one, nil if there is none
  unfoldable pub end_position : Ip → Cursor → Result (Option Ip)
  end_position ip c =
      if is_set ip
      then elim (set ip c) [ none ↦ err position_out_of_range | some c' ↦ ok (next c').0 ]
      else ok none

  -- SimpleIPAllocator. NewPrefix rewrites the network of its own copy of the subnet.
  unfoldable pub simple_ip_allocator : Subnet → M S (Simple pkg)
  unfolding validate start_cursor end_position ip_family
  simple_ip_allocator subnet = do
    lift (validate subnet)
    store.save_subnet subnet.subnet
    let p = new_prefix subnet.subnet
    (start, c) ← lift (start_cursor subnet.start (new_cursor p))
    last ← lift (end_position subnet.last (new_cursor p))
    family ← lift (ip_family p)
    pure (record {
      family = family;
      sub = record subnet { subnet = p };
      prefix = p;
      cursor = c;
      start = start;
      last = last;
    })
