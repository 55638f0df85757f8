-- ===== src/Lease.antt =====
-- lease.go: a lease and its expiry. Instants are nanoseconds since the epoch; `time.Time.Add` is
-- taken without its overflow, 292 years out.
use wgipam.Base.{List, Bool, ◌||◌}
use wgipam.Base.Int.{ℤ, ◌+ℤ◌, ltb_ℤ, eqb_ℤ}
use wgipam.Net.{IpNet}

-- Lease
pub record Lease : Type 0 where
  pub ips : List IpNet
  pub start : ℤ
  pub length : ℤ

-- l.Start.Add(l.Length)
abbrev pub expiry : Lease → ℤ
expiry l = l.start +ℤ l.length

-- Lease.Expired: `exp.Before(t) || exp.Equal(t)`
unfoldable pub expired : Lease → ℤ → Bool
expired l t = ltb_ℤ (expiry l) t || eqb_ℤ (expiry l) t
