-- ===== src/Metrics/Wrapped.antt =====
-- metricsIPStore (metrics.go): it keeps the contract of the Store that it wraps.
use wgipam.Base.{ℕ, ◌+◌, ◌≡◌, Bool, true, false, Option, none, some, arith, ap, sym, ◌∙◌, List}
use wgipam.Base.Int.{ℤ, pos, negsuc}
use wgipam.Base.Result.{Result, ok, ok-injective}
use wgipam.Net.{IpNet, Cidr, string}
use wgipam.Net.Laws.{restored}
use wgipam.Lease.{Lease}
use wgipam.Store.{Store, PurgeStats}
use wgipam.Store.Contract.{
  StoreView, StoreLaws, Sets, Registers, Saves, Purges, freed_from, expired_in,
}
use wgipam.Metrics.{Gauges, metrics_ip_store, allocate_ip, free_ip, purge, sub_all, add_to}

-- The inner store, whatever the gauges show
abbrev pub wrapped_view : {S : Type 0} → StoreView S → StoreView (S × Gauges)
wrapped_view v = record {
  Inv = λ w. v.Inv w.0;
  IsKey = v.IsKey;
  Storable = v.Storable;
  stored = v.stored;
  leased = λ w. v.leased w.0;
  registered = λ w. v.registered w.0;
  known = λ w. v.known w.0;
  allocated = λ w. v.allocated w.0;
}

module _ {S : Type 0} (st : Store S) (current_time : ℕ → ℤ) where
  pub allocate_ip-true :
      (sub ip : IpNet) (s s' : S) (g : Gauges)
      → st.allocate_ip sub ip s ≡ (ok true, s')
      → allocate_ip st current_time sub ip (s, g)
        ≡ (ok true, (s', record g { ips_allocated = add_to (string sub) (pos 1) g.ips_allocated }))
  unfolding allocate_ip
  allocate_ip-true sub ip s s' g e = ground (arith, e)

  allocate_ip-false :
      (sub ip : IpNet) (s s' : S) (g : Gauges)
      → st.allocate_ip sub ip s ≡ (ok false, s')
      → allocate_ip st current_time sub ip (s, g) ≡ (ok false, (s', g))
  unfolding allocate_ip
  allocate_ip-false sub ip s s' g e = ground (arith, e)

  pub free_ip-ok :
      (sub ip : IpNet) (s s' : S) (g : Gauges)
      → st.free_ip sub ip s ≡ (ok tt, s')
      → free_ip st current_time sub ip (s, g)
        ≡ (ok tt, (s', record g { ips_allocated = add_to (string sub) (negsuc 0) g.ips_allocated }))
  unfolding free_ip
  free_ip-ok sub ip s s' g e = ground (arith, e)

  purge-ok :
      (t : ℤ) (ps : PurgeStats) (s s' : S) (g : Gauges)
      → st.purge t s ≡ (ok ps, s')
      → (g' : Gauges) × (purge st current_time t (s, g) ≡ (ok ps, (s', g')))
  unfolding purge
  purge-ok t ps s s' g e = (
    record g {
      ips_allocated = sub_all ps g.ips_allocated;
      last_purge = some (current_time g.readings);
      readings = g.readings + 1;
    },
    ground (arith, e),
  )

  module _ (v : StoreView S) (contract : StoreLaws st v) where
    wrapped-Sets :
        (sub c : _) (b : Bool) (s s' : S) (g g' : Gauges)
        → Sets v sub c b s s'
        → Sets (wrapped_view v) sub c b (s, g) (s', g')
    wrapped-Sets sub c b s s' g g' h = record {
      inv = h.inv;
      same_leases = h.same_leases;
      same_subnets = h.same_subnets;
      same_known = h.same_known;
      sets = h.sets;
    }

    wrapped-Saves :
        (key : ℕ) (l : Option Lease) (s s' : S) (g : Gauges)
        → Saves v key l s s'
        → Saves (wrapped_view v) key l (s, g) (s', g)
    wrapped-Saves key l s s' g h = record {
      inv = h.inv;
      saves = h.saves;
      same_subnets = h.same_subnets;
      same_known = h.same_known;
      same_allocations = h.same_allocations;
    }

    wrapped-Registers :
        (sub : _) (s s' : S) (g : Gauges)
        → Registers v sub s s'
        → Registers (wrapped_view v) sub (s, g) (s', g)
    wrapped-Registers sub s s' g h = record {
      inv = h.inv;
      same_leases = h.same_leases;
      registers = h.registers;
      knows = h.knows;
      others = h.others;
      no_more = h.no_more;
    }

    wrapped-Purges :
        (t : ℤ) (s s' : S) (g g' : Gauges)
        → Purges v t s s'
        → Purges (wrapped_view v) t (s, g) (s', g')
    wrapped-Purges t s s' g g' h = record {
      inv = h.inv;
      keeps_live = h.keeps_live;
      only_live = h.only_live;
      same_subnets = h.same_subnets;
      same_known = h.same_known;
      keeps = h.keeps;
      frees_expired = h.frees_expired;
    }

    wrapped_counts :
        (t : ℤ) (w w' : S × Gauges) (ps : PurgeStats) (ls : List Lease) (c : Cidr)
        → v.Inv w.0
        → ((metrics_ip_store st current_time).leases w).0 ≡ ok ls
        → purge st current_time t w ≡ (ok ps, w')
        → v.known w.0 c ≡ true
        → freed_from c ps ≡ expired_in t (restored c) ls
    wrapped_counts t w w' ps ls c inv e e' there =
        let (qs, s', done, h) = contract.purge_lem t w.0 inv in
        let (g', wrapped) = purge-ok t qs w.0 s' w.1 done in
        let same : qs ≡ ps = ok-injective (ap (λ r. r.0) (sym wrapped ∙ e')) in
        sym (ap (freed_from c) same) ∙ contract.purge_counts t w.0 s' qs ls c inv e done there

    -- Around any Store that keeps its contract, metricsIPStore keeps it too, whatever its gauges show.
    pub metrics-StoreLaws : StoreLaws (metrics_ip_store st current_time) (wrapped_view v)
    metrics-StoreLaws = record {
      stored_lem = contract.stored_lem;
      lease_lem = λ key w inv h.
          ap (λ (r : Result (Option Lease) × S). (r.0, (r.1, w.1)))
            (contract.lease_lem key w.0 inv h);
      save_lease_lem = λ key l w inv k storable.
          let (s', e, h) = contract.save_lease_lem key l w.0 inv k storable in
          (
            (s', w.1),
            ap (λ (r : Result Unit × S). (r.0, (r.1, w.1))) e,
            wrapped-Saves key (some (v.stored l)) w.0 s' w.1 h,
          );
      delete_lease_lem = λ key w inv k.
          let (s', e, h) = contract.delete_lease_lem key w.0 inv k in
          (
            (s', w.1),
            ap (λ (r : Result Unit × S). (r.0, (r.1, w.1))) e,
            wrapped-Saves key none w.0 s' w.1 h,
          );
      save_subnet_lem = λ sub w inv valid.
          let (s', e, h) = contract.save_subnet_lem sub w.0 inv valid in
          (
            (s', w.1),
            ap (λ (r : Result Unit × S). (r.0, (r.1, w.1))) e,
            wrapped-Registers (string sub) w.0 s' w.1 h,
          );
      allocate_free = λ sub ip w inv hs hi reg inside free.
          let (s', e, h) = contract.allocate_free sub ip w.0 inv hs hi reg inside free in
          (
            (s', _),
            allocate_ip-true sub ip w.0 s' w.1 e,
            wrapped-Sets (string sub) (string ip) true w.0 s' w.1 _ h,
          );
      allocate_taken = λ sub ip w inv reg inside taken.
          allocate_ip-false sub ip w.0 w.0 w.1
            (contract.allocate_taken sub ip w.0 inv reg inside taken);
      free_lem = λ sub ip w inv reg inside.
          let (s', e, h) = contract.free_lem sub ip w.0 inv reg inside in
          (
            (s', _),
            free_ip-ok sub ip w.0 s' w.1 e,
            wrapped-Sets (string sub) (string ip) false w.0 s' w.1 _ h,
          );
      purge_lem = λ t w inv.
          let (ps, s', e, h) = contract.purge_lem t w.0 inv in
          let (g', e') = purge-ok t ps w.0 s' w.1 e in
          (ps, (s', g'), e', wrapped-Purges t w.0 s' w.1 g' h);
      purge_counts = λ t w w' ps ls c inv e e' there. wrapped_counts t w w' ps ls c inv e e' there;
    }
