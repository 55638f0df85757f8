-- ===== src/Server/Ready.antt =====
-- Run (internal/wgipamd/server.go): with one interface the daemon becomes ready and the interface
-- runs; with more it panics.
use wgipam.Base.{
  Option-cases, ℕ, ◌≡◌, refl, Bool, true, false, none, some, List, [], ◌∷◌, All, inl, inr, arith,
  ◌∙◌,
}
use wgipam.Base.Int.{ℤ}
use wgipam.Base.Result.{Result, ok, panic}
use wgipam.Net.{Cidr, string}
use wgipam.Store.{Store}
use wgipam.Store.Contract.{StoreView, StoreLaws}
use wgipam.IpAllocator.{IpAddr}
use wgipam.IpAllocator.Cursor.{CursorLaws}
use wgipam.IpAllocator.Subnet.{Subnet}
use wgipam.IpAllocator.Multi.Setup.{IsFine, IsUnused, prefixes_of}
use wgipam.Metrics.{Summaries, Gauges, ip_store_metrics, metrics_ip_store, set_sizes, set_allocated}
use wgipam.Metrics.Wrapped.{wrapped_view, metrics-StoreLaws}
use wgipam.Config.{Prefixes, Storage, Interface, Debug, check_subnets}
use wgipam.Config.Subnets.{PrefixLaws, IsAmong, check_subnets-NoOverlap}
use wgipam.Server.Running.{IsRunning}
use wgipam.Server.Start.{dual_stack_ip_allocator-IsRunning}
use wgipam.Server.Registered.{RegistryLaws, IsFresh, gauges_lem, handler_lem}
use wgipam.Server.Daemon.{
  ips_allocated, Registry, register_gauges, Instance, no_gauges, run_server, run_interfaces,
  run_debug, run_daemon,
}

module _ (registry : Registry) (laws : RegistryLaws registry) (pkg : IpAddr)
    (cursors : CursorLaws pkg) (sums : Summaries) {S : Type 0} (st : Store S) (v : StoreView S)
    (contract : StoreLaws st v) (pre : Prefixes) (prefixes : PrefixLaws pre)
    (current_time : ℕ → ℤ) where
  open registry use {Reg, must_register}
  open laws use {registered}

  -- A Store in which nothing was saved
  pub record IsBlank (s : S) : Type 0 where
    pub inv : v.Inv s
    pub no_lease : (k : ℕ) → v.leased s k ≡ none
    pub no_address : (sub c : Cidr) → v.allocated s sub c ≡ false
    pub no_subnet : st.subnets s ≡ (ok [], s)

  blank-IsUnused :
      (s : S) (g : Gauges) (ss : List Subnet)
      → IsBlank s
      → All
          (IsUnused pkg cursors
            (metrics_ip_store st current_time)
            (wrapped_view v)
            (metrics-StoreLaws st current_time v contract)
            (IsAmong ss)
            (s, g))
          ss
  blank-IsUnused s g ss h = go ss
    where
      go : (ts : List Subnet) → All (λ t. (c : Cidr) → v.allocated s (string t.subnet) c ≡ false) ts
      go [] = tt
      go (t ∷ ts) = (h.no_address (string t.subnet), go ts)

  module _ {T : Type 0} (open_store : T → Storage T → Result S) (listens : T → Bool) where
    -- What serves an interface runs, over the Store with its gauges.
    abbrev pub Runs :
        (ifi : Interface T)
        → All IsFine ifi.subnets
        → check_subnets pre ifi.subnets ≡ ok tt
        → Instance registry pkg sums st current_time open_store listens
        → Type 0
    Runs ifi fine pass i =
        IsRunning pkg cursors (metrics_ip_store st current_time) (wrapped_view v)
          (metrics-StoreLaws st current_time v contract) (IsAmong ifi.subnets)
          (check_subnets-NoOverlap pre prefixes ifi.subnets (prefixes_of ifi.subnets fine) pass)
          ifi.lease_duration i.state

    run_debug_lem :
        (listens_tcp : T → Bool) (d : Debug T) (r : Reg)
        → ((a : T) → d.address ≡ some a → listens_tcp a ≡ true)
        → run_debug registry pkg sums st current_time open_store listens listens_tcp d r
          ≡ (ok tt, r)
    run_debug_lem listens_tcp d r h = elim (Option-cases d.address) [
      | inl e ↦ ground (arith, e)
      | inr (a, e) ↦ ground (arith, e, h a e)
    ]

    run_server_lem :
        (ifi : Interface T) (s : S) (r : Reg)
        → IsBlank s
        → (fine : All IsFine ifi.subnets) → (pass : check_subnets pre ifi.subnets ≡ ok tt)
        → listens ifi.name ≡ true
        → IsFresh registry laws r
        → (i : Instance registry pkg sums st current_time open_store listens) × (r' : Reg)
          × (run_server registry pkg sums st current_time open_store listens ifi s r ≡ (ok i, r'))
          × (i.name ≡ ifi.name)
          × (registered r' ips_allocated ≡ true)
          × Runs ifi fine pass i
    unfolding run_server ip_store_metrics set_allocated
    run_server_lem ifi s r blank fine pass listening fresh =
        let (r₁, e₁, there, no_requests, no_errors) = gauges_lem registry laws r fresh in
        let (r₂, e₂, same) = handler_lem registry laws r₁ no_requests no_errors in
        let g : Gauges = record {
          ips_allocated = [];
          subnet_allocatable_size = set_sizes pkg sums ifi.subnets [];
          last_purge = none;
          readings = 0;
        } in
        let metrics : ip_store_metrics st current_time pkg sums ifi.subnets
              (s, no_gauges registry pkg sums st current_time open_store listens)
            ≡ (ok tt, (s, g)) =
          ground (arith, blank.no_subnet) in
        let (m, w, e, running) =
          dual_stack_ip_allocator-IsRunning pkg cursors (metrics_ip_store st current_time)
            (wrapped_view v) (metrics-StoreLaws st current_time v contract) pre prefixes
            ifi.lease_duration ifi.subnets (s, g) blank.inv blank.no_lease
            (blank-IsUnused s g ifi.subnets blank) fine pass in
        (
          record { name = ifi.name; lease_duration = ifi.lease_duration; state = (m, w) },
          r₂,
          ground (arith, e₁, e₂, metrics, e, listening),
          refl,
          same ∙ there,
          running,
        )

    module _ (ifi : Interface T) (storage : Storage T) (debug : Debug T) (s : S) (r : Reg)
        (opened : open_store ifi.name storage ≡ ok s) (blank : IsBlank s)
        (fine : All IsFine ifi.subnets) (pass : check_subnets pre ifi.subnets ≡ ok tt)
        (listening : listens ifi.name ≡ true) (fresh : IsFresh registry laws r) where
      -- A daemon with one interface becomes ready, and the interface runs: if its Store opens as one
      -- in which nothing was saved and keeps the contract, its subnets pass checkSubnets and each is
      -- valid and of one family, its listener and that of the debug server, if there is one, listen,
      -- and no metric was registered before.
      pub run_daemon-Runs :
          (listens_tcp : T → Bool)
          → ((a : T) → debug.address ≡ some a → listens_tcp a ≡ true)
          → (i : Instance registry pkg sums st current_time open_store listens) × (r' : Reg)
            × (run_daemon registry pkg sums st current_time open_store listens listens_tcp
                  (record { storage = storage; interfaces = ifi ∷ []; debug = debug })
                  r
                ≡ (ok (i ∷ []), r'))
            × (i.name ≡ ifi.name)
            × Runs ifi fine pass i
      unfolding run_daemon run_interfaces
      run_daemon-Runs listens_tcp listening_tcp =
          let (i, r', e, same, _, running) =
            run_server_lem ifi s r blank fine pass listening fresh in
          let done = run_debug_lem listens_tcp debug r' listening_tcp in
          (i, r', ground (arith, opened, e, done), same, running)

      -- A daemon with more than one interface never becomes ready, under the same conditions: once
      -- the first interface is set up and the second one's Store and listener are there, the metrics
      -- of the second are those of the first, and their registration panics.
      pub run_daemon-panics :
          (listens_tcp : T → Bool) (second : Interface T) (others : List (Interface T)) (s₂ : S)
          → open_store second.name storage ≡ ok s₂
          → listens second.name ≡ true
          → (run_daemon registry pkg sums st current_time open_store listens listens_tcp
              (record { storage = storage; interfaces = ifi ∷ second ∷ others; debug = debug })
              r).0
            ≡ panic
      unfolding run_daemon run_interfaces run_server register_gauges
      run_daemon-panics listens_tcp second others s₂ opened₂ listening₂ =
          let (i, r', e, _, there, _) = run_server_lem ifi s r blank fine pass listening fresh in
          let (r'', again) = laws.register_again ips_allocated r' there in
          ground (arith, opened, e, opened₂, listening₂, again)
