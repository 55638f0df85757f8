-- ===== src/Server/Daemon.antt =====
-- internal/wgipamd/server.go: NewServer, Run and what they start, up to the time when the server is
-- ready. The listeners, the file system and the registry of metrics are parameters. The goroutines
-- that serve afterwards are the steps of Server.
use wgipam.Base.{ℕ, Bool, not, Option, none, some, List, [], ◌∷◌, ◌⊎◌, inl, inr, if◌then◌else◌}
use wgipam.Base.Int.{ℤ}
use wgipam.Base.Result.{
  Result, ok, err, panic, hang, M, pure, lift, fail_if, ◌>>=◌, ◌>>◌, external, invalid_storage,
}
use wgipam.Store.{Store}
use wgipam.Store.Memory.{Memory, memory_store}
use wgipam.Store.Bolt.{Bbolt, Bolt, file_store}
use wgipam.IpAllocator.{IpAddr}
use wgipam.IpAllocator.Multi.{Multi, dual_stack_ip_allocator}
use wgipam.Metrics
use wgipam.Metrics.{Gauges, Summaries, ip_store_metrics, metrics_ip_store}
use wgipam.Config.{Storage, Interface, Debug, Config}

-- The collectors that are registered, by their fully-qualified names
pub data Metric : Type 0 where
  go_collector process_collector : Metric
  requests_total errors_total : Metric
  ips_allocated subnet_allocatable_size last_purge : Metric

-- prometheus.Registry, whose MustRegister panics
pub record Registry : Type 1 where
  pub Reg : Type 0
  pub must_register : Metric → M Reg Unit

-- The error of a listener that stopped: is it an OpError, and one of a closed connection?
pub data ServeError : Type 0 where
  op_error : Bool → ServeError
  other_error : ServeError

-- serve
unfoldable pub serve : Option ServeError → Option ServeError
serve none = none
serve (some other_error) = some other_error
serve (some (op_error closed)) = if not closed then some (op_error closed) else none

-- newStore: `open_file` opens the database of an interface in a directory.
unfoldable pub new_store :
    {T : Type 0} (db : Bbolt) → (T → T → Result db.Db) → T → Storage T → Result (Memory ⊎ Bolt db)
new_store db open_file ifi s = if s.memory then ok (inl memory_store) else elim s.file [
  | none ↦ err invalid_storage
  | some dir ↦ elim (open_file dir ifi) [
    | ok d ↦ elim (file_store db d) [
      | ok b ↦ ok (inr b)
      | err e ↦ err e
      | panic ↦ panic
      | hang ↦ hang
    ]
    | err e ↦ err e
    | panic ↦ panic
    | hang ↦ hang
  ]
]

module _ (registry : Registry) where
  open registry use {Reg, must_register}

  -- NewServer, the registry that it makes
  unfoldable pub new_server : M Reg Unit
  new_server = must_register go_collector >> must_register process_collector

  -- NewHandlerMetrics, which registers the metrics of one interface
  unfoldable pub new_handler_metrics : M Reg Unit
  new_handler_metrics = must_register requests_total >> must_register errors_total

  -- IPStoreMetrics, which registers the gauges of one interface
  unfoldable pub register_gauges : M Reg Unit
  register_gauges =
      must_register ips_allocated
      >> (must_register subnet_allocatable_size >> must_register last_purge)

  module _ (pkg : IpAddr) (sums : Summaries) {S : Type 0} (st : Store S) (current_time : ℕ → ℤ)
      {T : Type 0} (open_store : T → Storage T → Result S) (listens : T → Bool) where
    -- What serves one interface: its allocators, and its store with the gauges around it
    pub record Instance : Type 0 where
      pub name : T
      pub lease_duration : ℤ
      pub state : Multi pkg × Metrics.W st current_time

    -- Gauges of which none was set
    abbrev pub no_gauges : Gauges
    no_gauges = record {
      ips_allocated = [];
      subnet_allocatable_size = [];
      last_purge = none;
      readings = 0;
    }

    -- runServer: IPStoreMetrics and DualStackIPAllocator over what it returns
    abbrev pub connect : Interface T → M (Metrics.W st current_time) (Multi pkg)
    connect ifi =
        ip_store_metrics st current_time pkg sums ifi.subnets
        >> dual_stack_ip_allocator pkg (metrics_ip_store st current_time).ip_store ifi.subnets

    abbrev connected :
        Interface T → Result (Multi pkg) × Metrics.W st current_time → Result Instance
    connected ifi (r, w) = elim r [
      | ok m ↦ ok (record { name = ifi.name; lease_duration = ifi.lease_duration; state = (m, w) })
      | err e ↦ err e
      | panic ↦ panic
      | hang ↦ hang
    ]

    -- runServer
    unfoldable pub run_server : Interface T → S → M Reg Instance
    unfolding register_gauges new_handler_metrics
    run_server ifi s =
        fail_if (not (listens ifi.name)) external
        >> (register_gauges
            >> (lift (connected ifi (connect ifi (s, no_gauges))) >>= λ i.
                new_handler_metrics >> pure i))

    -- Run, the loop over the interfaces
    unfoldable pub run_interfaces : Storage T → List (Interface T) → M Reg (List Instance)
    unfolding run_server
    run_interfaces storage [] = pure []
    run_interfaces storage (ifi ∷ ifis) = lift (open_store ifi.name storage) >>= λ s.
        run_server ifi s >>= λ i. run_interfaces storage ifis >>= λ is. pure (i ∷ is)

    -- runDebug, whose listener is one of TCP
    abbrev pub run_debug : (T → Bool) → Debug T → M Reg Unit
    run_debug listens_tcp d = elim d.address [
      | none ↦ pure tt
      | some a ↦ fail_if (not (listens_tcp a)) external
    ]

    -- Run, up to `close(s.ready)`: what serves then
    unfoldable pub run_daemon : (T → Bool) → Config T → M Reg (List Instance)
    unfolding run_interfaces
    run_daemon listens_tcp c =
        run_interfaces c.storage c.interfaces >>= λ is. run_debug listens_tcp c.debug >> pure is
