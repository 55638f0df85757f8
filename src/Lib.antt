-- ===== src/Lib.antt =====
-- wgipam: an IP address management daemon for WireGuard peers, after the Go sources of this
-- repository.
--
-- The program. A Handler (handler.go) answers the clients' requests for addresses. It keeps a Lease
-- (lease.go) for each client in a LeaseStore, and takes addresses from an IPAllocator
-- (ipallocator.go), which marks them in an IPStore: a multiIPAllocator asks one simpleIPAllocator
-- for each subnet. One Store (store.go) is both, and a ticker purges it of expired leases
-- (internal/wgipamd/server.go).
--
-- The files.
--   * Base, Base/*: tests on numbers, lists, maps, sets, and the results of calls. A call that
--     changes state is a function from a state to a result and a state; what was written before an
--     error stays written. A panic and a loop without fuel are results of their own.
--   * Net, Net/Laws: what is used of Go's package net. Family: ipFamily, ipMask.
--   * Lease: lease.go. Times and durations are integers of nanoseconds.
--   * Store: the interfaces of store.go. Store/Memory: memoryStore, one function for each method.
--     Store/Contract, Store/Contract/Listing: what every Store promises, on a view of its state;
--     Store/Memory/Laws and Store/Memory/Listed are on memoryStore, and the allocators and the
--     Handler rely on the contract only. Store/Bolt: boltStore, over a database that is a parameter.
--     Store/Bolt/Buckets: what it relies on of the database, Store/Bolt/Laws and Store/Bolt/Listed:
--     the contract of it.
--   * Metrics: metricsIPStore of metrics.go, a Store around a Store, with its gauges; Metrics/Gauge,
--     Metrics/Bounds: what they show; Metrics/Transparent: what its methods return.
--   * IpAllocator/Subnet, IpAllocator/Simple, IpAllocator/Multi: Subnet.Validate,
--     simpleIPAllocator and multiIPAllocator with their constructors. IpAllocator/Cursor: what they
--     rely on of github.com/mikioh/ipaddr. IpAllocator/Grants: what a run of allocations has done.
--     IpAllocator/Simple/Range: the rounds of Allocate between the start and the end of a subnet;
--     IpAllocator/Simple/Found, IpAllocator/Simple/Overrun: what they find there.
--     IpAllocator/Simple/Skip, IpAllocator/Simple/Skipped, IpAllocator/Simple/Reserved: reserved
--     addresses.
--   * Handler: newLease, renewLease and requestIP. Handler/Counted: RequestIP, with the Handler's hook
--     and metrics.
--   * Server: the state of one interface, its requests and its ticker, as steps of one history.
--     Server/Sound: the invariant and the changes of the store that keep it; Server/Requests: that
--     requests and purges do; Server/Start: that a new interface satisfies it. Server/Daemon: NewServer
--     and Run up to the time when it is ready, newStore and serve; Server/Ready: when it gets there.
--     Store/Either: a Store of one of two types, which newStore returns.
--   * Config: Parse of internal/config/config.go; Config/Usable: what Validate and checkSubnets make
--     sure of; Config/Subnets ties checkSubnets to what the allocators assume of their networks.
--   * Http: the debug API of http.go; Http/Listing: what it lists, Http/Routes: which paths reach what.
--   * Wgipamtest, Wgipamtest/Suite: the tests of wgipamtest/store.go, over any Store;
--     Wgipamtest/Passes: that a Store of the contract passes them.
--   * Tests: a package ipaddr that keeps the laws, an interface for 192.0.2.0/30 over a memoryStore,
--     and the theorems there: Tests/Stores, Tests/Ranges, Tests/Configs, Tests/Web, Tests/Suites,
--     Tests/Daemons, and Tests/Theorems for the rest.
--
-- Choices. The text of a network, which is the key of both stores, is the pair of an address and a
-- prefix length that it denotes. A map is a list with unique keys, a set a list; theorems read them
-- through lookups only. Locks make each method one step, and calls of one interface are taken one
-- after another. The `for` of simpleIPAllocator.Allocate runs on fuel, twice the size of the prefix
-- and one more: each round moves the cursor on, and the cursor is set back once.
--
-- Not modelled: logging, the sockets behind the listeners, the shutdown of goroutines and the command
-- (cmd/wgipamd). The registry of Prometheus metrics is a parameter.
pub mod Base
pub mod Net
pub mod Family
pub mod Lease
pub mod Store
pub mod IpAllocator
pub mod Metrics
pub mod Handler
pub mod Config
pub mod Server
pub mod Http
pub mod Wgipamtest
pub mod Tests
