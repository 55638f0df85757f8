-- ===== src/Tests/Daemons.antt =====
-- A registry that is the list of its collectors, and the daemon with one interface and with two.
use wgipam.Base.{
  ℕ, ◌≡◌, ◌≢◌, refl, Bool, true, false, none, List, [], ◌∷◌, ◌⊎◌, inl, inr, arith, ◌∙◌, ap, sym,
  eqb, eqb_iff, if◌then◌else◌, any, Bool-cases,
}
use wgipam.Base.Int.{ℤ, pos}
use wgipam.Base.Result.{Result, ok, err, panic, external}
use wgipam.Store.{Store}
use wgipam.Store.Contract.{StoreView, StoreLaws}
use wgipam.Store.Either.{either_ops, left_view, left-StoreLaws}
use wgipam.Store.Memory.{Memory, memory_store, parse_nets, subnets}
use wgipam.Store.Memory.Valid.{memory_store-IsValid}
use wgipam.Store.Memory.Laws.{memory_ops, memory_view, memory-StoreLaws}
use wgipam.Store.Bolt.{Bolt, bolt_ops}
use wgipam.Metrics.{Summaries}
use wgipam.Config.{Storage, Interface, Debug}
use wgipam.Server.Daemon.{
  Metric, go_collector, process_collector, requests_total, errors_total, ips_allocated,
  subnet_allocatable_size, last_purge, Registry, new_store, Instance, run_daemon,
}
use wgipam.Server.Registered.{RegistryLaws, IsFresh}
use wgipam.Server.Ready.{IsBlank, Runs, run_daemon-Runs, run_daemon-panics}
use wgipam.Tests.Numbered.{numbered, numbered_laws}
use wgipam.Tests.Prefixes.{textual, textual_laws}
use wgipam.Tests.Database.{listed}
use wgipam.Tests.Configs.{two_subnets, two_subnets_pass, two_subnets-IsFine}
use wgipam.Tests.World.{lease_span}

abbrev number : Metric → ℕ
number go_collector = 0
number process_collector = 1
number requests_total = 2
number errors_total = 3
number ips_allocated = 4
number subnet_allocatable_size = 5
number last_purge = 6

abbrev numbered_metric : ℕ → Metric
numbered_metric n =
    if eqb n 0
    then go_collector
    else if eqb n 1
    then process_collector
    else if eqb n 2
    then requests_total
    else if eqb n 3
    then errors_total
    else if eqb n 4
    then ips_allocated
    else if eqb n 5
    then subnet_allocatable_size
    else last_purge

numbered_metric-number : (m : Metric) → numbered_metric (number m) ≡ m
numbered_metric-number go_collector = refl
numbered_metric-number process_collector = refl
numbered_metric-number requests_total = refl
numbered_metric-number errors_total = refl
numbered_metric-number ips_allocated = refl
numbered_metric-number subnet_allocatable_size = refl
numbered_metric-number last_purge = refl

abbrev is_known : List Metric → Metric → Bool
is_known r m = any (λ n. eqb (number n) (number m)) r

abbrev pub metrics_list : Registry
metrics_list = record {
  Reg = List Metric;
  must_register = λ m r. if is_known r m then (panic, r) else (ok tt, m ∷ r);
}

others_lem : (m n : Metric) (r : List Metric) → n ≢ m → is_known (m ∷ r) n ≡ is_known r n
others_lem m n r ne = elim (Bool-cases (eqb (number m) (number n))) [
  | inl same ↦ absurd (
      ne (
        sym (numbered_metric-number n)
        ∙ ap numbered_metric (sym ((eqb_iff (number m) (number n)).0 same))
        ∙ numbered_metric-number m))
  | inr other ↦ ground (arith, other)
]

metrics_list_laws : RegistryLaws metrics_list
metrics_list_laws = record {
  registered = is_known;
  register_new = λ m r new. (
    m ∷ r,
    rw new refl,
    ground (arith, (eqb_iff (number m) (number m)).1 refl),
    λ n. others_lem m n r,
  );
  register_again = λ m r known. (r, rw known refl);
}

new_registry-IsFresh : IsFresh metrics_list metrics_list_laws []
unfolding metrics_list_laws
new_registry-IsFresh = record {
  no_requests = refl;
  no_errors = refl;
  no_allocated = refl;
  no_size = refl;
  no_purge = refl;
}

-- Memory or a file
abbrev Both : Type 0
Both = Memory ⊎ Bolt listed

abbrev both_ops : Store Both
both_ops = either_ops memory_ops (bolt_ops listed)

abbrev both_view : StoreView Both
both_view = left_view memory_view

both-StoreLaws : StoreLaws both_ops both_view
both-StoreLaws = left-StoreLaws memory_ops (bolt_ops listed) memory_view memory-StoreLaws

-- There is no file system.
abbrev in_memory : Storage ℕ
in_memory = record { memory = true; file = none }

abbrev open_store : ℕ → Storage ℕ → Result Both
open_store = new_store listed (λ dir ifi. err external)

abbrev no_summaries : Summaries
no_summaries = record { last = λ n. n.ip; summarize = λ a b. [] }

abbrev still : ℕ → ℤ
still n = pos 0

abbrev everything : ℕ → Bool
everything n = true

-- Two interfaces, 0 and 1, that serve the same subnets
abbrev serving : ℕ → Interface ℕ
serving n = record { name = n; lease_duration = lease_span; subnets = two_subnets }

abbrev no_debug : Debug ℕ
no_debug = record { address = none; prometheus = false; pprof = false }

opened : (n : ℕ) → open_store n in_memory ≡ ok (inl memory_store)
unfolding new_store
opened n = refl

memory_store-IsBlank :
    IsBlank metrics_list metrics_list_laws numbered numbered_laws no_summaries both_ops both_view
      both-StoreLaws textual textual_laws still
      (inl memory_store)
unfolding subnets parse_nets
memory_store-IsBlank = record {
  inv = memory_store-IsValid;
  no_lease = λ k. refl;
  no_address = λ sub c. refl;
  no_subnet = refl;
}

run_daemon-Runs_example :
    (i : Instance metrics_list numbered no_summaries both_ops still open_store everything)
    × (r : List Metric) × (run_daemon metrics_list numbered no_summaries both_ops still open_store
          everything everything
          (record { storage = in_memory; interfaces = serving 0 ∷ []; debug = no_debug })
          []
        ≡ (ok (i ∷ []), r))
    × (i.name ≡ 0)
    × Runs metrics_list metrics_list_laws numbered numbered_laws no_summaries both_ops both_view
        both-StoreLaws textual textual_laws still open_store everything
        (serving 0)
        two_subnets-IsFine
        two_subnets_pass
        i
run_daemon-Runs_example =
    run_daemon-Runs metrics_list metrics_list_laws numbered numbered_laws no_summaries both_ops
      both_view both-StoreLaws textual textual_laws still open_store everything (serving 0)
      in_memory no_debug (inl memory_store) [] (opened 0) memory_store-IsBlank two_subnets-IsFine
      two_subnets_pass refl new_registry-IsFresh everything (λ a e. refl)

run_daemon-panics_example :
    (run_daemon metrics_list numbered no_summaries both_ops still open_store everything everything
      (record { storage = in_memory; interfaces = serving 0 ∷ serving 1 ∷ []; debug = no_debug })
      []).0
    ≡ panic
run_daemon-panics_example =
    run_daemon-panics metrics_list metrics_list_laws numbered numbered_laws no_summaries both_ops
      both_view both-StoreLaws textual textual_laws still open_store everything (serving 0)
      in_memory no_debug (inl memory_store) [] (opened 0) memory_store-IsBlank two_subnets-IsFine
      two_subnets_pass refl new_registry-IsFresh everything (serving 1) [] (inl memory_store)
      (opened 1) refl
