-- ===== src/Server/Registered.antt =====
-- What the daemon (internal/wgipamd/server.go) relies on of its registry of metrics, and what the
-- metrics of one interface do to it.
use wgipam.Base.{◌≡◌, ◌≢◌, Bool, true, false, arith, ◌∙◌}
use wgipam.Base.Result.{ok, panic}
use wgipam.Server.Daemon.{
  Metric, requests_total, errors_total, ips_allocated, subnet_allocatable_size, last_purge,
  Registry, new_handler_metrics, register_gauges,
}

-- What Run relies on of a registry: a collector is registered once, and MustRegister panics if it is
-- registered again.
pub record RegistryLaws (registry : Registry) : Type 0 where
  pub registered : registry.Reg → Metric → Bool
  pub register_new :
      (m : Metric) (r : registry.Reg)
      → registered r m ≡ false
      → (r' : registry.Reg) × (registry.must_register m r ≡ (ok tt, r'))
        × (registered r' m ≡ true)
        × ((n : Metric) → n ≢ m → registered r' n ≡ registered r n)
  pub register_again :
      (m : Metric) (r : registry.Reg)
      → registered r m ≡ true
      → (r' : registry.Reg) × (registry.must_register m r ≡ (panic, r'))

module _ (registry : Registry) (laws : RegistryLaws registry) where
  open registry use {Reg}
  open laws use {registered}

  -- No metric of an interface is registered.
  pub record IsFresh (r : Reg) : Type 0 where
    pub no_requests : registered r requests_total ≡ false
    pub no_errors : registered r errors_total ≡ false
    pub no_allocated : registered r ips_allocated ≡ false
    pub no_size : registered r subnet_allocatable_size ≡ false
    pub no_purge : registered r last_purge ≡ false

  pub gauges_lem :
      (r : Reg)
      → IsFresh r
      → (r' : Reg) × (register_gauges registry r ≡ (ok tt, r'))
        × (registered r' ips_allocated ≡ true)
        × (registered r' requests_total ≡ false)
        × (registered r' errors_total ≡ false)
  unfolding register_gauges
  gauges_lem r h =
      let (r₁, e₁, there, others₁) = laws.register_new ips_allocated r h.no_allocated in
      let (r₂, e₂, _, others₂) =
        laws.register_new subnet_allocatable_size r₁
          (others₁ subnet_allocatable_size (λ e. cc e) ∙ h.no_size) in
      let (r₃, e₃, _, others₃) =
        laws.register_new last_purge r₂
          (others₂ last_purge (λ e. cc e) ∙ others₁ last_purge (λ e. cc e) ∙ h.no_purge) in
      (
        r₃,
        ground (arith, e₁, e₂, e₃),
        others₃ ips_allocated (λ e. cc e) ∙ others₂ ips_allocated (λ e. cc e) ∙ there,
        others₃ requests_total (λ e. cc e)
            ∙ others₂ requests_total (λ e. cc e)
            ∙ others₁ requests_total (λ e. cc e)
            ∙ h.no_requests,
        others₃ errors_total (λ e. cc e)
            ∙ others₂ errors_total (λ e. cc e)
            ∙ others₁ errors_total (λ e. cc e)
            ∙ h.no_errors,
      )

  pub handler_lem :
      (r : Reg)
      → registered r requests_total ≡ false
      → registered r errors_total ≡ false
      → (r' : Reg) × (new_handler_metrics registry r ≡ (ok tt, r'))
        × (registered r' ips_allocated ≡ registered r ips_allocated)
  unfolding new_handler_metrics
  handler_lem r no_requests no_errors =
      let (r₁, e₁, _, others₁) = laws.register_new requests_total r no_requests in
      let (r₂, e₂, _, others₂) =
        laws.register_new errors_total r₁ (others₁ errors_total (λ e. cc e) ∙ no_errors) in
      (
        r₂,
        ground (arith, e₁, e₂),
        others₂ ips_allocated (λ e. cc e) ∙ others₁ ips_allocated (λ e. cc e),
      )
