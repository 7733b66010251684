-- ===== src/Server.antt =====
-- The start of the program: cmd/app/policyserver.go, cmd/app/opts/options.go, pkg/server (config.go,
-- metrics.go, server.go), pkg/storage/monitoring.go and pkg/api/install.go. The objects that the
-- called libraries build are opaque to this code and are not modelled; what is modelled is which calls
-- it makes, with which settings, in which order, and what it does with their errors.
pub mod Performs
pub mod Startup
use policy_server.Prelude.{
  ℕ, ◌*◌, ◌^◌, ltb, Bool, true, false, Option, none, some, List, [], ◌∷◌, ◌++◌, if◌then◌else◌,
}
use policy_server.Prelude.Texts.{Text, codes}
use policy_server.Result.{Error, foreign, Exec, pure, raise, or_fail, ◌>>=◌, ◌>>◌, Result, ok, err}
use policy_server.Strconv.{ℤ, pos, negsuc}
use policy_server.Utils.Float64.{Float64}
use policy_server.Utils.Buckets.{buckets_for_scrape_duration}

-- `Options`; the metric resolution is in nanoseconds.
pub record Options : Type 0 where
  pub metric_resolution : ℤ
  pub show_version : Bool
  pub debug : Bool
  pub kubeconfig : Text
  pub disable_auth_for_testing : Bool

-- `NewOptions`
abbrev pub new_options : Options
new_options = record {
  metric_resolution = pos (60 * 10 ^ 9);
  show_version = false;
  debug = false;
  kubeconfig = [];
  disable_auth_for_testing = false;
}

-- The calls that can fail, or that the start is about.
pub data Step : Type 0 where
  print_version : Step
  validate_logging : Step
  default_self_signed_certs : Step
  apply_secure_serving : Step
  apply_authentication : Step
  apply_authorization : Step
  apply_audit : Step
  load_kubeconfig : Text → Step
  load_in_cluster_config : Step
  set_kubernetes_defaults : Step
  register_tick_duration : List Float64 → Step
  register_points_stored : Step
  register_apiserver_metrics : Step
  new_generic_server : Step
  handle_metrics : Step
  set_up_storage : Bool → Step
  install_api_group : Step
  add_readyz_checks : Text → Step
  run_server : Step

-- `DefBuckets` of the metrics library, and what each call answers: none, or its error.
pub record Host : Type 0 where
  pub first_bucket : Float64
  pub other_buckets : List Float64
  pub answer : Step → Option Error
  pub error_text : Error → Text

-- `o.MetricResolution < 10*time.Second`
unfoldable pub is_too_short : ℤ → Bool
is_too_short (pos n) = ltb n (10 * 10 ^ 9)
is_too_short (negsuc n) = true

module _ (H : Host) where
  -- The state is the list of the calls made so far.
  abbrev pub Startup : Type 0 → Type 0
  Startup A = Exec (List Step) A

  abbrev pub call : Step → Startup (Unit {0})
  call step made = elim (H.answer step) [
    | none ↦ (ok tt, made ++ (step ∷ []))
    | some e ↦ (err e, made ++ (step ∷ []))
  ]

  -- A call that returns no error.
  abbrev pub run : Step → Startup (Unit {0})
  run step made = (ok tt, made ++ (step ∷ []))

  abbrev pub prefixed : Text → Error → Error
  prefixed message e = foreign (message ++ H.error_text e)

  -- `validate`; `value` prints the duration.
  unfoldable pub validate_resolution : (ℤ → Text) → Options → List Error
  validate_resolution value o =
      if is_too_short o.metric_resolution
      then foreign (
          codes "metric-resolution should be a time duration at least 10s, but value "
          ++ (value o.metric_resolution ++ codes " provided"))
        ∷ []
      else []

  -- `Validate`
  unfoldable pub validate : (ℤ → Text) → Options → List Step → List Error × List Step
  validate value o made =
      let errors = validate_resolution value o in
      (
        errors ++ (elim (H.answer validate_logging) [ none ↦ [] | some e ↦ e ∷ [] ]),
        made ++ (validate_logging ∷ []),
      )

  -- `ApiserverConfig`
  unfoldable pub apiserver_config : Options → Startup (Unit {0})
  apiserver_config o = do
    or_fail (prefixed (codes "error creating self-signed certificates: "))
        (call default_self_signed_certs)
    call apply_secure_serving
    if o.disable_auth_for_testing
        then pure tt
        else do call apply_authentication; call apply_authorization
    call apply_audit

  -- `restConfig`
  unfoldable pub rest_config : Options → Startup (Unit {0})
  rest_config o = do
    or_fail (prefixed (codes "unable to construct lister client config: ")) (elim o.kubeconfig [
      | [] ↦ call load_in_cluster_config
      | b ∷ file ↦ call (load_kubeconfig (b ∷ file))
    ])
    call set_kubernetes_defaults

  -- `ServerConfig`
  unfoldable pub server_config : Options → Startup (Unit {0})
  server_config o = do apiserver_config o; rest_config o

  -- `RegisterServerMetrics`
  unfoldable pub register_server_metrics : ℤ → Startup (Unit {0})
  register_server_metrics resolution = call (
      register_tick_duration
        (buckets_for_scrape_duration H.first_bucket H.other_buckets resolution))

  -- `RegisterStorageMetrics`
  unfoldable pub register_storage_metrics : Startup (Unit {0})
  register_storage_metrics = call register_points_stored

  -- `RegisterMetrics`
  unfoldable pub register_metrics : ℤ → Startup (Unit {0})
  register_metrics resolution = do
    or_fail (prefixed (codes "unable to register server metrics: "))
        (register_server_metrics resolution)
    or_fail (prefixed (codes "unable to register storage metrics: ")) register_storage_metrics

  -- `metricsHandler`
  unfoldable pub metrics_handler : ℤ → Startup (Unit {0})
  metrics_handler resolution = do register_metrics resolution; run register_apiserver_metrics

  -- `Install` of pkg/api/install.go
  unfoldable pub install : Startup (Unit {0})
  install = call install_api_group

  -- `RegisterProbes`
  unfoldable pub register_probes : Startup (Unit {0})
  register_probes = call (add_readyz_checks (codes "metric-storage-ready"))

  -- `Complete`
  unfoldable pub complete : Options → Startup (Unit {0})
  complete o = do
    metrics_handler o.metric_resolution
    call new_generic_server
    run handle_metrics
    call (set_up_storage o.debug)
    install
    register_probes

  -- `RunUntil`
  unfoldable pub run_until : Startup (Unit {0})
  run_until = call run_server

  -- `runCommand` after its validation.
  abbrev pub start : Options → List Error × List Step → Result (Unit {0}) × List Step
  start o ([], made) = (do server_config o; complete o; run_until) made
  start o (e ∷ errors, made) = (err e, made)

  -- `runCommand`: printing the version ends the process.
  unfoldable pub run_command : (ℤ → Text) → Options → Startup (Unit {0})
  run_command value o made =
      if o.show_version then run print_version made else start o (validate value o made)
