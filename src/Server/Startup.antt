-- ===== src/Server/Startup.antt =====
-- The order of the start, and that its first failing step ends it.
use policy_server.Prelude.{
  ◌≡◌, refl, Bool, true, false, Option, none, some, List, [], ◌∷◌, ◌++◌, if◌then◌else◌,
}
use policy_server.Prelude.Texts.{Text, codes}
use policy_server.Result.{Error, Result, pure, ◌>>◌}
use policy_server.Strconv.{ℤ}
use policy_server.Utils.Buckets.{buckets_for_scrape_duration}
use policy_server.Server.{
  Options, Step, validate_logging, default_self_signed_certs, apply_secure_serving,
  apply_authentication, apply_authorization, apply_audit, load_kubeconfig, load_in_cluster_config,
  set_kubernetes_defaults, register_tick_duration, register_points_stored,
  register_apiserver_metrics, new_generic_server, handle_metrics, set_up_storage, install_api_group,
  add_readyz_checks, run_server, Host, is_too_short, start, call, validate_resolution, validate,
  apiserver_config, rest_config, server_config, register_server_metrics, register_storage_metrics,
  register_metrics, metrics_handler, install, register_probes, complete, run_until, run_command,
}
use policy_server.Server.Performs.{
  is_error, until_failure, all_succeed, Ends, Performs, call-Performs, run-Performs, pure-Performs,
  or_fail-Performs, bind-Performs, then-Performs,
}

module _ (H : Host) where
  abbrev auth_steps : Bool → List Step
  auth_steps true = []
  auth_steps false = apply_authentication ∷ apply_authorization ∷ []

  abbrev rest_step : Text → Step
  rest_step [] = load_in_cluster_config
  rest_step (b ∷ file) = load_kubeconfig (b ∷ file)

  abbrev apiserver_steps : Options → List Step
  apiserver_steps o =
      default_self_signed_certs
      ∷ apply_secure_serving
      ∷ (auth_steps o.disable_auth_for_testing ++ (apply_audit ∷ []))

  abbrev rest_steps : Options → List Step
  rest_steps o = rest_step o.kubeconfig ∷ set_kubernetes_defaults ∷ []

  abbrev metric_steps : Options → List Step
  metric_steps o =
      register_tick_duration
        (buckets_for_scrape_duration H.first_bucket H.other_buckets o.metric_resolution)
      ∷ register_points_stored
      ∷ []

  abbrev complete_steps : Options → List Step
  complete_steps o =
      metric_steps o
      ++ (register_apiserver_metrics
          ∷ new_generic_server
          ∷ handle_metrics
          ∷ set_up_storage o.debug
          ∷ install_api_group
          ∷ add_readyz_checks (codes "metric-storage-ready")
          ∷ [])

  -- What a start does after its validation, in order.
  abbrev pub startup_steps : Options → List Step
  startup_steps o = (apiserver_steps o ++ rest_steps o) ++ (complete_steps o ++ (run_server ∷ []))

  auth-Performs :
      (b : Bool)
      → Performs H
          (if b then pure tt else (call H apply_authentication >> call H apply_authorization))
          (auth_steps b)
  auth-Performs true = pure-Performs H
  auth-Performs false =
      then-Performs H _ _ _ _ (call-Performs H apply_authentication refl)
        (call-Performs H apply_authorization refl)

  apiserver_config-Performs : (o : Options) → Performs H (apiserver_config H o) (apiserver_steps o)
  unfolding apiserver_config
  apiserver_config-Performs o =
      then-Performs H _ _ _ _
        (or_fail-Performs H _ _ _ (call-Performs H default_self_signed_certs refl))
        (then-Performs H _ _ _ _ (call-Performs H apply_secure_serving refl) (
          bind-Performs H _ _ _ _ (auth-Performs o.disable_auth_for_testing)
            (call-Performs H apply_audit refl)))

  rest_step-Performs :
      (file : Text)
      → Performs H
          (elim file [
            | [] ↦ call H load_in_cluster_config
            | b ∷ rest ↦ call H (load_kubeconfig (b ∷ rest))
          ])
          (rest_step file ∷ [])
  rest_step-Performs [] = call-Performs H load_in_cluster_config refl
  rest_step-Performs (b ∷ file) = call-Performs H (load_kubeconfig (b ∷ file)) refl

  rest_config-Performs : (o : Options) → Performs H (rest_config H o) (rest_steps o)
  unfolding rest_config
  rest_config-Performs o =
      then-Performs H _ _ _ _ (or_fail-Performs H _ _ _ (rest_step-Performs o.kubeconfig))
        (call-Performs H set_kubernetes_defaults refl)

  register_metrics-Performs :
      (o : Options) → Performs H (register_metrics H o.metric_resolution) (metric_steps o)
  unfolding register_metrics register_server_metrics register_storage_metrics
  register_metrics-Performs o =
      then-Performs H _ _ _ _
        (or_fail-Performs H _ _ _ (call-Performs H (register_tick_duration _) refl))
        (or_fail-Performs H _ _ _ (call-Performs H register_points_stored refl))

  complete-Performs : (o : Options) → Performs H (complete H o) (complete_steps o)
  unfolding complete metrics_handler install register_probes
  complete-Performs o =
      bind-Performs H _ _ (metric_steps o ++ (register_apiserver_metrics ∷ [])) _
        (bind-Performs H _ _ (metric_steps o) (register_apiserver_metrics ∷ [])
          (register_metrics-Performs o) (run-Performs H register_apiserver_metrics refl))
        (then-Performs H _ _ _ _ (call-Performs H new_generic_server refl) (
          then-Performs H _ _ _ _ (run-Performs H handle_metrics refl) (
            then-Performs H _ _ _ _ (call-Performs H (set_up_storage o.debug) refl) (
              then-Performs H _ _ _ _ (call-Performs H install_api_group refl)
                (call-Performs H (add_readyz_checks _) refl)))))

  start-Performs :
      (o : Options)
      → Performs H (server_config H o >> (complete H o >> run_until H)) (startup_steps o)
  unfolding server_config run_until
  start-Performs o =
      bind-Performs H _ _ (apiserver_steps o ++ rest_steps o) _
        (bind-Performs H _ _ _ _ (apiserver_config-Performs o) (rest_config-Performs o))
        (bind-Performs H _ _ _ _ (complete-Performs o) (call-Performs H run_server refl))

  module _ (value : ℤ → Text) (o : Options) where
    -- A start that is not asked for the version, with a metric resolution of at least 10 seconds,
    -- performs its logging validation and then its steps, certificates to serving, in their order,
    -- up to the first one that fails, and returns an error exactly if one fails. Authentication
    -- and authorization are left out only if they are disabled, and serving comes after storage,
    -- API and probes.
    pub run_command-startup_steps :
        o.show_version ≡ false
        → is_too_short o.metric_resolution ≡ false
        → let steps = validate_logging ∷ startup_steps o in
          ((run_command H value o []).1 ≡ until_failure H steps)
          × Ends H (run_command H value o []).0 (all_succeed H steps)
    unfolding run_command validate validate_resolution server_config complete apiserver_config
        rest_config
    run_command-startup_steps serve long = rw serve (rw long (go (H.answer validate_logging)))
      where
        checked : Option Error → Result (Unit {0}) × List Step
        checked x =
            start H o
              (elim x as (λ _. List Error) [ none ↦ [] | some e ↦ e ∷ [] ], validate_logging ∷ [])

        go :
            (x : Option Error)
            → ((checked x).1 ≡ (
                if is_error H x
                then validate_logging ∷ []
                else validate_logging ∷ until_failure H (startup_steps o)))
              × Ends H
                  (checked x).0
                  (if is_error H x then false else all_succeed H (startup_steps o))
        go none = (
          (start-Performs o).trace (validate_logging ∷ []),
          (start-Performs o).ending (validate_logging ∷ []),
        )
        go (some e) = (refl, tt)
