-- ===== src/Server/Reconcile/Pass.antt =====
-- What a pass over the eight calls of `Reconcile` makes of the templates.
use dex_operator.Common.{
  Option-cases, inl, inr, ◌≡◌, refl, ◌∙◌, ap, true, false, Option, some, [], ◌∷◌, Str, lit, str_eq,
  ◌==◌, ok, ◌>>=◌, arith, List,
}
use dex_operator.Api.{DexServer, DexConnectorSpec}
use dex_operator.World.{
  World, View, Values, ApiServer, ApplyMode, directly, custom_resources, service_values,
  service_grpc_values, service_account_values, cluster_role_binding_values, ingress_values,
  deployment_values, config_map_values,
}
use dex_operator.World.Facts.{applied_after_apply}
use dex_operator.Certs.{grpc_service_name}
use dex_operator.Connectors.Names.{all_known}
use dex_operator.Server.ConfigMap.{config_map_file, connectors_config}
use dex_operator.Server.ConfigMap.Applies.{sync_config_map-applies}
use dex_operator.Server.Deployment.{
  visit_connectors, Extras, no_extras, dex_image_env_name, deployment_file,
}
use dex_operator.Server.Deployment.Applies.{values_of, sync_deployment-applies}
use dex_operator.Server.Resources.{
  service_account_name, cluster_role_binding_name, tls_secret_name, service_account_file,
  cluster_role_binding_file, service_http_file, service_grpc_file, ingress_file,
  sync_service_account, sync_cluster_role_binding, sync_service, sync_service_grpc, sync_ingress,
}
use dex_operator.Server.Reconcile.{sync_all}
use dex_operator.Server.Reconcile.Templates.{
  made, made-put_applied, http-Keeps, grpc-Keeps, account-Keeps, binding-Keeps, ingress-Keeps,
  deployment-Keeps,
}
use dex_operator.Server.Reconcile.Worlds.{
  after_mtls, after_config, after_http, after_grpc, after_account, after_binding, after_deployment,
  pass-eq-ok,
}

module _ {S : Type 0} {w : World S} {view : S → View} (L : ApiServer w view) where
  applied_now :
      (mode : ApplyMode) (owner : Option DexServer) (values : Values) (file : Str) (s : S)
      → (w.apply mode owner values (file ∷ []) s).0 ≡ ok tt
      → made file (view (w.apply mode owner values (file ∷ []) s).1) ≡ some values
  applied_now mode owner values file s done =
      ap (made file) (applied_after_apply L mode owner values file s done) ∙ ground arith

  ingress_made :
      (m : DexServer) (s : S)
      → (sync_ingress w m s).0 ≡ ok tt
      → (host : Str) × (w.url_host m.spec.issuer ≡ some host)
        × (made ingress_file (view (sync_ingress w m s).1)
            ≡ some (
                ingress_values (record {
                  host = host;
                  dex_server = m;
                  ingress_certificate_name = m.spec.ingress_certificate_ref;
                })))
  unfolding sync_ingress ◌>>=◌
  ingress_made m s done = elim (Option-cases (w.url_host m.spec.issuer)) [
    | inl bad ↦ absurd (ground arith)
    | inr (host, is_host) ↦ (
      host,
      is_host,
      rw (is_host, sync_ingress)
          (applied_now custom_resources (some m)
            (ingress_values (record {
              host = host;
              dex_server = m;
              ingress_certificate_name = m.spec.ingress_certificate_ref;
            }))
            ingress_file s (rw (is_host, sync_ingress) at done)),
    )
  ]

  -- What was made of a template by then, if none of the later calls is about it.
  since_deployment :
      (m : DexServer) (s : S) (g : Str)
      → (sync_all w m s).0 ≡ ok tt
      → (g == ingress_file) ≡ false
      → made g (view (sync_all w m s).1) ≡ made g (view (after_deployment w m s))
  since_deployment m s g done hingress =
      let (d1, d2, d3, d4, d5, d6, d7, d8, same) = pass-eq-ok w m s done in
      rw same ((ingress-Keeps L (made g) (λ x v. refl) m (made-put_applied g _ hingress)).same _)

  since_binding :
      (m : DexServer) (s : S) (g : Str)
      → (sync_all w m s).0 ≡ ok tt
      → (g == deployment_file) ≡ false
      → (g == ingress_file) ≡ false
      → made g (view (sync_all w m s).1) ≡ made g (view (after_binding w m s))
  since_binding m s g done hdeployment hingress =
      since_deployment m s g done hingress
      ∙ (deployment-Keeps L (made g) (λ x v. refl) m (made-put_applied g _ hdeployment)).same _

  since_account :
      (m : DexServer) (s : S) (g : Str)
      → (sync_all w m s).0 ≡ ok tt
      → (g == cluster_role_binding_file) ≡ false
      → (g == deployment_file) ≡ false
      → (g == ingress_file) ≡ false
      → made g (view (sync_all w m s).1) ≡ made g (view (after_account w m s))
  since_account m s g done hbinding hdeployment hingress =
      since_binding m s g done hdeployment hingress
      ∙ (binding-Keeps L (made g) (λ x v. refl) m (made-put_applied g _ hbinding)).same _

  since_grpc :
      (m : DexServer) (s : S) (g : Str)
      → (sync_all w m s).0 ≡ ok tt
      → (g == service_account_file) ≡ false
      → (g == cluster_role_binding_file) ≡ false
      → (g == deployment_file) ≡ false
      → (g == ingress_file) ≡ false
      → made g (view (sync_all w m s).1) ≡ made g (view (after_grpc w m s))
  since_grpc m s g done haccount hbinding hdeployment hingress =
      since_account m s g done hbinding hdeployment hingress
      ∙ (account-Keeps L (made g) (λ x v. refl) m (made-put_applied g _ haccount)).same _

  since_http :
      (m : DexServer) (s : S) (g : Str)
      → (sync_all w m s).0 ≡ ok tt
      → (g == service_grpc_file) ≡ false
      → (g == service_account_file) ≡ false
      → (g == cluster_role_binding_file) ≡ false
      → (g == deployment_file) ≡ false
      → (g == ingress_file) ≡ false
      → made g (view (sync_all w m s).1) ≡ made g (view (after_http w m s))
  since_http m s g done hgrpc haccount hbinding hdeployment hingress =
      since_grpc m s g done haccount hbinding hdeployment hingress
      ∙ (grpc-Keeps L (made g) (λ x v. refl) m (made-put_applied g _ hgrpc)).same _

  since_config :
      (m : DexServer) (s : S) (g : Str)
      → (sync_all w m s).0 ≡ ok tt
      → (g == service_http_file) ≡ false
      → (g == service_grpc_file) ≡ false
      → (g == service_account_file) ≡ false
      → (g == cluster_role_binding_file) ≡ false
      → (g == deployment_file) ≡ false
      → (g == ingress_file) ≡ false
      → made g (view (sync_all w m s).1) ≡ made g (view (after_config w m s))
  since_config m s g done hhttp hgrpc haccount hbinding hdeployment hingress =
      since_http m s g done hgrpc haccount hbinding hdeployment hingress
      ∙ (http-Keeps L (made g) (λ x v. refl) m (made-put_applied g _ hhttp)).same _

  -- When a pass succeeds, the last things made of the templates of the two services, the service
  -- account, the binding and the ingress are those for this DexServer, with the names and the host
  -- that follow from it.
  pub sync_all-applies_resources :
      (m : DexServer) (s : S)
      → (sync_all w m s).0 ≡ ok tt
      → (made service_http_file (view (sync_all w m s).1)
          ≡ some (
              service_values
                (record { serving_cert_secret_name = tls_secret_name m; dex_server = m })))
        × (made service_grpc_file (view (sync_all w m s).1)
            ≡ some (
                service_grpc_values
                  (record { grpc_service_name = grpc_service_name; dex_server = m })))
        × (made service_account_file (view (sync_all w m s).1)
            ≡ some (
                service_account_values
                  (record { service_account_name = service_account_name; dex_server = m })))
        × (made cluster_role_binding_file (view (sync_all w m s).1)
            ≡ some (
                cluster_role_binding_values (record {
                  cluster_role_name = service_account_name;
                  service_account_name = service_account_name;
                  cluster_role_binding_name = cluster_role_binding_name m;
                  dex_server = m;
                })))
        × ((host : Str) × (w.url_host m.spec.issuer ≡ some host)
            × (made ingress_file (view (sync_all w m s).1)
                ≡ some (
                    ingress_values (record {
                      host = host;
                      dex_server = m;
                      ingress_certificate_name = m.spec.ingress_certificate_ref;
                    }))))
  unfolding sync_service sync_service_grpc sync_service_account sync_cluster_role_binding lit str_eq
  sync_all-applies_resources m s done =
      let (d1, d2, d3, d4, d5, d6, d7, d8, same) = pass-eq-ok w m s done in
      (
        since_http m s service_http_file done refl refl refl refl refl
            ∙ applied_now directly (some m) _ service_http_file _ d3,
        since_grpc m s service_grpc_file done refl refl refl refl
            ∙ applied_now directly (some m) _ service_grpc_file _ d4,
        since_account m s service_account_file done refl refl refl
            ∙ applied_now directly (some m) _ service_account_file _ d5,
        since_binding m s cluster_role_binding_file done refl refl
            ∙ applied_now directly (some m) _ cluster_role_binding_file _ d6,
        rw same (ingress_made m _ d8),
      )

  -- When a pass succeeds and every connector has one of the four types, the last things made of
  -- the templates of the configuration and of the deployment are made in this pass: the
  -- configuration is the YAML of the connectors that the loop gave, and the deployment has the
  -- image of the environment and what its own loop gathered.
  pub sync_all-applies_dex :
      (m : DexServer) (s : S)
      → (sync_all w m s).0 ≡ ok tt
      → all_known m.spec.connectors ≡ true
      → ((ds : List DexConnectorSpec) × (yaml : Str) × ((connectors_config w m m.spec.connectors
              (after_mtls w m s)).0
            ≡ ok (some ds))
          × (w.marshal_connectors ds ≡ ok yaml)
          × (made config_map_file (view (sync_all w m s).1)
              ≡ some (
                  config_map_values
                    (record { issuer = m.spec.issuer; connectors_yaml = yaml; dex_server = m }))))
        × ((x : Extras) × (config_hash : Str) × (expiry : Str) × ((visit_connectors w m
                m.spec.connectors no_extras
                (after_binding w m s)).0
              ≡ ok (some x))
            × (made deployment_file (view (sync_all w m s).1)
                ≡ some (
                    deployment_values
                      (values_of L m x (w.getenv dex_image_env_name) config_hash expiry))))
  unfolding lit str_eq
  sync_all-applies_dex m s done known =
      let (d1, d2, d3, d4, d5, d6, d7, d8, same) = pass-eq-ok w m s done in
      let (ds, yaml, got, marshalled, config) = sync_config_map-applies L m _ d2 known in
      let (x, hash, expiry, visited, hashed, deployed) = sync_deployment-applies L m _ d7 known in
      (
        (
          ds,
          yaml,
          got,
          marshalled,
          since_config m s config_map_file done refl refl refl refl refl refl ∙ config,
        ),
        (x, hash, expiry, visited, since_deployment m s deployment_file done refl ∙ deployed),
      )
