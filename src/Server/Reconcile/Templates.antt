-- ===== src/Server/Reconcile/Templates.antt =====
-- Each of the eight calls of `Reconcile` leaves alone what is not its own.
use dex_operator.Common.{
  ◌≡◌, refl, Bool, true, false, Option, Str, str_eq, ◌==◌, Keeps, Keeps-bind, Keeps-option,
  Keeps-pure, Keeps-lift, keeps_rules,
}
use dex_operator.Api.{DexServer, Secret}
use dex_operator.World.{World, View, Values, ApiServer, put_applied, put_secret}
use dex_operator.World.Frames.{
  part, apply-Keeps, get_secret-Keeps, create_secret-Keeps, update_secret-Keeps,
  get_config_map-Keeps,
}
use dex_operator.Server.Mtls.{renew_mtls_secret, create_mtls_secret, manage_mtls_secret}
use dex_operator.Server.Mtls.Renewal.{needs_renewal-Keeps, new_mtls_secret-Keeps}
use dex_operator.Server.Deployment.{
  Extras, deployment_file, sync_deployment, apply_deployment, dex_config_map_hash,
  mtls_secret_expiry,
}
use dex_operator.Server.Deployment.Applies.{visits-Keeps}
use dex_operator.Server.Resources.{
  service_account_file, cluster_role_binding_file, service_http_file, service_grpc_file,
  ingress_file, sync_service_account, sync_cluster_role_binding, sync_service, sync_service_grpc,
  sync_ingress,
}

-- What was last made of the template `g`.
abbrev pub made : Str → View → Option Values
made g v = v.applied g

-- A template is not another one.
pub made-put_applied :
    (g f : Str)
    → (g == f) ≡ false
    → (values : Values) (v : View) → made g (put_applied f values v) ≡ made g v
made-put_applied g f other values v = rw other refl

module _ {S X : Type 0} {w : World S} {view : S → View} (L : ApiServer w view) (p : View → X)
    (same : (x : Secret) (v : View) → p (put_secret x v) ≡ p v) where
  -- What is made of the template is no part of what is looked at.
  abbrev pub Free : Str → Type 0
  Free file = (values : Values) (v : View) → p (put_applied file values v) ≡ p v

  renew-Keeps : (m : DexServer) (b : Bool) → Keeps (part view p) (renew_mtls_secret w m b)
  unfolding renew_mtls_secret
  renew-Keeps m true = search (keeps_rules, new_mtls_secret-Keeps L p, update_secret-Keeps L p same)
  renew-Keeps m false = search keeps_rules

  create-Keeps : (m : DexServer) → Keeps (part view p) (create_mtls_secret w m)
  unfolding create_mtls_secret
  create-Keeps m = search (keeps_rules, new_mtls_secret-Keeps L p, create_secret-Keeps L p same)

  pub mtls-Keeps : (m : DexServer) → Keeps (part view p) (manage_mtls_secret w m)
  unfolding manage_mtls_secret
  mtls-Keeps m =
      search (keeps_rules, get_secret-Keeps L p, needs_renewal-Keeps L p, renew-Keeps, create-Keeps)

  pub http-Keeps : (m : DexServer) → Free service_http_file → Keeps (part view p) (sync_service w m)
  unfolding sync_service
  http-Keeps m other = apply-Keeps L p _ _ _ _ (other _)

  pub grpc-Keeps :
      (m : DexServer) → Free service_grpc_file → Keeps (part view p) (sync_service_grpc w m)
  unfolding sync_service_grpc
  grpc-Keeps m other = apply-Keeps L p _ _ _ _ (other _)

  pub account-Keeps :
      (m : DexServer) → Free service_account_file → Keeps (part view p) (sync_service_account w m)
  unfolding sync_service_account
  account-Keeps m other = apply-Keeps L p _ _ _ _ (other _)

  pub binding-Keeps :
      (m : DexServer)
      → Free cluster_role_binding_file
      → Keeps (part view p) (sync_cluster_role_binding w m)
  unfolding sync_cluster_role_binding
  binding-Keeps m other = apply-Keeps L p _ _ _ _ (other _)

  pub ingress-Keeps : (m : DexServer) → Free ingress_file → Keeps (part view p) (sync_ingress w m)
  unfolding sync_ingress
  ingress-Keeps m other =
      Keeps-option (w.url_host m.spec.issuer) _ _ (Keeps-lift _)
        λ host. apply-Keeps L p _ _ _ _ (other _)

  hash-Keeps : (m : DexServer) → Keeps (part view p) (dex_config_map_hash w m)
  unfolding dex_config_map_hash
  hash-Keeps m = search (keeps_rules, get_config_map-Keeps L p)

  expiry-Keeps : (m : DexServer) → Keeps (part view p) (mtls_secret_expiry w m)
  unfolding mtls_secret_expiry
  expiry-Keeps m = search (keeps_rules, get_secret-Keeps L p)

  finish-Keeps :
      (m : DexServer) (image : Str) (x : Extras)
      → Free deployment_file
      → Keeps (part view p) (apply_deployment w m image x)
  unfolding apply_deployment
  finish-Keeps m image x other =
      Keeps-bind _ _ (hash-Keeps m)
        λ hash. Keeps-bind _ _ (expiry-Keeps m) λ expiry. apply-Keeps L p _ _ _ _ (other _)

  pub deployment-Keeps :
      (m : DexServer) → Free deployment_file → Keeps (part view p) (sync_deployment w m)
  unfolding sync_deployment
  deployment-Keeps m other = Keeps-bind _ _ (Keeps-lift _) λ image.
      Keeps-bind _ _ (visits-Keeps L p same m _ _)
        λ found. Keeps-option found _ _ (Keeps-pure _) λ x. finish-Keeps m image x other
