-- ===== src/Server/Reconcile/Success.antt =====
-- On a cluster where calls do not fail, the eight calls of `Reconcile` succeed.
use dex_operator.Common.{
  ◌≡◌, [], ◌∷◌, false, Option, some, Str, ok, Action, is_empty, Sure, Sure-pure, Sure-branch,
  Sure-bind, Sure-Finishes,
}
use dex_operator.Api.{DexServer}
use dex_operator.World.{World, View, Values, ApplyMode, ApiServer}
use dex_operator.World.Stable.{ServerStable, Seen, apply-Preserves}
use dex_operator.World.Reliable.{Reliable}
use dex_operator.Secrets.Supply.{Supplied, Supplied-ServerStable}
use dex_operator.Conditions.{ExternLaws}
use dex_operator.Server.Mtls.{manage_mtls_secret}
use dex_operator.Server.Mtls.Success.{mtls-Sure}
use dex_operator.Server.ConfigMap.{sync_config_map}
use dex_operator.Server.ConfigMap.Sure.{sync_config_map-Sure}
use dex_operator.Server.Deployment.{dex_image_env_name, sync_deployment}
use dex_operator.Server.Deployment.Sure.{sync_deployment-Sure}
use dex_operator.Server.Resources.{
  sync_service_account, sync_cluster_role_binding, sync_service, sync_service_grpc, sync_ingress,
}
use dex_operator.Server.Reconcile.{reconcile_step, sync_all}

module _ {S : Type 0} {w : World S} {view : S → View} (L : ApiServer w view) (E : ExternLaws w)
    (R : Reliable w view) {P : View → Type 0} (C : ServerStable P) where
  apply-Sure :
      (mode : ApplyMode) (owner : Option DexServer) (values : Values) (file : Str)
      → Sure (Seen view P) (w.apply mode owner values (file ∷ []))
  apply-Sure mode owner values file =
      Sure-Finishes _ (R.apply_succeeds mode owner values file)
        (apply-Preserves L C mode owner values file)

  http-Sure : (m : DexServer) → Sure (Seen view P) (sync_service w m)
  unfolding sync_service
  http-Sure m = apply-Sure _ _ _ _

  grpc-Sure : (m : DexServer) → Sure (Seen view P) (sync_service_grpc w m)
  unfolding sync_service_grpc
  grpc-Sure m = apply-Sure _ _ _ _

  account-Sure : (m : DexServer) → Sure (Seen view P) (sync_service_account w m)
  unfolding sync_service_account
  account-Sure m = apply-Sure _ _ _ _

  binding-Sure : (m : DexServer) → Sure (Seen view P) (sync_cluster_role_binding w m)
  unfolding sync_cluster_role_binding
  binding-Sure m = apply-Sure _ _ _ _

  ingress-Sure :
      (m : DexServer) {host : Str}
      → w.url_host m.spec.issuer ≡ some host
      → Sure (Seen view P) (sync_ingress w m)
  unfolding sync_ingress
  ingress-Sure m parsed = rw (sync_ingress, parsed) (apply-Sure _ _ _ _)

  step-Sure :
      (m : DexServer) (reason text : Str) (sync : DexServer → Action S (Unit {0}))
      → Sure (Seen view P) (sync m)
      → Sure (Seen view P) (reconcile_step w m reason text sync)
  unfolding reconcile_step
  step-Sure m reason text sync sure = Sure-branch _ _ _ sure λ u. Sure-pure u

  pub sync_all-Sure :
      (m : DexServer) {host : Str}
      → ((v : View) → P v → Supplied m m.spec.connectors v)
      → is_empty (w.getenv dex_image_env_name) ≡ false
      → w.url_host m.spec.issuer ≡ some host
      → Sure (Seen view P) (sync_all w m)
  unfolding sync_all
  sync_all-Sure m supply image parsed =
      Sure-bind _ _ (step-Sure m _ _ (manage_mtls_secret w) (mtls-Sure L E R C m)) λ _.
        Sure-bind _ _ (step-Sure m _ _ (sync_config_map w) (sync_config_map-Sure L R C m supply))
          λ _. Sure-bind _ _ (step-Sure m _ _ (sync_service w) (http-Sure m)) λ _.
            Sure-bind _ _ (step-Sure m _ _ (sync_service_grpc w) (grpc-Sure m)) λ _.
              Sure-bind _ _ (step-Sure m _ _ (sync_service_account w) (account-Sure m)) λ _.
                Sure-bind _ _ (step-Sure m _ _ (sync_cluster_role_binding w) (binding-Sure m)) λ _.
                  Sure-bind _ _
                    (step-Sure m _ _ (sync_deployment w)
                      (sync_deployment-Sure L R C m image supply))
                    λ _. step-Sure m _ _ (sync_ingress w) (ingress-Sure m parsed)

module _ {S : Type 0} {w : World S} {view : S → View} (L : ApiServer w view) (E : ExternLaws w)
    (R : Reliable w view) where
  -- On a cluster where calls do not fail, the eight calls of a pass over a DexServer succeed, where
  -- the secrets are stored that its connectors refer to, its issuer parses, and the environment
  -- names an image; whatever else was or was not there before. The secrets are still stored then.
  pub sync_all-succeeds :
      (m : DexServer) (s : S) {host : Str}
      → Supplied m m.spec.connectors (view s)
      → is_empty (w.getenv dex_image_env_name) ≡ false
      → w.url_host m.spec.issuer ≡ some host
      → ((sync_all w m s).0 ≡ ok tt) × Supplied m m.spec.connectors (view (sync_all w m s).1)
  sync_all-succeeds m s supplied image parsed =
      let (u, good, after) =
        (sync_all-Sure L E R (Supplied-ServerStable m m.spec.connectors) m (λ v h. h) image
            parsed).ends
          s supplied in
      (good, after)
