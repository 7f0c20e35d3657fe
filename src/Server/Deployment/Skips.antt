-- ===== src/Server/Deployment/Skips.antt =====
-- When `syncDeployment` silently applies nothing.
use dex_operator.Common.{◌≡◌, false, is_empty, ok}
use dex_operator.Api.{DexServer}
use dex_operator.World.{World, View, ApiServer}
use dex_operator.World.Reliable.{Reliable}
use dex_operator.Secrets.Supply.{Supplied, Supplied-ServerStable}
use dex_operator.Connectors.Names.{all_known}
use dex_operator.Server.Deployment.{dex_image_env_name, sync_deployment}
use dex_operator.Server.Deployment.Applies.{sync_deployment-unapplied}
use dex_operator.Server.Deployment.Sure.{sync_deployment-Sure}

module _ {S : Type 0} {w : World S} {view : S → View} (L : ApiServer w view)
    (R : Reliable w view) where
  -- Where some connector has none of the four types, `syncDeployment` succeeds and makes nothing of any
  -- template, so that the deployment stays what it was, for the other connectors too; on a cluster
  -- where calls do not fail, where the secrets are stored that the connectors refer to and the
  -- environment names an image.
  pub sync_deployment-skips :
      (m : DexServer) (s : S)
      → is_empty (w.getenv dex_image_env_name) ≡ false
      → Supplied m m.spec.connectors (view s)
      → all_known m.spec.connectors ≡ false
      → ((sync_deployment w m s).0 ≡ ok tt)
        × ((view (sync_deployment w m s).1).applied ≡ (view s).applied)
  sync_deployment-skips m s image supplied unknown =
      let (u, good, after) =
        (sync_deployment-Sure L R (Supplied-ServerStable m m.spec.connectors) m image
            (λ v h. h)).ends
          s supplied in
      (good, sync_deployment-unapplied L m s good unknown)
