-- ===== src/Server/ConfigMap/Skips.antt =====
-- When `syncConfigMap` silently applies nothing.
use dex_operator.Common.{◌≡◌, false, ok}
use dex_operator.Api.{DexServer}
use dex_operator.World.{World, View, ApiServer}
use dex_operator.World.Reliable.{Reliable}
use dex_operator.Secrets.Supply.{Supplied, Supplied-ServerStable}
use dex_operator.Connectors.Names.{all_known}
use dex_operator.Server.ConfigMap.{sync_config_map}
use dex_operator.Server.ConfigMap.Applies.{sync_config_map-unapplied}
use dex_operator.Server.ConfigMap.Sure.{sync_config_map-Sure}

module _ {S : Type 0} {w : World S} {view : S → View} (L : ApiServer w view)
    (R : Reliable w view) where
  -- Where some connector has none of the four types, `syncConfigMap` succeeds and makes nothing of any
  -- template, so that the configuration stays what it was, for the other connectors too; on a cluster
  -- where calls do not fail, where the secrets are stored that the connectors refer to.
  pub sync_config_map-skips :
      (m : DexServer) (s : S)
      → Supplied m m.spec.connectors (view s)
      → all_known m.spec.connectors ≡ false
      → ((sync_config_map w m s).0 ≡ ok tt)
        × ((view (sync_config_map w m s).1).applied ≡ (view s).applied)
  sync_config_map-skips m s supplied unknown =
      let (u, good, after) =
        (sync_config_map-Sure L R (Supplied-ServerStable m m.spec.connectors) m (λ v h. h)).ends s
          supplied in
      (good, sync_config_map-unapplied L m s good unknown)
