-- ===== src/Tests/Clients.antt =====
-- The theorems on the DexClient controller at a client of the tests.
use dex_operator.Common.{GoError, err, ok, ◌≡◌, ◌≢◌}
use dex_operator.Client.Reconcile.{sync_oauth2_client}
use dex_operator.Client.Outcomes.{sync_oauth2_client-never_fails}
use dex_operator.Server.Reconcile.{ReconcileResult, done}
use dex_operator.Tests.Memory.{memory}
use dex_operator.Tests.Cluster.{client, cluster, connection}

sync_oauth2_client-never_fails_example :
    ((e : GoError) → (sync_oauth2_client memory connection client cluster).0 ≢ err e)
    × ((r : ReconcileResult)
        → (sync_oauth2_client memory connection client cluster).0 ≡ ok r
        → r ≡ done)
sync_oauth2_client-never_fails_example =
    sync_oauth2_client-never_fails memory connection client cluster
