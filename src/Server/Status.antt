-- ===== src/Server/Status.antt =====
-- controllers/dexServer.go: two tests of the state of a dex server that are not written yet, and
-- an update of its status.
use dex_operator.Common.{Bool, false, ◌++◌, lit, Action, raise, handle}
use dex_operator.Api.{DexServer}
use dex_operator.World.{World}
use dex_operator.Secrets.{error_of}

unfoldable pub is_dex_server_not_yet_started : DexServer → Bool
is_dex_server_not_yet_started ds = false

unfoldable pub is_dex_server_finished : DexServer → Bool
is_dex_server_finished ds = false

-- `fmt.Errorf` makes a new error, whose text has that of the first.
unfoldable pub update_status : {S : Type 0} → World S → DexServer → Action S DexServer
update_status w ds = handle (w.update_dex_server_status ds) (λ e. raise (
    error_of (
      lit "unable to update status "
      ++ ds.namespace
      ++ lit "/"
      ++ ds.name
      ++ lit ": "
      ++ e.message)))
