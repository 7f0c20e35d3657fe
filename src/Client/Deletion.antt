-- ===== src/Client/Deletion.antt =====
-- When the finalizer of a DexClient goes.
use dex_operator.Common.{◌≡◌, true, lit, ◌++◌, ok, err, GoError, ◌>>=◌, arith}
use dex_operator.Api.{DexClient}
use dex_operator.World.{World, Connection, DeleteClientReq, NotFoundResp}
use dex_operator.DexApi.{delete_client}
use dex_operator.Client.Oauth.{delete_oauth2_client}
use dex_operator.Client.Reconcile.{is_deleted, drop_finalizer, reconcile_connected}

abbrev pub request_of : DexClient → DeleteClientReq
request_of m = record { id = m.spec.client_id }

module _ {S : Type 0} (w : World S) where
  -- For a DexClient that is being deleted: when dex answers the deletion, whether it knew the
  -- client or not, what follows is the update without the finalizer; when the call to dex fails,
  -- its error is returned, and nothing else is done.
  pub reconcile_connected-deletion :
      (c : Connection) (m : DexClient) (s : S)
      → is_deleted m ≡ true
      → ((answer : NotFoundResp)
          → (w.delete_client c (request_of m) s).0 ≡ ok answer
          → reconcile_connected w c m s ≡ drop_finalizer w m (w.delete_client c (request_of m) s).1)
        × ((e : GoError)
            → (w.delete_client c (request_of m) s).0 ≡ err e
            → reconcile_connected w c m s ≡ (
              err (
                  w.wrap e
                    (lit "failed to delete the client with id " ++ w.quote m.spec.client_id)),
              (w.delete_client c (request_of m) s).1,
            ))
  unfolding reconcile_connected delete_oauth2_client delete_client ◌>>=◌
  reconcile_connected-deletion c m s deleted =
      (λ answer good. ground arith, λ e failed. ground arith)
