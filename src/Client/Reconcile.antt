-- ===== src/Client/Reconcile.antt =====
-- `Reconcile` of the DexClient controller.
use dex_operator.Common.{
  branch, pure, ◌returning◌, ◌*◌, Str, [], ◌∷◌, ◌++◌, Bool, true, false, not, ◌&&◌, none, some, lit,
  text_at, Action, raise, ignore, finally, ◌>>=◌, ◌>>◌, if◌then◌else◌,
}
use dex_operator.Api.{
  Key, Secret, Condition, condition_true, condition_false, DexClient, dex_client_condition_applied,
  dex_client_condition_oauth2_client_created,
}
use dex_operator.World.{World, Connection}
use dex_operator.Certs.{grpc_service_name}
use dex_operator.Conditions.{
  update_dex_client_status_conditions, has_condition, is_oauth2_client_created,
}
use dex_operator.DexApi.{Options, new_client_pem, close_connection}
use dex_operator.Server.Reconcile.{ReconcileResult, done}
use dex_operator.Client.Credential.{get_mtls_secret, has_client_secret_been_updated}
use dex_operator.Client.Oauth.{
  fail_client, create_oauth2_client, update_oauth2_client, delete_oauth2_client,
}

abbrev pub dex_client_finalizer : Str
dex_client_finalizer = lit "auth.identitatem.io/cleanup"

abbrev pub waiting_condition : Condition
waiting_condition = record {
  type = dex_client_condition_applied;
  status = condition_false;
  reason = lit "MTLSSecretNotFound";
  message = lit "waiting for dex server mtls certificates";
}

-- 5 seconds
abbrev pub wait_for_mtls : ReconcileResult
wait_for_mtls = record { requeue = true; requeue_after = 5 * 1_000_000_000 }

abbrev pub is_deleted : DexClient → Bool
is_deleted m = elim m.deletion_timestamp [ none ↦ false | some _ ↦ true ]

-- The test of the first branch: an OAuth2 client was created, so the condition says.
abbrev pub was_created : DexClient → Bool
was_created m =
    has_condition dex_client_condition_oauth2_client_created condition_true m.status.conditions

abbrev pub dex_api_options : DexClient → Secret → Options
dex_api_options m secret = record {
  host_and_port =
      grpc_service_name
      ++ lit "."
      ++ m.namespace
      ++ lit "."
      ++ lit "svc.cluster.local"
      ++ lit ":5557";
  ca_buffer = text_at (lit "ca.crt") secret.content;
  crt_buffer = text_at (lit "client.crt") secret.content;
  key_buffer = text_at (lit "client.key") secret.content;
}

module _ {S : Type 0} (w : World S) where
  unfoldable pub drop_finalizer : DexClient → Action S ReconcileResult
  drop_finalizer m =
      w.update_dex_client
        (record m { finalizers = w.remove_finalizer m.finalizers dex_client_finalizer })
      returning done

  unfoldable pub ensure_client_finalizer : DexClient → Action S DexClient
  ensure_client_finalizer m =
      if w.contains_finalizer m.finalizers dex_client_finalizer
      then pure m
      else w.update_dex_client
          (record m { finalizers = w.add_finalizer m.finalizers dex_client_finalizer })

  -- The last part, for a client that is not being deleted. The results and errors of the three
  -- operations are dropped.
  unfoldable pub sync_oauth2_client : Connection → DexClient → Action S ReconcileResult
  sync_oauth2_client c m = do
    check ← has_client_secret_been_updated w m
    (if is_oauth2_client_created check.client.status.conditions
        then (if check.updated
            then ignore (delete_oauth2_client w c check.client)
              >> ignore (create_oauth2_client w c check.client)
            else ignore (update_oauth2_client w c check.client))
        else ignore (create_oauth2_client w c check.client))
    pure done

  unfoldable pub reconcile_connected : Connection → DexClient → Action S ReconcileResult
  reconcile_connected c m =
      if is_deleted m
      then (delete_oauth2_client w c m >>= λ _. drop_finalizer m)
      else sync_oauth2_client c m

  -- From the connection on; it is closed on every way out.
  unfoldable pub reconcile_with_secret : DexClient → Secret → Action S ReconcileResult
  reconcile_with_secret m secret =
      branch (new_client_pem w (dex_api_options m secret))
        (λ c. finally (close_connection w c) (reconcile_connected c m))
        (λ e.
          fail_client w m (lit "GRPCConnectionFailed")
            (lit "failed creating api client connection to gRPC server. error: ") e)

  unfoldable pub reconcile_client : DexClient → Action S ReconcileResult
  reconcile_client m = if is_deleted m && not (was_created m) then drop_finalizer m else (do
    m' ← ensure_client_finalizer m
    branch (get_mtls_secret w m') (λ secret. reconcile_with_secret m' secret)
        (λ e.
          if e.not_found
          then update_dex_client_status_conditions w m' (waiting_condition ∷ [])
            returning wait_for_mtls
          else fail_client w m' (lit "MTLSSecretCheckFailed")
              (lit "failed checking MTLS secret. error: ") e))

  unfoldable pub reconcile : Key → Action S ReconcileResult
  reconcile key =
      branch (w.get_dex_client key) (λ m. reconcile_client m)
        (λ e. if e.not_found then pure done else raise e)
