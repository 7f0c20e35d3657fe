-- ===== src/Client/Connections.antt =====
-- The connections to dex that `Reconcile` of the DexClient controller opens and closes.
use Prim.Native.Nat.{◌-◌}
use dex_operator.Common.{
  ◌+◌, ◌≡◌, ◌∙◌, ap, Str, lit, Result, ok, err, panic, branch, finally, ◌>>=◌, Keeps-branch,
  keeps_rules, arith, str_eq,
}
use dex_operator.Api.{Key, Secret, DexClient}
use dex_operator.World.{World, View, ApiServer, DexLaws, Connection}
use dex_operator.World.Frames.{Reads-Keeps, get_secret-Keeps}
use dex_operator.DexApi.{Options, new_client_pem, close_connection}
use dex_operator.Client.Oauth.{fail_client}
use dex_operator.Client.Reconcile.{
  reconcile, reconcile_client, reconcile_with_secret, reconcile_connected, dex_api_options,
}
use dex_operator.Client.Frames.{
  open_connections, Balanced, conditions-Keeps, fail-Keeps, drop-Keeps, ensure-Keeps,
  connected-Keeps,
}

module _ {S : Type 0} {w : World S} {view : S → View} (L : ApiServer w view)
    (D : DexLaws w view) where
  dial_counts :
      (host ca cert : Str) (s : S)
      → (view (w.dial host ca cert s).1).connections ≡ elim (w.dial host ca cert s).0 [
        | ok _ ↦ (view s).connections + 1
        | err _ ↦ (view s).connections
        | panic ↦ (view s).connections
      ]
  dial_counts host ca cert s = ap open_connections (D.dial_opens host ca cert s) ∙ ground arith

  -- A connection is open after `NewClientPEM` where it gives one, and only there.
  new_client-opens :
      (o : Options) (s : S)
      → (view (new_client_pem w o s).1).connections ≡ elim (new_client_pem w o s).0 [
        | ok _ ↦ (view s).connections + 1
        | err _ ↦ (view s).connections
        | panic ↦ (view s).connections
      ]
  unfolding new_client_pem ◌>>=◌
  new_client-opens o s = grind (arith, dial_counts o.host_and_port o.ca_buffer)

  close-closes :
      (c : Connection) (s : S)
      → (view (close_connection w c s).1).connections ≡ (view s).connections - 1
  unfolding close_connection ◌>>=◌
  close-closes c s = let closed = ap open_connections (D.close_closes c s) in ground arith

  with_secret-Keeps : (m : DexClient) (x : Secret) → Balanced L D (reconcile_with_secret w m x)
  unfolding reconcile_with_secret finally ◌>>=◌
  with_secret-Keeps m x = record {
    same = λ s.
        by_result s (new_client_pem w (dex_api_options m x) s).0
          (new_client_pem w (dex_api_options m x) s).1 (new_client-opens (dex_api_options m x) s);
  }
    where
      by_result :
          (s : S) (r : Result Connection) (s' : S)
          → (view s').connections ≡ elim r [
            | ok _ ↦ (view s).connections + 1
            | err _ ↦ (view s).connections
            | panic ↦ (view s).connections
          ]
          → (view
              (branch
                (λ (t : S). (r, s'))
                (λ c. finally (close_connection w c) (reconcile_connected w c m))
                (λ e.
                  fail_client w m
                    (lit "GRPCConnectionFailed")
                    (lit "failed creating api client connection to gRPC server. error: ")
                    e)
                s).1).connections
            ≡ (view s).connections
      by_result s (ok c) s' opened =
          let closed = close-closes c (reconcile_connected w c m s').1 in
          let kept = (connected-Keeps L D c m).same s' in grind arith
      by_result s (err e) s' opened = (fail-Keeps L D m _ _ e).same s' ∙ opened
      by_result s panic s' opened = opened

  client-Keeps : (m : DexClient) → Balanced L D (reconcile_client w m)
  unfolding reconcile_client
  client-Keeps m =
      search
        (
          keeps_rules,
          drop-Keeps L D,
          ensure-Keeps L D,
          get_secret-Keeps L open_connections,
          with_secret-Keeps,
          conditions-Keeps L D,
          fail-Keeps L D,
        )
        depth 9

  -- A pass over a DexClient leaves as many connections to dex open as there were, whichever way
  -- it ends: with success, with an error, or with a panic.
  pub reconcile-closes_connections :
      (k : Key) (s : S) → (view (reconcile w k s).1).connections ≡ (view s).connections
  unfolding reconcile
  reconcile-closes_connections k s = pass.same s
    where
      pass : Balanced L D (reconcile w k)
      pass =
          Keeps-branch _ _ _ (Reads-Keeps view open_connections _ (D.get_client_reads k))
            client-Keeps (λ e. search keeps_rules)
