-- ===== src/System/Isolation.antt =====
-- The two controllers keep to their own resources.
use dex_operator.Common.{◌≡◌, refl, ℕ, Option, Str, Bool}
use dex_operator.Api.{Key, DexServer, DexClient}
use dex_operator.World.{World, View, Values, ApiServer, DexLaws, OauthClient}
use dex_operator.World.Stable.{ServerStable, ClientStable}
use dex_operator.World.Updates.{ServerUpdates, ClientUpdates}
use dex_operator.World.Holds.{Any}
use dex_operator.Server.Reconcile as DexServers
use dex_operator.Server.Reconcile.Preserved as ServerPasses
use dex_operator.Client.Reconcile as DexClients
use dex_operator.Client.Preserved.Pass as ClientPasses

-- What there is of clients: the DexClients, the clients of dex, and the connections to it.
pub record ClientSide : Type 0 where
  pub dex_clients : Key → Option DexClient
  pub dex : Str → Str → Option OauthClient
  pub connections : ℕ

abbrev pub client_side : View → ClientSide
client_side v = record { dex_clients = v.dex_clients; dex = v.dex; connections = v.connections }

-- What there is of servers: the DexServers, what was made of the templates, and the bindings.
pub record ServerSide : Type 0 where
  pub dex_servers : Key → Option DexServer
  pub applied : Str → Option Values
  pub bindings : Str → Bool

abbrev pub server_side : View → ServerSide
server_side v = record { dex_servers = v.dex_servers; applied = v.applied; bindings = v.bindings }

abbrev ClientSideIs : ClientSide → View → Type 0
ClientSideIs x v = client_side v ≡ x

abbrev ServerSideIs : ServerSide → View → Type 0
ServerSideIs x v = server_side v ≡ x

ClientSideIs-Stable : (x : ClientSide) → ServerStable (ClientSideIs x)
ClientSideIs-Stable x = record {
  secret = λ y v h. h;
  applied = λ file values v h. h;
  binding = λ n v h. h;
  server_status = λ m v h. h;
}

ServerSideIs-Stable : (x : ServerSide) → ClientStable (ServerSideIs x)
ServerSideIs-Stable x = record {
  secret = λ y v h. h;
  client_status = λ m v h. h;
  dex = λ d v h. h;
  connections = λ n v h. h;
}

module _ {S : Type 0} (w : World S) (f : Str) where
  ClientSideIs-Updates : (x : ClientSide) → ServerUpdates w f (ClientSideIs x) Any
  ClientSideIs-Updates x = record {
    read = λ m v stored h. tt;
    finalized = λ m misses a. tt;
    released = λ m t deleted a. tt;
    updated = λ m v a h. h;
  }

  ServerSideIs-Updates : (x : ServerSide) → ClientUpdates w f (ServerSideIs x) Any
  ServerSideIs-Updates x = record {
    read = λ m v stored h. tt;
    finalized = λ m misses a. tt;
    released = λ m t deleted a. tt;
    annotated = λ m xs a. tt;
    answered = λ m n key spec deletion finalizers a. tt;
    updated = λ m v a h. h;
  }

module _ {S : Type 0} {w : World S} {view : S → View} (L : ApiServer w view)
    (D : DexLaws w view) where
  -- A whole pass over a DexServer, however it ends, changes no DexClient, no client of dex and no
  -- connection to dex; and a whole pass over a DexClient, however it ends, changes no DexServer,
  -- no cluster role binding and nothing that was made of a template.
  pub reconcile-isolated :
      (k : Key) (s : S)
      → (client_side (view (DexServers.reconcile w k s).1) ≡ client_side (view s))
        × (server_side (view (DexClients.reconcile w k s).1) ≡ server_side (view s))
  reconcile-isolated k s =
      let clients = client_side (view s) in
      let servers = server_side (view s) in
      (
        (ServerPasses.reconcile-Preserves L (ClientSideIs-Stable clients)
              (ClientSideIs-Updates w _ clients) k).after
            s refl,
        (ClientPasses.reconcile-Preserves L D (ServerSideIs-Stable servers)
              (ServerSideIs-Updates w _ servers) k).after
            s refl,
      )
