-- ===== src/System/Stored.antt =====
-- What stays stored over any list of passes of both controllers.
use dex_operator.Common.{List, [], ◌∷◌}
use dex_operator.Api.{Key, DexServer, DexServerSpec, DexClient, DexClientSpec}
use dex_operator.World.{World, View, ApiServer, DexLaws}
use dex_operator.World.Stable.{ServerStable, ClientStable, Seen}
use dex_operator.World.Updates.{ServerUpdates, ClientUpdates}
use dex_operator.World.Forms.{
  ServerForm, ClientForm, LiveServer, LiveClient, LiveServer-ServerForm, LiveClient-ClientForm,
  StoredServer, StoredClient, StoredServer-ServerStable, StoredServer-ClientStable,
  StoredServer-ServerUpdates, StoredServer-ClientUpdates, StoredClient-ServerStable,
  StoredClient-ClientStable, StoredClient-ServerUpdates, StoredClient-ClientUpdates,
}
use dex_operator.World.Holds.{
  HasSecretAt, HasSecretAt-ServerStable, HasSecretAt-ClientStable, HasSecretAt-ServerUpdates,
  HasSecretAt-ClientUpdates,
}
use dex_operator.Server.Reconcile.{dex_server_finalizer}
use dex_operator.Client.Reconcile.{dex_client_finalizer}
use dex_operator.Server.Reconcile.Preserved as DexServers
use dex_operator.Client.Preserved.Pass as DexClients
use dex_operator.System.{Event, server_pass, client_pass, elsewhere, run, OthersKeep}

module _ {S : Type 0} {w : World S} {view : S → View} (L : ApiServer w view) (D : DexLaws w view)
    {P : View → Type 0} (C : ServerStable P) (C' : ClientStable P) {A : DexServer → Type 0}
    {B : DexClient → Type 0} (U : ServerUpdates w dex_server_finalizer P A)
    (V : ClientUpdates w dex_client_finalizer P B) where
  -- A property that single calls keep is kept over all events.
  run-Keeps :
      (es : List (Event S)) (s : S)
      → OthersKeep (Seen view P) es
      → P (view s)
      → P (view (run w es s))
  unfolding run OthersKeep
  run-Keeps [] s others h = h
  run-Keeps (server_pass k ∷ es) s others h =
      run-Keeps es _ others ((DexServers.reconcile-Preserves L C U k).after s h)
  run-Keeps (client_pass k ∷ es) s others h =
      run-Keeps es _ others ((DexClients.reconcile-Preserves L D C' V k).after s h)
  run-Keeps (elsewhere f ∷ es) s (keeps, others) h = run-Keeps es (f s) others (keeps s h)

module _ {S : Type 0} {w : World S} {view : S → View} (L : ApiServer w view) (D : DexLaws w view)
    (es : List (Event S)) (s : S) where
  -- A secret that is stored is stored at the end of every list of events, passes over any
  -- resources of both controllers, however they end, if what others do in between deletes no
  -- secret of its key.
  pub run-keeps_secret :
      (k : Key)
      → OthersKeep (Seen view (HasSecretAt k)) es
      → HasSecretAt k (view s)
      → HasSecretAt k (view (run w es s))
  run-keeps_secret k others stored =
      run-Keeps L D (HasSecretAt-ServerStable k) (HasSecretAt-ClientStable k)
        (HasSecretAt-ServerUpdates w _ k) (HasSecretAt-ClientUpdates w _ k) es s others stored

  -- A DexServer that is stored in some form is so at the end.
  pub run-keeps_form :
      {Q : DexServer → Type 0} (F : ServerForm w dex_server_finalizer Q) (k : Key)
      → OthersKeep (Seen view (StoredServer k Q)) es
      → StoredServer k Q (view s)
      → StoredServer k Q (view (run w es s))
  run-keeps_form F k others stored =
      run-Keeps L D (StoredServer-ServerStable F k) (StoredServer-ClientStable F k)
        (StoredServer-ServerUpdates F k) (StoredServer-ClientUpdates F k _) es s others stored

  pub run-keeps_client_form :
      {Q : DexClient → Type 0} (F : ClientForm w dex_client_finalizer Q) (k : Key)
      → OthersKeep (Seen view (StoredClient k Q)) es
      → StoredClient k Q (view s)
      → StoredClient k Q (view (run w es s))
  run-keeps_client_form F k others stored =
      run-Keeps L D (StoredClient-ServerStable F k) (StoredClient-ClientStable F k)
        (StoredClient-ServerUpdates F k _) (StoredClient-ClientUpdates F k) es s others stored

  -- A DexServer that is stored and is not being deleted is so at the end of every list of passes
  -- of both controllers, however they end, with its spec unchanged, if what others do in between
  -- leaves it so.
  pub run-keeps_server :
      (k : Key) (x : DexServerSpec)
      → OthersKeep (Seen view (StoredServer k (LiveServer x))) es
      → StoredServer k (LiveServer x) (view s)
      → StoredServer k (LiveServer x) (view (run w es s))
  run-keeps_server k x others stored = run-keeps_form (LiveServer-ServerForm w _ x) k others stored

  -- A DexClient that is stored and is not being deleted is so at the end of every list of passes
  -- of both controllers, however they end, with its spec unchanged, if what others do in between
  -- leaves it so.
  pub run-keeps_client :
      (k : Key) (x : DexClientSpec)
      → OthersKeep (Seen view (StoredClient k (LiveClient x))) es
      → StoredClient k (LiveClient x) (view s)
      → StoredClient k (LiveClient x) (view (run w es s))
  run-keeps_client k x others stored =
      run-keeps_client_form (LiveClient-ClientForm w _ x) k others stored
