-- ===== src/System.antt =====
-- The operator as a whole: both controllers, which main.go starts, on one cluster. What happens is
-- a list of events: passes of `Reconcile` over any keys, one after the other, and what others do
-- between them.
pub mod Stored
pub mod Waiting
pub mod Quiet
pub mod Isolation
use dex_operator.Common.{List, [], ◌∷◌}
use dex_operator.Api.{Key}
use dex_operator.World.{World, View}
use dex_operator.Server.Reconcile as DexServers
use dex_operator.Client.Reconcile as DexClients

pub data Event (S : Type 0) : Type 0 where
  server_pass : Key → Event S
  client_pass : Key → Event S
  elsewhere : (S → S) → Event S

module _ {S : Type 0} (w : World S) where
  abbrev pub happen : Event S → S → S
  happen (server_pass k) s = (DexServers.reconcile w k s).1
  happen (client_pass k) s = (DexClients.reconcile w k s).1
  happen (elsewhere f) s = f s

  -- A pass that failed leaves what it wrote, and the next event starts from there.
  unfoldable pub run : List (Event S) → S → S
  run [] s = s
  run (e ∷ es) s = run es (happen e s)

-- What others do among the events keeps the property.
unfoldable pub OthersKeep : {S : Type 0} → (S → Type 0) → List (Event S) → Type 0
OthersKeep P [] = Unit
OthersKeep P (elsewhere f ∷ es) = ((s : _) → P s → P (f s)) × OthersKeep P es
OthersKeep P (server_pass k ∷ es) = OthersKeep P es
OthersKeep P (client_pass k ∷ es) = OthersKeep P es
