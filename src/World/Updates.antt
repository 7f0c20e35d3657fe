-- ===== src/World/Updates.antt =====
-- Properties of the view that the updates of a resource keep, when what is written satisfies a
-- condition that a resource meets once it was read. The controllers add their finalizer where it
-- is missing, remove it from a resource that is being deleted, and annotate DexClients.
use dex_operator.Common.{◌≡◌, ℕ, Assoc, some, false, Str}
use dex_operator.Api.{DexServer, server_key, DexClient, client_key}
use dex_operator.World.Packages.{World}
use dex_operator.World.Spec.{View, put_server}
use dex_operator.World.Promises.{put_client}

module _ {S : Type 0} (w : World S) (finalizer : Str) (P : View → Type 0) where
  pub record ServerUpdates (Allowed : DexServer → Type 0) : Type 0 where
    pub read : (m : DexServer) (v : View) → v.dex_servers (server_key m) ≡ some m → P v → Allowed m
    pub finalized :
        (m : DexServer)
        → w.contains_finalizer m.finalizers finalizer ≡ false
        → Allowed m
        → Allowed (record m { finalizers = w.add_finalizer m.finalizers finalizer })
    pub released :
        (m : DexServer) (t : ℕ)
        → m.deletion_timestamp ≡ some t
        → Allowed m
        → Allowed (record m { finalizers = w.remove_finalizer m.finalizers finalizer })
    pub updated : (m : DexServer) (v : View) → Allowed m → P v → P (put_server m v)

  pub record ClientUpdates (Allowed : DexClient → Type 0) : Type 0 where
    pub read : (m : DexClient) (v : View) → v.dex_clients (client_key m) ≡ some m → P v → Allowed m
    pub finalized :
        (m : DexClient)
        → w.contains_finalizer m.finalizers finalizer ≡ false
        → Allowed m
        → Allowed (record m { finalizers = w.add_finalizer m.finalizers finalizer })
    pub released :
        (m : DexClient) (t : ℕ)
        → m.deletion_timestamp ≡ some t
        → Allowed m
        → Allowed (record m { finalizers = w.remove_finalizer m.finalizers finalizer })
    pub annotated :
        (m : DexClient) (xs : Assoc Str) → Allowed m → Allowed (record m { annotations = xs })
    pub answered :
        (m n : DexClient)
        → client_key n ≡ client_key m
        → n.spec ≡ m.spec
        → n.deletion_timestamp ≡ m.deletion_timestamp
        → n.finalizers ≡ m.finalizers
        → Allowed m
        → Allowed n
    pub updated : (m : DexClient) (v : View) → Allowed m → P v → P (put_client m v)
