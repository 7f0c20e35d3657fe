-- ===== src/Startup.antt =====
-- The start of the operator: main.go, and `SetupWithManager` of the two controllers. The manager
-- of controller-runtime is a parameter.
pub mod Order
use dex_operator.Common.{
  ℕ, Bool, false, Str, List, [], ◌∷◌, none, lit, Result, ok, err, panic, Action, branch, raise,
  ◌>>=◌, ◌>>◌,
}
use dex_operator.World.{World, directly, without_data}
use dex_operator.Server.Resources.{install_cluster_role}

-- The command line
pub record Flags : Type 0 where
  pub metrics_addr : Str
  pub probe_addr : Str
  pub enable_leader_election : Bool

abbrev pub default_flags : Flags
default_flags = record {
  metrics_addr = lit ":8080";
  probe_addr = lit ":8081";
  enable_leader_election = false;
}

-- `ctrl.Options`, without the scheme
pub record ManagerOptions : Type 0 where
  pub metrics_bind_address : Str
  pub port : ℕ
  pub health_probe_bind_address : Str
  pub leader_election : Bool
  pub leader_election_id : Str

unfoldable pub manager_options : Flags → ManagerOptions
manager_options flags = record {
  metrics_bind_address = flags.metrics_addr;
  port = 9443;
  health_probe_bind_address = flags.probe_addr;
  leader_election = flags.enable_leader_election;
  leader_election_id = lit "09c5986b.identitatem.io";
}

-- The calls of controller-runtime and of the Kubernetes clients. The calls whose name ends in
-- `OrDie` give no error: they end the process, which is the result `panic`.
pub record Manager (S : Type 0) : Type 0 where
  pub new_manager : ManagerOptions → Action S (Unit {0})
  pub new_clients_or_die : Action S (Unit {0})
  -- what the builders of the controllers do in `Complete`
  pub complete_dex_server : Action S (Unit {0})
  pub complete_dex_client : Action S (Unit {0})
  pub add_healthz_check : Str → Action S (Unit {0})
  pub add_readyz_check : Str → Action S (Unit {0})
  pub start : Action S (Unit {0})

abbrev pub crd_files : List Str
crd_files =
    lit "crd/bases/auth.identitatem.io_dexclients.yaml"
    ∷ lit "crd/bases/auth.identitatem.io_dexservers.yaml"
    ∷ []

-- How the process ends: by the return of `main`, by `os.Exit`, or in a panic or a call that does
-- not return.
pub data Ending : Type 0 where
  returned died : Ending
  exited : ℕ → Ending

abbrev pub ending : Result (Unit {0}) → Ending
ending (ok _) = returned
ending (err _) = exited 1
ending panic = died

module _ {S : Type 0} (w : World S) (mgr : Manager S) where
  abbrev pub install_crds : Action S (Unit {0})
  install_crds = w.apply directly none without_data crd_files

  -- `SetupWithManager` of the DexServer controller installs the cluster role first.
  unfoldable pub setup_dex_server : Action S (Unit {0})
  setup_dex_server = install_cluster_role w >> mgr.complete_dex_server

  unfoldable pub setup_dex_client : Action S (Unit {0})
  setup_dex_client = mgr.complete_dex_client

  -- What `main` does before it starts the manager. Every error is logged, and ends the process.
  unfoldable pub prepare : Flags → Action S (Unit {0})
  prepare flags = do
    mgr.new_manager (manager_options flags)
    mgr.new_clients_or_die
    install_crds
    mgr.new_clients_or_die
    setup_dex_server
    setup_dex_client
    mgr.add_healthz_check (lit "healthz")
    mgr.add_readyz_check (lit "readyz")

  unfoldable pub main : Flags → S → Ending × S
  main flags s = let (r, s') = (prepare flags >>= λ _. mgr.start) s in (ending r, s')
