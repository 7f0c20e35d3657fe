-- ===== src/Tests/Starts.antt =====
-- The start of the operator with a manager whose calls do nothing.
use dex_operator.Common.{◌≡◌, refl, err, ok, GoError, Action, str_eq}
use dex_operator.World.{View}
use dex_operator.Startup.{Manager, default_flags, ending, exited, main, prepare}
use dex_operator.Startup.Order.{Installed, ManagerLaws, main-starts}
use dex_operator.Tests.Memory.{all_of, memory}
use dex_operator.Tests.Laws.{memory_server}
use dex_operator.Tests.Cluster.{bare}

abbrev idle : Action View (Unit {0})
idle v = (ok tt, v)

abbrev idle_manager : Manager View
idle_manager = record {
  new_manager = λ options. idle;
  new_clients_or_die = idle;
  complete_dex_server = idle;
  complete_dex_client = idle;
  add_healthz_check = λ name. idle;
  add_readyz_check = λ name. idle;
  start = idle;
}

idle_laws : ManagerLaws memory idle_manager all_of
idle_laws = record {
  complete_server_reads = λ v. refl;
  complete_client_reads = λ v. refl;
  healthz_reads = λ name v. refl;
  readyz_reads = λ name v. refl;
  clients_read = λ v. refl;
  crds_written = λ v done. refl;
}

main-starts_example :
    ((prepare memory idle_manager default_flags bare).0 ≡ ok tt
      → Installed memory_server idle_laws
          (all_of (prepare memory idle_manager default_flags bare).1)
        × (main memory idle_manager default_flags bare ≡ (
          ending (idle_manager.start (prepare memory idle_manager default_flags bare).1).0,
          (idle_manager.start (prepare memory idle_manager default_flags bare).1).1,
        )))
    × ((e : GoError)
        → (prepare memory idle_manager default_flags bare).0 ≡ err e
        → main memory idle_manager default_flags bare
          ≡ (exited 1, (prepare memory idle_manager default_flags bare).1))
main-starts_example = main-starts memory_server idle_laws default_flags bare
