-- ===== src/Tests/Endings.antt =====
-- A DexServer that is being deleted; and what a pass leaves alone.
use dex_operator.Common.{
  ◌≡◌, ◌≢◌, refl, ok, some, none, false, lit, str_eq, [], ℕ, suc, ◌>>=◌, if◌then◌else◌,
}
use mathlib.Core.Option
use dex_operator.Api.{Key, DexServer, server_key}
use dex_operator.World.{View, same_key}
use dex_operator.Server.Resources.{cluster_role_binding_name, process_dex_server_deletion}
use dex_operator.Server.Reconcile.{done, reconcile, reconcile_deletion}
use dex_operator.Server.Reconcile.Isolation.{is_pass_file, others, reconcile-keeps_others}
use dex_operator.Server.Reconcile.Orphans.{reconcile-leaves_no_orphan}
use dex_operator.Server.Reconcile.Settles.{Answers, deletion-settles, passes}
use dex_operator.Tests.Memory.{all_of, memory, not_found}
use dex_operator.Tests.Laws.{memory_server}
use dex_operator.Tests.Cluster.{bare, cluster, server}

abbrev leaving : DexServer
leaving = record server { deletion_timestamp = some 5 }

abbrev ending_cluster : View
ending_cluster = record cluster {
  dex_servers = λ k. if same_key k (server_key server) then some leaving else none;
}

leaving_is_stored : ending_cluster.dex_servers (server_key leaving) ≡ some leaving
unfolding same_key lit str_eq
leaving_is_stored = refl

last_pass_succeeds : (reconcile memory (server_key leaving) ending_cluster).0 ≡ ok done
unfolding reconcile reconcile_deletion process_dex_server_deletion ◌>>=◌ same_key lit str_eq
last_pass_succeeds = refl

no_other_finalizer :
    memory.remove_finalizer leaving.finalizers (lit "auth.identitatem.io/cleanup") ≡ []
unfolding lit str_eq
no_other_finalizer = refl

memory-Answers : Answers memory_server (server_key leaving)
memory-Answers v gone = (not_found, rw gone refl, refl)

deletion-settles_example :
    ((all_of (reconcile memory (server_key leaving) ending_cluster).1).bindings
        (cluster_role_binding_name leaving)
      ≡ false)
    × ((all_of (reconcile memory (server_key leaving) ending_cluster).1).dex_servers
          (server_key leaving)
        ≡ none)
    × ((n : ℕ)
        → ((passes memory (server_key leaving) (suc n) ending_cluster).0 ≡ ok done)
          × (all_of (passes memory (server_key leaving) (suc n) ending_cluster).1
              ≡ all_of (reconcile memory (server_key leaving) ending_cluster).1))
deletion-settles_example =
    deletion-settles memory_server (server_key leaving) leaving ending_cluster leaving_is_stored
      refl no_other_finalizer last_pass_succeeds memory-Answers

abbrev elsewhere : Key
elsewhere = record { namespace = lit "e"; name = lit "s" }

other_key : same_key elsewhere (server_key server) ≡ false
unfolding same_key lit str_eq
other_key = refl

other_file : is_pass_file (lit "dex-server/cluster_role.yaml") ≡ false
unfolding is_pass_file lit str_eq
other_file = refl

reconcile-keeps_others_example :
    others elsewhere
      (lit "dex-server/cluster_role.yaml")
      (all_of (reconcile memory (server_key server) bare).1)
    ≡ others elsewhere (lit "dex-server/cluster_role.yaml") (all_of bare)
reconcile-keeps_others_example =
    reconcile-keeps_others memory_server (server_key server) elsewhere
      (lit "dex-server/cluster_role.yaml") bare other_key other_file

gone_after :
    (all_of (reconcile memory (server_key leaving) ending_cluster).1).dex_servers
      (server_key leaving)
    ≡ none
unfolding reconcile reconcile_deletion process_dex_server_deletion ◌>>=◌ same_key lit str_eq
    Option.bind
gone_after = refl

reconcile-leaves_no_orphan_example :
    (leaving.deletion_timestamp ≢ none)
    × ((all_of (reconcile memory (server_key leaving) ending_cluster).1).bindings
          (cluster_role_binding_name leaving)
        ≡ false)
reconcile-leaves_no_orphan_example =
    reconcile-leaves_no_orphan memory_server (server_key leaving) leaving ending_cluster
      leaving_is_stored gone_after
