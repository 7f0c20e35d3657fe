-- ===== src/Tests/Progress.antt =====
-- A client that is made in dex by a pass, with everything stored that the pass needs.
use dex_operator.Common.{
  ◌≡◌, refl, true, none, some, ok, [], ◌∷◌, lit, str_eq, lookup, text_at, ◌==◌, if◌then◌else◌,
}
use dex_operator.Api.{DexClient, client_key}
use dex_operator.World.{View, SecretContent, same_key}
use dex_operator.Conditions.{is_oauth2_client_created}
use dex_operator.Server.Mtls.{secret_mtls_name}
use dex_operator.Server.Reconcile.{done}
use dex_operator.Client.Reconcile.{dex_client_finalizer, reconcile}
use dex_operator.Client.Progress.{Request, Complete, Ready, Met}
use dex_operator.Client.Progress.Pass.{reconcile-registers}
use dex_operator.Tests.Memory.{all_of, memory}
use dex_operator.Tests.Laws.{memory_dex, memory_laws, memory-Reliable, memory_server}
use dex_operator.Tests.Cluster.{client, cluster, credential, github_key}

abbrev living : DexClient
living = record client { finalizers = dex_client_finalizer ∷ []; deletion_timestamp = none }

abbrev connection_content : SecretContent
connection_content = record {
  labels = [];
  annotations = [];
  content =
      (lit "ca.crt", lit "ca") ∷ (lit "client.crt", lit "crt") ∷ (lit "client.key", lit "key") ∷ [];
}

abbrev request : Request
request = record {
  client = living;
  ours = connection_content;
  held = credential;
  credential = lit "p";
}

abbrev ready_cluster : View
ready_cluster = record cluster {
  secrets = λ k.
      if same_key k github_key
      then some credential
      else if k.name == secret_mtls_name
      then some connection_content
      else none;
  dex_clients = λ k. if same_key k (client_key living) then some living else none;
}

request-Complete : Complete memory request
unfolding is_oauth2_client_created lit str_eq lookup
request-Complete = record {
  live = refl;
  unmade = refl;
  credential_there = refl;
  credential_not_empty = refl;
  id_not_empty = refl;
}

cluster-Ready : Ready request (all_of ready_cluster)
unfolding same_key lit str_eq
cluster-Ready = (refl, refl, refl, refl)

authority_loads : memory.append_certs (text_at (lit "ca.crt") connection_content.content) ≡ true
unfolding text_at lookup lit str_eq
authority_loads = refl

pair_loads :
    memory.key_pair
      (text_at (lit "client.crt") connection_content.content)
      (text_at (lit "client.key") connection_content.content)
    ≡ ok (lit "crt")
unfolding text_at lookup lit str_eq
pair_loads = refl

has_finalizer : memory.contains_finalizer living.finalizers dex_client_finalizer ≡ true
unfolding lit str_eq
has_finalizer = refl

reconcile-registers_example :
    ((reconcile memory (client_key living) ready_cluster).0 ≡ ok done)
    × Met request (all_of (reconcile memory (client_key living) ready_cluster).1)
reconcile-registers_example =
    reconcile-registers memory_server memory_dex memory_laws memory-Reliable request
      request-Complete authority_loads pair_loads has_finalizer ready_cluster cluster-Ready
