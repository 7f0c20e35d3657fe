-- ===== src/System/Quiet.antt =====
-- What the filters for DexServers and for DexClients make of what the passes write of these
-- resources. Events of the resources that a DexServer owns, and of labelled secrets, are not looked
-- at.
use dex_operator.Common.{◌≡◌, refl, ◌∙◌, ap, sym, true, false, some, none, List, Str, Bool, arith}
use dex_operator.Api.{Key, DexServer, DexClient}
use dex_operator.World.{World, View, ApiServer, DexLaws}
use dex_operator.World.Stable.{Seen}
use dex_operator.World.Forms.{ServerForm, ClientForm, StoredServer, StoredClient}
use dex_operator.Server.Reconcile.{dex_server_finalizer}
use dex_operator.Client.Reconcile.{dex_client_finalizer}
use dex_operator.Watch.{DeepEqual, IsEquality, handles_server_update, handles_client_update}
use dex_operator.Watch.Updates.{handles_server_update-ignores, handles_client_update-ignores}
use dex_operator.System.{Event, run, OthersKeep}
use dex_operator.System.Stored.{run-keeps_form, run-keeps_client_form}

-- The same to the filter: what it compares is equal.
abbrev pub SameServer : DexServer → DexServer → Type 0
SameServer m n =
    (m.finalizers ≡ n.finalizers)
    × (m.deletion_timestamp ≡ n.deletion_timestamp)
    × (m.spec ≡ n.spec)

abbrev pub SameClient : DexClient → DexClient → Type 0
SameClient m n =
    (m.finalizers ≡ n.finalizers)
    × (m.deletion_timestamp ≡ n.deletion_timestamp)
    × (m.spec ≡ n.spec)

has_not : {a b : Bool} → a ≡ b → a ≡ true → ¬ (b ≡ false)
has_not same has misses = ground arith

module _ {S : Type 0} (w : World S) where
  SameServer-ServerForm :
      (f : Str) (m : DexServer)
      → m.deletion_timestamp ≡ none
      → w.contains_finalizer m.finalizers f ≡ true
      → ServerForm w f (SameServer m)
  SameServer-ServerForm f m live has = record {
    live = λ n (finalizers, deletion, spec). sym deletion ∙ live;
    status = λ n x q. q;
    finalized = λ n misses (finalizers, deletion, spec).
        absurd (has_not (ap (λ fs. w.contains_finalizer fs f) finalizers) has misses);
  }

  SameClient-ClientForm :
      (f : Str) (m : DexClient)
      → m.deletion_timestamp ≡ none
      → w.contains_finalizer m.finalizers f ≡ true
      → ClientForm w f (SameClient m)
  SameClient-ClientForm f m live has = record {
    live = λ n (finalizers, deletion, spec). sym deletion ∙ live;
    status = λ n x q. q;
    finalized = λ n misses (finalizers, deletion, spec).
        absurd (has_not (ap (λ fs. w.contains_finalizer fs f) finalizers) has misses);
    annotated = λ n xs q. q;
    answered = λ n n' spec' deletion' finalizers' (finalizers, deletion, spec).
        (finalizers ∙ sym finalizers', deletion ∙ sym deletion', spec ∙ sym spec');
  }

module _ {S : Type 0} {w : World S} {view : S → View} (L : ApiServer w view) (D : DexLaws w view)
    (q : DeepEqual) (law : IsEquality q) (k : Key) (es : List (Event S)) (s : S) where
  -- A stored DexServer that has its finalizer and is not being deleted is still stored after every
  -- list of passes of both controllers, however they end, and the update of the DexServer from the
  -- one to the other is ignored by the filter for DexServers; where the comparison of the filter
  -- decides equality, and what others do in between changes nothing that it compares.
  pub run-quiet_server :
      (m : DexServer)
      → (view s).dex_servers k ≡ some m
      → m.deletion_timestamp ≡ none
      → w.contains_finalizer m.finalizers dex_server_finalizer ≡ true
      → OthersKeep (Seen view (StoredServer k (SameServer m))) es
      → (n : DexServer) × ((view (run w es s)).dex_servers k ≡ some n)
        × (handles_server_update q m n ≡ false)
  run-quiet_server m stored live has others =
      let (n, stored_n, same) =
        run-keeps_form L D es s (SameServer-ServerForm w dex_server_finalizer m live has) k others
          (m, stored, (refl, refl, refl)) in
      (n, stored_n, (handles_server_update-ignores q law m n).1 same)

  -- A stored DexClient that has its finalizer and is not being deleted is still stored after every
  -- list of passes of both controllers, however they end, and the update from the one to the
  -- other, which may have a new status and a new annotation, is ignored by the filter of the
  -- controller; where the comparison of the filter decides equality, and what others do in
  -- between changes nothing that it compares.
  pub run-quiet_client :
      (m : DexClient)
      → (view s).dex_clients k ≡ some m
      → m.deletion_timestamp ≡ none
      → w.contains_finalizer m.finalizers dex_client_finalizer ≡ true
      → OthersKeep (Seen view (StoredClient k (SameClient m))) es
      → (n : DexClient) × ((view (run w es s)).dex_clients k ≡ some n)
        × (handles_client_update q m n ≡ false)
  run-quiet_client m stored live has others =
      let (n, stored_n, same) =
        run-keeps_client_form L D es s (SameClient-ClientForm w dex_client_finalizer m live has) k
          others (m, stored, (refl, refl, refl)) in
      (n, stored_n, (handles_client_update-ignores q law m n).1 same)
