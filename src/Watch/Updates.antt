-- ===== src/Watch/Updates.antt =====
-- Which updates pass the filters of both controllers.
use dex_operator.Common.{◌≡◌, ◌↔◌, Bool, true, false, not, ◌||◌, arith}
use dex_operator.Api.{DexServer, DexClient}
use dex_operator.Watch.{DeepEqual, IsEquality, handles_server_update, handles_client_update}

none_differs :
    (a b c : Bool) → (not a || not b || not c ≡ false) ↔ ((a ≡ true) × (b ≡ true) × (c ≡ true))
none_differs a b c = (λ h. (ground arith, ground arith, ground arith), λ h. ground arith)

-- Where the comparison decides equality, an update of a DexServer is ignored exactly when the
-- finalizers, the time of deletion and the spec are the same before and after: whatever else has
-- changed, the status included, does not matter.
pub handles_server_update-ignores :
    (q : DeepEqual) (law : IsEquality q) (old new : DexServer)
    → (handles_server_update q old new ≡ false) ↔ (
        (old.finalizers ≡ new.finalizers)
        × (old.deletion_timestamp ≡ new.deletion_timestamp)
        × (old.spec ≡ new.spec))
unfolding handles_server_update
handles_server_update-ignores q law old new =
    let (there, back) =
      none_differs (q.finalizers old.finalizers new.finalizers)
        (q.timestamp old.deletion_timestamp new.deletion_timestamp)
        (q.server_spec old.spec new.spec) in
    (
      λ h.
          let (a, b, c) = there h in
          (
            (law.finalizers_iff _ _).0 a,
            (law.timestamp_iff _ _).0 b,
            (law.server_spec_iff _ _).0 c,
          ),
      λ (a, b, c). back (
        (law.finalizers_iff _ _).1 a,
        (law.timestamp_iff _ _).1 b,
        (law.server_spec_iff _ _).1 c,
      ),
    )

-- Where the comparison decides equality, an update of a DexClient is ignored exactly when the
-- finalizers, the time of deletion and the spec are the same before and after.
pub handles_client_update-ignores :
    (q : DeepEqual) (law : IsEquality q) (old new : DexClient)
    → (handles_client_update q old new ≡ false) ↔ (
        (old.finalizers ≡ new.finalizers)
        × (old.deletion_timestamp ≡ new.deletion_timestamp)
        × (old.spec ≡ new.spec))
unfolding handles_client_update
handles_client_update-ignores q law old new =
    let (there, back) =
      none_differs (q.finalizers old.finalizers new.finalizers)
        (q.timestamp old.deletion_timestamp new.deletion_timestamp)
        (q.client_spec old.spec new.spec) in
    (
      λ h.
          let (a, b, c) = there h in
          (
            (law.finalizers_iff _ _).0 a,
            (law.timestamp_iff _ _).0 b,
            (law.client_spec_iff _ _).0 c,
          ),
      λ (a, b, c). back (
        (law.finalizers_iff _ _).1 a,
        (law.timestamp_iff _ _).1 b,
        (law.client_spec_iff _ _).1 c,
      ),
    )
