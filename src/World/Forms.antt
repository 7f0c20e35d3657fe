-- ===== src/World/Forms.antt =====
-- A resource stays stored in some form: a property of the resource that every status has, that the
-- controllers' updates keep, and that only resources have that are not being deleted.
use dex_operator.Common.{
  ◌≡◌, refl, ◌∙◌, sym, ap, subst, false, Bool-cases, inl, inr, Option, none, some, Str, Assoc, ℕ,
  arith,
}
use mathlib.Core.Option
use mathlib.Core.Option.{some-injective}
use dex_operator.Api.{
  Key, DexServer, DexServerSpec, DexClientSpec, DexServerStatus, server_key, DexClient,
  DexClientStatus, client_key,
}
use dex_operator.World.Packages.{World}
use dex_operator.World.Spec.{View, same_key}
use dex_operator.World.Facts.{same_key-eq-true}
use dex_operator.World.Stable.{ServerStable, ClientStable}
use dex_operator.World.Updates.{ServerUpdates, ClientUpdates}
use dex_operator.World.Holds.{Any}

module _ {S : Type 0} (w : World S) (finalizer : Str) where
  pub record ServerForm (Q : DexServer → Type 0) : Type 0 where
    pub live : (n : DexServer) → Q n → n.deletion_timestamp ≡ none
    pub status : (n : DexServer) (x : DexServerStatus) → Q n → Q (record n { status = x })
    pub finalized :
        (n : DexServer)
        → w.contains_finalizer n.finalizers finalizer ≡ false
        → Q n
        → Q (record n { finalizers = w.add_finalizer n.finalizers finalizer })

  pub record ClientForm (Q : DexClient → Type 0) : Type 0 where
    pub live : (n : DexClient) → Q n → n.deletion_timestamp ≡ none
    pub status : (n : DexClient) (x : DexClientStatus) → Q n → Q (record n { status = x })
    pub finalized :
        (n : DexClient)
        → w.contains_finalizer n.finalizers finalizer ≡ false
        → Q n
        → Q (record n { finalizers = w.add_finalizer n.finalizers finalizer })
    pub annotated : (n : DexClient) (xs : Assoc Str) → Q n → Q (record n { annotations = xs })
    pub answered :
        (m n : DexClient)
        → n.spec ≡ m.spec
        → n.deletion_timestamp ≡ m.deletion_timestamp
        → n.finalizers ≡ m.finalizers
        → Q m
        → Q n

-- A resource of the form is stored under the key.
abbrev pub StoredServer : Key → (DexServer → Type 0) → View → Type 0
StoredServer k Q v = (n : DexServer) × (v.dex_servers k ≡ some n) × Q n

abbrev pub StoredClient : Key → (DexClient → Type 0) → View → Type 0
StoredClient k Q v = (n : DexClient) × (v.dex_clients k ≡ some n) × Q n

-- What may be written: under the key, only a resource of the form.
abbrev ServerAllowed : Key → (DexServer → Type 0) → DexServer → Type 0
ServerAllowed k Q m = server_key m ≡ k → Q m

abbrev ClientAllowed : Key → (DexClient → Type 0) → DexClient → Type 0
ClientAllowed k Q m = client_key m ≡ k → Q m

not_both : {o : Option ℕ} {t : ℕ} → o ≡ none → ¬ (o ≡ some t)
not_both live deleted = ground arith

module _ {S : Type 0} {w : World S} {f : Str} {Q : DexServer → Type 0} (F : ServerForm w f Q)
    (k : Key) where
  pub StoredServer-ServerStable : ServerStable (StoredServer k Q)
  StoredServer-ServerStable = record {
    secret = λ y v h. h;
    applied = λ file values v h. h;
    binding = λ n v h. h;
    server_status = λ m v (n, stored, q). elim (Bool-cases (same_key k (server_key m))) [
      | inl same ↦ (record n { status = m.status }, rw (same, stored) refl, F.status n m.status q)
      | inr other ↦ (n, rw other stored, q)
    ];
  }

  pub StoredServer-ClientStable : ClientStable (StoredServer k Q)
  StoredServer-ClientStable = record {
    secret = λ y v h. h;
    client_status = λ m v h. h;
    dex = λ d v h. h;
    connections = λ n v h. h;
  }

  pub StoredServer-ServerUpdates : ServerUpdates w f (StoredServer k Q) (ServerAllowed k Q)
  unfolding Option.bind
  StoredServer-ServerUpdates = record {
    read = λ m v stored (n, stored_n, q) at_k.
        subst Q (some-injective _ _ (sym stored_n ∙ ap v.dex_servers (sym at_k) ∙ stored)) q;
    finalized = λ m misses a at_k. F.finalized m misses (a at_k);
    released = λ m t deleted a at_k. absurd (not_both (F.live m (a at_k)) deleted);
    updated = λ m v a (n, stored, q). elim (Bool-cases (same_key k (server_key m))) [
      | inl same ↦
          let q_m = a (sym (same_key-eq-true k (server_key m) same)) in
          (
            record m { status = n.status },
            rw (same, stored, F.live m q_m) refl,
            F.status m n.status q_m,
          )
      | inr other ↦ (n, rw other stored, q)
    ];
  }

  pub StoredServer-ClientUpdates : (g : Str) → ClientUpdates w g (StoredServer k Q) Any
  StoredServer-ClientUpdates g = record {
    read = λ m v stored h. tt;
    finalized = λ m misses a. tt;
    released = λ m t deleted a. tt;
    annotated = λ m xs a. tt;
    answered = λ m n key spec deletion finalizers a. tt;
    updated = λ m v a h. h;
  }

module _ {S : Type 0} {w : World S} {f : Str} {Q : DexClient → Type 0} (F : ClientForm w f Q)
    (k : Key) where
  pub StoredClient-ServerStable : ServerStable (StoredClient k Q)
  StoredClient-ServerStable = record {
    secret = λ y v h. h;
    applied = λ file values v h. h;
    binding = λ n v h. h;
    server_status = λ m v h. h;
  }

  pub StoredClient-ClientStable : ClientStable (StoredClient k Q)
  StoredClient-ClientStable = record {
    secret = λ y v h. h;
    client_status = λ m v (n, stored, q). elim (Bool-cases (same_key k (client_key m))) [
      | inl same ↦ (record n { status = m.status }, rw (same, stored) refl, F.status n m.status q)
      | inr other ↦ (n, rw other stored, q)
    ];
    dex = λ d v h. h;
    connections = λ n v h. h;
  }

  pub StoredClient-ServerUpdates : (g : Str) → ServerUpdates w g (StoredClient k Q) Any
  StoredClient-ServerUpdates g = record {
    read = λ m v stored h. tt;
    finalized = λ m misses a. tt;
    released = λ m t deleted a. tt;
    updated = λ m v a h. h;
  }

  pub StoredClient-ClientUpdates : ClientUpdates w f (StoredClient k Q) (ClientAllowed k Q)
  unfolding Option.bind
  StoredClient-ClientUpdates = record {
    read = λ m v stored (n, stored_n, q) at_k.
        subst Q (some-injective _ _ (sym stored_n ∙ ap v.dex_clients (sym at_k) ∙ stored)) q;
    finalized = λ m misses a at_k. F.finalized m misses (a at_k);
    released = λ m t deleted a at_k. absurd (not_both (F.live m (a at_k)) deleted);
    annotated = λ m xs a at_k. F.annotated m xs (a at_k);
    answered = λ m n key spec deletion finalizers a at_k.
        F.answered m n spec deletion finalizers (a (sym key ∙ at_k));
    updated = λ m v a (n, stored, q). elim (Bool-cases (same_key k (client_key m))) [
      | inl same ↦
          let q_m = a (sym (same_key-eq-true k (client_key m) same)) in
          (
            record m { status = n.status },
            rw (same, stored, F.live m q_m) refl,
            F.status m n.status q_m,
          )
      | inr other ↦ (n, rw other stored, q)
    ];
  }

-- Not being deleted, with this spec.
abbrev pub LiveServer : DexServerSpec → DexServer → Type 0
LiveServer x n = (n.spec ≡ x) × (n.deletion_timestamp ≡ none)

abbrev pub LiveClient : DexClientSpec → DexClient → Type 0
LiveClient x n = (n.spec ≡ x) × (n.deletion_timestamp ≡ none)

module _ {S : Type 0} (w : World S) where
  pub LiveServer-ServerForm : (f : Str) (x : DexServerSpec) → ServerForm w f (LiveServer x)
  LiveServer-ServerForm f x = record {
    live = λ n (spec, live). live;
    status = λ n y q. q;
    finalized = λ n misses q. q;
  }

  pub LiveClient-ClientForm : (f : Str) (x : DexClientSpec) → ClientForm w f (LiveClient x)
  LiveClient-ClientForm f x = record {
    live = λ n (spec, live). live;
    status = λ n y q. q;
    finalized = λ n misses q. q;
    annotated = λ n xs q. q;
    answered = λ m n same_spec same_deletion finalizers (spec, live).
        (same_spec ∙ spec, same_deletion ∙ live);
  }
