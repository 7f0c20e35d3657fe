-- ===== src/World/Reliable/Calls.antt =====
-- What the calls do on a cluster where they do not fail.
use dex_operator.Common.{
  ◌+◌, ◌≡◌, ◌∙◌, sym, ap, subst, false, Bool-cases, inl, inr, none, some, Str, is_empty, Does,
  arith,
}
use mathlib.Core.Option.{some-injective}
use dex_operator.Api.{Key, Secret, DexClient, client_key}
use dex_operator.World.Dex.{Connection, CreateClientReq}
use dex_operator.World.Packages.{World}
use dex_operator.World.Spec.{View, SecretContent, secret_content, secret_key, put_secret, ApiServer}
use dex_operator.World.Promises.{put_client, put_client_status, put_oauth, DexLaws}
use dex_operator.World.Facts.{wrote, get_secret_found}
use dex_operator.World.Stable.{Seen}
use dex_operator.World.Reliable.{Reliable}

is_not : {A : Type 0} {a : A} → ¬ (none ≡ some a)
is_not bad = ground arith

module _ {S : Type 0} {w : World S} {view : S → View} (L : ApiServer w view) (R : Reliable w view)
    (P : View → Type 0) where
  pub get_secret-Does :
      (k : Key) (c : SecretContent)
      → ((v : View) → P v → v.secrets k ≡ some c)
      → Does
          (Seen view P)
          (w.get_secret k)
          (λ x s. (secret_key x ≡ k) × (secret_content x ≡ c) × P (view s))
  get_secret-Does k c stored = record {
    does = λ s p.
        let (x, good) = R.get_secret_answers k c s (stored (view s) p) in
        let (key, found) = get_secret_found L k s good in
        (
          x,
          good,
          (
            key,
            some-injective _ _ (sym found ∙ stored (view s) p),
            subst P (sym (L.get_secret_reads k s)) p,
          ),
        );
  }

  pub update_secret-Does :
      (Q : View → Type 0) (x : Secret)
      → ((v : View) → P v → (old : SecretContent) × (v.secrets (secret_key x) ≡ some old))
      → ((v : View) → P v → Q (put_secret x v))
      → Does
          (Seen view P)
          (w.update_secret x)
          (λ y s. (secret_content y ≡ secret_content x) × Q (view s))
  update_secret-Does Q x stored keeps = record {
    does = λ s p.
        let (old, at_key) = stored (view s) p in
        let (y, good) = R.update_secret_succeeds x old s at_key in
        (
          y,
          good,
          (
            (L.update_secret_answers x y s good).1,
            subst Q
                (sym
                  (wrote view (w.update_secret x) (put_secret x) s (L.update_secret_writes x) good))
                (keeps (view s) p),
          ),
        );
  }

module _ {S : Type 0} {w : World S} {view : S → View} (D : DexLaws w view) (R : Reliable w view)
    (P : View → Type 0) where
  pub get_client-Does :
      (k : Key) (m : DexClient)
      → client_key m ≡ k
      → ((v : View) → P v → v.dex_clients k ≡ some m)
      → Does (Seen view P) (w.get_dex_client k) (λ n s. (n ≡ m) × P (view s))
  get_client-Does k m key stored = record {
    does = λ s p.
        let (n, good) = R.get_client_answers k m s (stored (view s) p) key in
        let (_, found) = (rw good at (D.get_client_finds k s)) in
        (
          n,
          good,
          (
            some-injective _ _ (sym found ∙ stored (view s) p),
            subst P (sym (D.get_client_reads k s)) p,
          ),
        );
  }

  module _ (Q : View → Type 0) where
    pub update_client-Does :
        (m old : DexClient)
        → ((v : View) → P v → v.dex_clients (client_key m) ≡ some old)
        → m.status ≡ old.status
        → ((v : View) → P v → Q (put_client m v))
        → Does (Seen view P) (w.update_dex_client m) (λ n s.
          (client_key n ≡ client_key m) × (n.spec ≡ m.spec) × (n.status ≡ m.status) × Q (view s))
    update_client-Does m old stored same keeps = record {
      does = λ s p.
          let (n, good, status) = R.update_client_succeeds m old s (stored (view s) p) same in
          let (key, spec, _, _) = D.update_client_answers m n s good in
          (
            n,
            good,
            (
              key,
              spec,
              status,
              subst Q
                  (sym (
                    wrote view (w.update_dex_client m) (put_client m) s (D.update_client_writes m)
                      good))
                  (keeps (view s) p),
            ),
          );
    }

    pub client_status-Does :
        (m : DexClient)
        → ((v : View) → P v → (old : DexClient) × (v.dex_clients (client_key m) ≡ some old))
        → ((v : View) → P v → Q (put_client_status m v))
        → Does (Seen view P) (w.update_dex_client_status m) (λ n s. Q (view s))
    client_status-Does m stored keeps = record {
      does = λ s p.
          let (old, at_key) = stored (view s) p in
          let (n, good) = R.update_client_status_succeeds m old s at_key in
          (
            n,
            good,
            subst Q
                (sym (
                  wrote view (w.update_dex_client_status m) (put_client_status m) s
                    (D.update_client_status_writes m) good))
                (keeps (view s) p),
          );
    }

    pub dial-Does :
        (host ca cert : Str)
        → ((v : View) → P v → Q (record v { connections = v.connections + 1 }))
        → Does (Seen view P) (w.dial host ca cert) (λ c s. (c.target ≡ host) × Q (view s))
    dial-Does host ca cert keeps = record {
      does = λ s p.
          let (c, good) = R.dial_succeeds host ca cert s in
          (
            c,
            good,
            (
              D.dial_reaches host ca cert s good,
              subst Q
                  (sym (
                    wrote view (w.dial host ca cert)
                      (λ v. record v { connections = v.connections + 1 }) s
                      (D.dial_opens host ca cert) good))
                  (keeps (view s) p),
            ),
          );
    }

    -- Where dex has no client of the identifier it makes the one that was asked for.
    pub create_client-Does :
        (c : Connection) (req : CreateClientReq)
        → ((v : View) → P v → v.dex c.target req.client.id ≡ none)
        → is_empty req.client.id ≡ false
        → is_empty req.client.secret ≡ false
        → ((v : View) → P v → Q (put_oauth c.target req.client v))
        → Does
            (Seen view P)
            (w.create_client c req)
            (λ r s. (r.already_exists ≡ false) × Q (view s))
    create_client-Does c req absent id cred keeps = record {
      does = λ s p.
          let (r, good) = R.create_client_succeeds c req s in
          let law = (rw good at (D.create_client_writes c req s)) in
          elim (Bool-cases r.already_exists) [
            | inl exists ↦
                let (d, there) = (law.0 exists).1 in
                absurd (is_not (sym (absent (view s) p) ∙ there))
            | inr fresh ↦
                let made =
                  law.1 fresh
                  ∙ ap (λ d. put_oauth c.target d (view s))
                      (D.create_client_answers c req s good fresh id cred) in
                (r, good, (fresh, subst Q (sym made) (keeps (view s) p)))
          ];
    }
