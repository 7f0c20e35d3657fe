-- ===== src/Client/Progress/Credential.antt =====
-- On a cluster where calls do not fail, a pass over a DexClient reads the credential.
use dex_operator.Common.{
  ◌≡◌, refl, ◌∙◌, ap, Bool, true, false, none, some, [], Str, lit, str_eq, lookup, insert, has_key,
  branch, pure, ◌==◌, Does, Does-pure, Does-branch, Does-bind, Does-test, Does-option, Does-given,
  Does-weaken,
}
use mathlib.Core.Option
use dex_operator.Api.{Key, Secret, DexClient, DexClientSpec}
use dex_operator.World.{World, View, SecretContent, secret_content, secret_key, ApiServer, DexLaws}
use dex_operator.World.Facts.{same_key_refl}
use dex_operator.World.Stable.{Seen}
use dex_operator.World.Reliable.{Reliable}
use dex_operator.World.Reliable.Calls.{get_secret-Does, update_secret-Does, update_client-Does}
use dex_operator.Conditions.{ExternLaws, is_oauth2_client_created}
use dex_operator.Secrets.{add_label}
use dex_operator.Client.Credential.{
  SecretCheck, client_secret_key, with_hash, store_hash, get_hash_for_a_secret,
  has_client_secret_been_updated, check_and_add_label_to_client_secret,
  get_client_client_secret_from_ref, dex_client_secret_hash_annotation, dex_client_secret_label,
}
use dex_operator.Client.Progress.{Request, Complete, Ready, Unregistered, Checked, Stands}

module _ {S : Type 0} {w : World S} {view : S → View} (L : ApiServer w view) (D : DexLaws w view)
    (E : ExternLaws w) (R : Reliable w view) (q : Request) (K : Complete w q) where
  hash-Does :
      Does (Seen view (Ready q)) (get_hash_for_a_secret w q.client) (λ h s. Ready q (view s))
  unfolding get_hash_for_a_secret
  hash-Does =
      Does-branch _ _ _
        (get_secret-Does L R (Ready q) (client_secret_key q.client) q.held
          (λ v (stored, ours, held, absent). held))
        λ x. Does-pure _ (λ s (key, content, ready). ready)

  store_hash-Does :
      (hash : Str) (b : Bool)
      → Does
          (Seen view (Ready q))
          (store_hash w q.client hash b)
          (λ check s. Stands q check.client × Checked q (view s))
  unfolding store_hash Option.bind
  store_hash-Does hash b =
      Does-branch _ _ _
        (update_client-Does D R (Ready q) (Checked q) (with_hash q.client hash) q.client
          (λ v (stored, ours, held, absent). stored) refl
          (λ v (stored, ours, held, absent). (
            held,
            (
              (
                record q.client { annotations = (with_hash q.client hash).annotations },
                rw (same_key_refl, stored, K.live) refl,
              ),
              absent,
            ),
          )))
        λ n. Does-pure _ (λ s (key, spec, status, checked).
          ((key, spec, ap (λ x. is_oauth2_client_created x.conditions) status ∙ K.unmade), checked))

  abbrev unchanged : SecretCheck
  unchanged = record { client = q.client; updated = false; error = none }

  pub check-Does :
      Does
        (Seen view (Ready q))
        (has_client_secret_been_updated w q.client)
        (λ check s. Stands q check.client × Checked q (view s))
  unfolding has_client_secret_been_updated
  check-Does = Does-branch _ _ _ hash-Does λ hash.
      Does-option (lookup dex_client_secret_hash_annotation q.client.annotations) _ _
        (store_hash-Does hash false)
        λ old.
          Does-test (old == hash) (pure unchanged) (store_hash w q.client hash true)
            (λ same. Does-pure unchanged (λ s (stored, ours, held, absent).
              ((refl, refl, K.unmade), (held, ((q.client, stored), absent)))))
            (λ other. store_hash-Does hash true)

  label-Does :
      (x : Secret)
      → secret_key x ≡ client_secret_key q.client
      → secret_content x ≡ q.held
      → Does (Seen view (Checked q)) (check_and_add_label_to_client_secret w x) (λ y s.
        (lookup (lit "clientSecret") y.content ≡ some q.credential) × Unregistered q (view s))
  unfolding check_and_add_label_to_client_secret add_label
  label-Does x key same =
      let there : lookup (lit "clientSecret") x.content ≡ some q.credential =
        ap (λ (c : SecretContent). lookup (lit "clientSecret") c.content) same
        ∙ K.credential_there in
      let labelled : Secret = record x { labels = insert dex_client_secret_label [] x.labels } in
      Does-test (has_key dex_client_secret_label x.labels) (pure x)
        (branch (w.update_secret labelled) pure (λ _. pure labelled))
        (λ has. Does-pure x (λ s (held, rest). (there, rest)))
        (λ misses.
          Does-branch (w.update_secret labelled) pure (λ _. pure labelled)
            (Does-weaken (w.update_secret labelled)
              (update_secret-Does L R (Checked q) (Unregistered q) labelled
                (λ v (held, rest). (q.held, ap v.secrets key ∙ held)) (λ v (held, rest). rest))
              (λ s checked. checked) (λ y s after. after))
            (λ y. Does-pure y (λ s (content, rest). (
              ap (λ (c : SecretContent). lookup (lit "clientSecret") c.content) content ∙ there,
              rest,
            ))))

  same_secret :
      (n : DexClient) → n.spec ≡ q.client.spec → client_secret_key n ≡ client_secret_key q.client
  same_secret n spec =
      let key_of : DexClientSpec → Key = λ y. record {
        namespace = y.client_secret_ref.namespace;
        name = y.client_secret_ref.name;
      } in
      ap key_of spec

  pub credential-Does :
      (n : DexClient)
      → Stands q n
      → Does
          (Seen view (Checked q))
          (get_client_client_secret_from_ref w n)
          (λ t s. (t ≡ q.credential) × Unregistered q (view s))
  unfolding get_client_client_secret_from_ref
  credential-Does n (key, spec, status) =
      Does-bind _ _
        (get_secret-Does L R (Checked q) (client_secret_key n) q.held
          (λ v (held, rest). ap v.secrets (same_secret n spec) ∙ held))
        λ x.
          Does-given _ (λ s (key, content, rest). (key, content))
            λ (at_key, content).
              Does-bind _ _
                (Does-weaken _ (label-Does x (at_key ∙ same_secret n spec) content)
                  (λ s (k, c, rest). rest) (λ y s r. r))
                λ y.
                  Does-given _ (λ s (there, rest). there)
                    λ there. rw there (Does-pure q.credential (λ s (is, rest). (refl, rest)))
