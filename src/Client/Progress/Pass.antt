-- ===== src/Client/Progress/Pass.antt =====
-- On a cluster where calls do not fail, a pass over a DexClient makes its client in dex.
use dex_operator.Common.{
  ◌≡◌, refl, ◌∙◌, sym, ap, subst, true, false, Str, lit, ok, text_at, pure, Does, Does-pure,
  Does-lift, Does-branch, Does-bind, Does-given, Does-finally, Does-weaken,
}
use dex_operator.Api.{Secret, client_key}
use dex_operator.World.{World, View, SecretContent, secret_content, ApiServer, DexLaws, Connection}
use dex_operator.World.Stable.{Seen}
use dex_operator.World.Reliable.{Reliable}
use dex_operator.World.Reliable.Calls.{get_secret-Does, get_client-Does, dial-Does}
use dex_operator.Conditions.{ExternLaws}
use dex_operator.DexApi.{Options, new_client_pem}
use dex_operator.Server.Reconcile.{done}
use dex_operator.Client.Reconcile.{
  dex_client_finalizer, is_deleted, dex_api_options, ensure_client_finalizer, reconcile_connected,
  reconcile_with_secret, reconcile_client, reconcile,
}
use dex_operator.Client.Removal.Pass.{address, after_finalizer, close-view}
use dex_operator.Client.Progress.{Request, Complete, Ready, Met, mtls_of}
use dex_operator.Client.Progress.Creation.{sync-Does}

module _ {S : Type 0} {w : World S} {view : S → View} (L : ApiServer w view) (D : DexLaws w view)
    (E : ExternLaws w) (R : Reliable w view) (q : Request) (K : Complete w q) {cert : Str}
    (authority : w.append_certs (text_at (lit "ca.crt") q.ours.content) ≡ true)
    (pair : w.key_pair
        (text_at (lit "client.crt") q.ours.content)
        (text_at (lit "client.key") q.ours.content)
      ≡ ok cert)
    (has : w.contains_finalizer q.client.finalizers dex_client_finalizer ≡ true) where
  connect-Does :
      (o : Options)
      → o.host_and_port ≡ address q.client
      → w.append_certs o.ca_buffer ≡ true
      → w.key_pair o.crt_buffer o.key_buffer ≡ ok cert
      → Does
          (Seen view (Ready q))
          (new_client_pem w o)
          (λ c s. (c.target ≡ address q.client) × Ready q (view s))
  unfolding new_client_pem
  connect-Does o host ca keys = rw ca (
      Does-bind _ _
        (Does-branch _ _ _ (Does-lift _ cert keys (λ s ready. ready))
          λ a. Does-pure a (λ s ready. ready))
        λ a.
          Does-branch _ _ _
            (dial-Does D R (Ready q) (Ready q) o.host_and_port o.ca_buffer a (λ v ready. ready))
            λ c. Does-pure c (λ s (reached, ready). (reached ∙ host, ready)))

  not_deleted : is_deleted q.client ≡ false
  not_deleted = rw K.live refl

  connected-Does :
      (c : Connection)
      → c.target ≡ address q.client
      → Does
          (Seen view (Ready q))
          (reconcile_connected w c q.client)
          (λ r s. (r ≡ done) × Met q (view s))
  unfolding reconcile_connected
  connected-Does c reached = rw not_deleted (sync-Does L D E R q K c reached)

  with_secret-Does :
      (x : Secret)
      → secret_content x ≡ q.ours
      → Does
          (Seen view (Ready q))
          (reconcile_with_secret w q.client x)
          (λ r s. (r ≡ done) × Met q (view s))
  unfolding reconcile_with_secret
  with_secret-Does x same =
      let text : Str → SecretContent → Str = λ k c. text_at k c.content in
      Does-branch _ _ _
        (connect-Does (dex_api_options q.client x) refl
          (ap (λ c. w.append_certs (text (lit "ca.crt") c)) same ∙ authority)
          (ap (λ c. w.key_pair (text (lit "client.crt") c) (text (lit "client.key") c)) same
            ∙ pair))
        λ c.
          Does-given _ (λ s (reached, ready). reached)
            λ reached.
              Does-finally _ _
                (Does-weaken _ (connected-Does c reached) (λ s (reached, ready). ready)
                  (λ r s met. met))
                (λ r s (is, met). (is, subst (Met q) (sym (close-view L D E c s)) met))

  after_finalizer-Does :
      Does (Seen view (Ready q)) (after_finalizer w q.client) (λ r s. (r ≡ done) × Met q (view s))
  after_finalizer-Does =
      Does-branch _ _ _
        (get_secret-Does L R (Ready q) (mtls_of q.client) q.ours
          (λ v (stored, ours, held, absent). ours))
        λ x.
          Does-given _ (λ s (key, same, ready). same)
            λ same.
              Does-weaken _ (with_secret-Does x same) (λ s (key, same, ready). ready)
                (λ r s met. met)

  client-Does :
      Does (Seen view (Ready q)) (reconcile_client w q.client) (λ r s. (r ≡ done) × Met q (view s))
  unfolding reconcile_client ensure_client_finalizer
  client-Does =
      rw (not_deleted, has)
        (Does-bind {R = λ n s. (n ≡ q.client) × Ready q (view s)} (pure q.client)
          (after_finalizer w) (Does-pure q.client (λ s ready. (refl, ready)))
          λ n.
            Does-given _ (λ s (is, ready). is)
              λ is.
                rw is
                  (Does-weaken _ after_finalizer-Does (λ s (is, ready). ready) (λ r s met. met)))

  reconcile-Does :
      Does
        (Seen view (Ready q))
        (reconcile w (client_key q.client))
        (λ r s. (r ≡ done) × Met q (view s))
  unfolding reconcile
  reconcile-Does =
      Does-branch _ _ _
        (get_client-Does D R (Ready q) (client_key q.client) q.client refl
          (λ v (stored, ours, held, absent). stored))
        λ n.
          Does-given _ (λ s (is, ready). is)
            λ is. rw is (Does-weaken _ client-Does (λ s (is, ready). ready) (λ r s met. met))

  pub reconcile-registers :
      (s : S)
      → Ready q (view s)
      → ((reconcile w (client_key q.client) s).0 ≡ ok done)
        × Met q (view (reconcile w (client_key q.client) s).1)
  reconcile-registers s ready =
      let (r, good, (is, met)) = reconcile-Does.does s ready in (good ∙ ap ok is, met)
