-- ===== src/Server/Mtls/Success.antt =====
-- On a cluster where calls do not fail, `manageMTLSSecret` succeeds.
use dex_operator.Common.{
  ℕ, ◌+◌, ◌≡◌, ◌∙◌, ap, Bool, true, false, ok, Str, text_at, ◌>>=◌, Finishes, Finishes-pure,
  Finishes-if, Finishes-bind, Finishes-total, Finishes-option, finishes_rules, sym, subst, Does,
  Does-pure, Does-branch, Does-bind, Does-given, Does-weaken, does-Sure, Sure, Sure-Finishes, none,
}
use dex_operator.Api.{Secret, DexServer}
use dex_operator.World.{World, View, ApiServer, TimeLaws, secret_key}
use dex_operator.World.Stable.{Seen, ServerStable, ServerStable-always, quiet-Preserves}
use dex_operator.World.Holds.{HasSecretAt}
use dex_operator.Secrets.Sure.{update_secret-Stored, create_secret-Absent, get_or_miss-Does}
use dex_operator.World.Reliable.{Reliable}
use dex_operator.Certs.{hour, in_cert_renewal_window, generate_mtls_certs}
use dex_operator.Conditions.{ExternLaws}
use dex_operator.Server.Mtls.{
  mtls_cert_expiry_annotation, get_mtls_secret, needs_renewal, new_mtls_secret, renew_mtls_secret,
  create_mtls_secret, manage_mtls_secret,
}
use dex_operator.Server.Mtls.Renewal.{
  mtls_key, define-key, new_mtls_secret-eq-ok, needs_renewal-Keeps, new_mtls_secret-Keeps,
}
use dex_operator.Server.Mtls.Validity.{ValidFrom, manage_mtls_secret-valid}

module _ {S : Type 0} {w : World S} {view : S → View} (R : Reliable w view) where
  generate-Finishes : (ns : Str) → Finishes (generate_mtls_certs w ns)
  unfolding generate_mtls_certs
  generate-Finishes ns = Finishes-bind _ _ (Finishes-total w.clock) λ t.
      Finishes-bind _ _ (Finishes-total (w.rand_int _)) λ ca_serial.
        Finishes-bind _ _ (R.generate_key_succeeds _) λ ca_key.
          Finishes-bind _ _ (R.create_certificate_succeeds _ _ _ _) λ ca_bytes.
            Finishes-bind _ _ (Finishes-total (w.rand_int _)) λ serial.
              Finishes-bind _ _ (R.generate_key_succeeds _) λ cert_key.
                Finishes-bind _ _ (R.create_certificate_succeeds _ _ _ _) λ cert_bytes.
                  Finishes-bind _ _ (R.generate_key_succeeds _) λ client_key.
                    Finishes-bind _ _ (R.create_certificate_succeeds _ _ _ _)
                      λ client_bytes. Finishes-pure _

  new_secret-Finishes : (m : DexServer) → Finishes (new_mtls_secret w m)
  unfolding new_mtls_secret
  new_secret-Finishes m = search (finishes_rules, generate-Finishes)

  in_window-Finishes : (t : ℕ) → Finishes (in_cert_renewal_window w t)
  unfolding in_cert_renewal_window
  in_window-Finishes t = search finishes_rules

  needs_renewal-Finishes : (x : Secret) → Finishes (needs_renewal w x)
  unfolding needs_renewal
  needs_renewal-Finishes x = Finishes-if _ _ _ (Finishes-pure _) (
      Finishes-option (w.parse_time (text_at mtls_cert_expiry_annotation x.annotations)) _ _
        (search (finishes_rules, in_window-Finishes)) in_window-Finishes)

module _ {S : Type 0} {w : World S} {view : S → View} (L : ApiServer w view) (E : ExternLaws w)
    (R : Reliable w view) {P : View → Type 0} (C : ServerStable P) where
  -- The secret that is made goes to the key of the namespace, and nothing is stored yet.
  made-Does :
      (Q : View → Type 0) (m : DexServer)
      → Does (Seen view Q) (new_mtls_secret w m) (λ x s. (secret_key x ≡ mtls_key m) × Q (view s))
  made-Does Q m = record {
    does = λ s q.
        let (x, made) = (new_secret-Finishes R m).ends s in
        let (certs, generated, is) = new_mtls_secret-eq-ok L E m s made in
        (
          x,
          made,
          (
            ap secret_key is ∙ define-key L E m certs,
            subst Q (sym ((new_mtls_secret-Keeps L (λ v. v) m).same s)) q,
          ),
        );
  }

  renew-Does :
      (m : DexServer) (b : Bool)
      → Does
          (Seen view (λ v. P v × HasSecretAt (mtls_key m) v))
          (renew_mtls_secret w m b)
          (λ u. Seen view P)
  unfolding renew_mtls_secret ◌>>=◌
  renew-Does m false = Does-pure tt (λ s (p, stored). p)
  renew-Does m true = Does-branch _ _ _ (made-Does (λ v. P v × HasSecretAt (mtls_key m) v) m) λ x.
      Does-given _ (λ s (key, rest). key)
        λ key.
          Does-branch _ _ _
            (Does-branch _ _ _
              (Does-weaken _ (update_secret-Stored L R C.secret x)
                (λ s (same, (p, stored)). (p, subst (λ j. HasSecretAt j (view s)) (sym key) stored))
                (λ y s p. p))
              λ y. Does-pure tt (λ s p. p))
            λ u. Does-pure u (λ s p. p)

  create-Does :
      (m : DexServer)
      → Does
          (Seen view (λ v. P v × (v.secrets (mtls_key m) ≡ none)))
          (create_mtls_secret w m)
          (λ u. Seen view P)
  unfolding create_mtls_secret ◌>>=◌
  create-Does m = Does-branch _ _ _ (made-Does (λ v. P v × (v.secrets (mtls_key m) ≡ none)) m) λ x.
      Does-given _ (λ s (key, rest). key)
        λ key.
          Does-branch _ _ _
            (Does-weaken _ (create_secret-Absent L R C.secret x)
              (λ s (same, (p, absent)).
                (p, subst (λ j. (view s).secrets j ≡ none) (sym key) absent))
              (λ u s p. p))
            λ u. Does-pure u (λ s p. p)

  found-Does :
      (m : DexServer) (x : Secret)
      → Does
          (Seen view (λ v. P v × HasSecretAt (mtls_key m) v))
          (needs_renewal w x >>= renew_mtls_secret w m)
          (λ u. Seen view P)
  found-Does m x =
      Does-bind _ _
        (does-Sure _ (
          Sure-Finishes _ (needs_renewal-Finishes R x) (
            quiet-Preserves view (λ v. P v × HasSecretAt (mtls_key m) v) _
              (needs_renewal-Keeps L (λ v. v) x))))
        (renew-Does m)

  pub mtls-Sure : (m : DexServer) → Sure (Seen view P) (manage_mtls_secret w m)
  unfolding manage_mtls_secret
  mtls-Sure m =
      get_or_miss-Does L R P (mtls_key m) _ _
        (λ x. Does-weaken _ (found-Does m x) (λ s (p, stored, key). (p, stored)) (λ u s p. p))
        (λ e missing. rw missing (create-Does m))

module _ {S : Type 0} {w : World S} {view : S → View} (L : ApiServer w view) (E : ExternLaws w)
    (T : TimeLaws w) (R : Reliable w view) where
  -- On a cluster where calls do not fail, `manageMTLSSecret` succeeds, and then the namespace holds
  -- a secret whose expiry parses and lies two hours or more beyond the time at which the secret was
  -- looked for, whatever secret was stored before: none, one that is current, one that is not, or
  -- one with no expiry that parses.
  pub manage_mtls_secret-provides :
      (m : DexServer) (s : S)
      → ((manage_mtls_secret w m s).0 ≡ ok tt)
        × ValidFrom L E T m
            (w.clock (get_mtls_secret w m s).1).0
            (hour + hour)
            (view (manage_mtls_secret w m s).1)
  manage_mtls_secret-provides m s =
      let (u, good, _) = (mtls-Sure L E R {P = λ v. Unit} ServerStable-always m).ends s tt in
      (good, manage_mtls_secret-valid L E T m s good)
