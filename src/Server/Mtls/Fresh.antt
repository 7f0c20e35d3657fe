-- ===== src/Server/Mtls/Fresh.antt =====
-- How long a secret of the connection stays as it was made.
use dex_operator.Common.{
  ℕ, ◌+◌, ◌*◌, ◌≤◌, ◌≡◌, refl, ◌∙◌, ap, sym, false, none, some, ok, Str, [], ◌∷◌, is_empty, text_at,
  lit, raise, ◌>>=◌, bind-ok, branch-ok, arith, if◌then◌else◌,
}
use dex_operator.Api.{Secret, DexServer}
use dex_operator.World.{World, View, ApiServer, TimeLaws, SecretContent, secret_content}
use dex_operator.Certs.{MtlsCerts, hour, in_cert_renewal_window, generate_mtls_certs}
use dex_operator.Conditions.{ExternLaws}
use dex_operator.Server.Mtls.{
  mtls_cert_expiry_annotation, define_mtls_secret, get_mtls_secret, needs_renewal,
  renew_mtls_secret, create_mtls_secret, manage_mtls_secret,
}
use dex_operator.Server.Mtls.Renewal.{IsCurrent, needs_renewal-Keeps, generate-expiry}
use dex_operator.Server.Mtls.Validity.{expiry_text}

some_is_not : {A : Type 0} {a : A} → ¬ (some a ≡ none)
some_is_not bad = ground arith

module _ {S : Type 0} {w : World S} (T : TimeLaws w) where
  parsed-not_empty : (text : Str) {t : ℕ} → w.parse_time text ≡ some t → is_empty text ≡ false
  parsed-not_empty [] parsed = absurd (some_is_not (sym parsed ∙ T.parse_nothing))
  parsed-not_empty (_ ∷ _) parsed = refl

  -- A secret that is current is not to be renewed.
  needs_renewal-current :
      (x : Secret) (s : S) → IsCurrent w (secret_content x) s → (needs_renewal w x s).0 ≡ ok false
  unfolding needs_renewal in_cert_renewal_window ◌>>=◌
  needs_renewal-current x s (t, parsed, beyond) =
      let text = text_at mtls_cert_expiry_annotation x.annotations in
      let there = parsed-not_empty text parsed in rw (there, parsed) (ground arith)

module _ {S : Type 0} {w : World S} {view : S → View} (L : ApiServer w view) (T : TimeLaws w) where
  -- A pass that finds a current secret succeeds, and changes nothing that is stored.
  current-stays :
      (m : DexServer) (x : Secret) (s : S)
      → (get_mtls_secret w m s).0 ≡ ok x
      → IsCurrent w (secret_content x) (get_mtls_secret w m s).1
      → ((manage_mtls_secret w m s).0 ≡ ok tt) × (view (manage_mtls_secret w m s).1 ≡ view s)
  unfolding manage_mtls_secret renew_mtls_secret ◌>>=◌
  current-stays m x s found current =
      let s₁ = (get_mtls_secret w m s).1 in
      let kept = needs_renewal-current T x s₁ current in
      let same : manage_mtls_secret w m s ≡ renew_mtls_secret w m false (needs_renewal w x s₁).1 =
        branch-ok (get_mtls_secret w m) (λ y. needs_renewal w y >>= renew_mtls_secret w m)
          (λ e.
            if e.not_found
            then create_mtls_secret w m
            else raise (w.wrap e (lit "error getting mtls secret")))
          s found
        ∙ bind-ok (needs_renewal w x) (renew_mtls_secret w m) s₁ kept in
      rw same (refl, (needs_renewal-Keeps L (λ v. v) x).same s₁ ∙ L.get_secret_reads _ s)

  module _ (E : ExternLaws w) where
    -- A pass that finds a secret as it was made leaves it, and everything else that is stored, as
    -- it is, and succeeds, until 22 hours and a second short of them after the certificates were
    -- made: they are valid for a day, the renewal window is two hours, and the recorded expiry is
    -- cut to whole seconds.
    pub manage_mtls_secret-stays :
        (m : DexServer) (certs : MtlsCerts) (x : Secret) (made s : S)
        → (generate_mtls_certs w m.namespace made).0 ≡ ok certs
        → (get_mtls_secret w m s).0 ≡ ok x
        → secret_content x ≡ secret_content (define_mtls_secret w m certs)
        → (w.clock (get_mtls_secret w m s).1).0 + 1_000_000_000 ≤ (w.clock made).0 + 22 * hour
        → ((manage_mtls_secret w m s).0 ≡ ok tt) × (view (manage_mtls_secret w m s).1 ≡ view s)
    manage_mtls_secret-stays m certs x made s generated found same before =
        let day = generate-expiry w m.namespace made certs generated in
        let text = expiry_text L E T m certs in
        current-stays m x s found (
          _,
          ap w.parse_time (
                ap (λ (c : SecretContent). text_at mtls_cert_expiry_annotation c.annotations) same
                ∙ text)
              ∙ T.parse-format certs.expiry,
          omega arith,
        )
