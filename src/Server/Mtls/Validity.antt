-- ===== src/Server/Mtls/Validity.antt =====
-- How long the certificates that `manageMTLSSecret` leaves are valid.
use dex_operator.Common.{
  ℕ, ◌+◌, ◌≤◌, ◌≡◌, ◌∙◌, ap, Bool, true, false, some, ok, str_eq, text_at, lookup, lit, ◌>>=◌,
  branch-eq-ok, bind-eq-ok, unless_missing-eq-ok, arith, inl, inr,
}
use dex_operator.Api.{Secret, DexServer}
use dex_operator.World.{World, View, ApiServer, TimeLaws, SecretContent, secret_content}
use dex_operator.World.Facts.{get_secret_found}
use dex_operator.Certs.{hour, cert_renewal_window, in_cert_renewal_window, MtlsCerts}
use dex_operator.Conditions.{ExternLaws}
use dex_operator.Server.Mtls.{
  mtls_cert_expiry_annotation, define_mtls_secret, get_mtls_secret, needs_renewal,
  renew_mtls_secret, create_mtls_secret, manage_mtls_secret,
}
use dex_operator.Server.Mtls.Renewal.{
  mtls_key, IsCurrent, StoredAt, needs_renewal-eq-false, needs_renewal-Keeps, renew-stores,
  create-stores, generate-expiry,
}

module _ {S : Type 0} {w : World S} {view : S → View} (L : ApiServer w view) (E : ExternLaws w)
    (T : TimeLaws w) where
  -- The secret is stored, and its expiry parses to a time that is `margin` or more beyond `start`.
  abbrev pub ValidFrom : DexServer → ℕ → ℕ → View → Type 0
  ValidFrom m start margin v =
      (c : SecretContent) × (t : ℕ) × (v.secrets (mtls_key m) ≡ some c)
      × (w.parse_time (text_at mtls_cert_expiry_annotation c.annotations) ≡ some t)
      × (start + margin ≤ t)

  -- Deciding on a renewal does not turn the clock back.
  clock-needs_renewal : (x : Secret) (s : S) → (w.clock s).0 ≤ (w.clock (needs_renewal w x s).1).0
  unfolding needs_renewal in_cert_renewal_window ◌>>=◌
  clock-needs_renewal x s = ground (arith, T.clock_goes_on s)

  pub expiry_text :
      (m : DexServer) (certs : MtlsCerts)
      → text_at mtls_cert_expiry_annotation
          (secret_content (define_mtls_secret w m certs)).annotations
        ≡ w.format_time certs.expiry
  unfolding define_mtls_secret text_at lookup lit str_eq
  expiry_text m certs =
      ap (λ (c : SecretContent). text_at mtls_cert_expiry_annotation c.annotations)
        (E.owner_keeps m _).1
      ∙ ground arith

  StoredAt-valid :
      (m : DexServer) (s : S) (v : View) (start : ℕ)
      → start ≤ (w.clock s).0
      → StoredAt L E m s v
      → ValidFrom m start cert_renewal_window v
  StoredAt-valid m s v start before (certs, generated, stored) =
      let day = generate-expiry w m.namespace s certs generated in
      (
        _,
        _,
        stored,
        ap w.parse_time (expiry_text m certs) ∙ T.parse-format certs.expiry,
        omega arith,
      )

  IsCurrent-valid :
      (m : DexServer) (c : SecretContent) (s : S) (v : View)
      → v.secrets (mtls_key m) ≡ some c
      → IsCurrent w c s
      → ValidFrom m (w.clock s).0 cert_renewal_window v
  IsCurrent-valid m c s v stored (t, parsed, beyond) = (c, t, stored, parsed, beyond)

  -- After a pass that succeeded, the namespace holds a secret whose expiry parses, and it lies a
  -- renewal window or more beyond the time at which the pass had looked for the secret: two
  -- hours, which is an hour more than passes over it that succeed are apart.
  pub manage_mtls_secret-valid :
      (m : DexServer) (s : S)
      → (manage_mtls_secret w m s).0 ≡ ok tt
      → ValidFrom m
          (w.clock (get_mtls_secret w m s).1).0
          (hour + hour)
          (view (manage_mtls_secret w m s).1)
  unfolding manage_mtls_secret renew_mtls_secret ◌>>=◌
  manage_mtls_secret-valid m s done = elim (branch-eq-ok (get_mtls_secret w m) _ _ s done) [
    | inl (x, found, same, good) ↦
        let (b, decided, next, renewed) =
          bind-eq-ok (needs_renewal w x) (renew_mtls_secret w m) _ good in
        rw (same, next) (by_need x b found decided renewed)
    | inr (e, failed, same, good) ↦
        let (_, created, stored) = unless_missing-eq-ok e _ (create_mtls_secret w m) _ good in
        rw (same, created)
          (StoredAt-valid m (get_mtls_secret w m s).1
            (view (create_mtls_secret w m (get_mtls_secret w m s).1).1)
            (w.clock (get_mtls_secret w m s).1).0 (omega arith) (create-stores L E m _ stored))
  ]
    where
      by_need :
          (x : Secret) (b : Bool)
          → (get_mtls_secret w m s).0 ≡ ok x
          → (needs_renewal w x (get_mtls_secret w m s).1).0 ≡ ok b
          → (renew_mtls_secret w m b (needs_renewal w x (get_mtls_secret w m s).1).1).0 ≡ ok tt
          → ValidFrom m
              (w.clock (get_mtls_secret w m s).1).0
              (hour + hour)
              (view (renew_mtls_secret w m b (needs_renewal w x (get_mtls_secret w m s).1).1).1)
      by_need x true found decided renewed =
          let s₁ = (get_mtls_secret w m s).1 in
          let s₂ = (needs_renewal w x s₁).1 in
          StoredAt-valid m s₂ (view (renew_mtls_secret w m true s₂).1) (w.clock s₁).0
            (clock-needs_renewal x s₁) (renew-stores L E m s₂ renewed)
      by_need x false found decided renewed =
          let s₁ = (get_mtls_secret w m s).1 in
          let same =
            (needs_renewal-Keeps L (λ v. v) x).same s₁ ∙ L.get_secret_reads (mtls_key m) s in
          IsCurrent-valid m (secret_content x) s₁ (view (needs_renewal w x s₁).1)
            (rw same (get_secret_found L (mtls_key m) s found).1)
            (needs_renewal-eq-false w x s₁ decided)
