-- ===== src/Server/Mtls/Renewal.antt =====
-- What `manageMTLSSecret` leaves in the namespace of a dex server.
use dex_operator.Common.{
  ℕ, ◌+◌, ◌≤◌, ◌≡◌, refl, ◌∙◌, ap, ◌⊎◌, inl, inr, Bool, true, false, Option, none, some, ok,
  Option-cases, Str, str_eq, text_at, lit, handle-raise-eq-ok, ◌>>=◌, ◌returning◌, branch-eq-ok,
  bind-eq-ok, unless_missing-eq-ok, Keeps, keeps_rules, Keeps-if, Keeps-bind, Keeps-pure, arith,
}
use dex_operator.Api.{Key, Secret, DexServer}
use dex_operator.World.{World, View, ApiServer, SecretContent, secret_content, secret_key}
use dex_operator.World.Facts.{stored_by_update, stored_by_create, get_secret_found}
use dex_operator.World.Frames.{
  part, clock-Keeps, rand_int-Keeps, generate_key-Keeps, create_certificate-Keeps,
}
use dex_operator.Certs.{
  MtlsCerts, in_cert_renewal_window, cert_renewal_window, cert_duration, generate_mtls_certs,
}
use dex_operator.Conditions.{ExternLaws}
use dex_operator.Server.Mtls.{
  secret_mtls_name, mtls_cert_expiry_annotation, define_mtls_secret, get_mtls_secret, needs_renewal,
  new_mtls_secret, renew_mtls_secret, create_mtls_secret, manage_mtls_secret,
}

abbrev pub mtls_key : DexServer → Key
mtls_key m = record { namespace = m.namespace; name = secret_mtls_name }

module _ {S : Type 0} (w : World S) where
  -- The stored expiry parses to a time that the renewal window does not reach from `s` on.
  abbrev pub IsCurrent : SecretContent → S → Type 0
  IsCurrent c s =
      (t : ℕ) × (w.parse_time (text_at mtls_cert_expiry_annotation c.annotations) ≡ some t)
      × ((w.clock s).0 + cert_renewal_window ≤ t)

  pub needs_renewal-eq-false :
      (x : Secret) (s : S) → (needs_renewal w x s).0 ≡ ok false → IsCurrent (secret_content x) s
  unfolding needs_renewal in_cert_renewal_window ◌>>=◌
  needs_renewal-eq-false x s done =
      elim (Option-cases (w.parse_time (text_at mtls_cert_expiry_annotation x.annotations))) [
        | inl unreadable ↦ absurd (ground arith)
        | inr (t, parsed) ↦ (t, parsed, ground arith)
      ]

  -- The expiry that new certificates carry is a day after the clock was read.
  pub generate-expiry :
      (ns : Str) (s : S) (certs : MtlsCerts)
      → (generate_mtls_certs w ns s).0 ≡ ok certs
      → certs.expiry ≡ (w.clock s).0 + cert_duration
  unfolding generate_mtls_certs ◌>>=◌
  generate-expiry ns s certs done = ground arith

module _ {S X : Type 0} {w : World S} {view : S → View} (L : ApiServer w view) (p : View → X) where
  pub generate-Keeps : (ns : Str) → Keeps (part view p) (generate_mtls_certs w ns)
  unfolding generate_mtls_certs
  generate-Keeps ns = Keeps-bind _ _ (clock-Keeps L p) λ t.
      Keeps-bind _ _ (rand_int-Keeps L p _) λ ca_serial.
        Keeps-bind _ _ (generate_key-Keeps L p _) λ ca_key.
          Keeps-bind _ _ (create_certificate-Keeps L p _ _ _ _) λ ca_bytes.
            Keeps-bind _ _ (rand_int-Keeps L p _) λ serial.
              Keeps-bind _ _ (generate_key-Keeps L p _) λ cert_key.
                Keeps-bind _ _ (create_certificate-Keeps L p _ _ _ _) λ cert_bytes.
                  search (keeps_rules, generate_key-Keeps L p, create_certificate-Keeps L p)

  pub in_window-Keeps : (t : ℕ) → Keeps (part view p) (in_cert_renewal_window w t)
  unfolding in_cert_renewal_window
  in_window-Keeps t = search (keeps_rules, clock-Keeps L p)

  by_parse-Keeps :
      (found : Option ℕ)
      → Keeps (part view p) (elim found [
        | none ↦ in_cert_renewal_window w 0 returning true
        | some t ↦ in_cert_renewal_window w t
      ])
  by_parse-Keeps none = search (keeps_rules, in_window-Keeps)
  by_parse-Keeps (some t) = in_window-Keeps t

  pub needs_renewal-Keeps : (x : Secret) → Keeps (part view p) (needs_renewal w x)
  unfolding needs_renewal
  needs_renewal-Keeps x =
      Keeps-if _ _ _ (Keeps-pure _)
        (by_parse-Keeps (w.parse_time (text_at mtls_cert_expiry_annotation x.annotations)))

  pub new_mtls_secret-Keeps : (m : DexServer) → Keeps (part view p) (new_mtls_secret w m)
  unfolding new_mtls_secret
  new_mtls_secret-Keeps m = search (keeps_rules, generate-Keeps)

module _ {S : Type 0} {w : World S} {view : S → View} (L : ApiServer w view)
    (E : ExternLaws w) where
  -- The secret is made of certificates that were generated in the world `s`.
  abbrev pub StoredAt : DexServer → S → View → Type 0
  StoredAt m s v =
      (certs : MtlsCerts) × ((generate_mtls_certs w m.namespace s).0 ≡ ok certs)
      × (v.secrets (mtls_key m) ≡ some (secret_content (define_mtls_secret w m certs)))

  abbrev pub Stored : DexServer → View → Type 0
  Stored m v = (s : S) × StoredAt m s v

  pub define-key :
      (m : DexServer) (certs : MtlsCerts) → secret_key (define_mtls_secret w m certs) ≡ mtls_key m
  unfolding define_mtls_secret
  define-key m certs = (E.owner_keeps m _).0

  pub new_mtls_secret-eq-ok :
      (m : DexServer) (s : S) {x : Secret}
      → (new_mtls_secret w m s).0 ≡ ok x
      → (certs : MtlsCerts) × ((generate_mtls_certs w m.namespace s).0 ≡ ok certs)
        × (x ≡ define_mtls_secret w m certs)
  unfolding new_mtls_secret ◌>>=◌
  new_mtls_secret-eq-ok m s done = ground arith

  pub renew-stores :
      (m : DexServer) (s : S)
      → (renew_mtls_secret w m true s).0 ≡ ok tt
      → StoredAt m s (view (renew_mtls_secret w m true s).1)
  unfolding renew_mtls_secret
  renew-stores m s done =
      let (x, made, same, rest) = bind-eq-ok (new_mtls_secret w m) _ s done in
      let (certs, generated, is_new) = new_mtls_secret-eq-ok m s made in
      let (updated, after) =
        handle-raise-eq-ok (w.update_secret x returning tt)
          (λ e. w.wrap e (lit "error updating mtls secret")) _ rest in
      (
        certs,
        generated,
        rw (same, after)
            (stored_by_update L x (mtls_key m) _ (ap secret_key is_new ∙ define-key m certs) updated
              ∙ ap (λ y. some (secret_content y)) is_new),
      )

  pub create-stores :
      (m : DexServer) (s : S)
      → (create_mtls_secret w m s).0 ≡ ok tt
      → StoredAt m s (view (create_mtls_secret w m s).1)
  unfolding create_mtls_secret
  create-stores m s done =
      let (x, made, same, rest) = bind-eq-ok (new_mtls_secret w m) _ s done in
      let (certs, generated, is_new) = new_mtls_secret-eq-ok m s made in
      let (created, after) =
        handle-raise-eq-ok (w.create_secret x) (λ e. w.wrap e (lit "error creating mtls secret")) _
          rest in
      (
        certs,
        generated,
        rw (same, after)
            (stored_by_create L x (mtls_key m) _ (ap secret_key is_new ∙ define-key m certs) created
              ∙ ap (λ y. some (secret_content y)) is_new),
      )

  -- The secret was kept: nothing that is stored has changed, and what was found is current.
  abbrev pub Kept : DexServer → S → S → Type 0
  Kept m s s' =
      (c : SecretContent) × ((view s).secrets (mtls_key m) ≡ some c)
      × IsCurrent w c (get_mtls_secret w m s).1
      × (view s' ≡ view s)

  renew_if-leaves :
      (m : DexServer) (x : Secret) (b : Bool) (s s₀ : S)
      → (renew_mtls_secret w m b s).0 ≡ ok tt
      → (b ≡ false → IsCurrent w (secret_content x) (get_mtls_secret w m s₀).1)
      → (view s₀).secrets (mtls_key m) ≡ some (secret_content x)
      → view s ≡ view s₀
      → Kept m s₀ (renew_mtls_secret w m b s).1 ⊎ Stored m (view (renew_mtls_secret w m b s).1)
  unfolding renew_mtls_secret ◌>>=◌
  renew_if-leaves m x false s s₀ done current stored same =
      inl (secret_content x, stored, current refl, same)
  renew_if-leaves m x true s s₀ done current stored same = inr (s, renew-stores m s done)

  -- After a pass that succeeded, either the secret that was found is kept with nothing changed,
  -- since its expiry parses and lies beyond the renewal window, or the namespace holds a secret
  -- made of certificates that were generated in this pass.
  pub manage_mtls_secret-leaves :
      (m : DexServer) (s : S)
      → (manage_mtls_secret w m s).0 ≡ ok tt
      → Kept m s (manage_mtls_secret w m s).1 ⊎ Stored m (view (manage_mtls_secret w m s).1)
  unfolding manage_mtls_secret
  manage_mtls_secret-leaves m s done = elim (branch-eq-ok (get_mtls_secret w m) _ _ s done) [
    | inl (x, found, same, good) ↦
        let (b, decided, next, renewed) =
          bind-eq-ok (needs_renewal w x) (renew_mtls_secret w m) _ good in
        rw (same, next)
          (renew_if-leaves m x b _ s renewed
            (λ is_false. needs_renewal-eq-false w x _ (decided ∙ ap ok is_false))
            (get_secret_found L (mtls_key m) s found).1
            ((needs_renewal-Keeps L (λ v. v) x).same _ ∙ L.get_secret_reads (mtls_key m) s))
    | inr (e, failed, same, good) ↦
        let (_, created, stored) = unless_missing-eq-ok e _ (create_mtls_secret w m) _ good in
        inr (rw (same, created) (_, create-stores m _ stored))
  ]
