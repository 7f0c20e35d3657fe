-- ===== src/Server/ConfigMap/Copies.antt =====
-- The copies of credentials that `syncConfigMap` leaves in the namespace of the dex server.
use dex_operator.Common.{
  ◌≡◌, refl, ◌∙◌, ap, Bool, true, false, not, Option, none, some, List, [], ◌∷◌, ok, pure, lift,
  ◌>>=◌, bind-eq-ok, ◌==◌, str_eq, arith, Action, sym, pure-eq-ok, Preserves, preserves_rules,
}
use mathlib.Core.Option
use dex_operator.Api.{
  Key, SecretReference, DexServer, ConnectorSpec, ConnectorType, github, ldap, microsoft, oidc,
  other, DexConnectorSpec,
}
use dex_operator.World.{directly, config_map_values, World, View, SecretContent, ApiServer}
use dex_operator.World.Stable.{ServerStable, Seen, apply-Preserves}
use dex_operator.World.Holds.{Holds, HasSecret, HasSecretAt-ServerStable}
use dex_operator.Server.ConfigMap.Preserved.{ldap_paths-Preserves, connectors-Preserves}
use dex_operator.Connectors.{credential_ref}
use dex_operator.Secrets.{copy_secret_to_dex_server_namespace}
use dex_operator.Secrets.Copies.{copied_ref, copy_secret-stores}
use dex_operator.Server.ConfigMap.{
  config_map_file, connector_config, connectors_config, sync_config_map,
}

-- The type has a credential that is copied: a known type, and for OIDC a secret of another
-- namespace.
abbrev pub copies_for : DexServer → ConnectorSpec → ConnectorType → Bool
copies_for m c oidc = not (c.oidc.client_secret_ref.namespace == m.namespace)
copies_for m c (other _) = false
copies_for m c _ = true

abbrev pub is_copied : DexServer → ConnectorSpec → Bool
is_copied m c = copies_for m c c.type

abbrev pub no_reference : SecretReference
no_reference = record { namespace = []; name = [] }

-- Where the credential of a connector is copied to.
abbrev pub credential_copy : DexServer → ConnectorSpec → Key
credential_copy m c = copied_ref m (credential_ref no_reference c)

-- The copies of the credentials of these connectors are stored, where there are copies.
unfoldable pub CopiesHeld : DexServer → List ConnectorSpec → (Key → Option SecretContent) → Type 0
CopiesHeld m [] secrets = Unit
CopiesHeld m (c ∷ cs) secrets =
    (is_copied m c ≡ true → HasSecret (credential_copy m c) secrets) × CopiesHeld m cs secrets

module _ {S A : Type 0} (view : S → View) (call : Action S A)
    (keeps : (k : Key) → Preserves (Holds view k) call) where
  pub held_after :
      (m : DexServer) (cs : List ConnectorSpec) (s : S)
      → CopiesHeld m cs (view s).secrets
      → CopiesHeld m cs (view (call s).1).secrets
  unfolding CopiesHeld
  held_after m [] s held = tt
  held_after m (c ∷ cs) s (first, rest) =
      (λ copied. (keeps (credential_copy m c)).after s (first copied), held_after m cs s rest)

pub some_of_map :
    (d : DexConnectorSpec) (found : Option (List DexConnectorSpec)) {ds : List DexConnectorSpec}
    → Option.map (λ es. d ∷ es) found ≡ some ds
    → (es : List DexConnectorSpec) × (found ≡ some es)
some_of_map d none same = absurd (cc)
some_of_map d (some es) same = (es, refl)

module _ {S : Type 0} (w : World S) where
  -- What follows the configuration of one connector, and of all.
  abbrev pub next_connector :
      DexServer
      → List ConnectorSpec
      → Option DexConnectorSpec
      → Action S (Option (List DexConnectorSpec))
  next_connector m cs none = pure none
  next_connector m cs (some d) =
      connectors_config w m cs >>= λ rest. pure (Option.map (λ ds. d ∷ ds) rest)

  abbrev finish_config : DexServer → Option (List DexConnectorSpec) → Action S (Unit {0})
  finish_config m none = pure tt
  finish_config m (some ds) = do
    yaml ← lift (w.marshal_connectors ds)
    w.apply directly (some m)
        (config_map_values
          (record { issuer = m.spec.issuer; connectors_yaml = yaml; dex_server = m }))
        (config_map_file ∷ [])

module _ {S : Type 0} {w : World S} {view : S → View} (L : ApiServer w view) where
  -- A copy that succeeded leaves the secret, and so does what follows it.
  copied_then :
      {A : Type 0} (m : DexServer) (ref : SecretReference) (f : Unit {0} → Action S A) (s : S)
      {a : A}
      → ((copy_secret_to_dex_server_namespace w m ref >>= f) s).0 ≡ ok a
      → Preserves (Holds view (copied_ref m ref)) (f tt)
      → Holds view (copied_ref m ref) ((copy_secret_to_dex_server_namespace w m ref >>= f) s).1
  copied_then m ref f s done keeps =
      let (u, copied, same, rest) =
        bind-eq-ok (copy_secret_to_dex_server_namespace w m ref) f s done in
      let (c, d, original, stored, content) = copy_secret-stores L m ref s copied in
      rw same (keeps.after _ (d, stored))

  config_copies :
      (m : DexServer) (c : ConnectorSpec) (t : ConnectorType) (s : S)
      {found : Option DexConnectorSpec}
      → (connector_config w m (record c { type = t }) s).0 ≡ ok found
      → copies_for m c t ≡ true
      → Holds view
          (credential_copy m (record c { type = t }))
          (connector_config w m (record c { type = t }) s).1
  unfolding connector_config
  config_copies m c github s done copied = copied_then m _ _ s done (search preserves_rules)
  config_copies m c ldap s done copied =
      copied_then m _ _ s done
        (search (preserves_rules, ldap_paths-Preserves L (HasSecretAt-ServerStable _)))
  config_copies m c microsoft s done copied = copied_then m _ _ s done (search preserves_rules)
  config_copies m c oidc s done copied =
      let other_ns : (c.oidc.client_secret_ref.namespace == m.namespace) ≡ false = ground arith in
      rw other_ns
        (copied_then m c.oidc.client_secret_ref _ s (rw other_ns at done) (search preserves_rules))
  config_copies m c (other _) s done copied = absurd (cc)

  next-Preserves :
      {P : View → Type 0} (C : ServerStable P) (m : DexServer) (cs : List ConnectorSpec)
      (found : Option DexConnectorSpec)
      → Preserves (Seen view P) (next_connector w m cs found)
  next-Preserves C m cs none = search preserves_rules
  next-Preserves C m cs (some d) = search (preserves_rules, connectors-Preserves L C)

  finish-Preserves :
      {P : View → Type 0} (C : ServerStable P) (m : DexServer)
      (found : Option (List DexConnectorSpec))
      → Preserves (Seen view P) (finish_config w m found)
  finish-Preserves C m none = search preserves_rules
  finish-Preserves C m (some ds) = search (preserves_rules, apply-Preserves L C)

  next-CopiesHeld :
      (m : DexServer) (cs : List ConnectorSpec) (found : Option DexConnectorSpec) (s : S)
      {ds : List DexConnectorSpec}
      → ((t : S) (es : List DexConnectorSpec)
          → (connectors_config w m cs t).0 ≡ ok (some es)
          → CopiesHeld m cs (view (connectors_config w m cs t).1).secrets)
      → (next_connector w m cs found s).0 ≡ ok (some ds)
      → CopiesHeld m cs (view (next_connector w m cs found s).1).secrets
  unfolding ◌>>=◌
  next-CopiesHeld m cs none s held done = absurd (ground arith)
  next-CopiesHeld m cs (some d) s {ds} held done =
      let (rest, got, same, last) =
        bind-eq-ok (connectors_config w m cs) (λ r. pure (Option.map (λ es. d ∷ es) r)) s done in
      let (es, is_some) = some_of_map d rest (
        sym (
          pure-eq-ok {S = S} (Option.map (λ es. d ∷ es) rest) (some ds)
            (connectors_config w m cs s).1 last)) in
      rw same (held s es (got ∙ ap ok is_some))

  pub connectors_config-CopiesHeld :
      (m : DexServer) (cs : List ConnectorSpec) (s : S) (ds : List DexConnectorSpec)
      → (connectors_config w m cs s).0 ≡ ok (some ds)
      → CopiesHeld m cs (view (connectors_config w m cs s).1).secrets
  unfolding connectors_config CopiesHeld
  connectors_config-CopiesHeld m [] s ds done = tt
  connectors_config-CopiesHeld m (c ∷ cs) s ds done =
      let (found, got, same, rest) =
        bind-eq-ok (connector_config w m c) (next_connector w m cs) s done in
      rw same (
        λ copied.
            (next-Preserves (HasSecretAt-ServerStable (credential_copy m c)) m cs found).after _
              (config_copies m c c.type s got copied),
        next-CopiesHeld m cs found _ (λ t es. connectors_config-CopiesHeld m cs t es) rest,
      )

  -- The copies are there after the configuration was synchronised with success.
  pub sync_config_map-CopiesHeld :
      (m : DexServer) (s : S) (ds : List DexConnectorSpec)
      → (sync_config_map w m s).0 ≡ ok tt
      → (connectors_config w m m.spec.connectors s).0 ≡ ok (some ds)
      → CopiesHeld m m.spec.connectors (view (sync_config_map w m s).1).secrets
  unfolding sync_config_map
  sync_config_map-CopiesHeld m s ds done got =
      let (found, got', same, rest) =
        bind-eq-ok (connectors_config w m m.spec.connectors) (finish_config w m) s done in
      rw same (
        held_after view (finish_config w m found)
          (λ k. finish-Preserves (HasSecretAt-ServerStable k) m found) m m.spec.connectors _
          (connectors_config-CopiesHeld m m.spec.connectors s ds got))
