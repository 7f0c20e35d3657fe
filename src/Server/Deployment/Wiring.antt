-- ===== src/Server/Deployment/Wiring.antt =====
-- The environment variables of the deployment against the copies of the credentials.
use mathlib.Core.List.{append_assoc, append-nil}
use dex_operator.Common.{
  ◌≡◌, refl, sym, ◌∙◌, ap, true, Option, none, some, List, [], ◌∷◌, ◌++◌, Str, ok, inl, inr, Action,
  pure, lit, ◌>>=◌, bind-eq-ok, pure-eq-ok, arith,
}
use dex_operator.Api.{
  EnvVar, DexServer, ConnectorSpec, ConnectorType, github, ldap, microsoft, oidc, other,
}
use dex_operator.World.{World, View, ApiServer}
use dex_operator.World.Holds.{HasSecret, HasSecretAt-ServerStable}
use dex_operator.Connectors.{credential_ref, env_variable_name, env_variable_for_connector}
use dex_operator.Server.Deployment.Preserved.{add_root_ca-Preserves, visit-Preserves}
use dex_operator.Server.ConfigMap.Copies.{
  is_copied, credential_copy, CopiesHeld, held_after, no_reference,
}
use dex_operator.Server.Deployment.{
  Extras, copied_name, add_credential, add_root_ca, visit_connector, visit_connectors,
}
use dex_operator.Server.Deployment.Applies.{variable_for, add_credential-adds}

-- The variable is in the list.
abbrev pub HasVar : EnvVar → List EnvVar → Type 0
HasVar v vs = (before rest : List EnvVar) × (vs ≡ before ++ (v ∷ rest))

HasVar-append : (v : EnvVar) (vs ws : List EnvVar) → HasVar v vs → HasVar v (vs ++ ws)
HasVar-append v vs ws (before, rest, split) =
    (before, rest ++ ws, ap (λ us. us ++ ws) split ∙ simp append_assoc)

HasVar-last : (v : EnvVar) (vs : List EnvVar) → HasVar v (vs ++ (v ∷ []))
HasVar-last v vs = (vs, [], refl)

-- The key under which the secret of a connector has the credential: a client secret, or for LDAP the
-- password to bind with.
abbrev pub credential_key : ConnectorType → Str
credential_key ldap = lit "bindPW"
credential_key (other _) = []
credential_key _ = lit "clientSecret"

-- The variable that carries the credential of a connector: it reads the credential of the copy.
abbrev pub variable_of : DexServer → ConnectorSpec → EnvVar
variable_of m c = record {
  name = env_variable_name c;
  secret_name = (credential_copy m c).name;
  secret_key = credential_key c.type;
}

secret_key-is : (t : ConnectorType) → (env_variable_for_connector t).secret_key ≡ credential_key t
unfolding env_variable_for_connector
secret_key-is github = refl
secret_key-is ldap = refl
secret_key-is microsoft = refl
secret_key-is oidc = refl
secret_key-is (other _) = refl

variable-is :
    (m : DexServer) (c : ConnectorSpec)
    → variable_for (copied_name (credential_ref no_reference c)) c ≡ variable_of m c
variable-is m c =
    let reading : Str → EnvVar = λ k. record {
      name = env_variable_name c;
      secret_name = (credential_copy m c).name;
      secret_key = k;
    } in
    ap reading (secret_key-is c.type)

-- Each of these connectors whose credential is copied has its variable in the list.
pub Wired : DexServer → List ConnectorSpec → List EnvVar → Type 0
Wired m [] vs = Unit
Wired m (c ∷ cs) vs = (is_copied m c ≡ true → HasVar (variable_of m c) vs) × Wired m cs vs

module _ {S : Type 0} {w : World S} {view : S → View} (L : ApiServer w view) where
  root_ca-env :
      (m : DexServer) (c : ConnectorSpec) (acc : Extras) (s : S) {x : Extras}
      → (add_root_ca w m c acc s).0 ≡ ok x
      → x.env_variables ≡ acc.env_variables
  unfolding add_root_ca ◌>>=◌
  root_ca-env m c acc s done = ground arith

  -- What a round adds to the variables: the variable of the connector, if the copy is stored.
  abbrev Adds : DexServer → ConnectorSpec → Str → S → List EnvVar → List EnvVar → Type 0
  Adds m c name s vs ws =
      (us : List EnvVar) × (ws ≡ vs ++ us)
      × (HasSecret (record { namespace = m.namespace; name = name }) (view s).secrets
          → us ≡ variable_for name c ∷ [])

  credential-Adds :
      (m : DexServer) (name : Str) (c : ConnectorSpec) (acc : Extras) (s : S) {x : Extras}
      → (add_credential w m name c acc s).0 ≡ ok x
      → Adds m c name s acc.env_variables x.env_variables
  credential-Adds m name c acc s done = elim (add_credential-adds L m name c acc s done) [
    | inl (missing, same) ↦
        ([], same ∙ sym (append-nil acc.env_variables), λ (d, stored). absurd (ground arith))
    | inr (d, stored, added) ↦ (variable_for name c ∷ [], added, λ held. refl)
  ]

  env_of : Option Extras → List EnvVar
  env_of none = []
  env_of (some x) = x.env_variables

  then_some :
      (m : DexServer) (name : Str) (c : ConnectorSpec) (acc : Extras) (s : S) {x : Extras}
      → ((add_credential w m name c acc >>= λ y. pure (some y)) s).0 ≡ ok (some x)
      → Adds m c name s acc.env_variables x.env_variables
  unfolding env_of
  then_some m name c acc s {x} done =
      let (y, got, same, last) =
        bind-eq-ok (add_credential w m name c acc) (λ y. pure (some y)) s done in
      let is_y = pure-eq-ok {S = S} (some y) (some x) (add_credential w m name c acc s).1 last in
      let (us, grown, one) = credential-Adds m name c acc s got in
      (us, ap (λ found. env_of found) is_y ∙ grown, one)

  visit-Adds :
      (m : DexServer) (c : ConnectorSpec) (acc : Extras) (s : S) (t : ConnectorType) {x : Extras}
      → (visit_connector w m (record c { type = t }) acc s).0 ≡ ok (some x)
      → Adds m
          (record c { type = t })
          (copied_name (credential_ref no_reference (record c { type = t })))
          s
          acc.env_variables
          x.env_variables
  unfolding visit_connector ◌>>=◌
  visit-Adds m c acc s github done = then_some m _ _ acc s done
  visit-Adds m c acc s microsoft done = then_some m _ _ acc s done
  visit-Adds m c acc s oidc done = then_some m _ _ acc s done
  visit-Adds m c acc s ldap done =
      let c' : ConnectorSpec = record c { type = ldap } in
      let (acc', first, same, rest) =
        bind-eq-ok (add_root_ca w m c' acc)
          (λ acc'.
            add_credential w m (copied_name c.ldap.bind_pw_ref) c' acc' >>= λ x. pure (some x))
          s done in
      let (us, grown, one) = then_some m (copied_name c.ldap.bind_pw_ref) c' acc' _ rest in
      (
        us,
        grown ∙ ap (λ vs. vs ++ us) (root_ca-env m c' acc s first),
        λ held. one ((add_root_ca-Preserves L (HasSecretAt-ServerStable _) m c' acc).after s held),
      )
  visit-Adds m c acc s (other _) done = absurd (ground arith)

  abbrev next_round : DexServer → List ConnectorSpec → Option Extras → Action S (Option Extras)
  next_round m cs none = pure none
  next_round m cs (some acc) = visit_connectors w m cs acc

  -- A loop that went to its end went through its first round and through the others.
  after_round :
      (m : DexServer) (c : ConnectorSpec) (cs : List ConnectorSpec) (acc : Extras) (s : S)
      {x : Extras}
      → (visit_connectors w m (c ∷ cs) acc s).0 ≡ ok (some x)
      → (acc' : Extras) × ((visit_connector w m c acc s).0 ≡ ok (some acc'))
        × ((visit_connectors w m cs acc' (visit_connector w m c acc s).1).0 ≡ ok (some x))
  unfolding visit_connectors ◌>>=◌
  after_round m c cs acc s {x} done =
      let (found, got, same, rest) =
        bind-eq-ok (visit_connector w m c acc) (next_round m cs) s done in
      by_found found got rest
    where
      by_found :
          (found : Option Extras)
          → (visit_connector w m c acc s).0 ≡ ok found
          → (next_round m cs found (visit_connector w m c acc s).1).0 ≡ ok (some x)
          → (acc' : Extras) × ((visit_connector w m c acc s).0 ≡ ok (some acc'))
            × ((visit_connectors w m cs acc' (visit_connector w m c acc s).1).0 ≡ ok (some x))
      by_found none got rest = absurd (ground arith)
      by_found (some acc') got rest = (acc', got, rest)

  -- The rounds only append variables.
  visits-grow :
      (m : DexServer) (cs : List ConnectorSpec) (acc : Extras) (s : S) {x : Extras}
      → (visit_connectors w m cs acc s).0 ≡ ok (some x)
      → (us : List EnvVar) × (x.env_variables ≡ acc.env_variables ++ us)
  unfolding visit_connectors env_of
  visits-grow m [] acc s {x} done = (
    [],
    ap env_of (pure-eq-ok {S = S} (some acc) (some x) s done) ∙ sym (append-nil acc.env_variables),
  )
  visits-grow m (c ∷ cs) acc s done =
      let (acc', got, rest) = after_round m c cs acc s done in
      let (us, grown, one) = visit-Adds m c acc s c.type got in
      let (vs, more) = visits-grow m cs acc' _ rest in
      (us ++ vs, more ∙ ap (λ ws. ws ++ vs) grown ∙ simp append_assoc)

  -- Where the copies are stored, the rounds of the loop wire every connector.
  pub visits-Wired :
      (m : DexServer) (cs : List ConnectorSpec) (acc : Extras) (s : S) {x : Extras}
      → (visit_connectors w m cs acc s).0 ≡ ok (some x)
      → CopiesHeld m cs (view s).secrets
      → Wired m cs x.env_variables
  unfolding CopiesHeld Wired
  visits-Wired m [] acc s done held = tt
  visits-Wired m (c ∷ cs) acc s {x} done (first, rest_held) =
      let (acc', got, rest) = after_round m c cs acc s done in
      let (us, grown, one) = visit-Adds m c acc s c.type got in
      let (vs, more) = visits-grow m cs acc' _ rest in
      (
        λ copied.
            rw (more, grown, one (first copied), variable-is m c)
              (HasVar-append _ _ vs (HasVar-last (variable_of m c) acc.env_variables)),
        visits-Wired m cs acc' _ rest (
            held_after view (visit_connector w m c acc)
              (λ k. visit-Preserves L (HasSecretAt-ServerStable k) m c acc c.type) m cs s
              rest_held),
      )
