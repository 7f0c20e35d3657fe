-- ===== src/Server/Deployment/Applies.antt =====
-- What `syncDeployment` makes of the template of the deployment.
use dex_operator.Common.{
  GoError, ◌≡◌, refl, ◌∙◌, ap, true, false, Option, none, some, List, [], ◌∷◌, ◌++◌, Str, ok, err,
  ◌>>=◌, bind-eq-ok, branch-eq-ok, lift-eq-ok, Bool-cases, ◌⊎◌, inl, inr, arith, Keeps, Keeps-bind,
  Keeps-option, Keeps-pure, keeps_rules,
}
use dex_operator.Api.{
  Key, EnvVar, Secret, DexServer, ConnectorSpec, ConnectorType, github, ldap, microsoft, oidc,
  other,
}
use dex_operator.World.{
  SecretContent, secret_content, World, View, ApiServer, deployment_values, deployments,
  DeploymentValues, put_secret,
}
use dex_operator.World.Facts.{get_secret_found, applied_after_apply}
use dex_operator.World.Frames.{part, get_secret-Keeps}
use dex_operator.Connectors.{is_known, env_variable_for_connector, env_variable_name}
use dex_operator.Connectors.Names.{all_known, all_known-cons}
use dex_operator.Secrets.{get_connector_secret_from_ref}
use dex_operator.Secrets.Frames.{read_credential-Keeps}
use dex_operator.Server.Deployment.{
  dex_image_env_name, yaml_of, Extras, no_extras, deployment_file, add_env_variable, add_credential,
  add_root_ca, visit_connector, visit_connectors, get_environment_variable_for_secret,
  get_dex_image_pull_spec, sync_deployment, apply_deployment, dex_config_map_hash,
  mtls_secret_expiry,
}
use dex_operator.Server.Mtls.{secret_mtls_name}
use dex_operator.Server.Resources.{service_account_name, tls_secret_name}

module _ {S : Type 0} (w : World S) where
  visit_connector-known :
      (m : DexServer) (c : ConnectorSpec) (acc : Extras) (s : S) {found : Option Extras}
      → (visit_connector w m c acc s).0 ≡ ok found
      → is_known c.type ≡ true
      → (x : Extras) × (found ≡ some x)
  unfolding visit_connector ◌>>=◌
  visit_connector-known m c acc s done known = ground arith

  visit_connector-unknown :
      (m : DexServer) (c : ConnectorSpec) (acc : Extras) (s : S)
      → is_known c.type ≡ false
      → visit_connector w m c acc s ≡ (ok none, s)
  unfolding visit_connector ◌>>=◌
  visit_connector-unknown m c acc s unknown = ground arith

  visit_connectors-known :
      (m : DexServer) (cs : List ConnectorSpec) (acc : Extras) (s : S) {found : Option Extras}
      → (visit_connectors w m cs acc s).0 ≡ ok found
      → all_known cs ≡ true
      → (x : Extras) × (found ≡ some x)
  unfolding visit_connectors ◌>>=◌
  visit_connectors-known m [] acc s done known = (acc, ground arith)
  visit_connectors-known m (c ∷ cs) acc s done known =
      let (a, got, same, rest) = bind-eq-ok (visit_connector w m c acc) _ s done in
      let (x, is_some) = visit_connector-known m c acc s got (all_known-cons c cs known).0 in
      visit_connectors-known m cs x _ (rw is_some at rest) (all_known-cons c cs known).1

  visit_connectors-unknown :
      (m : DexServer) (cs : List ConnectorSpec) (acc : Extras) (s : S) {found : Option Extras}
      → (visit_connectors w m cs acc s).0 ≡ ok found
      → all_known cs ≡ false
      → found ≡ none
  unfolding visit_connectors ◌>>=◌
  visit_connectors-unknown m [] acc s done known = absurd (cc)
  visit_connectors-unknown m (c ∷ cs) acc s done known = elim (Bool-cases (is_known c.type)) [
    | inl head ↦
        let (a, got, same, rest) = bind-eq-ok (visit_connector w m c acc) _ s done in
        let (x, is_some) = visit_connector-known m c acc s got head in
        visit_connectors-unknown m cs x _ (rw is_some at rest) (rw head at known)
    | inr head ↦ let stops = visit_connector-unknown m c acc s head in ground arith
  ]

-- Where the deployment looks for the copied secret of a connector.
abbrev pub copy_at : DexServer → Str → Key
copy_at m name = record { namespace = m.namespace; name = name }

abbrev pub variable_for : Str → ConnectorSpec → EnvVar
variable_for secret_name c = record {
  name = env_variable_name c;
  secret_name = secret_name;
  secret_key = (env_variable_for_connector c.type).secret_key;
}

module _ {S X : Type 0} {w : World S} {view : S → View} (L : ApiServer w view) (p : View → X)
    (same : (x : Secret) (v : View) → p (put_secret x v) ≡ p v) where
  credential-Keeps :
      (m : DexServer) (c : ConnectorSpec) (t : ConnectorType)
      → Keeps (part view p) (get_connector_secret_from_ref w (record c { type = t }) m)
  unfolding get_connector_secret_from_ref
  credential-Keeps m c github = search (read_credential-Keeps L p same)
  credential-Keeps m c ldap = search (read_credential-Keeps L p same)
  credential-Keeps m c microsoft = search (read_credential-Keeps L p same)
  credential-Keeps m c oidc = search (read_credential-Keeps L p same)
  credential-Keeps m c (other _) = search keeps_rules

  variable-Keeps :
      (m : DexServer) (name : Str) (c : ConnectorSpec)
      → Keeps (part view p) (get_environment_variable_for_secret w m name c)
  unfolding get_environment_variable_for_secret
  variable-Keeps m name c = search (keeps_rules, get_secret-Keeps L p)

  add_credential-Keeps :
      (m : DexServer) (name : Str) (c : ConnectorSpec) (acc : Extras)
      → Keeps (part view p) (add_credential w m name c acc)
  unfolding add_credential
  add_credential-Keeps m name c acc =
      Keeps-bind _ _ (variable-Keeps m name c)
        λ v. Keeps-bind _ _ (credential-Keeps m c c.type) λ t. search keeps_rules

  add_root_ca-Keeps :
      (m : DexServer) (c : ConnectorSpec) (acc : Extras)
      → Keeps (part view p) (add_root_ca w m c acc)
  unfolding add_root_ca
  add_root_ca-Keeps m c acc = search (keeps_rules, get_secret-Keeps L p)

  visit-Keeps :
      (m : DexServer) (c : ConnectorSpec) (acc : Extras) (t : ConnectorType)
      → Keeps (part view p) (visit_connector w m (record c { type = t }) acc)
  unfolding visit_connector
  visit-Keeps m c acc github = search (keeps_rules, add_credential-Keeps)
  visit-Keeps m c acc ldap = search (keeps_rules, add_root_ca-Keeps, add_credential-Keeps)
  visit-Keeps m c acc microsoft = search (keeps_rules, add_credential-Keeps)
  visit-Keeps m c acc oidc = search (keeps_rules, add_credential-Keeps)
  visit-Keeps m c acc (other _) = search keeps_rules

  pub visits-Keeps :
      (m : DexServer) (cs : List ConnectorSpec) (acc : Extras)
      → Keeps (part view p) (visit_connectors w m cs acc)
  unfolding visit_connectors
  visits-Keeps m [] acc = search keeps_rules
  visits-Keeps m (c ∷ cs) acc =
      Keeps-bind _ _ (visit-Keeps m c acc c.type)
        λ found. Keeps-option found _ _ (Keeps-pure _) λ acc'. visits-Keeps m cs acc'

module _ {S : Type 0} {w : World S} {view : S → View} (L : ApiServer w view) where
  missing_of :
      (k : Key) (s : S) (e : GoError)
      → (w.get_secret k s).0 ≡ err e
      → e.not_found ≡ true
      → (view s).secrets k ≡ none
  missing_of k s e failed = rw failed at (L.get_secret_finds k s)

  variable-found :
      (m : DexServer) (name : Str) (c : ConnectorSpec) (s : S) {v : Option EnvVar}
      → (get_environment_variable_for_secret w m name c s).0 ≡ ok v
      → (((view s).secrets (copy_at m name) ≡ none) × (v ≡ none))
        ⊎ ((x : SecretContent) × ((view s).secrets (copy_at m name) ≡ some x)
            × (v ≡ some (variable_for name c)))
  unfolding get_environment_variable_for_secret ◌>>=◌
  variable-found m name c s done = elim (branch-eq-ok (w.get_secret (copy_at m name)) _ _ s done) [
    | inl (x, found, same, good) ↦
        inr (secret_content x, (get_secret_found L (copy_at m name) s found).1, ground arith)
    | inr (e, failed, same, good) ↦
        inl (missing_of (copy_at m name) s e failed (ground arith), ground arith)
  ]

  gathered : {x y : Extras} → ok y ≡ ok x → x.env_variables ≡ y.env_variables
  gathered same = ground arith

  -- A round that succeeded for a connector whose secret is copied under `name`: where the
  -- namespace has no secret of that name, no variable is added; where it has one, the variable
  -- that is added is the connector's, with its value from that secret.
  pub add_credential-adds :
      (m : DexServer) (name : Str) (c : ConnectorSpec) (acc : Extras) (s : S) {x : Extras}
      → (add_credential w m name c acc s).0 ≡ ok x
      → (((view s).secrets (copy_at m name) ≡ none) × (x.env_variables ≡ acc.env_variables))
        ⊎ ((d : SecretContent) × ((view s).secrets (copy_at m name) ≡ some d)
            × (x.env_variables ≡ acc.env_variables ++ variable_for name c ∷ []))
  unfolding add_credential ◌>>=◌
  add_credential-adds m name c acc s {x} done =
      let (v, found, same, rest) =
        bind-eq-ok (get_environment_variable_for_secret w m name c) _ s done in
      let (t, read, same', last) = bind-eq-ok (get_connector_secret_from_ref w c m) _ _ rest in
      let is_x : x.env_variables ≡ (add_env_variable v acc).env_variables = gathered last in
      elim (variable-found m name c s found) [
        | inl (missing, nothing) ↦
            inl (missing, is_x ∙ ap (λ o. (add_env_variable o acc).env_variables) nothing)
        | inr (d, stored, added) ↦
            inr (d, stored, is_x ∙ ap (λ o. (add_env_variable o acc).env_variables) added)
      ]

  abbrev pub values_of : DexServer → Extras → Str → Str → Str → DeploymentValues
  values_of m x image config_hash expiry = record {
    dex_image = image;
    dex_config_map_hash = config_hash;
    root_ca_hash = x.root_ca_hash;
    connector_credentials_hash = x.connector_creds_hash;
    service_account_name = service_account_name;
    tls_secret_name = tls_secret_name m;
    mtls_secret_name = secret_mtls_name;
    mtls_secret_expiry = expiry;
    dex_server = m;
    additional_env_variables = yaml_of w.marshal_env_vars x.env_variables;
    additional_volume_mounts = yaml_of w.marshal_volume_mounts x.volume_mounts;
    additional_volumes = yaml_of w.marshal_volumes x.volumes;
  }

  pulled_image :
      {image : Str} → get_dex_image_pull_spec w ≡ ok image → image ≡ w.getenv dex_image_env_name
  unfolding get_dex_image_pull_spec
  pulled_image done = ground arith

  apply_deployment-applies :
      (m : DexServer) (image : Str) (x : Extras) (s : S)
      → (apply_deployment w m image x s).0 ≡ ok tt
      → (config_hash : Str) × (expiry : Str) × ((dex_config_map_hash w m s).0 ≡ ok config_hash)
        × ((view (apply_deployment w m image x s).1).applied deployment_file
            ≡ some (deployment_values (values_of m x image config_hash expiry)))
  unfolding apply_deployment
  apply_deployment-applies m image x s done =
      let (hash, hashed, same, rest) = bind-eq-ok (dex_config_map_hash w m) _ s done in
      let (expiry, read, same', applied) = bind-eq-ok (mtls_secret_expiry w m) _ _ rest in
      (
        hash,
        expiry,
        hashed,
        rw (same, same')
            (ap (λ (v : View). v.applied deployment_file)
                (applied_after_apply L deployments (some m)
                  (deployment_values (values_of m x image hash expiry)) deployment_file _ applied)
              ∙ ground arith),
      )

  -- When the deployment is synchronised with success and every connector has one of the four
  -- types, the last thing made of its template has the image that the environment names, the
  -- names of the TLS and mTLS secrets, this DexServer, the checksum of the stored configuration,
  -- and the YAML of the variables, volumes and mounts that the loop over the connectors gathered.
  pub sync_deployment-applies :
      (m : DexServer) (s : S)
      → (sync_deployment w m s).0 ≡ ok tt
      → all_known m.spec.connectors ≡ true
      → (x : Extras) × (config_hash : Str) × (expiry : Str) × ((visit_connectors w m
            m.spec.connectors no_extras s).0
          ≡ ok (some x))
        × ((dex_config_map_hash w m (visit_connectors w m m.spec.connectors no_extras s).1).0
            ≡ ok config_hash)
        × ((view (sync_deployment w m s).1).applied deployment_file
            ≡ some (
                deployment_values (values_of m x (w.getenv dex_image_env_name) config_hash expiry)))
  unfolding sync_deployment
  sync_deployment-applies m s done known =
      let (image, pulled, same, rest) = lift-eq-ok (get_dex_image_pull_spec w) _ s done in
      let (found, got, same', rest') =
        bind-eq-ok (visit_connectors w m m.spec.connectors no_extras) _ s rest in
      let (x, is_some) = visit_connectors-known w m m.spec.connectors no_extras s got known in
      let (hash, expiry, hashed, applied) =
        apply_deployment-applies m image x _ (rw is_some at rest') in
      (
        x,
        hash,
        expiry,
        got ∙ ap ok is_some,
        hashed,
        rw (same, same', is_some, ← pulled_image pulled) applied,
      )

  -- A call that succeeded although some connector has none of the four types made nothing.
  pub sync_deployment-unapplied :
      (m : DexServer) (s : S)
      → (sync_deployment w m s).0 ≡ ok tt
      → all_known m.spec.connectors ≡ false
      → (view (sync_deployment w m s).1).applied ≡ (view s).applied
  unfolding sync_deployment ◌>>=◌
  sync_deployment-unapplied m s done unknown =
      let (image, pulled, same, rest) = lift-eq-ok (get_dex_image_pull_spec w) _ s done in
      let (found, got, same', rest') =
        bind-eq-ok (visit_connectors w m m.spec.connectors no_extras) _ s rest in
      let is_none = visit_connectors-unknown w m m.spec.connectors no_extras s got unknown in
      rw (same, same', is_none)
        ((visits-Keeps L (λ v. v.applied) (λ x v. refl) m m.spec.connectors no_extras).same s)
