-- ===== src/Secrets/Supply.antt =====
-- The secrets that the connectors of a DexServer refer to, where they are stored.
use dex_operator.Common.{◌≡◌, false, List, [], ◌∷◌, is_empty}
use dex_operator.Api.{
  SecretReference, DexServer, ConnectorSpec, ConnectorType, github, ldap, microsoft, oidc, other,
}
use dex_operator.World.{View}
use dex_operator.World.Stable.{
  ServerStable, ServerStable-both, ServerStable-when, ServerStable-always,
}
use dex_operator.World.Holds.{HasSecretAt, HasSecretAt-ServerStable}
use dex_operator.Secrets.Copies.{ref_key}
use dex_operator.Secrets.Sure.{read_key}

-- Where the copy is made from, and where the credential is read.
abbrev pub RefSupplied : DexServer → SecretReference → View → Type 0
RefSupplied m ref v = HasSecretAt (ref_key ref) v × HasSecretAt (read_key m ref) v

-- The credential of a connector, and the root CA of an LDAP connector that names one.
abbrev pub TypeSupplied : DexServer → ConnectorSpec → ConnectorType → View → Type 0
TypeSupplied m c github v = RefSupplied m c.github.client_secret_ref v
TypeSupplied m c microsoft v = RefSupplied m c.microsoft.client_secret_ref v
TypeSupplied m c oidc v = RefSupplied m c.oidc.client_secret_ref v
TypeSupplied m c ldap v =
    RefSupplied m c.ldap.bind_pw_ref v
    × (is_empty c.ldap.root_ca_ref.name ≡ false → HasSecretAt (ref_key c.ldap.root_ca_ref) v)
TypeSupplied m c (other _) v = Unit

unfoldable pub Supplied : DexServer → List ConnectorSpec → View → Type 0
Supplied m [] v = Unit
Supplied m (c ∷ cs) v = TypeSupplied m c c.type v × Supplied m cs v

ref-Stable : (m : DexServer) (ref : SecretReference) → ServerStable (RefSupplied m ref)
ref-Stable m ref =
    ServerStable-both (HasSecretAt-ServerStable (ref_key ref))
      (HasSecretAt-ServerStable (read_key m ref))

type-Stable :
    (m : DexServer) (c : ConnectorSpec) (t : ConnectorType) → ServerStable (TypeSupplied m c t)
type-Stable m c github = ref-Stable m c.github.client_secret_ref
type-Stable m c microsoft = ref-Stable m c.microsoft.client_secret_ref
type-Stable m c oidc = ref-Stable m c.oidc.client_secret_ref
type-Stable m c ldap =
    ServerStable-both (ref-Stable m c.ldap.bind_pw_ref)
      (ServerStable-when (HasSecretAt-ServerStable (ref_key c.ldap.root_ca_ref)))
type-Stable m c (other _) = ServerStable-always

pub Supplied-ServerStable : (m : DexServer) (cs : List ConnectorSpec) → ServerStable (Supplied m cs)
unfolding Supplied
Supplied-ServerStable m [] = ServerStable-always
Supplied-ServerStable m (c ∷ cs) =
    ServerStable-both (type-Stable m c c.type) (Supplied-ServerStable m cs)
