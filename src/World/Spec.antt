-- ===== src/World/Spec.antt =====
-- What the API server and dex promise, as equations over an abstract view of the world: reads
-- change nothing, a write that succeeds stores its object, and one that fails stores nothing.
use dex_operator.Common.{
  ◌≡◌, ℕ, [], ◌∷◌, Bool, true, false, Option, none, some, Result, ok, err, panic, Str, Assoc,
  GoError, Action, ◌==◌, str_eq, ◌&&◌, if◌then◌else◌,
}
use mathlib.Core.Option
use dex_operator.Api.{Key, Secret, DexServer, DexClient, ClusterRoleBinding, server_key}
use dex_operator.World.Templates.{Values, cluster_role_binding_values, ApplyMode}
use dex_operator.World.Cryptography.{Certificate, PrivateKey}
use dex_operator.World.Dex.{OauthClient}
use dex_operator.World.Packages.{World}

-- What a stored secret holds, apart from the metadata that the server sets.
pub record SecretContent : Type 0 where
  pub labels : Assoc Str
  pub annotations : Assoc Str
  pub content : Assoc Str

abbrev pub secret_content : Secret → SecretContent
secret_content x = record { labels = x.labels; annotations = x.annotations; content = x.content }

abbrev pub secret_key : Secret → Key
secret_key x = record { namespace = x.namespace; name = x.name }

unfoldable pub same_key : Key → Key → Bool
same_key k j = k.namespace == j.namespace && k.name == j.name

-- `secrets` by key, the cluster role bindings that exist, what the applier last made of each
-- template, the stored custom resources, the clients that dex has at an address, by their
-- identifiers, and how many connections to dex are open.
pub record View : Type 0 where
  pub secrets : Key → Option SecretContent
  pub bindings : Str → Bool
  pub applied : Str → Option Values
  pub dex_servers : Key → Option DexServer
  pub dex_clients : Key → Option DexClient
  pub dex : Str → Str → Option OauthClient
  pub connections : ℕ

abbrev pub put_secret : Secret → View → View
put_secret x v = record v {
  secrets = λ k. if same_key k (secret_key x) then some (secret_content x) else v.secrets k;
}

abbrev pub drop_binding : Str → View → View
drop_binding n v = record v { bindings = λ k. if k == n then false else v.bindings k }

-- The bindings that exist once a template is made: the one of a cluster role binding is added.
abbrev pub bindings_after : Values → (Str → Bool) → Str → Bool
bindings_after (cluster_role_binding_values b) old n =
    if n == b.cluster_role_binding_name then true else old n
bindings_after _ old n = old n

abbrev pub put_applied : Str → Values → View → View
put_applied file values v = record v {
  applied = λ f. if f == file then some values else v.applied f;
  bindings = bindings_after values v.bindings;
}

-- An update of the resource leaves the stored status alone. The object goes when it is being
-- deleted and its last finalizer is removed.
abbrev pub updated_server : DexServer → DexServer → Option DexServer
updated_server m old = elim m.deletion_timestamp [
  | none ↦ some (record m { status = old.status })
  | some _ ↦ elim m.finalizers [ [] ↦ none | _ ↦ some (record m { status = old.status }) ]
]

abbrev pub put_server : DexServer → View → View
put_server m v = record v {
  dex_servers = λ k.
      if same_key k (server_key m)
      then Option.bind (v.dex_servers k) (updated_server m)
      else v.dex_servers k;
}

-- An update of the status leaves the rest of the stored resource alone.
abbrev pub put_server_status : DexServer → View → View
put_server_status m v = record v {
  dex_servers = λ k.
      if same_key k (server_key m)
      then Option.map (λ (old : DexServer). record old { status = m.status }) (v.dex_servers k)
      else v.dex_servers k;
}

module _ {S : Type 0} (view : S → View) where
  -- The call changes nothing that is stored.
  abbrev pub Reads : {A : Type 0} → Action S A → Type 0
  Reads m = (s : S) → view (m s).1 ≡ view s

  -- The call stores what `f` says if it succeeds, and nothing if not.
  abbrev pub Writes : {A : Type 0} → Action S A → (View → View) → Type 0
  Writes m f =
      (s : S) → view (m s).1 ≡ elim (m s).0 [ ok _ ↦ f (view s) | err _ ↦ view s | panic ↦ view s ]

-- What a read of one object says of what is stored.
abbrev pub Finds : {A B : Type 0} → (A → Type 0) → Result A → Option B → (A → B) → Type 0
Finds P (ok a) stored f = P a × (stored ≡ some (f a))
Finds P (err e) stored f = e.not_found ≡ true → stored ≡ none
Finds P panic stored f = Unit

pub record ApiServer {S : Type 0} (w : World S) (view : S → View) : Type 0 where
  pub get_secret_reads : (k : Key) → Reads view (w.get_secret k)
  pub get_secret_finds :
      (k : Key) (s : S)
      → Finds (λ x. secret_key x ≡ k) (w.get_secret k s).0 ((view s).secrets k) secret_content
  pub create_secret_writes : (x : Secret) → Writes view (w.create_secret x) (put_secret x)
  pub update_secret_writes : (x : Secret) → Writes view (w.update_secret x) (put_secret x)
  -- the answer to an update is the object that was sent, but for the server's own metadata
  pub update_secret_answers :
      (x y : Secret) (s : S)
      → (w.update_secret x s).0 ≡ ok y
      → (secret_key y ≡ secret_key x) × (secret_content y ≡ secret_content x)
  pub get_binding_reads : (n : Str) → Reads view (w.get_cluster_role_binding n)
  pub get_binding_names :
      (n : Str) (s : S) (b : ClusterRoleBinding)
      → (w.get_cluster_role_binding n s).0 ≡ ok b
      → b.name ≡ n
  pub get_binding_missing :
      (n : Str) (s : S) {e : GoError}
      → (w.get_cluster_role_binding n s).0 ≡ err e
      → e.not_found ≡ true
      → (view s).bindings n ≡ false
  pub delete_binding_writes :
      (b : ClusterRoleBinding) → Writes view (w.delete_cluster_role_binding b) (drop_binding b.name)
  pub get_server_reads : (k : Key) → Reads view (w.get_dex_server k)
  pub get_server_finds :
      (k : Key) (s : S)
      → Finds (λ x. server_key x ≡ k) (w.get_dex_server k s).0 ((view s).dex_servers k) (λ x. x)
  pub update_server_writes : (m : DexServer) → Writes view (w.update_dex_server m) (put_server m)
  pub update_server_answers :
      (m n : DexServer) (s : S)
      → (w.update_dex_server m s).0 ≡ ok n
      → (server_key n ≡ server_key m) × (n.finalizers ≡ m.finalizers) × (n.spec ≡ m.spec)
  pub update_status_writes :
      (m : DexServer) → Writes view (w.update_dex_server_status m) (put_server_status m)
  -- the answer is the object that was sent, with the status that is now stored
  pub update_status_answers :
      (m n : DexServer) (s : S)
      → (w.update_dex_server_status m s).0 ≡ ok n
      → (server_key n ≡ server_key m) × (n.status ≡ m.status)
  pub get_config_map_reads : (k : Key) → Reads view (w.get_config_map k)
  pub get_deployment_reads : (k : Key) → Reads view (w.get_deployment k)
  pub apply_writes :
      (mode : ApplyMode) (owner : Option DexServer) (values : Values) (file : Str)
      → Writes view (w.apply mode owner values (file ∷ [])) (put_applied file values)
  pub clock_reads : (s : S) → view (w.clock s).1 ≡ view s
  pub rand_int_reads : (n : ℕ) (s : S) → view (w.rand_int n s).1 ≡ view s
  pub generate_key_reads : (n : ℕ) → Reads view (w.generate_key n)
  pub create_certificate_reads :
      (template parent : Certificate) (key : Str) (signer : PrivateKey)
      → Reads view (w.create_certificate template parent key signer)
