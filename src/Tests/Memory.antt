-- ===== src/Tests/Memory.antt =====
-- A world whose state is the view itself: every call of the API server succeeds where its object
-- exists. It is a concrete instance of the parameters of the model.
use Prim.Native.Nat.{◌-◌, ◌/◌}
use dex_operator.Common.{
  ◌+◌, ◌*◌, List, [], ◌∷◌, ◌++◌, Bool, true, false, not, ◌||◌, Option, none, some, Result, ok, err,
  Str, lit, GoError, ◌==◌, str_eq, if◌then◌else◌, is_empty,
}
use dex_operator.Api.{
  Key, Secret, empty_secret, Condition, DexServer, server_key, DexClient, client_key,
}
use dex_operator.World.{
  World, View, SecretContent, Kube, Crypto, Grpc, Extern, Values, put_secret, drop_binding,
  put_applied, put_server, put_server_status, same_key, put_client, put_client_status, put_oauth,
  drop_oauth, OauthClient, CreateClientResp, NotFoundResp,
}

abbrev pub not_found : GoError
not_found = record { not_found = true; message = lit "not found" }

abbrev pub wrong_key : GoError
wrong_key = record { not_found = false; message = lit "wrong key" }

abbrev pub secret_at : Key → Option SecretContent → Result Secret
secret_at k none = err not_found
secret_at k (some c) = ok (record empty_secret {
  namespace = k.namespace;
  name = k.name;
  labels = c.labels;
  annotations = c.annotations;
  content = c.content;
})

abbrev pub server_at : Key → Option DexServer → Result DexServer
server_at k none = err not_found
server_at k (some m) = if same_key (server_key m) k then ok m else err wrong_key

abbrev pub client_at : Key → Option DexClient → Result DexClient
client_at k none = err not_found
client_at k (some m) = if same_key (client_key m) k then ok m else err wrong_key

abbrev apply_all : Values → List Str → View → View
apply_all values [] v = v
apply_all values (file ∷ files) v = apply_all values files (put_applied file values v)

-- `refuses` says whether a deletion of a binding is refused.
abbrev memory_kube : Bool → Kube View
memory_kube refuses = record {
  get_dex_server = λ k v. (server_at k (v.dex_servers k), v);
  update_dex_server = λ m v. (ok m, put_server m v);
  update_dex_server_status = λ m v. (ok m, put_server_status m v);
  list_dex_servers = λ v. (ok [], v);
  get_dex_client = λ k v. (client_at k (v.dex_clients k), v);
  update_dex_client = λ m v. (ok m, put_client m v);
  update_dex_client_status = λ m v. (ok m, put_client_status m v);
  list_dex_clients = λ v. (ok [], v);
  get_secret = λ k v. (secret_at k (v.secrets k), v);
  create_secret = λ x v. (ok tt, put_secret x v);
  update_secret = λ x v. (ok x, put_secret x v);
  get_cluster_role_binding =
      λ n v. if v.bindings n then (ok (record { name = n }), v) else (err not_found, v);
  delete_cluster_role_binding =
      λ b v. if refuses then (err wrong_key, v) else (ok tt, drop_binding b.name v);
  get_config_map = λ k v. (err not_found, v);
  get_deployment = λ k v. (
    ok (record {
      namespace = k.namespace;
      name = k.name;
      owner_references = [];
      generation = 1;
      template_annotations = [];
    }),
    v,
  );
  apply = λ mode owner values files v. (ok tt, apply_all values files v);
  clock = λ v. (1_000, v);
}

abbrev memory_crypto : Crypto View
memory_crypto = record {
  rand_int = λ n v. (some 7, v);
  generate_key = λ n v. (ok (record { material = lit "key" }), v);
  public_key = λ key. key.material;
  create_certificate = λ template parent key signer v. (ok (signer.material), v);
  pem_encode = λ kind text. kind ++ text;
  marshal_private_key = λ key. key.material;
}

abbrev pub dex_creates :
    Str → OauthClient → Option OauthClient → View → Result CreateClientResp × View
dex_creates target d none v =
    (ok (record { already_exists = false; client = d }), put_oauth target d v)
dex_creates target d (some old) v = (ok (record { already_exists = true; client = d }), v)

abbrev pub dex_deletes : Str → Str → Option OauthClient → View → Result NotFoundResp × View
dex_deletes target id none v = (ok (record { not_found = true }), v)
dex_deletes target id (some old) v = (ok (record { not_found = false }), drop_oauth target id v)

abbrev memory_grpc : Grpc View
memory_grpc = record {
  append_certs = λ ca. not (is_empty ca);
  key_pair = λ cert key. ok cert;
  dial = λ host ca cert v. (
    ok (record { target = host; ca = ca; certificate = cert }),
    record v { connections = v.connections + 1 },
  );
  close = λ c v. (ok tt, record v { connections = v.connections - 1 });
  create_client = λ c req v. dex_creates c.target req.client (v.dex c.target req.client.id) v;
  update_client = λ c req v. (ok (record { not_found = false }), v);
  delete_client = λ c req v. dex_deletes c.target req.id (v.dex c.target req.id) v;
  get_version = λ c v. (ok (lit "v2"), v);
}

abbrev pub contains : List Str → Str → Bool
contains [] g = false
contains (f ∷ fs) g = f == g || contains fs g

abbrev pub remove : List Str → Str → List Str
remove [] g = []
remove (f ∷ fs) g = let rest = remove fs g in if f == g then rest else f ∷ rest

abbrev pub set_condition : List Condition → Condition → List Condition
set_condition [] c = c ∷ []
set_condition (d ∷ ds) c = if d.type == c.type then c ∷ ds else d ∷ set_condition ds c

abbrev memory_extern : Extern
memory_extern = record {
  wrap = λ e text. record e { message = text ++ e.message };
  quote = λ text. text;
  contains_finalizer = contains;
  add_finalizer = λ fs f. f ∷ fs;
  remove_finalizer = remove;
  set_status_condition = set_condition;
  set_controller_reference = λ m x. record x { owners = server_key m ∷ [] };
  get_deployment_status = λ d. (true, none);
  marshal_secret = λ x. ok x.name;
  marshal_config_map = λ x. ok x.name;
  marshal_connectors = λ ds. ok (lit "connectors");
  marshal_env_vars = λ vs. ok (lit "variables");
  marshal_volumes = λ vs. ok (lit "volumes");
  marshal_volume_mounts = λ vs. ok (lit "mounts");
  sha256 = λ text. text;
  format_time = λ t. (t / 1_000_000_000 * 1_000_000_000) ∷ [];
  parse_time = λ text. elim text [ [] ↦ none | t ∷ _ ↦ some t ];
  url_host = λ text. if is_empty text then none else some text;
  getenv = λ name. lit "quay.io/dex";
}

abbrev pub world : Bool → World View
world refuses = record {
  kube = memory_kube refuses;
  crypto = memory_crypto;
  grpc = memory_grpc;
  extern = memory_extern;
}

abbrev pub memory : World View
memory = world false

abbrev pub refusing : World View
refusing = world true

abbrev pub all_of : View → View
all_of v = v
