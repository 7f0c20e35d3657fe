-- ===== src/World/Promises.antt =====
-- What the API server promises of DexClients, and what gRPC and dex promise of connections and of
-- the clients that dex has, over the same view of the world.
use Prim.Native.Nat.{◌-◌, ◌/◌}
use dex_operator.Common.{
  ℕ, ◌+◌, ◌*◌, ◌≤◌, ◌≡◌, [], true, false, Option, none, some, Result, ok, err, panic, Str, ◌==◌,
  str_eq, ◌&&◌, is_empty, if◌then◌else◌,
}
use mathlib.Core.Option
use dex_operator.Api.{Key, DexClient, client_key}
use dex_operator.World.Dex.{
  OauthClient, CreateClientReq, CreateClientResp, UpdateClientReq, DeleteClientReq, NotFoundResp,
  Connection,
}
use dex_operator.World.Packages.{World}
use dex_operator.World.Spec.{View, same_key, Reads, Writes, Finds}

-- An update of a DexClient, and of its status, as for a DexServer.
abbrev pub updated_client : DexClient → DexClient → Option DexClient
updated_client m old = elim m.deletion_timestamp [
  | none ↦ some (record m { status = old.status })
  | some _ ↦ elim m.finalizers [ [] ↦ none | _ ↦ some (record m { status = old.status }) ]
]

abbrev pub put_client : DexClient → View → View
put_client m v = record v {
  dex_clients = λ k.
      if same_key k (client_key m)
      then Option.bind (v.dex_clients k) (updated_client m)
      else v.dex_clients k;
}

abbrev pub put_client_status : DexClient → View → View
put_client_status m v = record v {
  dex_clients = λ k.
      if same_key k (client_key m)
      then Option.map (λ (old : DexClient). record old { status = m.status }) (v.dex_clients k)
      else v.dex_clients k;
}

-- The client is stored by the dex at the address, and a client of the identifier is removed.
abbrev pub put_oauth : Str → OauthClient → View → View
put_oauth target d v = record v {
  dex = λ t i. if t == target && i == d.id then some d else v.dex t i;
}

abbrev pub drop_oauth : Str → Str → View → View
drop_oauth target id v = record v {
  dex = λ t i. if t == target && i == id then none else v.dex t i;
}

-- Nothing has changed but what dex has.
abbrev pub ChangesDex : View → View → Type 0
ChangesDex v v' = v' ≡ record v { dex = v'.dex }

-- What a creation that was answered has done: nothing where dex had a client of the identifier.
-- After an error it is not known what dex has.
abbrev pub Created : Str → Str → Result CreateClientResp → View → View → Type 0
Created target id (ok r) v v' =
    (r.already_exists ≡ true → (v' ≡ v) × ((d : OauthClient) × (v.dex target id ≡ some d)))
    × (r.already_exists ≡ false → v' ≡ put_oauth target r.client v)
Created target id (err _) v v' = ChangesDex v v'
Created target id panic v v' = ChangesDex v v'

abbrev pub Deleted : Str → Str → Result NotFoundResp → View → View → Type 0
Deleted target id (ok r) v v' =
    (r.not_found ≡ true → (v' ≡ v) × (v.dex target id ≡ none))
    × (r.not_found ≡ false → v' ≡ drop_oauth target id v)
Deleted target id (err _) v v' = ChangesDex v v'
Deleted target id panic v v' = ChangesDex v v'

pub record DexLaws {S : Type 0} (w : World S) (view : S → View) : Type 0 where
  pub get_client_reads : (k : Key) → Reads view (w.get_dex_client k)
  pub get_client_finds :
      (k : Key) (s : S)
      → Finds (λ x. client_key x ≡ k) (w.get_dex_client k s).0 ((view s).dex_clients k) (λ x. x)
  pub update_client_writes : (m : DexClient) → Writes view (w.update_dex_client m) (put_client m)
  pub update_client_answers :
      (m n : DexClient) (s : S)
      → (w.update_dex_client m s).0 ≡ ok n
      → (client_key n ≡ client_key m)
        × (n.spec ≡ m.spec)
        × (n.deletion_timestamp ≡ m.deletion_timestamp)
        × (n.finalizers ≡ m.finalizers)
  pub update_client_status_writes :
      (m : DexClient) → Writes view (w.update_dex_client_status m) (put_client_status m)
  pub dial_opens :
      (host ca cert : Str)
      → Writes view (w.dial host ca cert) (λ v. record v { connections = v.connections + 1 })
  pub dial_reaches :
      (host ca cert : Str) (s : S) {c : Connection}
      → (w.dial host ca cert s).0 ≡ ok c
      → c.target ≡ host
  -- an open connection is taken down, whatever `Close` returns
  pub close_closes :
      (c : Connection) (s : S)
      → view (w.close c s).1 ≡ record (view s) { connections = (view s).connections - 1 }
  pub create_client_writes :
      (c : Connection) (req : CreateClientReq) (s : S)
      → Created c.target req.client.id
          (w.create_client c req s).0
          (view s)
          (view (w.create_client c req s).1)
  -- dex makes up an identifier or a credential where the request has none
  pub create_client_answers :
      (c : Connection) (req : CreateClientReq) (s : S) {r : CreateClientResp}
      → (w.create_client c req s).0 ≡ ok r
      → r.already_exists ≡ false
      → is_empty req.client.id ≡ false
      → is_empty req.client.secret ≡ false
      → r.client ≡ req.client
  pub update_client_changes :
      (c : Connection) (req : UpdateClientReq) (s : S)
      → ChangesDex (view s) (view (w.update_client c req s).1)
  pub delete_client_writes :
      (c : Connection) (req : DeleteClientReq) (s : S)
      → Deleted c.target req.id
          (w.delete_client c req s).0
          (view s)
          (view (w.delete_client c req s).1)

-- The clock does not go back, the text of a time is parsed to its whole seconds, and no text is no
-- time.
pub record TimeLaws {S : Type 0} (w : World S) : Type 0 where
  pub clock_goes_on : (s : S) → (w.clock s).0 ≤ (w.clock (w.clock s).1).0
  pub parse-format :
      (t : ℕ) → w.parse_time (w.format_time t) ≡ some (t / 1_000_000_000 * 1_000_000_000)
  pub parse_nothing : w.parse_time [] ≡ none
