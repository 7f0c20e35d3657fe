-- ===== src/World/Stable.antt =====
-- Properties of the view that single calls of the world keep. A stable property is kept by every
-- write of a controller but the updates of its own resource, whatever is written.
use dex_operator.Common.{
  ℕ, ◌+◌, Bool-cases, inl, inr, subst, sym, Option, Result, ok, err, panic, Str, [], ◌∷◌, Action,
  Preserves, Keeps, Keeps-Preserves,
}
use dex_operator.Api.{Key, Secret, DexServer, DexClient, ClusterRoleBinding}
use dex_operator.World.Templates.{Values, ApplyMode}
use dex_operator.World.Dex.{
  OauthClient, Connection, CreateClientReq, CreateClientResp, UpdateClientReq, DeleteClientReq,
  NotFoundResp,
}
use dex_operator.World.Packages.{World}
use dex_operator.World.Spec.{
  View, put_secret, drop_binding, put_applied, put_server_status, Reads, Writes, ApiServer,
}
use dex_operator.World.Promises.{put_client_status, ChangesDex, Created, Deleted, DexLaws}
use dex_operator.World.Frames.{part}

-- Kept by every write of a secret.
abbrev pub KeptBySecrets : (View → Type 0) → Type 0
KeptBySecrets P = (x : Secret) (v : View) → P v → P (put_secret x v)

-- Kept by what a pass over a DexServer writes, but for the resource itself.
pub record ServerStable (P : View → Type 0) : Type 0 where
  pub secret : KeptBySecrets P
  pub applied : (file : Str) (values : Values) (v : View) → P v → P (put_applied file values v)
  pub binding : (n : Str) (v : View) → P v → P (drop_binding n v)
  pub server_status : (m : DexServer) (v : View) → P v → P (put_server_status m v)

-- Kept by what a pass over a DexClient writes, but for the resource itself.
pub record ClientStable (P : View → Type 0) : Type 0 where
  pub secret : KeptBySecrets P
  pub client_status : (m : DexClient) (v : View) → P v → P (put_client_status m v)
  pub dex : (d : Str → Str → Option OauthClient) (v : View) → P v → P (record v { dex = d })
  pub connections : (n : ℕ) (v : View) → P v → P (record v { connections = n })

pub ServerStable-both :
    {P Q : View → Type 0} → ServerStable P → ServerStable Q → ServerStable (λ v. P v × Q v)
ServerStable-both p q = record {
  secret = λ x v (a, b). (p.secret x v a, q.secret x v b);
  applied = λ file values v (a, b). (p.applied file values v a, q.applied file values v b);
  binding = λ n v (a, b). (p.binding n v a, q.binding n v b);
  server_status = λ m v (a, b). (p.server_status m v a, q.server_status m v b);
}

pub ServerStable-when :
    {X : Type 0} {P : View → Type 0} → ServerStable P → ServerStable (λ v. X → P v)
ServerStable-when p = record {
  secret = λ x v h y. p.secret x v (h y);
  applied = λ file values v h y. p.applied file values v (h y);
  binding = λ n v h y. p.binding n v (h y);
  server_status = λ m v h y. p.server_status m v (h y);
}

pub ServerStable-always : ServerStable (λ v. Unit)
ServerStable-always = record {
  secret = λ x v h. h;
  applied = λ file values v h. h;
  binding = λ n v h. h;
  server_status = λ m v h. h;
}

-- What the view of a world says, as a property of the world.
abbrev pub Seen : {S : Type 0} → (S → View) → (View → Type 0) → S → Type 0
Seen view P s = P (view s)

module _ {S : Type 0} (view : S → View) (P : View → Type 0) where
  pub Writes-Preserves :
      {A : Type 0} (m : Action S A) (f : View → View)
      → Writes view m f
      → ((v : View) → P v → P (f v))
      → Preserves (Seen view P) m
  Writes-Preserves {A} m f law keeps = record {
    after = λ s h. subst P (sym (law s)) (by_result (m s).0 (view s) h);
  }
    where
      by_result :
          (r : Result A) (v : View)
          → P v
          → P (elim r as (λ _. View) [ ok _ ↦ f v | err _ ↦ v | panic ↦ v ])
      by_result (ok _) v h = keeps v h
      by_result (err _) v h = h
      by_result panic v h = h

  pub Reads-Preserves : {A : Type 0} (m : Action S A) → Reads view m → Preserves (Seen view P) m
  Reads-Preserves m law = record { after = λ s h. subst P (sym (law s)) h }

  -- A call that leaves all of the view alone.
  pub quiet-Preserves :
      {A : Type 0} (m : Action S A) → Keeps (part view (λ v. v)) m → Preserves (Seen view P) m
  quiet-Preserves m keeps = Keeps-Preserves (part view (λ v. v)) P m keeps

module _ {S : Type 0} {w : World S} {view : S → View} (L : ApiServer w view) {P : View → Type 0}
    (c : KeptBySecrets P) where
  pub get_secret-Preserves : (j : Key) → Preserves (Seen view P) (w.get_secret j)
  get_secret-Preserves j = Reads-Preserves view P _ (L.get_secret_reads j)

  pub create_secret-Preserves : (x : Secret) → Preserves (Seen view P) (w.create_secret x)
  create_secret-Preserves x =
      Writes-Preserves view P _ (put_secret x) (L.create_secret_writes x) (c x)

  pub update_secret-Preserves : (x : Secret) → Preserves (Seen view P) (w.update_secret x)
  update_secret-Preserves x =
      Writes-Preserves view P _ (put_secret x) (L.update_secret_writes x) (c x)

module _ {S : Type 0} {w : World S} {view : S → View} (L : ApiServer w view) {P : View → Type 0}
    (C : ServerStable P) where
  pub get_config_map-Preserves : (j : Key) → Preserves (Seen view P) (w.get_config_map j)
  get_config_map-Preserves j = Reads-Preserves view P _ (L.get_config_map_reads j)

  pub get_deployment-Preserves : (j : Key) → Preserves (Seen view P) (w.get_deployment j)
  get_deployment-Preserves j = Reads-Preserves view P _ (L.get_deployment_reads j)

  pub apply-Preserves :
      (mode : ApplyMode) (owner : Option DexServer) (values : Values) (file : Str)
      → Preserves (Seen view P) (w.apply mode owner values (file ∷ []))
  apply-Preserves mode owner values file =
      Writes-Preserves view P _ (put_applied file values) (L.apply_writes mode owner values file)
        (C.applied file values)

  pub get_binding-Preserves : (n : Str) → Preserves (Seen view P) (w.get_cluster_role_binding n)
  get_binding-Preserves n = Reads-Preserves view P _ (L.get_binding_reads n)

  pub delete_binding-Preserves :
      (b : ClusterRoleBinding) → Preserves (Seen view P) (w.delete_cluster_role_binding b)
  delete_binding-Preserves b =
      Writes-Preserves view P _ (drop_binding b.name) (L.delete_binding_writes b) (C.binding b.name)

  pub server_status-Preserves :
      (m : DexServer) → Preserves (Seen view P) (w.update_dex_server_status m)
  server_status-Preserves m =
      Writes-Preserves view P _ (put_server_status m) (L.update_status_writes m) (C.server_status m)

module _ {S : Type 0} {w : World S} {view : S → View} (D : DexLaws w view) {P : View → Type 0}
    (C : ClientStable P) where
  pub client_status-Preserves :
      (m : DexClient) → Preserves (Seen view P) (w.update_dex_client_status m)
  client_status-Preserves m =
      Writes-Preserves view P _ (put_client_status m) (D.update_client_status_writes m)
        (C.client_status m)

  pub dial-Preserves : (host ca cert : Str) → Preserves (Seen view P) (w.dial host ca cert)
  dial-Preserves host ca cert =
      Writes-Preserves view P _ (λ v. record v { connections = v.connections + 1 })
        (D.dial_opens host ca cert) (λ v. C.connections (v.connections + 1) v)

  pub close-Preserves : (c : Connection) → Preserves (Seen view P) (w.close c)
  close-Preserves c = record {
    after = λ s h. subst P (sym (D.close_closes c s)) (C.connections _ (view s) h);
  }

  changed : (v v' : View) → ChangesDex v v' → P v → P v'
  changed v v' h p = subst P (sym h) (C.dex v'.dex v p)

  created :
      (target id : Str) (r : Result CreateClientResp) (v v' : View)
      → Created target id r v v'
      → P v
      → P v'
  created target id (ok r) v v' h p = elim (Bool-cases r.already_exists) [
    | inl exists ↦ subst P (sym (h.0 exists).0) p
    | inr fresh ↦ subst P (sym (h.1 fresh)) (C.dex _ v p)
  ]
  created target id (err e) v v' h p = changed v v' h p
  created target id panic v v' h p = changed v v' h p

  deleted :
      (target id : Str) (r : Result NotFoundResp) (v v' : View)
      → Deleted target id r v v'
      → P v
      → P v'
  deleted target id (ok r) v v' h p = elim (Bool-cases r.not_found) [
    | inl missing ↦ subst P (sym (h.0 missing).0) p
    | inr found ↦ subst P (sym (h.1 found)) (C.dex _ v p)
  ]
  deleted target id (err e) v v' h p = changed v v' h p
  deleted target id panic v v' h p = changed v v' h p

  pub create_client-Preserves :
      (c : Connection) (req : CreateClientReq) → Preserves (Seen view P) (w.create_client c req)
  create_client-Preserves c req = record {
    after = λ s. created c.target req.client.id _ _ _ (D.create_client_writes c req s);
  }

  pub update_client-Preserves :
      (c : Connection) (req : UpdateClientReq) → Preserves (Seen view P) (w.update_client c req)
  update_client-Preserves c req = record {
    after = λ s. changed _ _ (D.update_client_changes c req s);
  }

  pub delete_client-Preserves :
      (c : Connection) (req : DeleteClientReq) → Preserves (Seen view P) (w.delete_client c req)
  delete_client-Preserves c req = record {
    after = λ s. deleted c.target req.id _ _ _ (D.delete_client_writes c req s);
  }
