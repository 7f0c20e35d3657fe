-- ===== src/Server/Reconcile/Isolation.antt =====
-- What a pass over a DexServer leaves alone, whichever way it ends.
use dex_operator.Common.{
  ◌≡◌, refl, Bool, false, ◌||◌, Option, Str, [], ◌∷◌, ◌==◌, str_eq, Action, Keeps, Keeps-bind,
  keeps_rules, arith, ◌∙◌, ap, Preserves, Preserves-pure, Preserves-bind, Preserves-match, Gives,
  Gives-pure, Gives-test, Gives-bind, Gives-branch, preserves_rules,
}
use dex_operator.Api.{Key, DexServer, server_key, Condition}
use dex_operator.World.{World, View, Values, ApiServer, same_key, put_applied, put_server}
use dex_operator.World.Frames.{
  part, update_status-Keeps, Writes-Keeps, Reads-Keeps, get_deployment-Keeps,
}
use dex_operator.Server.Resources.Deletion.{process_deletion-Keeps}
use dex_operator.Conditions.{update_dex_server_status_conditions}
use dex_operator.Server.ConfigMap.{config_map_file}
use dex_operator.Server.ConfigMap.Frames.{sync_config_map-Keeps}
use dex_operator.Server.Deployment.{deployment_file}
use dex_operator.Server.Resources.{
  service_account_file, cluster_role_binding_file, service_http_file, service_grpc_file,
  ingress_file,
}
use dex_operator.Server.Reconcile.{
  reconcile_step, sync_all, reconcile, reconcile_live, reconcile_deletion, ensure_finalizer,
  report_applied, get_dex_server_deployment_condition, dex_server_finalizer,
}
use dex_operator.Server.Reconcile.Templates.{
  mtls-Keeps, http-Keeps, grpc-Keeps, account-Keeps, binding-Keeps, ingress-Keeps, deployment-Keeps,
}

-- The template is one of the seven that a pass over a DexServer uses.
unfoldable pub is_pass_file : Str → Bool
is_pass_file g =
    g == config_map_file
    || g == service_http_file
    || g == service_grpc_file
    || g == service_account_file
    || g == cluster_role_binding_file
    || g == deployment_file
    || g == ingress_file

-- What is stored of the DexServer `k`, and what was made of the template `g`.
pub record Others : Type 0 where
  pub made : Option Values
  pub dex_server : Option DexServer

abbrev pub others : Key → Str → View → Others
others k g v = record { made = v.applied g; dex_server = v.dex_servers k }

module _ {S : Type 0} {w : World S} {view : S → View} (L : ApiServer w view) (m : DexServer)
    (k : Key) (g : Str) (other_key : same_key k (server_key m) ≡ false)
    (other_file : is_pass_file g ≡ false) where
  free :
      (f : Str)
      → (g == f) ≡ false
      → (values : Values) (v : View) → others k g (put_applied f values v) ≡ others k g v
  free f other values v = rw other refl

  status-Keeps :
      (cs : Condition)
      → Keeps (part view (others k g)) (update_dex_server_status_conditions w m (cs ∷ []))
  unfolding update_dex_server_status_conditions
  status-Keeps cs = update_status-Keeps L (others k g) _ (λ v. rw other_key refl)

  step-Keeps :
      (reason text : Str) (sync : DexServer → Action S (Unit {0}))
      → Keeps (part view (others k g)) (sync m)
      → Keeps (part view (others k g)) (reconcile_step w m reason text sync)
  unfolding reconcile_step
  step-Keeps reason text sync keeps = search (keeps_rules, status-Keeps)

  -- The eight calls leave them alone.
  sync_all-isolated : (s : S) → others k g (view (sync_all w m s).1) ≡ others k g (view s)
  unfolding sync_all is_pass_file
  sync_all-isolated s = Keeps.same pass s
    where
      p : View → Others
      p = others k g

      pass : Keeps (part view (others k g)) (sync_all w m)
      pass = Keeps-bind _ _ (step-Keeps _ _ _ (mtls-Keeps L p (λ x v. refl) m)) λ _.
          Keeps-bind _ _
            (step-Keeps _ _ _
              (sync_config_map-Keeps L p (λ x v. refl) m (free config_map_file (ground arith))))
            λ _.
              Keeps-bind _ _
                (step-Keeps _ _ _
                  (http-Keeps L p (λ x v. refl) m (free service_http_file (ground arith))))
                λ _.
                  Keeps-bind _ _
                    (step-Keeps _ _ _
                      (grpc-Keeps L p (λ x v. refl) m (free service_grpc_file (ground arith))))
                    λ _.
                      Keeps-bind _ _
                        (step-Keeps _ _ _ (
                          account-Keeps L p (λ x v. refl) m
                            (free service_account_file (ground arith))))
                        λ _.
                          Keeps-bind _ _
                            (step-Keeps _ _ _ (
                              binding-Keeps L p (λ x v. refl) m
                                (free cluster_role_binding_file (ground arith))))
                            λ _.
                              Keeps-bind _ _
                                (step-Keeps _ _ _ (
                                  deployment-Keeps L p (λ x v. refl) m
                                    (free deployment_file (ground arith))))
                                λ _. step-Keeps _ _ _ (
                                  ingress-Keeps L p (λ x v. refl) m
                                    (free ingress_file (ground arith)))

module _ {S : Type 0} {w : World S} {view : S → View} (L : ApiServer w view) (key k : Key) (g : Str)
    (other_key : same_key k key ≡ false) (other_file : is_pass_file g ≡ false) (x : Others) where
  abbrev Unmoved : S → Type 0
  Unmoved s = others k g (view s) ≡ x

  abbrev HasKey : DexServer → Type 0
  HasKey n = server_key n ≡ key

  elsewhere : (m : DexServer) → HasKey m → same_key k (server_key m) ≡ false
  elsewhere m is = ap (same_key k) is ∙ other_key

  unmoved :
      {A : Type 0} {call : Action S A}
      → Keeps (part view (others k g)) call
      → Preserves Unmoved call
  unmoved keeps = record { after = λ s p. keeps.same s ∙ p }

  update-Gives : (m : DexServer) → HasKey m → Gives Unmoved HasKey (w.update_dex_server m)
  update-Gives m is = record {
    preserves = unmoved (
        Writes-Keeps view (others k g) _ (put_server m) (L.update_server_writes m)
          (λ v. rw (elsewhere m is) refl));
    value = λ s n p good. (L.update_server_answers m n s good).0 ∙ is;
  }

  status-Gives :
      (m : DexServer) (c : Condition)
      → HasKey m
      → Gives Unmoved HasKey (update_dex_server_status_conditions w m (c ∷ []))
  unfolding update_dex_server_status_conditions
  status-Gives m c is = record {
    preserves = unmoved (update_status-Keeps L (others k g) _ (λ v. rw (elsewhere m is) refl));
    value = λ s n p good. (L.update_status_answers _ n s good).0 ∙ is;
  }

  live-Unmoved : (m : DexServer) → HasKey m → Preserves Unmoved (reconcile_live w m)
  unfolding reconcile_live ensure_finalizer report_applied get_dex_server_deployment_condition
  live-Unmoved m is =
      Gives-bind _ _
        (Gives-test (w.contains_finalizer m.finalizers dex_server_finalizer) _ _
          (λ has. Gives-pure m is) (λ misses. update-Gives _ is))
        λ n is_n.
          Preserves-bind _ _
            (unmoved (record { same = sync_all-isolated L n k g (elsewhere n is_n) other_file }))
            λ _. Gives-bind _ _ (status-Gives n _ is_n) λ n' is_n'.
              Preserves-bind _ _
                (Preserves-bind _ _ (unmoved (get_deployment-Keeps L (others k g) _))
                  λ d. Preserves-pure _)
                λ c. Preserves-bind _ _ (status-Gives n' c is_n').preserves λ _. Preserves-pure _

  deletion-Unmoved : (m : DexServer) → HasKey m → Preserves Unmoved (reconcile_deletion w m)
  unfolding reconcile_deletion
  deletion-Unmoved m is =
      Preserves-bind _ _ (unmoved (process_deletion-Keeps L (others k g) (λ n v. refl) m))
        λ _. Preserves-bind _ _ (update-Gives _ is).preserves λ _. Preserves-pure _

  pass-Unmoved : Preserves Unmoved (reconcile w key)
  unfolding reconcile
  pass-Unmoved =
      Gives-branch _ _ _
        (record {
          preserves = unmoved (Reads-Keeps view (others k g) _ (L.get_server_reads key));
          value = λ s m p found. (rw found at (L.get_server_finds key s)).0;
        })
        (λ m is.
          Preserves-match m.deletion_timestamp _ _ (λ live. live-Unmoved m is)
            (λ t deleted. deletion-Unmoved m is))
        (λ e. search preserves_rules)

module _ {S : Type 0} {w : World S} {view : S → View} (L : ApiServer w view) where
  -- A whole pass over a DexServer, of one that is being deleted or is not, whether it succeeds,
  -- fails or panics, leaves alone the DexServers of other keys, and what was made of templates
  -- other than its seven.
  pub reconcile-keeps_others :
      (key k : Key) (g : Str) (s : S)
      → same_key k key ≡ false
      → is_pass_file g ≡ false
      → others k g (view (reconcile w key s).1) ≡ others k g (view s)
  reconcile-keeps_others key k g s other_key other_file =
      (pass-Unmoved L key k g other_key other_file (others k g (view s))).after s refl
