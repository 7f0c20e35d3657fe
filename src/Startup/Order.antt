-- ===== src/Startup/Order.antt =====
-- What is installed when the manager starts.
use dex_operator.Common.{
  ◌≡◌, refl, ◌∙◌, ap, some, none, ok, err, Str, lit, str_eq, GoError, bind-eq-ok, bind-ok,
  bind-eq-err,
}
use dex_operator.World.{
  World, View, ApiServer, directly, without_data, cluster_role_values, put_applied, Reads,
}
use dex_operator.World.Facts.{applied_after_apply}
use dex_operator.Server.Resources.{cluster_role_file, service_account_name, install_cluster_role}
use dex_operator.Startup.{
  Flags, manager_options, Manager, exited, crd_files, install_crds, setup_dex_server,
  setup_dex_client, prepare, main, ending,
}

abbrev dex_clients_crd : Str
dex_clients_crd = lit "crd/bases/auth.identitatem.io_dexclients.yaml"

abbrev dex_servers_crd : Str
dex_servers_crd = lit "crd/bases/auth.identitatem.io_dexservers.yaml"

-- The setup of the manager changes nothing that is stored, and the applier that succeeds on the
-- two files of definitions has made both.
pub record ManagerLaws {S : Type 0} (w : World S) (mgr : Manager S) (view : S → View) : Type 0 where
  pub complete_server_reads : Reads view mgr.complete_dex_server
  pub complete_client_reads : Reads view mgr.complete_dex_client
  pub healthz_reads : (name : Str) → Reads view (mgr.add_healthz_check name)
  pub readyz_reads : (name : Str) → Reads view (mgr.add_readyz_check name)
  pub clients_read : Reads view mgr.new_clients_or_die
  pub crds_written :
      (s : S)
      → (w.apply directly none without_data crd_files s).0 ≡ ok tt
      → view (w.apply directly none without_data crd_files s).1
        ≡ put_applied dex_servers_crd without_data
            (put_applied dex_clients_crd without_data (view s))

module _ {S : Type 0} {w : World S} {mgr : Manager S} {view : S → View} (L : ApiServer w view)
    (R : ManagerLaws w mgr view) where
  -- The definitions of both resources and the cluster role are made.
  abbrev pub Installed : View → Type 0
  Installed v =
      (v.applied dex_clients_crd ≡ some without_data)
      × (v.applied dex_servers_crd ≡ some without_data)
      × (v.applied cluster_role_file ≡ some (cluster_role_values service_account_name))

  role_made :
      (s : S)
      → (setup_dex_server w mgr s).0 ≡ ok tt
      → view (setup_dex_server w mgr s).1
        ≡ put_applied cluster_role_file (cluster_role_values service_account_name) (view s)
  unfolding setup_dex_server install_cluster_role
  role_made s done =
      let (_, applied, same, rest) =
        bind-eq-ok (install_cluster_role w) (λ _. mgr.complete_dex_server) s done in
      rw same (
        R.complete_server_reads _
        ∙ applied_after_apply L directly none (cluster_role_values service_account_name)
            cluster_role_file s applied)

  prepare-view :
      (flags : Flags) (s : S)
      → (prepare w mgr flags s).0 ≡ ok tt
      → (v : View) × (view (prepare w mgr flags s).1
          ≡ put_applied cluster_role_file (cluster_role_values service_account_name) (
              put_applied dex_servers_crd without_data
                (put_applied dex_clients_crd without_data v)))
  unfolding prepare setup_dex_client
  prepare-view flags s done =
      let (_, d1, e1, r1) = bind-eq-ok (mgr.new_manager _) _ s done in
      let s₁ = (mgr.new_manager (manager_options flags) s).1 in
      let (_, d2, e2, r2) = bind-eq-ok mgr.new_clients_or_die _ s₁ r1 in
      let s₂ = (mgr.new_clients_or_die s₁).1 in
      let (_, d3, e3, r3) = bind-eq-ok (install_crds w mgr) _ s₂ r2 in
      let s₃ = (install_crds w mgr s₂).1 in
      let (_, d4, e4, r4) = bind-eq-ok mgr.new_clients_or_die _ s₃ r3 in
      let s₄ = (mgr.new_clients_or_die s₃).1 in
      let (_, d5, e5, r5) = bind-eq-ok (setup_dex_server w mgr) _ s₄ r4 in
      let s₅ = (setup_dex_server w mgr s₄).1 in
      let (_, d6, e6, r6) = bind-eq-ok mgr.complete_dex_client _ s₅ r5 in
      let s₆ = (mgr.complete_dex_client s₅).1 in
      let (_, d7, e7, r7) = bind-eq-ok (mgr.add_healthz_check (lit "healthz")) _ s₆ r6 in
      let s₇ = (mgr.add_healthz_check (lit "healthz") s₆).1 in
      (
        view s₂,
        ap (λ x. view x.1) (e1 ∙ e2 ∙ e3 ∙ e4 ∙ e5 ∙ e6 ∙ e7)
            ∙ R.readyz_reads _ s₇
            ∙ R.healthz_reads _ s₆
            ∙ R.complete_client_reads s₅
            ∙ role_made s₄ d5
            ∙ ap (put_applied cluster_role_file (cluster_role_values service_account_name))
                (R.clients_read s₃ ∙ R.crds_written s₂ d3),
      )

  prepare-Installed :
      (flags : Flags) (s : S)
      → (prepare w mgr flags s).0 ≡ ok tt
      → Installed (view (prepare w mgr flags s).1)
  unfolding lit str_eq
  prepare-Installed flags s done =
      let (v, same) = prepare-view flags s done in rw same (refl, refl, refl)

  -- When the manager is started, which is when everything before it succeeds, the definitions of
  -- both resources and the cluster role are made, and the process ends as the manager does. When
  -- something before it fails, the manager is not started, and the process exits with 1.
  pub main-starts :
      (flags : Flags) (s : S)
      → ((prepare w mgr flags s).0 ≡ ok tt
          → Installed (view (prepare w mgr flags s).1)
            × (main w mgr flags s ≡ (
              ending (mgr.start (prepare w mgr flags s).1).0,
              (mgr.start (prepare w mgr flags s).1).1,
            )))
        × ((e : GoError)
            → (prepare w mgr flags s).0 ≡ err e
            → main w mgr flags s ≡ (exited 1, (prepare w mgr flags s).1))
  unfolding main
  main-starts flags s = (
    λ done. (
      prepare-Installed flags s done,
      ap (λ x. (ending x.0, x.1)) (bind-ok (prepare w mgr flags) (λ _. mgr.start) s done),
    ),
    λ e failed.
        ap (λ x. (ending x.0, x.1)) (bind-eq-err (prepare w mgr flags) (λ _. mgr.start) s failed),
  )
