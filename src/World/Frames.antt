-- ===== src/World/Frames.antt =====
-- What the calls of the world leave alone: a part `p` of the view stays where the writes of the
-- call do not change it.
use dex_operator.Common.{
  ◌≡◌, ◌∙◌, ap, arith, Keeps, Keeps-total, total, Option, Str, [], ◌∷◌, Action, ℕ,
}
use dex_operator.Api.{Key, Secret, DexServer}
use dex_operator.World.Templates.{Values, ApplyMode}
use dex_operator.World.Cryptography.{Certificate, PrivateKey}
use dex_operator.World.Packages.{World}
use dex_operator.World.Spec.{
  View, put_secret, put_applied, put_server_status, Reads, Writes, ApiServer,
}

module _ {S X : Type 0} (view : S → View) (p : View → X) where
  abbrev pub part : S → X
  part s = p (view s)

  pub Reads-Keeps : {A : Type 0} (m : Action S A) → Reads view m → Keeps part m
  Reads-Keeps m law = record { same = λ s. ap p (law s) }

  pub Writes-Keeps :
      {A : Type 0} (m : Action S A) (f : View → View)
      → Writes view m f
      → ((v : View) → p (f v) ≡ p v)
      → Keeps part m
  Writes-Keeps m f law same = record { same = λ s. ap p (law s) ∙ ground (arith, same (view s)) }

module _ {S X : Type 0} {w : World S} {view : S → View} (L : ApiServer w view) (p : View → X) where
  pub get_secret-Keeps : (k : Key) → Keeps (part view p) (w.get_secret k)
  get_secret-Keeps k = Reads-Keeps view p _ (L.get_secret_reads k)

  pub get_config_map-Keeps : (k : Key) → Keeps (part view p) (w.get_config_map k)
  get_config_map-Keeps k = Reads-Keeps view p _ (L.get_config_map_reads k)

  pub get_deployment-Keeps : (k : Key) → Keeps (part view p) (w.get_deployment k)
  get_deployment-Keeps k = Reads-Keeps view p _ (L.get_deployment_reads k)

  pub clock-Keeps : Keeps (part view p) (total w.clock)
  clock-Keeps = Keeps-total w.clock (λ s. ap p (L.clock_reads s))

  pub rand_int-Keeps : (n : ℕ) → Keeps (part view p) (total (w.rand_int n))
  rand_int-Keeps n = Keeps-total (w.rand_int n) (λ s. ap p (L.rand_int_reads n s))

  pub generate_key-Keeps : (n : ℕ) → Keeps (part view p) (w.generate_key n)
  generate_key-Keeps n = Reads-Keeps view p _ (L.generate_key_reads n)

  pub create_certificate-Keeps :
      (template parent : Certificate) (key : Str) (signer : PrivateKey)
      → Keeps (part view p) (w.create_certificate template parent key signer)
  create_certificate-Keeps template parent key signer =
      Reads-Keeps view p _ (L.create_certificate_reads template parent key signer)

  module _ (same : (x : Secret) (v : View) → p (put_secret x v) ≡ p v) where
    pub create_secret-Keeps : (x : Secret) → Keeps (part view p) (w.create_secret x)
    create_secret-Keeps x = Writes-Keeps view p _ _ (L.create_secret_writes x) (same x)

    pub update_secret-Keeps : (x : Secret) → Keeps (part view p) (w.update_secret x)
    update_secret-Keeps x = Writes-Keeps view p _ _ (L.update_secret_writes x) (same x)

  pub apply-Keeps :
      (mode : ApplyMode) (owner : Option DexServer) (values : Values) (file : Str)
      → ((v : View) → p (put_applied file values v) ≡ p v)
      → Keeps (part view p) (w.apply mode owner values (file ∷ []))
  apply-Keeps mode owner values file same =
      Writes-Keeps view p _ _ (L.apply_writes mode owner values file) same

  pub update_status-Keeps :
      (m : DexServer)
      → ((v : View) → p (put_server_status m v) ≡ p v)
      → Keeps (part view p) (w.update_dex_server_status m)
  update_status-Keeps m same = Writes-Keeps view p _ _ (L.update_status_writes m) same
