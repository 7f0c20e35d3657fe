-- ===== src/DexApi.antt =====
-- The wrapper of dex's gRPC interface, controllers/dex/dex.go.
use dex_operator.Common.{
  branch, pure, Str, List, Bool, true, false, Option, none, some, lit, ◌++◌, GoError, Action, raise,
  lift, handle, ◌>>=◌, ◌⊎◌, inl, inr, if◌then◌else◌,
}
use dex_operator.World.{World, Connection, OauthClient}
use dex_operator.Secrets.{error_of}

pub record Options : Type 0 where
  pub host_and_port : Str
  pub crt_buffer : Str
  pub key_buffer : Str
  pub ca_buffer : Str

pub record CreateClientError : Type 0 where
  pub api_error : GoError
  pub already_exists : Bool

pub record DeleteClientError : Type 0 where
  pub api_error : GoError
  pub not_found : Bool

module _ {S : Type 0} (w : World S) where
  unfoldable pub new_client_pem : Options → Action S Connection
  new_client_pem opts =
      if w.append_certs opts.ca_buffer
      then (do
        cert ← handle (lift (w.key_pair opts.crt_buffer opts.key_buffer)) (λ e. raise (
            w.wrap e (
              lit "loading the client cert "
              ++ w.quote opts.crt_buffer
              ++ lit " and private key "
              ++ w.quote opts.key_buffer)))
        handle (w.dial opts.host_and_port opts.ca_buffer cert) (λ e. raise (
            w.wrap e
              (lit "opening the gRPC connection with server " ++ w.quote opts.host_and_port))))
      else raise (error_of (lit "failed to append the CA cert to the certs pool"))

  unfoldable pub get_server_info : Connection → Action S Str
  get_server_info c =
      handle (w.get_version c) (λ e. raise (w.wrap e (lit "failed to to get DEX version")))

  unfoldable pub create_client :
      Connection
      → (redirect_uris trusted_peers : List Str) (public : Bool) (name id logo_url secret : Str)
      → Action S (OauthClient ⊎ CreateClientError)
  create_client c redirect_uris trusted_peers public name id logo_url secret =
      branch
        (w.create_client c (record {
          client = record {
            id = id;
            secret = secret;
            redirect_uris = redirect_uris;
            trusted_peers = trusted_peers;
            public = public;
            name = name;
            logo_url = logo_url;
          };
        }))
        (λ res.
          if res.already_exists
          then pure (
              inr (record {
                api_error = error_of (lit "client " ++ w.quote id ++ lit " already exists");
                already_exists = true;
              }))
          else pure (inl res.client))
        (λ e. pure (
          inr (record {
            api_error = w.wrap e (lit "failed to create the OIDC client");
            already_exists = false;
          })))

  -- The request has no field for `public`, which is dropped.
  unfoldable pub update_client :
      Connection
      → (client_id : Str) (redirect_uris trusted_peers : List Str) (public : Bool)
        (name logo_url : Str)
      → Action S (Unit {0})
  update_client c client_id redirect_uris trusted_peers public name logo_url = do
    res ←
        handle
          (w.update_client c (record {
            id = client_id;
            redirect_uris = redirect_uris;
            trusted_peers = trusted_peers;
            name = name;
            logo_url = logo_url;
          }))
          (λ e. raise (w.wrap e (lit "failed to update the client with id " ++ w.quote client_id)))
    if res.not_found
        then raise (error_of (lit "update did not find the client with id " ++ w.quote client_id))
        else pure tt

  unfoldable pub delete_client : Connection → Str → Action S (Option DeleteClientError)
  delete_client c id =
      branch (w.delete_client c (record { id = id }))
        (λ res.
          if res.not_found
          then pure (
              some (record {
                api_error = error_of (lit "delete did not find the client with id " ++ w.quote id);
                not_found = true;
              }))
          else pure none)
        (λ e. pure (
          some (record {
            api_error = w.wrap e (lit "failed to delete the client with id " ++ w.quote id);
            not_found = false;
          })))

  unfoldable pub close_connection : Connection → Action S (Unit {0})
  close_connection c =
      handle (w.close c) (λ e. raise (w.wrap e (lit "error occurred closing the connection")))
