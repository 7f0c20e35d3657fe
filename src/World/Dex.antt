-- ===== src/World/Dex.antt =====
-- The gRPC interface of dex (github.com/dexidp/dex/api/v2) and the TLS connection to it.
use dex_operator.Common.{List, Bool, Result, Str, Action}

pub record OauthClient : Type 0 where
  pub id : Str
  pub secret : Str
  pub redirect_uris : List Str
  pub trusted_peers : List Str
  pub public : Bool
  pub name : Str
  pub logo_url : Str

pub record CreateClientReq : Type 0 where
  pub client : OauthClient

pub record CreateClientResp : Type 0 where
  pub already_exists : Bool
  pub client : OauthClient

pub record UpdateClientReq : Type 0 where
  pub id : Str
  pub redirect_uris : List Str
  pub trusted_peers : List Str
  pub name : Str
  pub logo_url : Str

pub record DeleteClientReq : Type 0 where
  pub id : Str

-- The answer to an update or a deletion.
pub record NotFoundResp : Type 0 where
  pub not_found : Bool

-- `grpc.ClientConn`
pub record Connection : Type 0 where
  pub target : Str
  pub ca : Str
  pub certificate : Str

pub record Grpc (S : Type 0) : Type 0 where
  -- whether `AppendCertsFromPEM` finds a certificate
  pub append_certs : Str → Bool
  pub key_pair : Str → Str → Result Str
  pub dial : Str → Str → Str → Action S Connection
  pub close : Connection → Action S (Unit {0})
  pub create_client : Connection → CreateClientReq → Action S CreateClientResp
  pub update_client : Connection → UpdateClientReq → Action S NotFoundResp
  pub delete_client : Connection → DeleteClientReq → Action S NotFoundResp
  pub get_version : Connection → Action S Str
