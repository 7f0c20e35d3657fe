-- ===== src/Lib.antt =====
-- A model of the dex operator, a Kubernetes operator that installs and configures the dex identity
-- service: the two controllers of controllers/ and the gRPC client of controllers/dex, over the
-- resources of api/v1alpha1.
--
-- Parts and files:
-- - Api: the custom resources of api/v1alpha1/dexserver_types.go (Api/Server, Api/Connector) and
--   api/v1alpha1/dexclient_types.go (Api/Client), dex's own connector configuration
--   (`DexConnectorSpec` of controllers/dexserver_controller.go, Api/Config), and the Kubernetes
--   objects with the fields that the controllers use (Api/Kube).
-- - World: what the repository calls and does not hold. World/Cluster is the API server and the
--   applier of templates, World/Cryptography the Go cryptography, World/Dex the gRPC interface of
--   dex, World/Packages the pure functions of other packages. All are fields of the record `World`
--   over a type of states. World/Spec states what the API server promises as equations over an
--   abstract view of the state, `ApiServer`, and World/Promises what it promises of DexClients,
--   what gRPC and dex promise of connections and clients, `DexLaws`, and what the clock does,
--   `TimeLaws`; World/Templates has the values that are handed to the templates. World/Facts
--   and World/Frames are consequences for single calls. World/Stable has what every call of one
--   controller, and of the other, preserves, World/Updates and World/Forms the forms of what a
--   controller writes of its resources, World/Holds secrets that stay stored, and World/Reliable
--   the hypothesis of a cluster on which calls do not fail.
-- - Common: results with errors and panics, actions on the state (Common/Effects), rules for what
--   an action leaves alone and for what a successful one went through (Common/Rules), rules for
--   what an action preserves (Common/Preservation), for what an action that cannot fail does
--   (Common/Success, Common/Certain), byte strings (Common/Text) and string maps
--   (Common/Maps).
-- - Conditions: status conditions, of both controllers; Conditions/Merge reads them by type.
-- - Connectors: the names of environment variables and of copied secrets. Connectors/Names is
--   about what they determine, Connectors/Identifiers about how they are written.
-- - Secrets: labels, reads and copies of secrets, of controllers/dexserver_controller.go. Its child
--   modules are proofs: Secrets/Copies on what is stored, Secrets/Preserved on what no step breaks,
--   Secrets/Supply on the secrets that connectors refer to, Secrets/Sure on calls that succeed.
-- - Certs: controllers/mTLS.go.
-- - Server: the DexServer controller, controllers/dexserver_controller.go. Server/Mtls has the mTLS
--   secret, Server/ConfigMap `syncConfigMap`, Server/Deployment `syncDeployment`, Server/Resources
--   the calls that apply one template, Server/Reconcile the handler `Reconcile`. Their child
--   modules are proofs: Server/Mtls/Validity and Server/Mtls/Fresh on expiries,
--   Server/ConfigMap/Copies and References and Server/Deployment/Wiring on the way of a credential,
--   which Server/Reconcile/Wiring puts together over a pass, Server/Reconcile/Isolation on what a
--   pass leaves alone, Server/Reconcile/Settles on repeated passes, and Server/Reconcile/Orphans on
--   resources that are gone. Server/ConfigMap/Skips and Server/Deployment/Skips are about a
--   connector of an unknown type. The modules named Preserved say what each call preserves however
--   it ends, those named Sure and Success that it succeeds on a reliable cluster. Server/Status is
--   controllers/dexServer.go, which nothing calls.
-- - DexApi: controllers/dex/dex.go.
-- - Client: the DexClient controller, controllers/dexclient_controller.go. Client/Credential has
--   the client secret and its checksum, Client/Oauth the three operations on dex,
--   Client/Reconcile the handler. Client/Registration, Client/Rotation and Client/Removal are
--   about what dex has afterwards, Client/Orphans about clients that would be left
--   there, Client/Connections about the connections to it, Client/Handshake about what a client
--   connects with, Client/Waiting about the mTLS secret that a pass waits for, Client/Preserved
--   about what a pass preserves, and Client/Progress about a pass on a reliable cluster.
-- - System: both controllers side by side. A run is a list of whole passes, one after the other,
--   with what others do between them; passes of the two controllers are not interleaved call by
--   call. Its child modules are proofs: System/Stored on what stays stored, System/Waiting on the
--   secret that one controller makes and the other waits for, System/Quiet on what the filters make
--   of what passes write, and System/Isolation on what each controller leaves to the other.
-- - Restart and Watch: the event filters and the request mapping of `SetupWithManager` of both
--   controllers; Restart is the filter that remembers restarts in progress, and
--   Restart/Machine an abstract machine that it refines.
-- - Startup: main.go, and the order of `SetupWithManager`, over the manager of controller-runtime.
-- - Tests: a world in memory that meets every law, and each theorem at concrete data.
--
-- An action takes the state and gives a result beside the new state, also when it fails: what was
-- written before an error stays written. The eight calls of `Reconcile`, their error branches and
-- the early returns inside the loops over connectors are those of the code; where a loop returns
-- nil from inside, its model gives `none`. A nil pointer that is read is the result `panic`.
-- Strings and byte slices are lists of bytes, times and durations are nanoseconds in ℕ. All loops
-- run over lists, so there is no fuel and no bound.
--
-- Not modelled: the parse of the command line and the registration of schemes in main.go (library
-- calls), the generated api/v1alpha1/zz_generated.deepcopy.go and the unused constants of
-- api/v1alpha1/states.go, the embedded YAML templates of deploy and config with their readers (the
-- applier is a parameter), logging, and the times in status conditions, which the library sets.
pub mod Common
pub mod Api
pub mod World
pub mod Conditions
pub mod Connectors
pub mod Secrets
pub mod Certs
pub mod Server
pub mod DexApi
pub mod Client
pub mod Restart
pub mod Watch
pub mod Startup
pub mod System
mod Tests
