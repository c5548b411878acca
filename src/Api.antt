-- ===== src/Api.antt =====
-- internal/apiclient/api_client.go and sideeyeclient/client.go: the client of the API.
pub mod Laws
use Prim.Native.String.{String, ◌++◌}
use text.Mathlib.Text.{◌==◌ as str_eq}
use side_eye_go.Prelude.{
  ℕ, Bool, true, false, Option, none, some, ◌⊎◌, inl, inr, List, [], ◌∷◌, if◌then◌else◌, ◌==◌,
}
use side_eye_go.Go.{GoError, message, wrapped, Reply, done, failed, wrap, ◌>>=◌, ◌>>◌}
use side_eye_go.Dial.{Url, Transport, plain, tls}

-- What the code asks of net/url, net, the environment and gRPC.
pub record Outside : Type 0 where
  -- `os.LookupEnv`
  pub lookup_env : String → Option String
  pub parse_url : String → Reply Url
  -- `net.ParseIP`, with the text of the address, and `net.JoinHostPort`
  pub parse_ip : String → Option String
  pub join_host_port : String → String → String
  -- `grpc.Dial` with at most one option
  pub dial : String → Option Transport → Reply ℕ

abbrev pub env_api_url : String
env_api_url = "SIDE_EYE_API_URL"

abbrev pub default_api_url : String
default_api_url = "https://api.side-eye.io"

-- The address of the scheme `http`.
unfoldable pub http_address : Outside → Url → String
http_address o u = elim (o.parse_ip u.hostname) [
  | some ip ↦ if str_eq u.port "" then ip else o.join_host_port ip u.port
  | none ↦ "dns:///" ++ u.host
]

-- The switch on the scheme: the address, and the credentials.
unfoldable pub grpc_target : Outside → Url → String × Option Transport
unfolding http_address
grpc_target o u =
    if str_eq u.scheme "http"
    then (http_address o u, some plain)
    else if str_eq u.scheme "https"
    then ("dns:///" ++ u.host, some tls)
    else ("", none)

pub record ApiClient : Type 0 where
  pub conn : ℕ
  pub api_token : String

-- `sideEyeURL`
abbrev pub side_eye_url : Option String → String
side_eye_url (some url) = url
side_eye_url none = default_api_url

unfoldable pub new_api_client : Outside → String → Reply ApiClient
unfolding grpc_target
new_api_client o api_token = do
  parsed ← o.parse_url (side_eye_url (o.lookup_env env_api_url))
  conn ←
      wrap "failed to connect to the Side-Eye agents service"
        (o.dial (grpc_target o parsed).0 (grpc_target o parsed).1)
  done (record { conn = conn; api_token = api_token })

-- `apipb.ErrorKind`
pub data ErrorKind : Type 0 where
  unknown binary_stripped no_agents no_processes process_missing environment_missing : ErrorKind

-- The details of a status: a SnapshotError with its kind and message, or another message.
pub data Detail : Type 0 where
  snapshot_error : ErrorKind → String → Detail
  other : Detail

-- An error of a call: whether it holds a status, its code and its details.
pub record RpcError : Type 0 where
  pub has_status : Bool
  pub code : ℕ
  pub details : List Detail

-- `codes.Unavailable`
abbrev pub unavailable : ℕ
unavailable = 14

pub data ApiError : Type 0 where
  binary_stripped_error env_missing_error : String → ApiError
  no_agents_error no_processes_error process_missing_error : ApiError
  -- "failed to connect to Side-Eye API service: %w", and the error itself.
  failed_to_connect same : RpcError → ApiError

-- The typed error of a detail, if it has one.
abbrev pub typed_error : Detail → Option ApiError
typed_error (snapshot_error binary_stripped msg) = some (binary_stripped_error msg)
typed_error (snapshot_error no_agents msg) = some no_agents_error
typed_error (snapshot_error no_processes msg) = some no_processes_error
typed_error (snapshot_error process_missing msg) = some process_missing_error
typed_error (snapshot_error environment_missing msg) = some (env_missing_error msg)
typed_error (snapshot_error unknown msg) = none
typed_error other = none

abbrev pub first_typed : Bool → List Detail → Option ApiError
first_typed false ds = none
first_typed true [] = none
first_typed true (d ∷ ds) = typed_error d

-- The switch on the code, behind the typed errors. The code of an error without a status is Unknown.
abbrev pub by_code : RpcError → ApiError
by_code e = if e.code == unavailable then failed_to_connect e else same e

unfoldable pub capture_error : RpcError → ApiError
capture_error e = elim (first_typed e.has_status e.details) [ some t ↦ t | none ↦ by_code e ]

pub record ProcessError : Type 0 where
  pub hostname : String
  pub program : String
  pub pid : ℕ
  pub error : String

-- The response of gRPC, and the result that is made of it.
pub record CaptureSnapshotResponse : Type 0 where
  pub recording_id : ℕ
  pub snapshot_url : String
  pub errors : List ProcessError

pub record SnapshotResult : Type 0 where
  pub recording_id : ℕ
  pub snapshot_url : String
  pub process_errors : List ProcessError

pub data Captured : Type 0 where
  captured : SnapshotResult → Captured
  refused : ApiError → Captured

-- The metadata that goes with a call: the token, unless it is empty.
unfoldable pub outgoing : ApiClient → Option String
outgoing c = if str_eq c.api_token "" then none else some c.api_token

-- What CaptureSnapshot of the client makes of what the call returns.
unfoldable pub capture_snapshot : RpcError ⊎ CaptureSnapshotResponse → Captured
unfolding capture_error
capture_snapshot (inl e) = refused (capture_error e)
capture_snapshot (inr res) = captured (record {
  recording_id = res.recording_id;
  snapshot_url = res.snapshot_url;
  process_errors = res.errors;
})

-- DeleteRecording.
unfoldable pub delete_recording : Option RpcError → Option ApiError
delete_recording none = none
delete_recording (some e) = some (by_code e)

-- The options of sideeyeclient.
pub data SideEyeClientOption : Type 0 where
  with_api_token : String → SideEyeClientOption
  with_api_token_from_env : SideEyeClientOption

abbrev pub env_tenant_token : String
env_tenant_token = "SIDE_EYE_TOKEN"

-- `apply`: the token, and the error.
unfoldable pub apply :
    (String → Option String) → SideEyeClientOption → String → Option GoError × String
apply lookup_env (with_api_token t) token = (none, t)
apply lookup_env with_api_token_from_env token = elim (lookup_env env_tenant_token) [
  | some t ↦ (none, t)
  | none ↦ (some (message "environment variable is not set"), token)
]

-- The loop over the options; what `apply` returns is not read.
unfoldable pub apply_all : (String → Option String) → List SideEyeClientOption → String → String
unfolding apply
apply_all lookup_env [] token = token
apply_all lookup_env (opt ∷ opts) token = apply_all lookup_env opts (apply lookup_env opt token).1

unfoldable pub new_side_eye_client : Outside → List SideEyeClientOption → Reply ApiClient
unfolding apply_all
new_side_eye_client o opts = new_api_client o (apply_all o.lookup_env opts "")

-- `RecordingsURL`, over `url.QueryEscape`.
unfoldable pub recordings_url : (String → String) → String → String
recordings_url query_escape environment =
    if str_eq environment ""
    then "https://app.side-eye.io/#/recordings"
    else "https://app.side-eye.io/#/recordings?env=" ++ query_escape environment
