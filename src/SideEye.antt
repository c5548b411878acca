-- ===== src/SideEye.antt =====
-- sideeye/side_eye.go: the options, Init, Stop and CaptureSelfSnapshot over the connection.
pub mod Page
use Prim.Native.String.{String}
use side_eye_go.Prelude.{ℕ, Bool, true, false, Option, none, some, ◌⊎◌, inl, inr, List, [], ◌∷◌}
use side_eye_go.Go.{GoError, wrapped, Reply, done, failed, wrap}
use side_eye_go.Conn
use side_eye_go.Conn.{
  Config, SideEyeConn, new_side_eye_conn, close_inner, connect, make_default_config,
}
use side_eye_go.Api
use side_eye_go.Api.{
  ApiClient, RpcError, ApiError, CaptureSnapshotResponse, Captured, captured, refused,
  new_api_client, capture_snapshot,
}

pub data Setting : Type 0 where
  with_token with_environment with_program_name : String → Setting
  with_error_logger with_info_logger : Option ℕ → Setting

-- `apply` of the options.
unfoldable pub apply : Setting → Config → Config
apply (with_token t) cfg = record cfg { tenant_token = t }
apply (with_environment e) cfg = record cfg { environment = e }
apply (with_program_name p) cfg = record cfg { program_name = p }
apply (with_error_logger f) cfg = record cfg { error_logger = f }
apply (with_info_logger f) cfg = record cfg { info_logger = f }

unfoldable pub apply_all : List Setting → Config → Config
unfolding apply
apply_all [] cfg = cfg
apply_all (opt ∷ opts) cfg = apply_all opts (apply opt cfg)

unfoldable pub make_config : (String → String) → String → List Setting → Config
unfolding apply_all
make_config getenv program_name opts = apply_all opts (make_default_config getenv program_name)

-- Init, from the platform's answer on, for the next goroutine `g`.
unfoldable pub init_on :
    Conn.Outside → ℕ → Config → SideEyeConn → Reply (Unit {0}) → Reply (Unit {0}) × SideEyeConn
init_on o g cfg c (failed e) = (failed e, c)
init_on o g cfg c (done u) =
    let r = connect o g cfg c in (wrap "failed to connect to Side-Eye" r.0, r.1)

unfoldable pub init :
    (String → String)
    → Conn.Outside
    → ℕ
    → String
    → List Setting
    → SideEyeConn
    → Reply (Unit {0}) × SideEyeConn
unfolding init_on make_config
init getenv o g program_name opts c =
    init_on o g (make_config getenv program_name opts) c o.platform_supported

-- `Stop`
unfoldable pub stop : SideEyeConn → SideEyeConn
unfolding close_inner
stop c = close_inner c

-- The fingerprints in the request of CaptureSelfSnapshot.
pub record SelfRequest : Type 0 where
  pub agent_fingerprint : String
  pub process_fingerprint : String

pub data SelfSnapshot : Type 0 where
  url : String → SelfSnapshot
  api_failed : ApiError → SelfSnapshot
  go_failed : GoError → SelfSnapshot

abbrev pub self_url : Captured → SelfSnapshot
self_url (captured res) = url res.snapshot_url
self_url (refused e) = api_failed e

-- What a snapshot of this process leaves: the connection of its own, and the API clients that were
-- opened and closed.
pub record SelfWorld : Type 0 where
  pub conn : SideEyeConn
  pub opened : ℕ
  pub closed : ℕ

abbrev pub with_client :
    (SelfRequest → RpcError ⊎ CaptureSnapshotResponse)
    → SideEyeConn
    → Reply ApiClient
    → SelfSnapshot × SelfWorld
with_client answer c (failed e) = (
  go_failed (wrapped "failed to create Side-Eye API client" e),
  record { conn = close_inner c; opened = 0; closed = 0 },
)
with_client answer c (done client) = (
  self_url (
      capture_snapshot (
        answer (record {
          agent_fingerprint = c.agent_fingerprint;
          process_fingerprint = c.process_fingerprint;
        }))),
  record { conn = close_inner c; opened = 1; closed = 1 },
)

abbrev pub connected_self :
    Api.Outside
    → (SelfRequest → RpcError ⊎ CaptureSnapshotResponse)
    → Config
    → Reply (Unit {0}) × SideEyeConn
    → SelfSnapshot × SelfWorld
connected_self a answer cfg (failed e, c) = (
  go_failed (wrapped "failed to connect to Side-Eye" e),
  record { conn = c; opened = 0; closed = 0 },
)
connected_self a answer cfg (done u, c) = with_client answer c (new_api_client a cfg.tenant_token)

-- CaptureSelfSnapshot, from the platform's answer on.
unfoldable pub capture_self_on :
    Api.Outside
    → (SelfRequest → RpcError ⊎ CaptureSnapshotResponse)
    → Conn.Outside
    → ℕ
    → Config
    → Reply (Unit {0})
    → SelfSnapshot × SelfWorld
capture_self_on a answer o g cfg (failed e) =
    (go_failed e, record { conn = new_side_eye_conn; opened = 0; closed = 0 })
capture_self_on a answer o g cfg (done u) =
    connected_self a answer cfg (connect o g cfg new_side_eye_conn)

unfoldable pub capture_self_snapshot :
    (String → String)
    → Api.Outside
    → (SelfRequest → RpcError ⊎ CaptureSnapshotResponse)
    → Conn.Outside
    → ℕ
    → String
    → List Setting
    → SelfSnapshot × SelfWorld
unfolding capture_self_on make_config
capture_self_snapshot getenv a answer o g program_name opts =
    capture_self_on a answer o g (make_config getenv program_name opts) o.platform_supported
