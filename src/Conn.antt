-- ===== src/Conn.antt =====
-- internal/sideeyeconn/side_eye_conn.go: the configuration, and Connect, Close and Status as one caller
-- sees them. Conn.Threads interleaves callers and the goroutine that serves.
pub mod Status
pub mod Calls
pub mod Threads
use Prim.Native.String.{String, ◌++◌}
use text.Mathlib.Text.{◌==◌ as str_eq}
use side_eye_go.Prelude.{ℕ, Bool, true, false, not, Option, none, some, if◌then◌else◌}
use side_eye_go.Go.{GoError, message, wrapped, Reply, done, failed, wrap, check, ◌>>=◌, ◌>>◌}
use side_eye_go.Dial.{Url, Transport, ServerDialAddr, transport_of, new_dialer}

-- Loggers are functions of the caller's, told apart by a number; `none` is nil.
pub record Config : Type 0 where
  pub tenant_token : String
  pub agent_url : String
  pub environment : String
  pub program_name : String
  pub error_logger : Option ℕ
  pub info_logger : Option ℕ

abbrev pub default_agent_url : String
default_agent_url = "https://internal-api.side-eye.io:443"

abbrev pub env_agent_url : String
env_agent_url = "SIDE_EYE_AGENT_URL"

abbrev pub env_tenant_token : String
env_tenant_token = "SIDE_EYE_TOKEN"

abbrev pub env_environment : String
env_environment = "SIDE_EYE_ENVIRONMENT"

-- The value of a variable of the environment where it is not empty.
abbrev env_or : (String → String) → String → String → String
env_or getenv name default = if str_eq (getenv name) "" then default else getenv name

unfoldable pub make_default_config : (String → String) → String → Config
make_default_config getenv program_name = record {
  tenant_token = env_or getenv env_tenant_token "";
  agent_url = env_or getenv env_agent_url default_agent_url;
  environment = env_or getenv env_environment "";
  program_name = program_name;
  error_logger = some 0;
  info_logger = none;
}

-- The fields under the lock hold which listener, server and connections there are; `wg` is the
-- wait group of the goroutine of that number.
pub record SideEyeConn : Type 0 where
  pub active_config : Config
  pub agent_fingerprint : String
  pub process_fingerprint : String
  pub listener : Option ℕ
  pub server : Option ℕ
  pub grpc_server : Option ℕ
  pub grpc_conn : Option ℕ
  pub wg : Option ℕ

abbrev pub no_config : Config
no_config = record {
  tenant_token = "";
  agent_url = "";
  environment = "";
  program_name = "";
  error_logger = some 0;
  info_logger = none;
}

-- The text of `uuid.Nil`.
abbrev pub nil_uuid : String
nil_uuid = "00000000-0000-0000-0000-000000000000"

abbrev pub new_side_eye_conn : SideEyeConn
new_side_eye_conn = record {
  active_config = no_config;
  agent_fingerprint = nil_uuid;
  process_fingerprint = "";
  listener = none;
  server = none;
  grpc_server = none;
  grpc_conn = none;
  wg = none;
}

-- `closeInner`, but for what stopping the server does to the goroutine that serves.
unfoldable pub close_inner : SideEyeConn → SideEyeConn
close_inner c = elim c.listener [
  | none ↦ c
  | some l ↦ record c { grpc_conn = none; grpc_server = none; server = none; listener = none }
]

-- What the code asks of other packages while it connects.
pub record Outside : Type 0 where
  -- `stoptheworld.PlatformSupported`
  pub platform_supported : Reply (Unit {0})
  pub parse_url : String → Reply Url
  -- `uuid.NewRandom`, with the text of the identifier
  pub new_random : Reply String
  -- The process fingerprint of an agent fingerprint: the process and its start time are fixed.
  pub fingerprint : String → String
  -- `netip.ParseAddr`, with the text of the address
  pub parse_addr : String → Option String
  -- `grpc.DialContext`
  pub dial : String → Transport → Reply ℕ

-- The address at which `newArtifactsClient` dials.
unfoldable pub artifacts_address : (String → Option String) → Url → String
artifacts_address parse_addr u = elim (parse_addr u.hostname) [
  | some ip ↦ if str_eq u.port "" then ip else ip ++ (":" ++ u.port)
  | none ↦ "dns:///" ++ u.host
]

unfoldable pub new_artifacts_client : Outside → String → Reply ℕ
unfolding artifacts_address
new_artifacts_client o addr = do
  u ← wrap "failed to parse url" (o.parse_url addr)
  transport ← transport_of u.scheme
  o.dial (artifacts_address o.parse_addr u) transport

-- The assignments under the lock at the end of Connect, and to `wg`, for the goroutine `g`.
unfoldable pub install : ℕ → ℕ → Config → SideEyeConn → SideEyeConn
install g conn cfg c = record c {
  active_config = cfg;
  server = some g;
  grpc_server = some g;
  grpc_conn = some conn;
  listener = some g;
}

-- Connect, from the result of `newArtifactsClient` on.
unfoldable pub finish : ℕ → Config → SideEyeConn → Reply ℕ → Reply (Unit {0}) × SideEyeConn
unfolding install
finish g cfg c (failed e) = (failed (wrapped "failed to create artifacts client" e), c)
finish g cfg c (done conn) = (done tt, record (install g conn cfg c) { wg = some g })

-- Connect, from the result of `NewListener` on.
unfoldable pub listen :
    Outside
    → ℕ
    → Config
    → SideEyeConn
    → Reply (Transport × ServerDialAddr)
    → Reply (Unit {0}) × SideEyeConn
unfolding finish
listen o g cfg c (failed e) = (failed (wrapped "failed to create listener" e), c)
listen o g cfg c (done d) = finish g cfg c (new_artifacts_client o cfg.agent_url)

-- Connect, from the result of `NewRandom` on.
unfoldable pub identify :
    Outside → ℕ → Config → SideEyeConn → Reply String → Reply (Unit {0}) × SideEyeConn
unfolding listen
identify o g cfg c (failed e) =
    (failed (wrapped "failed to generate fingerprint" e), record c { agent_fingerprint = nil_uuid })
identify o g cfg c (done id) =
    listen o g cfg (record c { agent_fingerprint = id; process_fingerprint = o.fingerprint id })
      (new_dialer o.parse_url cfg.agent_url)

-- Connect behind the call of Close, for the next goroutine `g`.
unfoldable pub set_up : Outside → ℕ → Config → SideEyeConn → Reply (Unit {0}) × SideEyeConn
unfolding identify
set_up o g cfg c =
    if str_eq cfg.tenant_token ""
    then (failed (message "missing token"), c)
    else identify o g cfg c o.new_random

-- Connect, from the result of `PlatformSupported` on.
unfoldable pub connect_on :
    Outside → ℕ → Config → SideEyeConn → Reply (Unit {0}) → Reply (Unit {0}) × SideEyeConn
unfolding set_up close_inner
connect_on o g cfg c (failed e) = (failed e, c)
connect_on o g cfg c (done u) = set_up o g cfg (close_inner c)

unfoldable pub connect : Outside → ℕ → Config → SideEyeConn → Reply (Unit {0}) × SideEyeConn
unfolding connect_on
connect o g cfg c = connect_on o g cfg c o.platform_supported
