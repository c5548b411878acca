-- ===== src/SideEye/Page.antt =====
-- sideeye/http_handler.go: the page that shows and changes the connection.
pub mod Serving
use Prim.Native.String.{String}
use text.Mathlib.Text.{◌==◌ as str_eq}
use side_eye_go.Prelude.{
  ℕ, Bool, true, false, Option, none, some, List, [], ◌∷◌, if◌then◌else◌, ◌||◌,
}
use side_eye_go.Go.{GoError, Reply, done, failed}
use side_eye_go.Dial.Listener
use side_eye_go.Conn
use side_eye_go.Conn.{Config, SideEyeConn, make_default_config}
use side_eye_go.Conn.Status.{
  ConnectionStatus, unknown, uninitialized, connected, disconnected, connecting, status_of,
}
use side_eye_go.SideEye.{Setting, with_token, with_environment, apply_all, init, stop}

-- `Status` of the connection, where its listener, if it has one, is in the status `l`.
abbrev pub status : SideEyeConn → Listener.ConnectionStatus → ConnectionStatus
status c l = elim c.listener [ none ↦ uninitialized | some g ↦ status_of (some l) ]

abbrev pub conn_color : ConnectionStatus → String
conn_color uninitialized = "red"
conn_color connecting = "red"
conn_color disconnected = "red"
conn_color connected = "green"
conn_color unknown = ""

abbrev pub conn_status : ConnectionStatus → String
conn_status uninitialized = "disconnected"
conn_status disconnected = "disconnected"
conn_status connected = "connected"
conn_status connecting = "connecting"
conn_status unknown = ""

abbrev pub disconnect_enabled : ConnectionStatus → Bool
disconnect_enabled uninitialized = false
disconnect_enabled disconnected = false
disconnect_enabled connected = true
disconnect_enabled connecting = true
disconnect_enabled unknown = false

-- What the template shows.
pub record Page : Type 0 where
  pub err_msg : String
  pub token : String
  pub program : String
  pub env : String
  pub color : String
  pub shown_status : String
  pub can_disconnect : Bool

-- The statuses of the listener that the calls of Status read while a page is made.
pub record Seen : Type 0 where
  pub deciding : Listener.ConnectionStatus
  pub coloring : Listener.ConnectionStatus
  pub naming : Listener.ConnectionStatus
  pub enabling : Listener.ConnectionStatus

-- Whether the page shows the configuration of the connection.
abbrev pub shows_active : ConnectionStatus → Bool
shows_active connected = true
shows_active connecting = true
shows_active s = false

-- `handleGet`, with the configuration of the handler.
unfoldable pub handle_get : Config → SideEyeConn → Seen → String → Page
handle_get config c seen err_msg =
    let cfg = if shows_active (status c seen.deciding) then c.active_config else config in
    record {
      err_msg = err_msg;
      token = cfg.tenant_token;
      program = cfg.program_name;
      env = cfg.environment;
      color = conn_color (status c seen.coloring);
      shown_status = conn_status (status c seen.naming);
      can_disconnect = disconnect_enabled (status c seen.enabling);
    }

-- `HttpHandler`: the configuration of the handler.
unfoldable pub http_handler :
    (String → String) → SideEyeConn → Listener.ConnectionStatus → List Setting → Config
http_handler getenv c l opts =
    apply_all opts
      (elim (status c l) [ uninitialized ↦ make_default_config getenv "" | _ ↦ c.active_config ])

-- The fields of the form, each with its first value.
pub record Form : Type 0 where
  pub disconnect : Bool
  pub connect : Bool
  pub token : Option String
  pub env : Option String
  pub program_name : Option String

pub data Request : Type 0 where
  get : Request
  -- Any other method, with what ParseForm gives.
  post : Reply Form → Request

-- What a request leaves: the page, if one was written, the connection, and the handler's configuration.
pub record Served : Type 0 where
  pub page : Option Page
  pub conn : SideEyeConn
  pub config : Config

-- The new connection, and its page. The loop that waits only delays the page: `seen` is what is read
-- behind it.
unfoldable pub reconnect :
    (String → String) → Conn.Outside → ℕ → Seen → Config → SideEyeConn → Served
unfolding init stop handle_get
reconnect getenv o g seen config c =
    let r =
      init getenv o g config.program_name
        (with_token config.tenant_token ∷ with_environment config.environment ∷ []) (stop c) in
    record { page = some (handle_get config r.1 seen ""); conn = r.1; config = config }

-- The checks of the new configuration.
unfoldable pub reconfigure :
    (String → String) → Conn.Outside → ℕ → Seen → Config → SideEyeConn → Served
unfolding reconnect handle_get
reconfigure getenv o g seen config c =
    if str_eq config.tenant_token ""
    then record {
      page = some (handle_get config c seen "An API token is required.");
      conn = c;
      config = config;
    }
    else if str_eq config.program_name ""
    then record {
      page = some (handle_get config c seen "A program name is required.");
      conn = c;
      config = config;
    }
    else reconnect getenv o g seen config c

-- An invalid POST is only logged.
abbrev pub ignored : Config → SideEyeConn → Served
ignored config c = record { page = none; conn = c; config = config }

unfoldable pub with_fields :
    (String → String)
    → Conn.Outside
    → ℕ
    → Seen
    → Config
    → SideEyeConn
    → Option String
    → Option String
    → Option String
    → Served
unfolding reconfigure
with_fields getenv o g seen config c none env program = ignored config c
with_fields getenv o g seen config c (some token) none program = ignored config c
with_fields getenv o g seen config c (some token) (some env) none = ignored config c
with_fields getenv o g seen config c (some token) (some env) (some program) =
    reconfigure getenv o g seen
      (record config { tenant_token = token; program_name = program; environment = env }) c

-- A form that was parsed.
unfoldable pub handle_form :
    (String → String) → Conn.Outside → ℕ → Seen → Config → SideEyeConn → Form → Served
unfolding with_fields stop handle_get
handle_form getenv o g seen config c form =
    if form.disconnect
    then record { page = some (handle_get config (stop c) seen ""); conn = stop c; config = config }
    else if form.connect
    then with_fields getenv o g seen config c form.token form.env form.program_name
    else ignored config c

unfoldable pub serve_http :
    (String → String) → Conn.Outside → ℕ → Seen → Config → SideEyeConn → Request → Served
unfolding handle_form handle_get
serve_http getenv o g seen config c get = record {
  page = some (handle_get config c seen "");
  conn = c;
  config = config;
}
serve_http getenv o g seen config c (post (failed e)) = ignored config c
serve_http getenv o g seen config c (post (done form)) = handle_form getenv o g seen config c form
