-- ===== src/Tests/Pages.antt =====
-- internal/apiclient, sideeyeclient and sideeye at concrete inputs.
use Prim.Native.String.{◌++◌ as append}
use side_eye_go.Prelude.{true, false, ◌≡◌, ◌⊎◌, inl, inr, refl, none, some, [], ◌∷◌}
use side_eye_go.Go.{done}
use side_eye_go.Dial.{Url, plain}
use side_eye_go.Conn
use side_eye_go.Conn.{Config, new_side_eye_conn, no_config, artifacts_address}
use side_eye_go.Conn.Calls.{IsOpen, IsClosed, IsCoherent}
use side_eye_go.Dial.Listener
use side_eye_go.Api
use side_eye_go.Api.{
  SideEyeClientOption, with_api_token, with_api_token_from_env, new_side_eye_client, grpc_target,
  env_tenant_token,
}
use side_eye_go.SideEye.{with_token, with_environment, make_config}
use side_eye_go.SideEye.Page.{serve_http, Seen, Form, Served, post}
use side_eye_go.SideEye.Page.Serving.{
  connect_form, updated, Effect, serve_http-Effect, serve_http_connects,
}

abbrev url : Url
url = record {
  scheme = "http";
  host = "10.0.0.1:80";
  hostname = "10.0.0.1";
  port = "80";
  path = "";
  raw_query = "";
}

abbrev api : Api.Outside
api = record {
  lookup_env = λ k. none;
  parse_url = λ s. done url;
  parse_ip = λ h. some h;
  join_host_port = λ h p. append h (append ":" p);
  dial = λ a t. done 2;
}

abbrev outside : Conn.Outside
outside = record {
  platform_supported = done tt;
  parse_url = λ s. done url;
  new_random = done "id";
  fingerprint = λ id. id;
  parse_addr = λ h. some h;
  dial = λ a t. done 7;
}

abbrev seen : Seen
seen = record {
  deciding = Listener.connecting;
  coloring = Listener.connecting;
  naming = Listener.connecting;
  enabling = Listener.connecting;
}

-- A form to disconnect, from the connection that a form to connect leaves.
abbrev disconnect_form : Form
disconnect_form = record {
  disconnect = true;
  connect = false;
  token = none;
  env = none;
  program_name = none;
}

abbrev connected_once : Served
connected_once =
    serve_http (λ k. "") outside 0 seen no_config new_side_eye_conn
      (post (done (connect_form "t" "e" "p")))

is_connected : connected_once.conn.listener ≡ some 0
unfolding serve_http Conn.connect side_eye_go.Dial.new_dialer Conn.new_artifacts_client
is_connected = refl

connected_once-IsCoherent : IsCoherent connected_once.conn
unfolding serve_http Conn.connect side_eye_go.Dial.new_dialer Conn.new_artifacts_client
connected_once-IsCoherent = inr (0, ((7, refl), refl, refl, refl, refl))

serve_http-Effect_example :
    Effect 1 connected_once.config connected_once.conn (post (done disconnect_form)) (
      serve_http
        (λ k. "")
        outside
        1
        seen
        connected_once.config
        connected_once.conn
        (post (done disconnect_form)))
serve_http-Effect_example =
    serve_http-Effect (λ k. "") outside 1 seen connected_once.config connected_once.conn
      (post (done disconnect_form)) connected_once-IsCoherent

serve_http_connects_example :
    let s =
      serve_http
        (λ k. "")
        outside
        0
        seen
        no_config
        new_side_eye_conn
        (post (done (connect_form "t" "e" "p"))) in
    (s.config ≡ updated no_config "t" "e" "p")
    × ((IsOpen 0 s.conn
          × (s.conn.active_config
              ≡ make_config (λ k. "") "p" (with_token "t" ∷ with_environment "e" ∷ [])))
        ⊎ IsClosed s.conn)
serve_http_connects_example =
    serve_http_connects (λ k. "") outside 0 seen no_config new_side_eye_conn "t" "e" "p"
      (inl (refl, refl, refl, refl)) refl refl
