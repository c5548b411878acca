-- ===== src/SideEye/Page/Serving.antt =====
-- The requests to the page of sideeye/http_handler.go.
use Prim.Native.String.{String}
use text.Mathlib.Text.{◌==◌ as str_eq}
use side_eye_go.Prelude.{
  ℕ, ◌≡◌, ◌⊎◌, inl, inr, refl, arith, Bool, true, false, not, if◌then◌else◌, Bool-cases, Option,
  none, some, List, [], ◌∷◌,
}
use side_eye_go.Go.{Reply, done, failed}
use side_eye_go.Conn
use side_eye_go.Conn.{Config, SideEyeConn, close_inner, connect}
use side_eye_go.Conn.Calls.{
  IsClosed, IsOpen, IsCoherent, Connected, Attempted, close_inner-IsClosed, connect-Attempted,
}
use side_eye_go.SideEye.{Setting, with_token, with_environment, make_config, init_on, init, stop}
use side_eye_go.SideEye.Page.{
  Seen, Form, Request, Page, Served, handle_get, get, post, reconnect, reconfigure, with_fields,
  handle_form, serve_http,
}

-- The connection that a call of Init leaves: the one before where the platform is not supported;
-- otherwise a whole new one, or none.
abbrev pub Renewed : ℕ → Config → SideEyeConn → SideEyeConn → Type 0
Renewed g cfg c c' = (c' ≡ c) ⊎ ((IsOpen g c' × (c'.active_config ≡ cfg)) ⊎ IsClosed c')

Connected-Renewed :
    (g : ℕ) (cfg : Config) (c c0 : SideEyeConn) (r : Reply (Unit {0}) × SideEyeConn)
    → Connected g cfg c0 r
    → Renewed g cfg c r.1
Connected-Renewed g cfg c c0 (done u, c') h = inr (inl h)
Connected-Renewed g cfg c c0 (failed e, c') h = inr (inr h.0)

Attempted-Renewed :
    (p : Reply (Unit {0})) (g : ℕ) (cfg : Config) (c : SideEyeConn)
    (r : Reply (Unit {0}) × SideEyeConn)
    → Attempted p g cfg c r
    → Renewed g cfg c r.1
Attempted-Renewed (failed e) g cfg c r h = inl (rw h refl)
Attempted-Renewed (done u) g cfg c r h = Connected-Renewed g cfg c c r h

init_on-Renewed :
    (o : Conn.Outside) (g : ℕ) (cfg : Config) (c : SideEyeConn) (p : Reply (Unit {0}))
    → IsCoherent c
    → Renewed g cfg c (init_on o g cfg c p).1
unfolding init_on
init_on-Renewed o g cfg c (failed e) h = inl refl
init_on-Renewed o g cfg c (done u) h =
    Attempted-Renewed o.platform_supported g cfg c (connect o g cfg c)
      (connect-Attempted o g cfg c h)

init-Renewed :
    (getenv : String → String) (o : Conn.Outside) (g : ℕ) (name : String) (opts : List Setting)
    (c : SideEyeConn)
    → IsCoherent c
    → Renewed g (make_config getenv name opts) c (init getenv o g name opts c).1
unfolding init
init-Renewed getenv o g name opts c h =
    init_on-Renewed o g (make_config getenv name opts) c o.platform_supported h

stop-IsClosed : (c : SideEyeConn) → IsCoherent c → IsClosed (stop c)
unfolding stop
stop-IsClosed c h = (close_inner-IsClosed c h).0

-- The settings of a new connection.
abbrev settings : Config → List Setting
settings config = with_token config.tenant_token ∷ with_environment config.environment ∷ []

-- A form to connect.
abbrev pub connect_form : String → String → String → Form
connect_form token env program = record {
  disconnect = false;
  connect = true;
  token = some token;
  env = some env;
  program_name = some program;
}

abbrev pub updated : Config → String → String → String → Config
updated config token env program = record config {
  tenant_token = token;
  program_name = program;
  environment = env;
}

-- The new connection is whole, or there is none.
abbrev pub Attempt : ℕ → SideEyeConn → Type 0
Attempt g c = IsOpen g c ⊎ IsClosed c

abbrev valid : Config → Bool
valid config = if str_eq config.tenant_token "" then false else not (str_eq config.program_name "")

-- All fields are there, and neither the token nor the program is empty.
abbrev pub complete : Option String → Option String → Option String → Bool
complete (some token) (some env) (some program) =
    if str_eq token "" then false else not (str_eq program "")
complete token env program = false

-- Forms to disconnect, and forms to connect that are in order.
abbrev pub disconnects : Request → Bool
disconnects get = false
disconnects (post (failed e)) = false
disconnects (post (done form)) = form.disconnect

abbrev pub connects : Request → Bool
connects get = false
connects (post (failed e)) = false
connects (post (done form)) =
    if form.disconnect
    then false
    else if form.connect
    then complete form.token form.env form.program_name
    else false

-- The connection is closed, under the configuration of the handler, and the page says so.
abbrev pub Off : Config → Served → Type 0
Off config s =
    IsClosed s.conn
    × (s.config ≡ config)
    × ((page : Page) × ((s.page ≡ some page)
          × (page.shown_status ≡ "disconnected")
          × (page.can_disconnect ≡ false)))

abbrev pub Effect : ℕ → Config → SideEyeConn → Request → Served → Type 0
Effect g config c req s =
    ((disconnects req ≡ true) × Off config s)
    ⊎ (((connects req ≡ true) × Attempt g s.conn)
        ⊎ ((disconnects req ≡ false) × (connects req ≡ false) × (s.conn ≡ c)))

module _ (getenv : String → String) (o : Conn.Outside) (g : ℕ) (seen : Seen) where
  reconnect-ends :
      (config : Config) (c : SideEyeConn)
      → IsCoherent c
      → (IsOpen g (reconnect getenv o g seen config c).conn
          × ((reconnect getenv o g seen config c).conn.active_config
              ≡ make_config getenv config.program_name (settings config)))
        ⊎ IsClosed (reconnect getenv o g seen config c).conn
  unfolding reconnect
  reconnect-ends config c h =
      let closed = stop-IsClosed c h in
      elim (init-Renewed getenv o g config.program_name (settings config) (stop c) (inl closed)) [
        | inl e ↦ inr (rw e closed)
        | inr r ↦ r
      ]

  reconfigure-Effect :
      (config : Config) (c : SideEyeConn)
      → IsCoherent c
      → ((valid config ≡ true) × Attempt g (reconfigure getenv o g seen config c).conn)
        ⊎ ((valid config ≡ false) × ((reconfigure getenv o g seen config c).conn ≡ c))
  unfolding reconfigure
  reconfigure-Effect config c h = elim (Bool-cases (str_eq config.tenant_token "")) [
    | inl e ↦ rw e (inr (refl, refl))
    | inr e ↦ rw e (elim (Bool-cases (str_eq config.program_name "")) [
      | inl f ↦ rw f (inr (refl, refl))
      | inr f ↦ rw f (
          inl (
            refl,
            elim (reconnect-ends config c h) [
              | inl (open_, same) ↦ inl open_
              | inr closed ↦ inr closed
            ],
          ))
    ])
  ]

  with_fields-Effect :
      (config : Config) (c : SideEyeConn) (token env program : Option String)
      → IsCoherent c
      → ((complete token env program ≡ true)
          × Attempt g (with_fields getenv o g seen config c token env program).conn)
        ⊎ ((complete token env program ≡ false)
            × ((with_fields getenv o g seen config c token env program).conn ≡ c))
  unfolding with_fields
  with_fields-Effect config c none env program h = inr (refl, refl)
  with_fields-Effect config c (some t) none program h = inr (refl, refl)
  with_fields-Effect config c (some t) (some e) none h = inr (refl, refl)
  with_fields-Effect config c (some t) (some e) (some p) h =
      reconfigure-Effect (updated config t e p) c h

  stop-Off :
      (config : Config) (c : SideEyeConn)
      → IsCoherent c
      → Off config (record {
        page = some (handle_get config (stop c) seen "");
        conn = stop c;
        config = config;
      })
  unfolding handle_get
  stop-Off config c h =
      let closed = stop-IsClosed c h in
      (closed, refl, (_, (refl, ground (arith, closed.0), ground (arith, closed.0))))

  handle_form-Effect :
      (config : Config) (c : SideEyeConn) (form : Form)
      → IsCoherent c
      → Effect g config c (post (done form)) (handle_form getenv o g seen config c form)
  unfolding handle_form
  handle_form-Effect config c form h = elim (Bool-cases form.disconnect) [
    | inl e ↦ rw e (inl (refl, stop-Off config c h))
    | inr e ↦ rw e (elim (Bool-cases form.connect) [
      | inl f ↦ rw f (elim (with_fields-Effect config c form.token form.env form.program_name h) [
        | inl x ↦ inr (inl x)
        | inr (x, same) ↦ inr (inr (refl, x, same))
      ])
      | inr f ↦ rw f (inr (inr (refl, refl, refl)))
    ])
  ]

  -- What each request does to the connection, from one that is closed or whole. A form to disconnect
  -- closes it, keeps the configuration of the handler, and answers with a page that says so. A form
  -- to connect, with all fields and neither the token nor the program empty, leaves the whole new
  -- connection, or none. Any other request leaves the connection as it was.
  pub serve_http-Effect :
      (config : Config) (c : SideEyeConn) (req : Request)
      → IsCoherent c
      → Effect g config c req (serve_http getenv o g seen config c req)
  unfolding serve_http
  serve_http-Effect config c get h = inr (inr (refl, refl, refl))
  serve_http-Effect config c (post (failed e)) h = inr (inr (refl, refl, refl))
  serve_http-Effect config c (post (done form)) h = handle_form-Effect config c form h

  with_form :
      (config : Config) (c : SideEyeConn) (token env program : String)
      → str_eq token "" ≡ false
      → str_eq program "" ≡ false
      → serve_http getenv o g seen config c (post (done (connect_form token env program)))
        ≡ reconnect getenv o g seen (updated config token env program) c
  unfolding serve_http handle_form with_fields reconfigure
  with_form config c token env program t p = rw t (rw p refl)

  -- A POST that connects, with a token and a program name that are not empty: the old connection is
  -- closed, and the connection behind it is a whole new one under the values of the form, the rest
  -- of the configuration being the default, or it is closed.
  pub serve_http_connects :
      (config : Config) (c : SideEyeConn) (token env program : String)
      → IsCoherent c
      → str_eq token "" ≡ false
      → str_eq program "" ≡ false
      → let s =
          serve_http getenv o g seen config c (post (done (connect_form token env program))) in
        (s.config ≡ updated config token env program)
        × ((IsOpen g s.conn
              × (s.conn.active_config
                  ≡ make_config getenv program (with_token token ∷ with_environment env ∷ [])))
            ⊎ IsClosed s.conn)
  unfolding reconnect
  serve_http_connects config c token env program h t p =
      rw (with_form config c token env program t p)
        (refl, reconnect-ends (updated config token env program) c h)
