-- ===== src/Conn/Calls.antt =====
-- Connect and Close of internal/sideeyeconn/side_eye_conn.go, called one after the other.
use Prim.Native.String.{String}
use text.Mathlib.Text.{◌==◌ as str_eq}
use side_eye_go.Prelude.{ℕ, ◌≡◌, ◌∙◌, ◌⊎◌, inl, inr, refl, arith, Bool-cases, none, some}
use side_eye_go.Go.{Reply, done, failed}
use side_eye_go.Conn.{
  Config, SideEyeConn, Outside, close_inner, finish, listen, identify, set_up, connect_on, connect,
}
use side_eye_go.Dial.{Transport, ServerDialAddr, new_dialer}

-- Nothing is left of a connection, or all of it belongs to the goroutine `g`.
abbrev pub IsClosed : SideEyeConn → Type 0
IsClosed c = (c.listener ≡ none) × (c.server ≡ none) × (c.grpc_server ≡ none) × (c.grpc_conn ≡ none)

abbrev pub IsOpen : ℕ → SideEyeConn → Type 0
IsOpen g c =
    ((conn : ℕ) × (c.grpc_conn ≡ some conn))
    × (c.listener ≡ some g)
    × (c.server ≡ some g)
    × (c.grpc_server ≡ some g)
    × (c.wg ≡ some g)

abbrev pub IsCoherent : SideEyeConn → Type 0
IsCoherent c = IsClosed c ⊎ ((g : ℕ) × IsOpen g c)

pub close_inner-IsClosed :
    (c : SideEyeConn)
    → IsCoherent c
    → IsClosed (close_inner c) × ((close_inner c).active_config ≡ c.active_config)
unfolding close_inner
close_inner-IsClosed c (inl h) = ground arith
close_inner-IsClosed c (inr (g, h)) = ground arith

-- How a call of Connect leaves the connection that it closed.
abbrev pub Connected : ℕ → Config → SideEyeConn → Reply (Unit {0}) × SideEyeConn → Type 0
Connected g cfg c (done u, c') = IsOpen g c' × (c'.active_config ≡ cfg)
Connected g cfg c (failed e, c') = IsClosed c' × (c'.active_config ≡ c.active_config)

finish-Connected :
    (g : ℕ) (cfg : Config) (c : SideEyeConn) (r : Reply ℕ)
    → IsClosed c
    → Connected g cfg c (finish g cfg c r)
unfolding finish
finish-Connected g cfg c (failed e) h = (h, refl)
finish-Connected g cfg c (done conn) h = (((conn, refl), refl, refl, refl, refl), refl)

listen-Connected :
    (o : Outside) (g : ℕ) (cfg : Config) (c : SideEyeConn) (r : Reply (Transport × ServerDialAddr))
    → IsClosed c
    → Connected g cfg c (listen o g cfg c r)
unfolding listen
listen-Connected o g cfg c (failed e) h = (h, refl)
listen-Connected o g cfg c (done d) h = finish-Connected g cfg c _ h

-- Where only the fingerprints differ.
same_config :
    (g : ℕ) (cfg : Config) (c c' : SideEyeConn) (r : Reply (Unit {0}) × SideEyeConn)
    → c'.active_config ≡ c.active_config
    → Connected g cfg c' r
    → Connected g cfg c r
same_config g cfg c c' (done u, k) e h = h
same_config g cfg c c' (failed x, k) e h = (h.0, h.1 ∙ e)

identify-Connected :
    (o : Outside) (g : ℕ) (cfg : Config) (c : SideEyeConn) (r : Reply String)
    → IsClosed c
    → Connected g cfg c (identify o g cfg c r)
unfolding identify
identify-Connected o g cfg c (failed e) h = (h, refl)
identify-Connected o g cfg c (done id) h =
    let c' = record c { agent_fingerprint = id; process_fingerprint = o.fingerprint id } in
    same_config g cfg c c' (listen o g cfg c' (new_dialer o.parse_url cfg.agent_url)) refl
      (listen-Connected o g cfg c' _ h)

set_up-Connected :
    (o : Outside) (g : ℕ) (cfg : Config) (c : SideEyeConn)
    → IsClosed c
    → Connected g cfg c (set_up o g cfg c)
unfolding set_up
set_up-Connected o g cfg c h = elim (Bool-cases (str_eq cfg.tenant_token "")) [
  | inl e ↦ rw e (h, refl)
  | inr e ↦ rw e (identify-Connected o g cfg c o.new_random h)
]

-- What Connect does, by what the platform says.
abbrev pub Attempted :
    Reply (Unit {0}) → ℕ → Config → SideEyeConn → Reply (Unit {0}) × SideEyeConn → Type 0
Attempted (failed e) g cfg c r = r ≡ (failed e, c)
Attempted (done u) g cfg c r = Connected g cfg c r

connect_on-Attempted :
    (o : Outside) (g : ℕ) (cfg : Config) (c : SideEyeConn) (p : Reply (Unit {0}))
    → IsCoherent c
    → Attempted p g cfg c (connect_on o g cfg c p)
unfolding connect_on
connect_on-Attempted o g cfg c (failed e) h = refl
connect_on-Attempted o g cfg c (done u) h =
    let (closed, same) = close_inner-IsClosed c h in
    same_config g cfg c (close_inner c) _ same (set_up-Connected o g cfg (close_inner c) closed)

-- Connect, from a connection that is closed or whole. Where the platform is not supported, it returns
-- that error and changes nothing. Otherwise, where it succeeds, a whole connection is in place under
-- the new configuration; where it fails, the old connection is closed and its configuration stays.
pub connect-Attempted :
    (o : Outside) (g : ℕ) (cfg : Config) (c : SideEyeConn)
    → IsCoherent c
    → Attempted o.platform_supported g cfg c (connect o g cfg c)
unfolding connect
connect-Attempted o g cfg c h = connect_on-Attempted o g cfg c o.platform_supported h
