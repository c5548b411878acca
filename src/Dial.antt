-- ===== src/Dial.antt =====
-- internal/serverdial/server_dial.go and header_dialer.go: the dialer of an address, the header that
-- starts a connection, and a connection that is closed once. net/url parses addresses: `parse`.
use Prim.Native.String.{String}
pub mod Header
pub mod Conn
pub mod Listener
use text.Mathlib.Text.{◌==◌ as str_eq}
use side_eye_go.Prelude.{
  ℕ, ◌+◌, Bool, true, false, Option, none, some, List, [], ◌∷◌, ◌++◌, length, ltb, if◌then◌else◌,
  take, drop,
}
use side_eye_go.Go.{GoError, message, wrapped, Reply, done, failed, wrap, check, ◌>>=◌, ◌>>◌}

-- What the code reads of a `*url.URL`.
pub record Url : Type 0 where
  pub scheme : String
  pub host : String
  pub hostname : String
  pub port : String
  pub path : String
  pub raw_query : String

pub data Transport : Type 0 where
  plain tls : Transport

pub record ServerDialAddr : Type 0 where
  pub scheme : String
  pub addr : String

-- The switch on the scheme.
abbrev pub transport_of : String → Reply Transport
transport_of scheme =
    if str_eq scheme "http"
    then done plain
    else if str_eq scheme "https"
    then done tls
    else failed (message "unsupported scheme")

unfoldable pub new_dialer : (String → Reply Url) → String → Reply (Transport × ServerDialAddr)
new_dialer parse addr = do
  u ← wrap "failed to parse url" (parse addr)
  check (str_eq u.path "") (message "unsupported path")
  check (str_eq u.raw_query "") (message "unsupported query")
  d ← transport_of u.scheme
  done (d, record { scheme = u.scheme; addr = u.host })

abbrev pub inbound_server_prefix : List ℕ
inbound_server_prefix = 1 ∷ 1 ∷ 1 ∷ 9 ∷ 1 ∷ 1 ∷ 1 ∷ 0 ∷ []

-- What a call of `conn.Write` returns: the bytes written, and an error.
pub data Wrote : Type 0 where
  wrote : ℕ → Wrote
  broke : ℕ → GoError → Wrote

-- How the loop ends. `pending` is a call of Write that has not returned.
pub data Ending : Type 0 where
  returned : Ending
  errored : GoError → Ending
  panicked pending : Ending

-- The loop of `writeHeader` over what its calls of Write return. The first component is what has gone
-- out on the connection.
unfoldable pub write_loop : List Wrote → List ℕ → List ℕ × Ending
write_loop results [] = ([], returned)
write_loop [] to_write = ([], pending)
write_loop (broke n e ∷ results) (b ∷ bs) =
    (take n (b ∷ bs), errored (wrapped "failed to write header" e))
write_loop (wrote n ∷ results) (b ∷ bs) =
    let rest = write_loop results (drop n (b ∷ bs)) in
    if ltb (length (b ∷ bs)) n
    then (take n (b ∷ bs), panicked)
    else (take n (b ∷ bs) ++ rest.0, rest.1)

unfoldable pub write_header : List Wrote → List ℕ × Ending
unfolding write_loop
write_header results = write_loop results inbound_server_prefix

-- `headerDialer.DialContext`: the connection of the inner dialer, behind its header, or closed.
pub data Dialed : Type 0 where
  connected : List ℕ → Dialed
  dial_failed : GoError → Dialed
  closed_after : List ℕ → GoError → Dialed
  stopped_in : List ℕ → Ending → Dialed

abbrev dialed_of : List ℕ × Ending → Dialed
dialed_of (sent, returned) = connected sent
dialed_of (sent, errored e) = closed_after sent e
dialed_of (sent, panicked) = stopped_in sent panicked
dialed_of (sent, pending) = stopped_in sent pending

unfoldable pub dial_context : Reply (List Wrote) → Dialed
unfolding write_header
dial_context (failed e) = dial_failed e
dial_context (done results) = dialed_of (write_header results)

-- A connection with its `closeOnce`. `closes` and `signals` count the calls of the inner Close and
-- the closings of the channel, the second of which would panic.
pub record WrappedConn : Type 0 where
  pub once_done : Bool
  pub close_err : Option GoError
  pub closes : ℕ
  pub signals : ℕ

abbrev pub wrap_conn : WrappedConn
wrap_conn = record { once_done = false; close_err = none; closes = 0; signals = 0 }

-- `Close`, where the inner Close would answer `answer`.
unfoldable pub close : Option GoError → WrappedConn → Option GoError × WrappedConn
close answer w = if w.once_done then (w.close_err, w) else (
  answer,
  record { once_done = true; close_err = answer; closes = w.closes + 1; signals = w.signals + 1 },
)

-- Many calls of `Close`, with what the inner one would answer to each; the answers in order.
unfoldable pub close_all : List (Option GoError) → WrappedConn → List (Option GoError) × WrappedConn
unfolding close
close_all [] w = ([], w)
close_all (answer ∷ answers) w =
    let first = close answer w in let rest = close_all answers first.1 in (first.0 ∷ rest.0, rest.1)
