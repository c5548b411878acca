-- ===== src/Server/Handlers/Executable.antt =====
-- GetExecutable of internal/server/server.go.
use Prim.Native.String.{String}
use side_eye_go.Prelude.{
  ℕ, zero, suc, ◌<◌, ◌≡◌, refl, arith, some, List, [], ◌∷◌, ◌++◌, map, take, if◌then◌else◌, length,
}
use side_eye_go.Go.{GoError, wrapped, is_eof, Reply, done, failed}
use side_eye_go.Server.Handlers.{Read, read, broke, send_file, get_executable}

-- What GetExecutable returns where the reads end with `e`.
abbrev pub read_end : GoError → Reply (Unit {0})
read_end e = if is_eof e then done tt else failed (wrapped "failed to read executable" e)

-- The stream takes the `n` messages from the `i`-th one on, or that many and refuses the next one.
abbrev pub Takes : (ℕ → Reply (Unit {0})) → ℕ → ℕ → Type 0
Takes sends i zero = Unit {0}
Takes sends i (suc n) = (sends i ≡ done tt) × Takes sends (suc i) n

abbrev pub Refuses : (ℕ → Reply (Unit {0})) → ℕ → ℕ → GoError → Type 0
Refuses sends i zero x = sends i ≡ failed x
Refuses sends i (suc n) x = (sends i ≡ done tt) × Refuses sends (suc i) n x

send_file_all :
    (sends : ℕ → Reply (Unit {0})) (i : ℕ) (pieces : List (List ℕ)) (e : GoError) (rest : List Read)
    → Takes sends i (length pieces)
    → send_file sends i (map read pieces ++ broke e ∷ rest) ≡ (pieces, some (read_end e))
unfolding send_file
send_file_all sends i [] e rest h = refl
send_file_all sends i (p ∷ pieces) e rest (h, hs) =
    rw (h, send_file) (rw (send_file_all sends (suc i) pieces e rest hs) refl)

send_file_stops :
    (sends : ℕ → Reply (Unit {0})) (i n : ℕ) (pieces : List (List ℕ)) (x : GoError)
    (rest : List Read)
    → n < length pieces
    → Refuses sends i n x
    → send_file sends i (map read pieces ++ rest)
      ≡ (take (suc n) pieces, some (failed (wrapped "failed to send executable" x)))
unfolding send_file
send_file_stops sends i n [] x rest lt h = absurd (omega arith)
send_file_stops sends i zero (p ∷ pieces) x rest lt h = rw (h, send_file) refl
send_file_stops sends i (suc n) (p ∷ pieces) x rest lt (h, hs) =
    rw (h, send_file) (rw (send_file_stops sends (suc i) n pieces x rest (omega arith) hs) refl)

-- The executable at a path that can be opened, read in pieces of any sizes, over a stream that takes
-- them all: the pieces are what is sent, in their order, and the call ends as the reads do, without
-- an error at the end of the file.
pub get_executable_sent :
    (path : String) (open_file : String → Reply (List Read)) (sends : ℕ → Reply (Unit {0}))
    (pieces : List (List ℕ)) (e : GoError)
    → open_file path ≡ done (map read pieces ++ broke e ∷ [])
    → Takes sends 0 (length pieces)
    → get_executable (done path) open_file sends ≡ (pieces, some (read_end e))
unfolding get_executable
get_executable_sent path open_file sends pieces e h t =
    rw (h, get_executable) (send_file_all sends 0 pieces e [] t)

-- The same over a stream that refuses one of the pieces: it is the last one sent, and its error is
-- returned.
pub get_executable_stops :
    (path : String) (open_file : String → Reply (List Read)) (sends : ℕ → Reply (Unit {0}))
    (pieces : List (List ℕ)) (rest : List Read) (n : ℕ) (x : GoError)
    → open_file path ≡ done (map read pieces ++ rest)
    → n < length pieces
    → Refuses sends 0 n x
    → get_executable (done path) open_file sends
      ≡ (take (suc n) pieces, some (failed (wrapped "failed to send executable" x)))
unfolding get_executable
get_executable_stops path open_file sends pieces rest n x h lt r =
    rw (h, get_executable) (send_file_stops sends 0 n pieces x rest lt r)
