-- ===== src/Server/Fetcher/Remote.antt =====
-- The chunks that `remoteSnapshotFetcher` of internal/server/fetcher.go receives.
use mathlib.Core.List.{append_assoc, append-nil}
use side_eye_go.Prelude.{
  ◌≡◌, refl, ap, ◌∙◌, ℕ, Bool, true, false, some, List, [], ◌∷◌, ◌++◌, map, if◌then◌else◌,
}
use side_eye_go.Go.{GoError, wrapped, is_eof, Reply, done, failed, wrap}
use side_eye_go.Server.Fetcher.{Recv, chunk, broke, receive, remote_fetch, unmarshalled}

abbrev pub concat : List (List ℕ) → List ℕ
concat [] = []
concat (x ∷ xs) = x ++ concat xs

-- What the loop returns at the error `e`, after the bytes `buf`.
abbrev pub received : GoError → List ℕ → Reply (List ℕ)
received e buf = if is_eof e then done buf else failed (wrapped "failed to receive chunk" e)

receive_all :
    (buf : List ℕ) (chunks : List (List ℕ)) (e : GoError) (rest : List Recv)
    → receive buf (map chunk chunks ++ broke e ∷ rest) ≡ some (received e (buf ++ concat chunks))
unfolding receive
receive_all buf [] e rest = rw (append-nil buf) refl
receive_all buf (c ∷ chunks) e rest =
    receive_all (buf ++ c) chunks e rest
    ∙ ap (λ l. some (received e l)) (append_assoc buf c (concat chunks))

by_error :
    {P : Type 0} (unmarshal : List ℕ → Reply P) (bytes : List ℕ) (e : GoError) (b : Bool)
    → unmarshalled unmarshal
        (some (if b then done bytes else failed (wrapped "failed to receive chunk" e)))
      ≡ some (
          if b
          then wrap "failed to unmarshal snapshot program" (unmarshal bytes)
          else failed (wrapped "failed to receive chunk" e))
by_error unmarshal bytes e true = refl
by_error unmarshal bytes e false = refl

-- However a program is split into chunks, what is unmarshalled is all of its bytes, once the stream
-- has ended; where the stream breaks otherwise, that error is returned and no bytes are used.
pub remote_fetch_chunks :
    {P : Type 0} (unmarshal : List ℕ → Reply P) (chunks : List (List ℕ)) (e : GoError)
    (rest : List Recv)
    → remote_fetch unmarshal (done (map chunk chunks ++ broke e ∷ rest))
      ≡ some (
          if is_eof e
          then wrap "failed to unmarshal snapshot program" (unmarshal (concat chunks))
          else failed (wrapped "failed to receive chunk" e))
unfolding remote_fetch
remote_fetch_chunks unmarshal chunks e rest =
    rw (receive_all [] chunks e rest) (by_error unmarshal (concat chunks) e (is_eof e))
