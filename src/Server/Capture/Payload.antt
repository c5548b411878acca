-- ===== src/Server/Capture/Payload.antt =====
-- The bytes that Capture of internal/server/server.go sends.
use mathlib.Core.List.{append_assoc, append-nil}
use side_eye_go.Prelude.{
  Bool, false, ℕ, zero, suc, ◌<◌, ◌≤◌, ◌≡◌, ◌≢◌, refl, ap, sym, ◌∙◌, arith, Bool-cases, none, some,
  List, [], ◌∷◌, ◌++◌, map, take, drop, take-append-drop, length-drop, length, inl, inr, All, ltb,
}
use side_eye_go.Go.{
  GoError, external, canceled, deadline_exceeded, message, coded, wrapped, eof, done, failed,
}
use side_eye_go.Server.Act.{Act}
use side_eye_go.Server.Guarded.{lift, with_deferred, ◌>>=◌}
use side_eye_go.Server.Capture.{
  CaptureCall, info, start_cpu, stop_cpu, start_trace, stop_trace, close_writer, close_writer_with,
  send, cpu_profile_start, execution_trace_start, cpu_profile_chunk, cpu_profile_complete,
  execution_trace_chunk, execution_trace_complete, send_chunks, ProfileWorld, profile_rest,
  profile_body, run_cpu_profile, relabel, serial_send, chunk_size, read, broke, equals_eof,
  read_trace,
}

-- The bytes in the chunks that are sent.
abbrev pub payload : List CaptureCall → List ℕ
payload [] = []
payload (send (cpu_profile_chunk bytes) ∷ cs) = bytes ++ payload cs
payload (send (execution_trace_chunk bytes) ∷ cs) = bytes ++ payload cs
payload (c ∷ cs) = payload cs

abbrev pub concat : List (List ℕ) → List ℕ
concat [] = []
concat (x ∷ xs) = x ++ concat xs

-- No chunk is empty or longer than `size`.
abbrev pub IsChunk : ℕ → CaptureCall → Type 0
IsChunk size (send (cpu_profile_chunk bytes)) = (0 < length bytes) × (length bytes ≤ size)
IsChunk size (send (execution_trace_chunk bytes)) = (0 < length bytes) × (length bytes ≤ size)
IsChunk size c = Unit {0}

length-take-le : (n : ℕ) (xs : List ℕ) → length (take n xs) ≤ n
length-take-le zero xs = omega arith
length-take-le (suc n) [] = omega arith
length-take-le (suc n) (x ∷ xs) = omega (arith, length-take-le n xs)

some_taken : (size b : ℕ) (bs : List ℕ) → 0 < size → 0 < length (take size (b ∷ bs))
some_taken zero b bs pos = absurd (omega arith)
some_taken (suc n) b bs pos = omega arith

-- The loop of the profile, over a stream that takes every message.
send_chunks_sent :
    (size i fuel : ℕ) (bytes : List ℕ)
    → length bytes ≤ fuel
    → 0 < size
    → let r = send_chunks size (λ k. done tt) i fuel bytes in
      (payload r.0 ≡ bytes) × All (IsChunk size) r.0 × ((n : ℕ) × (r.1 ≡ done n))
unfolding send_chunks
send_chunks_sent size i fuel [] enough pos = (refl, tt, (i, refl))
send_chunks_sent size i zero (b ∷ bs) enough pos = absurd (omega arith)
send_chunks_sent size i (suc fuel) (b ∷ bs) enough pos =
    let (same, chunks, ends) =
      send_chunks_sent size (suc i) fuel (drop size (b ∷ bs))
        (omega (arith, length-drop size (b ∷ bs))) pos in
    (
      ap (λ l. take size (b ∷ bs) ++ l) same ∙ take-append-drop size (b ∷ bs),
      ((some_taken size b bs pos, length-take-le size (b ∷ bs)), chunks),
      ends,
    )

payload-append : (xs ys : List CaptureCall) → payload (xs ++ ys) ≡ payload xs ++ payload ys
payload-append [] ys = refl
payload-append (send (cpu_profile_chunk b) ∷ xs) ys =
    ap (λ l. b ++ l) (payload-append xs ys) ∙ sym (append_assoc b (payload xs) (payload ys))
payload-append (send (execution_trace_chunk b) ∷ xs) ys =
    ap (λ l. b ++ l) (payload-append xs ys) ∙ sym (append_assoc b (payload xs) (payload ys))
payload-append (info t ∷ xs) ys = payload-append xs ys
payload-append (start_cpu ∷ xs) ys = payload-append xs ys
payload-append (stop_cpu ∷ xs) ys = payload-append xs ys
payload-append (start_trace ∷ xs) ys = payload-append xs ys
payload-append (stop_trace ∷ xs) ys = payload-append xs ys
payload-append (close_writer ∷ xs) ys = payload-append xs ys
payload-append (close_writer_with e ∷ xs) ys = payload-append xs ys
payload-append (send (cpu_profile_start n) ∷ xs) ys = payload-append xs ys
payload-append (send cpu_profile_complete ∷ xs) ys = payload-append xs ys
payload-append (send (execution_trace_start b n) ∷ xs) ys = payload-append xs ys
payload-append (send execution_trace_complete ∷ xs) ys = payload-append xs ys

IsChunk-append :
    (size : ℕ) (xs ys : List CaptureCall)
    → All (λ c. IsChunk size c) xs
    → All (λ c. IsChunk size c) ys
    → All (λ c. IsChunk size c) (xs ++ ys)
IsChunk-append size [] ys h k = k
IsChunk-append size (x ∷ xs) ys h k = (h.0, IsChunk-append size xs ys h.1 k)

-- A profile that is not disturbed: it starts, the time passes, and the stream takes every message.
abbrev pub undisturbed : List ℕ → ProfileWorld
undisturbed bytes = record {
  started = done tt;
  sends = λ i. done tt;
  cancelled = none;
  profile = bytes;
}

-- How an undisturbed profile ends: with the bytes sent, in good chunks.
abbrev SentAll : List ℕ → Act CaptureCall (Unit {0}) → Type 0
SentAll bytes m = (payload m.0 ≡ bytes) × All (λ c. IsChunk chunk_size c) m.0 × (m.1 ≡ done tt)

-- The end of the routine, behind messages that are sent whole.
complete_sent :
    (bytes : List ℕ) (r : Act CaptureCall ℕ) (stop : Bool)
    → (payload r.0 ≡ bytes) × All (λ c. IsChunk chunk_size c) r.0 × ((n : ℕ) × (r.1 ≡ done n))
    → let m =
        (lift r >>= λ i. lift (
            relabel "failed to send CPU profile start"
              (serial_send (λ k. done tt) i cpu_profile_complete)))
          stop in
      SentAll bytes m.0 × (m.1 ≡ stop)
complete_sent bytes (es, done n) stop (same, chunks, k) = (
  (
    payload-append es _ ∙ append-nil (payload es) ∙ same,
    IsChunk-append chunk_size es (send cpu_profile_complete ∷ []) chunks (tt, tt),
    refl,
  ),
  refl,
)
complete_sent bytes (es, failed e) stop (same, chunks, (n, k)) = absurd (cc)

rest_sent :
    (bytes : List ℕ)
    → let m = profile_rest (undisturbed bytes) false in SentAll bytes m.0 × (m.1 ≡ false)
unfolding profile_rest
rest_sent bytes =
    complete_sent bytes (send_chunks chunk_size (λ i. done tt) 1 (length bytes) bytes) false
      (send_chunks_sent chunk_size 1 (length bytes) bytes (omega arith) (omega arith))

deferred_sent :
    (bytes : List ℕ) (seconds : ℕ)
    → SentAll bytes (with_deferred stop_cpu (profile_body (undisturbed bytes) seconds))
unfolding profile_body
deferred_sent bytes seconds =
    let ((same, good, well), off) = rest_sent bytes in rw off (same, (tt, (tt, (tt, good))), well)

-- An undisturbed profile is sent whole: the chunks in their order hold its bytes, none is empty or
-- longer than 64 KiB, and the call returns without an error.
pub run_cpu_profile_sent :
    (bytes : List ℕ) (seconds : ℕ)
    → let m = run_cpu_profile (undisturbed bytes) seconds in
      (payload m.0 ≡ bytes) × All (λ c. IsChunk chunk_size c) m.0 × (m.1 ≡ done tt)
unfolding run_cpu_profile
run_cpu_profile_sent bytes seconds =
    let m = with_deferred stop_cpu (profile_body (undisturbed bytes) seconds) in
    let (same, good, well) = deferred_sent bytes seconds in
    (
      payload-append m.0 (info "CPU profile complete" ∷ []) ∙ append-nil (payload m.0) ∙ same,
      (tt, IsChunk-append chunk_size m.0 _ good (tt, tt)),
      well,
    )

-- Over a pipe that gives the pieces, and a stream that takes every message.
read_trace_sent :
    (size i : ℕ) (buf : List ℕ) (pieces : List (List ℕ))
    → let r =
        read_trace size (λ k. done tt) i buf (map read pieces ++ broke eof ∷ broke eof ∷ []) in
      (payload r.0 ≡ buf ++ concat pieces) × (r.1 ≡ some (done tt))
unfolding read_trace
read_trace_sent size i [] [] = (refl, refl)
read_trace_sent size i (b ∷ buf) [] = (refl, refl)
read_trace_sent size i buf (p ∷ pieces) = elim (Bool-cases (ltb (length (buf ++ p)) size)) [
  | inl more ↦
      let (same, ends) = read_trace_sent size i (buf ++ p) pieces in
      rw more (same ∙ append_assoc buf p (concat pieces), ends)
  | inr full ↦
      let (same, ends) = read_trace_sent size (suc i) [] pieces in
      rw full (ap (λ l. (buf ++ p) ++ l) same ∙ append_assoc buf p (concat pieces), ends)
]

equals_eof-other : (e : GoError) → e ≢ eof → equals_eof e ≡ false
equals_eof-other eof h = absurd (h refl)
equals_eof-other (external n) h = refl
equals_eof-other canceled h = refl
equals_eof-other deadline_exceeded h = refl
equals_eof-other (message t) h = refl
equals_eof-other (coded c t) h = refl
equals_eof-other (wrapped t e) h = refl

-- Over a pipe that gives the pieces and breaks.
read_trace_broken :
    (size i : ℕ) (buf : List ℕ) (pieces : List (List ℕ)) (e : GoError)
    → equals_eof e ≡ false
    → (read_trace size (λ k. done tt) i buf (map read pieces ++ broke e ∷ [])).1 ≡ some (failed e)
unfolding read_trace
read_trace_broken size i [] [] e other = rw other refl
read_trace_broken size i (b ∷ buf) [] e other = rw other refl
read_trace_broken size i buf (p ∷ pieces) e other =
    elim (Bool-cases (ltb (length (buf ++ p)) size)) [
      | inl more ↦ rw more (read_trace_broken size i (buf ++ p) pieces e other)
      | inr full ↦ rw full (read_trace_broken size (suc i) [] pieces e other)
    ]

-- The goroutine that reads the trace, over a pipe that gives pieces of any sizes and a stream that
-- takes every message. Where the pipe then ends, it sends the bytes of the pieces in their order and
-- succeeds. Where the pipe breaks with another error than `io.EOF`, also with one that wraps it, that
-- error is the result.
pub read_trace_whole :
    (pieces : List (List ℕ)) (e : GoError)
    → e ≢ eof
    → let r =
        read_trace chunk_size (λ i. done tt) 1 [] (map read pieces ++ broke eof ∷ broke eof ∷ []) in
      let r' = read_trace chunk_size (λ i. done tt) 1 [] (map read pieces ++ broke e ∷ []) in
      (payload r.0 ≡ concat pieces) × (r.1 ≡ some (done tt)) × (r'.1 ≡ some (failed e))
read_trace_whole pieces e other =
    let (same, ends) = read_trace_sent chunk_size 1 [] pieces in
    (same, ends, read_trace_broken chunk_size 1 [] pieces e (equals_eof-other e other))
