-- ===== src/Server/Capture.antt =====
-- Capture of internal/server/server.go: the CPU profile and the execution trace. What `pprof`, `trace`,
-- the clock and the stream return is a parameter. A stream's answer depends on how many messages of
-- the routine came before.
pub mod Stops
pub mod Payload
use Prim.Native.String.{String}
use text.Mathlib.Text.{◌==◌ as str_eq}
use side_eye_go.Prelude.{
  ℕ, zero, suc, ◌+◌, Bool, true, false, Option, none, some, List, [], ◌∷◌, ◌++◌, take, drop, length,
  ltb, if◌then◌else◌,
}
use side_eye_go.Go.{GoError, message, coded, wrapped, eof, Reply, done, failed, wrap}
use side_eye_go.Server.Act.{Act, give, fail, call, then_on, finally}
use side_eye_go.Server.Guarded.{Guarded, lift, set_stop, with_deferred, then_guarded, ◌>>=◌, ◌>>◌}
use side_eye_go.Server.Handlers.{permission_denied}

pub data CaptureMessage : Type 0 where
  cpu_profile_start : ℕ → CaptureMessage
  cpu_profile_chunk : List ℕ → CaptureMessage
  cpu_profile_complete : CaptureMessage
  -- The boot time and the seconds.
  execution_trace_start : ℕ → ℕ → CaptureMessage
  execution_trace_chunk : List ℕ → CaptureMessage
  execution_trace_complete : CaptureMessage

pub data CaptureCall : Type 0 where
  info : String → CaptureCall
  start_cpu stop_cpu start_trace stop_trace close_writer : CaptureCall
  close_writer_with : GoError → CaptureCall
  send : CaptureMessage → CaptureCall

abbrev pub chunk_size : ℕ
chunk_size = 65536

-- `sendSerializer.Send`: the lock has no effect on one caller.
abbrev pub serial_send : (ℕ → Reply (Unit {0})) → ℕ → CaptureMessage → Act CaptureCall (Unit {0})
serial_send sends i msg = call (send msg) (wrap "failed to stream response to client" (sends i))

-- `if err := ...; err != nil { return fmt.Errorf("text: %w", err) }` of a call that sends.
abbrev pub relabel : String → Act CaptureCall (Unit {0}) → Act CaptureCall (Unit {0})
relabel t m = (m.0, wrap t m.1)

-- The loop over the bytes of the profile in chunks of `size`, for the `i`-th message on, with the number of the message
-- behind it. The fuel is the number of bytes.
unfoldable pub send_chunks : ℕ → (ℕ → Reply (Unit {0})) → ℕ → ℕ → List ℕ → Act CaptureCall ℕ
send_chunks size sends i fuel [] = give i
send_chunks size sends i zero (b ∷ bs) = fail (message "out of fuel")
send_chunks size sends i (suc fuel) (b ∷ bs) =
    let rest = send_chunks size sends (suc i) fuel (drop size (b ∷ bs)) in
    let sent =
      relabel "failed to send CPU profile chunk"
        (serial_send sends i (cpu_profile_chunk (take size (b ∷ bs)))) in
    then_on sent.0 sent.1 λ u. rest

pub record ProfileWorld : Type 0 where
  pub started : Reply (Unit {0})
  pub sends : ℕ → Reply (Unit {0})
  -- The cause, where the context is cancelled before the time is over.
  pub cancelled : Option GoError
  pub profile : List ℕ

abbrev pub awaited : Option GoError → Reply (Unit {0})
awaited none = done tt
awaited (some e) = failed (wrapped "CPU profiling canceled" e)

-- The messages behind the stop.
unfoldable pub profile_rest : ProfileWorld → Guarded CaptureCall (Unit {0})
unfolding send_chunks
profile_rest w = do
  i ← lift (send_chunks chunk_size w.sends 1 (length w.profile) w.profile)
  lift (relabel "failed to send CPU profile start" (serial_send w.sends i cpu_profile_complete))

unfoldable pub profile_body : ProfileWorld → ℕ → Guarded CaptureCall (Unit {0})
unfolding profile_rest
profile_body w seconds = do
  lift (call start_cpu (wrap "failed to start CPU profile" w.started))
  set_stop true
  lift (
      relabel "failed to send CPU profile start"
        (serial_send w.sends 0 (cpu_profile_start seconds)))
  lift ([], awaited w.cancelled)
  lift (call stop_cpu (done tt))
  set_stop false
  profile_rest w

-- The calls of the logger around a routine.
abbrev pub logged : String → Act CaptureCall (Unit {0}) → String → Act CaptureCall (Unit {0})
logged before m after = finally (info before ∷ m.0, m.1) (info after ∷ [])

unfoldable pub run_cpu_profile : ProfileWorld → ℕ → Act CaptureCall (Unit {0})
unfolding profile_body
run_cpu_profile w seconds =
    logged "starting CPU profile" (with_deferred stop_cpu (profile_body w seconds))
      "CPU profile complete"

-- How the select of runExecutionTrace ends, with what the channel of the reader gives where it waits.
pub data TraceEnd : Type 0 where
  cancelled_by reader_failed : GoError → TraceEnd
  timed_out : Reply (Unit {0}) → TraceEnd

pub record TraceWorld : Type 0 where
  pub started : Reply (Unit {0})
  -- `boottime.BootTime`
  pub boot : Reply ℕ
  pub start_sent : Reply (Unit {0})
  pub end : TraceEnd

-- The select.
unfoldable pub trace_select : TraceEnd → Guarded CaptureCall (Unit {0})
trace_select (cancelled_by e) = do
  lift (call (close_writer_with (wrapped "CPU profiling canceled" e)) (done tt))
  lift (fail (wrapped "CPU profiling canceled" e))
trace_select (reader_failed e) = lift (fail e)
trace_select (timed_out r) = do
  lift (call stop_trace (done tt))
  set_stop false
  lift (call close_writer (done tt))
  lift ([], r)

-- The deferred wait for the reader is taken to return.
unfoldable pub trace_body : TraceWorld → ℕ → Guarded CaptureCall (Unit {0})
unfolding trace_select
trace_body w seconds = do
  lift (call start_trace (wrap "failed to start CPU profile" w.started))
  boot ← lift ([], wrap "failed to get boot time" w.boot)
  lift (
      call (send (execution_trace_start boot seconds))
        (wrap "failed to stream response to client" w.start_sent))
  set_stop true
  trace_select w.end

unfoldable pub run_execution_trace : TraceWorld → ℕ → Act CaptureCall (Unit {0})
unfolding trace_body
run_execution_trace w seconds =
    logged "starting execution trace" (with_deferred stop_trace (trace_body w seconds))
      "execution trace complete"

-- What `reader.Read` returns.
pub data Read : Type 0 where
  read : List ℕ → Read
  broke : GoError → Read

-- The goroutine that reads the pipe, with the bytes that it has gathered for the next chunk. Its
-- result is what goes to `errCh`; it is `none` where a call of Read has not returned.
abbrev pub Reader : Type 0
Reader = List CaptureCall × Option (Reply (Unit {0}))

-- `err == io.EOF`, which no error that wraps it equals.
abbrev pub equals_eof : GoError → Bool
equals_eof eof = true
equals_eof e = false

abbrev pub after_send : CaptureMessage → Reply (Unit {0}) → Reader → Reader
after_send msg (done u) rest = (send msg ∷ rest.0, rest.1)
after_send msg (failed e) rest =
    (send msg ∷ [], some (failed (wrapped "failed to stream response to client" e)))

unfoldable pub read_trace : ℕ → (ℕ → Reply (Unit {0})) → ℕ → List ℕ → List Read → Reader
read_trace size sends i buf [] = ([], none)
read_trace size sends i buf (read bytes ∷ rs) =
    let full =
      after_send (execution_trace_chunk (buf ++ bytes)) (sends i)
        (read_trace size sends (suc i) [] rs) in
    let more = read_trace size sends i (buf ++ bytes) rs in
    if ltb (length (buf ++ bytes)) size then more else full
read_trace size sends i [] (broke e ∷ rs) =
    if equals_eof e
    then after_send execution_trace_complete (sends i) ([], some (done tt))
    else ([], some (failed e))
read_trace size sends i (b ∷ buf) (broke e ∷ rs) =
    let rest = read_trace size sends (suc i) [] rs in
    if equals_eof e
    then after_send (execution_trace_chunk (b ∷ buf)) (sends i) rest
    else ([], some (failed e))

pub data CaptureContents : Type 0 where
  execution_trace execution_trace_and_cpu_profile : CaptureContents

pub record CaptureRequest : Type 0 where
  pub process_fingerprint : String
  pub contents : CaptureContents
  pub seconds : ℕ

-- The calls of the two goroutines of Capture, each in its own order, and the error that `g.Wait`
-- returns where the first is the one that `profile_first` says.
pub record Captured : Type 0 where
  pub profile : List CaptureCall
  pub trace : List CaptureCall
  pub reply : Reply (Unit {0})

-- The second goroutine where the profile was not asked for: it runs one that is thrown away.
unfoldable pub trace_with_profile : Reply (Unit {0}) → TraceWorld → ℕ → Act CaptureCall (Unit {0})
unfolding run_execution_trace
trace_with_profile started w seconds =
    then_on (start_cpu ∷ []) (wrap "failed to start CPU profile" started)
      λ u. finally (run_execution_trace w seconds) (stop_cpu ∷ [])

abbrev pub first_error : Bool → Reply (Unit {0}) → Reply (Unit {0}) → Reply (Unit {0})
first_error true (failed e) r = failed e
first_error true (done u) r = r
first_error false r (failed e) = failed e
first_error false r (done u) = r

unfoldable pub capture : String → CaptureRequest → ProfileWorld → TraceWorld → Bool → Captured
unfolding run_cpu_profile trace_with_profile
capture fingerprint req pw tw profile_first =
    if str_eq req.process_fingerprint fingerprint
    then elim req.contents [
      | execution_trace ↦
          let t = trace_with_profile pw.started tw req.seconds in
          record { profile = []; trace = t.0; reply = t.1 }
      | execution_trace_and_cpu_profile ↦
          let p = run_cpu_profile pw req.seconds in
          let t = run_execution_trace tw req.seconds in
          record { profile = p.0; trace = t.0; reply = first_error profile_first p.1 t.1 }
    ]
    else record {
      profile = [];
      trace = [];
      reply = failed (coded permission_denied "process fingerprint mismatch");
    }
