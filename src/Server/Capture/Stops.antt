-- ===== src/Server/Capture/Stops.antt =====
-- What Capture of internal/server/server.go starts, and what it stops.
use Prim.Native.String.{String}
use side_eye_go.Prelude.{
  ℕ, zero, suc, ◌+◌, ◌≡◌, refl, ◌∙◌, arith, Bool, true, false, ◌&&◌, Option-cases, List, [], ◌∷◌,
  ◌++◌, drop, if◌then◌else◌, length, inl, inr,
}
use side_eye_go.Go.{Reply, done, failed, is_done, Reply-cases}
use side_eye_go.Server.Act.{Act}
use side_eye_go.Server.Guarded.{lift, with_deferred, ◌>>=◌}
use side_eye_go.Server.Capture.{
  CaptureCall, info, stop_cpu, stop_trace, send_chunks, ProfileWorld, profile_rest, profile_body,
  run_cpu_profile, TraceWorld, TraceEnd, cancelled_by, reader_failed, timed_out, trace_select,
  trace_body, run_execution_trace, chunk_size, logged,
}

abbrev pub is_stop_cpu : CaptureCall → Bool
is_stop_cpu stop_cpu = true
is_stop_cpu c = false

abbrev pub is_stop_trace : CaptureCall → Bool
is_stop_trace stop_trace = true
is_stop_trace c = false

abbrev pub count_calls : (CaptureCall → Bool) → List CaptureCall → ℕ
count_calls test [] = 0
count_calls test (c ∷ cs) = let rest = count_calls test cs in if test c then suc rest else rest

count_calls-append :
    (test : CaptureCall → Bool) (xs ys : List CaptureCall)
    → count_calls test (xs ++ ys) ≡ count_calls test xs + count_calls test ys
count_calls-append test [] ys = omega arith
count_calls-append test (x ∷ xs) ys = ground (arith, count_calls-append test xs ys)

send_chunks_no_stop :
    (size : ℕ) (sends : ℕ → Reply (Unit {0})) (i fuel : ℕ) (data_ : List ℕ)
    → count_calls is_stop_cpu (send_chunks size sends i fuel data_).0 ≡ 0
unfolding send_chunks
send_chunks_no_stop size sends i fuel [] = refl
send_chunks_no_stop size sends i zero (b ∷ bs) = refl
send_chunks_no_stop size sends i (suc fuel) (b ∷ bs) = elim (Reply-cases (sends i)) [
  | inl (u, e) ↦ rw e (send_chunks_no_stop size sends (suc i) fuel (drop size (b ∷ bs)))
  | inr (x, e) ↦ rw e refl
]

-- The end of a routine that does not stop: `stop` is as it was.
guarded_no_stop :
    (m : Act CaptureCall ℕ) (f : ℕ → Act CaptureCall (Unit {0})) (stop : Bool)
    → count_calls is_stop_cpu m.0 ≡ 0
    → ((i : ℕ) → count_calls is_stop_cpu (f i).0 ≡ 0)
    → let r = (lift m >>= λ i. lift (f i)) stop in
      (r.1 ≡ stop) × (count_calls is_stop_cpu r.0.0 ≡ 0)
guarded_no_stop (es, done i) f stop h k =
    (refl, count_calls-append is_stop_cpu es (f i).0 ∙ omega (arith, h, k i))
guarded_no_stop (es, failed x) f stop h k = (refl, h)

profile_rest_no_stop :
    (w : ProfileWorld) (stop : Bool)
    → let r = profile_rest w stop in (r.1 ≡ stop) × (count_calls is_stop_cpu r.0.0 ≡ 0)
unfolding profile_rest
profile_rest_no_stop w stop =
    guarded_no_stop (send_chunks chunk_size w.sends 1 (length w.profile) w.profile) _ stop
      (send_chunks_no_stop chunk_size w.sends 1 (length w.profile) w.profile) λ i. refl

logged_count :
    (test : CaptureCall → Bool) (before after : String) (m : Act CaptureCall (Unit {0}))
    → test (info before) ≡ false
    → test (info after) ≡ false
    → count_calls test (logged before m after).0 ≡ count_calls test m.0
logged_count test before after m b a =
    rw b (count_calls-append test m.0 (info after ∷ []) ∙ rw a (omega arith))

deferred_stops :
    (w : ProfileWorld) (seconds : ℕ)
    → count_calls is_stop_cpu (with_deferred stop_cpu (profile_body w seconds)).0
      ≡ (if is_done w.started then 1 else 0)
unfolding profile_body
deferred_stops w seconds = elim (Reply-cases w.started) [
  | inr (x, e) ↦ rw e refl
  | inl (u, e) ↦ rw e (elim (Reply-cases (w.sends 0)) [
    | inr (x, f) ↦ rw f refl
    | inl (v, f) ↦ rw f (elim (Option-cases w.cancelled) [
      | inl (x, g) ↦ rw g refl
      | inr g ↦
          rw g (let (same, count) = profile_rest_no_stop w false in rw same (omega (arith, count)))
    ])
  ])
]

-- The CPU profile is stopped exactly once where it was started, and not otherwise, whatever the
-- stream, the context and the profile do.
pub run_cpu_profile_stops :
    (w : ProfileWorld) (seconds : ℕ)
    → count_calls is_stop_cpu (run_cpu_profile w seconds).0 ≡ (if is_done w.started then 1 else 0)
unfolding run_cpu_profile
run_cpu_profile_stops w seconds =
    logged_count is_stop_cpu "starting CPU profile" "CPU profile complete"
      (with_deferred stop_cpu (profile_body w seconds)) refl refl
    ∙ deferred_stops w seconds

-- Whether runExecutionTrace reaches the line that defers `trace.Stop`.
abbrev pub defers_stop : TraceWorld → Bool
defers_stop w = is_done w.started && (is_done w.boot && is_done w.start_sent)

deferred_trace_stops :
    (started : Reply (Unit {0})) (boot : Reply ℕ) (start_sent : Reply (Unit {0})) (end : TraceEnd)
    (seconds : ℕ)
    → let w : TraceWorld = record {
      started = started;
      boot = boot;
      start_sent = start_sent;
      end = end;
    } in
      count_calls is_stop_trace (with_deferred stop_trace (trace_body w seconds)).0
      ≡ (if defers_stop w then 1 else 0)
unfolding trace_body trace_select
deferred_trace_stops (failed x) boot start_sent end seconds = refl
deferred_trace_stops (done u) (failed x) start_sent end seconds = refl
deferred_trace_stops (done u) (done b) (failed x) end seconds = refl
deferred_trace_stops (done u) (done b) (done v) (cancelled_by e) seconds = refl
deferred_trace_stops (done u) (done b) (done v) (reader_failed e) seconds = refl
deferred_trace_stops (done u) (done b) (done v) (timed_out (done r)) seconds = refl
deferred_trace_stops (done u) (done b) (done v) (timed_out (failed e)) seconds = refl

-- The execution trace is stopped once where it was started, the boot time is known and the first
-- message was sent. Where it was started and one of the other two fails, it is never stopped.
pub run_execution_trace_stops :
    (w : TraceWorld) (seconds : ℕ)
    → count_calls is_stop_trace (run_execution_trace w seconds).0 ≡ (if defers_stop w then 1 else 0)
unfolding run_execution_trace
run_execution_trace_stops w seconds =
    logged_count is_stop_trace "starting execution trace" "execution trace complete"
      (with_deferred stop_trace (trace_body w seconds)) refl refl
    ∙ deferred_trace_stops w.started w.boot w.start_sent w.end seconds
