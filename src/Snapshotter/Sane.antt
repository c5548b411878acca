-- ===== src/Snapshotter/Sane.antt =====
-- The invariant of the snapshotter of internal/snapshot/snapshot.go.
use side_eye_go.Prelude.{
  ℕ, zero, suc, ◌+◌, List, [], ◌∷◌, M, Keeps, Keeps-zoom, Keeps-bind, Keeps-modify, Keeps-pure,
  Keeps-stop, Keeps-demand, Keeps-get, Keeps-choose, Keeps-option, keeps_rules, Returns, Result, ok,
  trap, arith, modify, stop, stuck,
}
use side_eye_go.Memory.{Process}
use side_eye_go.Framing.{QueueEntry}
use side_eye_go.Program.{PcClassifier, TypeInfo}
use side_eye_go.OutBuf.{OutBuf}
use side_eye_go.OutBuf.Bounds.{
  Fits, load-Fits, store-Fits, write_goroutine_header-Fits, write_stack-Fits,
  write_queue_entry-Fits,
}
use side_eye_go.Queue
use side_eye_go.Queue.{Queue}
use side_eye_go.Queue.Inv.{Valid, pop-Keeps}
use side_eye_go.Machine.State.{Machine, on_buf, on_queue}
use side_eye_go.Machine.Run.{Env, run}
use side_eye_go.Machine.Sound.{Sound, on_buf-Sound}
use side_eye_go.Machine.Sound.Run.{run-Keeps}
use side_eye_go.Snapshotter.Held.{Held, process_entry-Held}
use side_eye_go.Snapshotter.{
  Snapshotter, FrameOfInterest, Target, on_machine, read_field, remember_stack, count_at, classify,
  run_frames, frames_for, fill_header, snapshot_live, snapshot_goroutine,
}
use side_eye_go.Snapshotter.Pointers.{process_entry, drain, process_queue}

-- A machine that is sound, whatever its queue has handed out.
pub record SaneMachine (c : ℕ) (prog : List ℕ) (m : Machine) : Type 0 where
  pub handed : List QueueEntry
  pub sound : Sound c prog handed m

abbrev pub Sane : ℕ → List ℕ → Snapshotter → Type 0
Sane c prog s = SaneMachine c prog s.sm

pub any_handed :
    {A : Type 0} (c : ℕ) (prog : List ℕ) (handed : List QueueEntry) (r : Result (A × Machine))
    → Returns (λ a m. Sound c prog handed m) r
    → Returns (λ a m. SaneMachine c prog m) r
any_handed c prog handed (ok (a, m)) h = record { handed = handed; sound = h }
any_handed c prog handed (trap t) h = tt

any_round :
    {A : Type 0} (c : ℕ) (prog : List ℕ) (handed : List QueueEntry) (r : Result (A × Snapshotter))
    → Returns (λ a s. Held c prog handed s) r
    → Returns (λ a s. Sane c prog s) r
any_round c prog handed (ok (a, s)) h = record { handed = handed; sound = h }
any_round c prog handed (trap t) h = tt

fill_header-Fits :
    {c : ℕ} (header goid hash status bytes len : ℕ)
    → Keeps (Fits c) (fill_header header goid hash status bytes len)
unfolding fill_header
fill_header-Fits header goid hash status bytes len = search (keeps_rules, store-Fits) depth 16

module _ {c : ℕ} {prog : List ℕ} where
  pub on_machine-Sane :
      {A : Type 0} (m : M Machine A)
      → Keeps (SaneMachine c prog) m
      → Keeps (Sane c prog) (on_machine m)
  unfolding on_machine
  on_machine-Sane m k = Keeps-zoom (SaneMachine c prog) _ _ m (λ s h. h) (λ s t h f. f) k

  pub on_buf-Sane :
      {A : Type 0} (m : M OutBuf A) → Keeps (Fits c) m → Keeps (SaneMachine c prog) (on_buf m)
  on_buf-Sane m k = record {
    at = λ s h. any_handed c prog h.handed (on_buf m s) ((on_buf-Sound m k).at s h.sound);
  }

  run-Sane : (env : Env) (cfa offset : ℕ) → Keeps (SaneMachine c prog) (run env cfa offset)
  run-Sane env cfa offset = record {
    at = λ s h.
        any_handed c prog h.handed (run env cfa offset s) ((run-Keeps env cfa offset).at s h.sound);
  }

  pop-Sane : Keeps (SaneMachine c prog) (on_queue Queue.pop)
  unfolding on_queue
  pop-Sane =
      Keeps-zoom Valid _ _ Queue.pop (λ s h. record { handed = h.handed; inv = h.sound.queue })
        (λ s t h v. record {
          handed = v.handed;
          sound = record { buffer = h.sound.buffer; program = h.sound.program; queue = v.inv };
        })
        pop-Keeps

  pub read_field-Sane : (p : Process) (k addr : ℕ) → Keeps (Sane c prog) (read_field p k addr)
  unfolding read_field
  read_field-Sane p k addr = record { at = λ s h. ground arith }

  remember-Sane :
      (hash : ℕ) (frames : List FrameOfInterest)
      → Keeps (Sane c prog) (modify (remember_stack hash frames))
  unfolding remember_stack
  remember-Sane hash frames = Keeps-modify _ λ s h. h

ruleset sane_rules = (
  keeps_rules, on_machine-Sane, on_buf-Sane, run-Sane, pop-Sane, read_field-Sane, remember-Sane,
  load-Fits, store-Fits, write_goroutine_header-Fits, write_stack-Fits, write_queue_entry-Fits,
)

module _ {c : ℕ} {prog : List ℕ} where
  count_at-Sane : (offset : ℕ) → Keeps (Sane c prog) (count_at offset)
  unfolding count_at
  count_at-Sane offset = on_machine-Sane _ (
      Keeps-bind _ _ (on_buf-Sane _ (load-Fits 4 offset))
        λ n. on_buf-Sane _ (store-Fits 4 offset _))

  classify-Sane :
      (pcs : PcClassifier) (i : ℕ) (stack : List ℕ) → Keeps (Sane c prog) (classify pcs i stack)
  unfolding classify
  classify-Sane pcs i [] = Keeps-pure []
  classify-Sane pcs i (pc ∷ stack) =
      Keeps-bind _ _ (classify-Sane pcs (i + 1) stack) λ rest. search keeps_rules depth 10

  module _ (t : Target) where
    run_frames-Sane :
        (frames : List FrameOfInterest) (fps : List ℕ)
        → Keeps (Sane c prog) (run_frames t frames fps)
    unfolding run_frames
    run_frames-Sane [] fps = Keeps-pure tt
    run_frames-Sane (foi ∷ frames) fps =
        let rest : Keeps (Sane c prog) (run_frames t frames fps) = run_frames-Sane frames fps in
        Keeps-bind _ _ (Keeps-demand _) λ fp. Keeps-bind _ _ Keeps-get λ s.
          Keeps-bind _ _ (on_machine-Sane _ (run-Sane _ fp _))
            λ done. Keeps-choose done _ _ (λ e. rest) (λ e. Keeps-pure tt)

    frames_for-Sane : (hash : ℕ) (pcs : List ℕ) → Keeps (Sane c prog) (frames_for t hash pcs)
    unfolding frames_for
    frames_for-Sane hash pcs = search (sane_rules, classify-Sane) depth 20

    snapshot_live-Sane : (g status : ℕ) → Keeps (Sane c prog) (snapshot_live t g status)
    unfolding snapshot_live
    snapshot_live-Sane g status =
        search (sane_rules, frames_for-Sane, run_frames-Sane, fill_header-Fits) depth 30

    pub snapshot_goroutine-Keeps :
        (header g : ℕ) → Keeps (Sane c prog) (snapshot_goroutine t header g)
    unfolding snapshot_goroutine
    snapshot_goroutine-Keeps header g =
        search (sane_rules, count_at-Sane, snapshot_live-Sane) depth 20

    process_entry-Sane :
        (popped : QueueEntry) (ti : TypeInfo) → Keeps (Sane c prog) (process_entry t popped ti)
    process_entry-Sane popped ti = record {
      at = λ s h.
          any_round c prog h.handed (process_entry t popped ti s)
            ((process_entry-Held t popped ti).at s h.sound);
    }

    drain-Sane :
        (rest : M Snapshotter (Unit {0})) (fuel : ℕ)
        → Keeps (Sane c prog) rest
        → Keeps (Sane c prog) (drain t rest fuel)
    unfolding drain
    drain-Sane rest zero k = k
    drain-Sane rest (suc fuel) k = Keeps-bind _ _ Keeps-get λ s.
        Keeps-choose _ _ _ (λ e. Keeps-pure tt)
          λ e. Keeps-bind _ _ (on_machine-Sane _ pop-Sane) λ front.
            Keeps-option front _ _ (Keeps-pure tt) λ entry.
              Keeps-bind _ _ (Keeps-option _ _ _ (Keeps-pure tt) λ ti. process_entry-Sane entry ti)
                λ u. drain-Sane rest fuel k

    pub process_queue-Keeps : (fuel : ℕ) → Keeps (Sane c prog) (process_queue t fuel)
    unfolding process_queue
    process_queue-Keeps fuel = drain-Sane (stop stuck) fuel (Keeps-stop stuck)
