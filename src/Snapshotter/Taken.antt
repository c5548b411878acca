-- ===== src/Snapshotter/Taken.antt =====
-- The invariant of Snapshot of internal/snapshot/snapshot.go, up to its conclusion.
use side_eye_go.Prelude.{
  ℕ, zero, suc, List, [], ◌∷◌, Keeps, Keeps-bind, Keeps-modify, Keeps-pure, keeps_rules, Option,
}
use side_eye_go.OutBuf.Bounds.{store-Fits, truncate-Fits, write_snapshot_header-Fits}
use side_eye_go.Queue
use side_eye_go.Queue.Inv.{push-Keeps}
use side_eye_go.Machine.State.{on_queue}
use side_eye_go.Machine.Sound.{on_queue-Sound}
use side_eye_go.Snapshotter.{Snapshotter, Target, StaticVariable}
use side_eye_go.Snapshotter.Sane.{
  SaneMachine, Sane, any_handed, on_machine-Sane, on_buf-Sane, read_field-Sane,
  snapshot_goroutine-Keeps, process_queue-Keeps,
}
use side_eye_go.Snapshotter.Take.{Durations, push_statics, record_goroutine, iterate, stopped}

module _ {c : ℕ} {prog : List ℕ} where
  push-Sane : (addr t len : ℕ) → Keeps (SaneMachine c prog) (on_queue (Queue.push addr t len))
  push-Sane addr t len = record {
    at = λ s h.
        any_handed c prog h.handed (on_queue (Queue.push addr t len) s)
          ((on_queue-Sound (Queue.push addr t len) (push-Keeps addr t len)).at s h.sound);
  }

  push_statics-Sane :
      (shift : ℕ) (vs : List StaticVariable) → Keeps (Sane c prog) (push_statics shift vs)
  unfolding push_statics
  push_statics-Sane shift [] = Keeps-pure tt
  push_statics-Sane shift (v ∷ vs) =
      let rest : Keeps (Sane c prog) (push_statics shift vs) = push_statics-Sane shift vs in
      Keeps-bind _ _ (on_machine-Sane _ (push-Sane _ _ _)) λ u. rest

  shift-Sane :
      (shift : Option ℕ) (s : Snapshotter)
      → Sane c prog s
      → Sane c prog (record s { sm = record s.sm { bss_addr_shift = shift } })
  shift-Sane shift s h = record {
    handed = h.handed;
    sound = record { buffer = h.sound.buffer; program = h.sound.program; queue = h.sound.queue };
  }

ruleset take_rules = (
  keeps_rules, on_machine-Sane, on_buf-Sane, read_field-Sane, store-Fits, truncate-Fits,
  write_snapshot_header-Fits, snapshot_goroutine-Keeps, process_queue-Keeps, push_statics-Sane,
)

module _ {c : ℕ} {prog : List ℕ} (t : Target) (first_moduledata : ℕ) where
  record_goroutine-Sane :
      (header g : ℕ) → Keeps (Sane c prog) (record_goroutine t first_moduledata header g)
  unfolding record_goroutine
  record_goroutine-Sane header g = search take_rules depth 20

  iterate-Sane :
      (header n addr : ℕ) → Keeps (Sane c prog) (iterate t first_moduledata header n addr)
  unfolding iterate
  iterate-Sane header zero addr = Keeps-pure tt
  iterate-Sane header (suc n) addr =
      Keeps-bind _ _ (read_field-Sane t.process 8 addr)
        λ g. Keeps-bind _ _ (record_goroutine-Sane header g) λ u. iterate-Sane header n _

  pub stopped-Sane :
      (fuel header : ℕ) (d : Durations)
      → Keeps (Sane c prog) (stopped t first_moduledata fuel header d)
  unfolding stopped
  stopped-Sane fuel header d = Keeps-bind _ _ (read_field-Sane t.process 8 _) λ bss_addr.
      Keeps-bind _ _ (Keeps-modify _ λ s h. shift-Sane _ s h)
        λ u. search (take_rules, iterate-Sane) depth 30
