-- ===== src/Snapshotter/Held.antt =====
-- What a round of processQueue of internal/snapshot/snapshot.go keeps besides what it has popped: the
-- entries that the queue has handed out.
use side_eye_go.Prelude.{
  ℕ, List, M, Keeps, Keeps-zoom, Keeps-bind, Keeps-modify, Keeps-pure, Keeps-choose, keeps_rules,
}
use side_eye_go.Framing.{QueueEntry}
use side_eye_go.Program.{TypeInfo}
use side_eye_go.OutBuf.Bounds.{write_queue_entry-Fits}
use side_eye_go.Machine.State.{Machine}
use side_eye_go.Machine.Sound.{Sound, on_buf-Sound}
use side_eye_go.Machine.Sound.Run.{run-Keeps}
use side_eye_go.Snapshotter.{Snapshotter, Target, on_machine}
use side_eye_go.Snapshotter.Pointers.{chase, process_entry}

-- A sound machine, whose queue has handed out the entries.
abbrev pub Held : ℕ → List ℕ → List QueueEntry → Snapshotter → Type 0
Held c prog handed s = Sound c prog handed s.sm

module _ {c : ℕ} {prog : List ℕ} {handed : List QueueEntry} where
  on_machine-Held :
      {A : Type 0} (m : M Machine A)
      → Keeps (Sound c prog handed) m
      → Keeps (Held c prog handed) (on_machine m)
  unfolding on_machine
  on_machine-Held m k = Keeps-zoom (Sound c prog handed) _ _ m (λ s h. h) (λ s t h f. f) k

  chased-Held :
      (entry : QueueEntry) (s : Snapshotter)
      → Held c prog handed s
      → Held c prog handed (record s { sm = record s.sm { chased_entry = entry } })
  chased-Held entry s h = record { buffer = h.buffer; program = h.program; queue = h.queue }

ruleset held_rules = (keeps_rules, on_machine-Held, on_buf-Sound, run-Keeps, write_queue_entry-Fits)

module _ {c : ℕ} {prog : List ℕ} {handed : List QueueEntry} (t : Target) where
  chase-Held :
      (entry : QueueEntry) (ti : TypeInfo) (offset : ℕ)
      → Keeps (Held c prog handed) (chase t entry ti offset)
  unfolding chase
  chase-Held entry ti offset =
      Keeps-choose _ _ _ (λ e. Keeps-pure tt)
        λ e.
          Keeps-bind _ _ (Keeps-modify _ λ s h. chased-Held entry s h)
            λ u. Keeps-bind _ _ (on_machine-Held _ (run-Keeps _ 0 offset)) λ done. Keeps-pure tt

  pub process_entry-Held :
      (popped : QueueEntry) (ti : TypeInfo) → Keeps (Held c prog handed) (process_entry t popped ti)
  unfolding process_entry
  process_entry-Held popped ti = search (held_rules, chase-Held) depth 20
