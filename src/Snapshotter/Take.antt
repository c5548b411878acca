-- ===== src/Snapshotter/Take.antt =====
-- `Snapshot` of internal/snapshot/snapshot.go, with the iteration of internal/allgs/traceback.go.
-- A read of the process that faults ends the run as a trap: the source comes back from it through
-- the signal handler with an error. The durations are arguments.
use side_eye_go.Prelude.{
  ℕ, zero, suc, ◌+◌, ◌||◌, List, [], ◌∷◌, some, ◌==◌, ltb, add64, sub64, sub32,
}
use side_eye_go.Prelude.{M, pure, get, modify, choose, ◌>>=◌, ◌>>◌}
use side_eye_go.Framing.{snapshot_header_size}
use side_eye_go.OutBuf
use side_eye_go.OutBuf.{store, truncate}
use side_eye_go.OutBuf.Framed.{write_snapshot_header}
use side_eye_go.Queue
use side_eye_go.Machine.State.{on_buf, on_queue}
use side_eye_go.Snapshotter.{
  Snapshotter, Target, StaticVariable, on_machine, read_field, snapshot_goroutine,
}
use side_eye_go.Snapshotter.Pointers.{process_queue}

-- The times that the source measures, in nanoseconds.
pub record Durations : Type 0 where
  pub stacks : ℕ
  pub pointers : ℕ
  pub total : ℕ

pub data Outcome : Type 0 where
  no_header no_goroutines : Outcome
  taken : (bss_addr_shift : ℕ) → Outcome

-- `s.queue.Push(…)` for each static variable.
unfoldable pub push_statics : ℕ → List StaticVariable → M Snapshotter (Unit {0})
push_statics shift [] = pure tt
push_statics shift (v ∷ vs) = do
  on_machine (on_queue (Queue.push (add64 v.address shift) v.type_id 0))
  push_statics shift vs

module _ (t : Target) (first_moduledata : ℕ) where
  open t use {process, config}

  -- The function that `Iterate` calls. A goroutine that does not fit is taken back.
  unfoldable pub record_goroutine : ℕ → ℕ → M Snapshotter (Unit {0})
  record_goroutine header g = do
    s ← get
    let before = OutBuf.len_of s.sm.b
    snapshot_goroutine t header g
    s' ← get
    choose (OutBuf.full s'.sm.b) (on_machine (on_buf (truncate before))) (pure tt)

  -- `Iterate` with `n` pointers left in the slice, from an address on.
  unfoldable pub iterate : ℕ → ℕ → ℕ → M Snapshotter (Unit {0})
  iterate header zero addr = pure tt
  iterate header (suc n) addr = do
    g ← read_field process 8 addr
    record_goroutine header g
    iterate header n (add64 addr 8)

  -- What runs while the world is stopped.
  unfoldable pub stopped : ℕ → ℕ → Durations → M Snapshotter Outcome
  stopped fuel header d = do
    bss_addr ← read_field process 8 (add64 first_moduledata config.moduledata_bss_offset)
    let shift = sub64 bss_addr config.go_runtime_bss_address
    modify (λ s. record s { sm = record s.sm { bss_addr_shift = some shift } })
    push_statics shift config.static_variables
    choose
        (config.variable_runtime_dot_allgs == 0
          || (config.go_runtime_bss_address == 0
              || ltb config.variable_runtime_dot_allgs config.go_runtime_bss_address))
        (pure no_goroutines)
        (do
          let all_gs = add64 config.variable_runtime_dot_allgs shift
          first ← read_field process 8 all_gs
          count ← read_field process 8 (add64 all_gs 8)
          iterate header count first
          on_machine (on_buf (store 8 (header + 8) d.stacks))
          s ← get
          on_machine
              (on_buf (store 4 (header + 4) (sub32 (OutBuf.len_of s.sm.b) snapshot_header_size)))
          process_queue t fuel
          last_gc ← read_field process 8 (
              add64
                (add64 bss_addr
                  (sub64 config.variable_runtime_dot_memstats config.go_runtime_bss_address))
                config.mstats_last_gc_unix_offset)
          on_machine (on_buf (store 8 (header + 48) last_gc))
          on_machine (on_buf (store 8 (header + 16) d.pointers))
          pure (taken shift))

  -- The end of `Snapshot`, behind `StopTheWorld`.
  unfoldable pub conclude : ℕ → Durations → Outcome → M Snapshotter Outcome
  conclude header d no_header = pure no_header
  conclude header d no_goroutines = pure no_goroutines
  conclude header d (taken shift) = do
    s ← get
    on_machine (on_buf (store 4 header (OutBuf.len_of s.sm.b)))
    on_machine (on_buf (store 8 (header + 24) d.total))
    pure (taken shift)

  -- `Snapshot`, on a new snapshotter and a platform and program that it supports.
  unfoldable pub snapshot : ℕ → Durations → M Snapshotter Outcome
  snapshot fuel d = do
    (header, room) ← on_machine (on_buf write_snapshot_header)
    choose room (do r ← stopped fuel header d; conclude header d r) (pure no_header)
