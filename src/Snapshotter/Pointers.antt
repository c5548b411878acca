-- ===== src/Snapshotter/Pointers.antt =====
-- The queue of pointers: processQueue of internal/snapshot/snapshot.go.
use side_eye_go.Prelude.{ℕ, zero, suc, ◌==◌, if◌then◌else◌, ltb}
use side_eye_go.Prelude.{M, stuck, pure, stop, get, modify, choose, on_option, ◌>>=◌, ◌>>◌}
use side_eye_go.Framing.{QueueEntry}
use side_eye_go.Program.{TypeInfo}
use side_eye_go.OutBuf
use side_eye_go.OutBuf.{OutBuf, load, store}
use side_eye_go.OutBuf.Framed.{write_queue_entry}
use side_eye_go.Queue
use side_eye_go.Machine.State.{on_buf, on_queue}
use side_eye_go.Machine.Run.{run}
use side_eye_go.Snapshotter.{Snapshotter, Target, on_machine, env_at}

-- What is read of an entry: its own length, at most its type's.
unfoldable pub entry_len : ℕ → ℕ → ℕ
entry_len len byte_len =
    let given = if len == 0 then byte_len else len in if ltb byte_len given then byte_len else given

module _ (t : Target) where
  open t use {process, program}

  unfoldable pub chase : QueueEntry → TypeInfo → ℕ → M Snapshotter (Unit {0})
  chase entry ti offset = choose (ti.enqueue_pc == 0) (pure tt) (do
    modify (λ s. record s { sm = record s.sm { chased_entry = entry } })
    done ← on_machine (run (env_at t ti.enqueue_pc 0) 0 offset)
    pure tt)

  -- The body of the loop of `processQueue` behind the look-up of the type.
  unfoldable pub process_entry : QueueEntry → TypeInfo → M Snapshotter (Unit {0})
  process_entry popped ti =
      let entry : QueueEntry = record popped { len = entry_len popped.len ti.byte_len } in
      choose (entry.len == 0) (pure tt) (
        choose ti.serialize_before_enqueue
          (do
            (offset, done) ← on_machine (on_buf (write_queue_entry process entry))
            choose done (chase entry ti offset) (pure tt))
          (chase entry ti 0))

  -- The loop of `processQueue`, with `rest` in place of the round behind the last one that the fuel
  -- is enough for.
  unfoldable pub drain : M Snapshotter (Unit {0}) → ℕ → M Snapshotter (Unit {0})
  drain rest zero = rest
  drain rest (suc fuel) = do
    s ← get
    choose (OutBuf.full s.sm.b) (pure tt) (do
      front ← on_machine (on_queue Queue.pop)
      on_option front (pure tt) (λ entry. do
        on_option (program.type_info entry.type_id) (pure tt) (λ ti. process_entry entry ti)
        drain rest fuel))

  -- `stuck` says that the fuel ran out.
  unfoldable pub process_queue : ℕ → M Snapshotter (Unit {0})
  unfolding drain
  process_queue fuel = drain (stop stuck) fuel
