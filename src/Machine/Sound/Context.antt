-- ===== src/Machine/Sound/Context.antt =====
-- The operation of `Machine.Context` is sound.
use side_eye_go.Prelude.{ℕ, List, Keeps, refl}
use side_eye_go.Memory.{Process}
use side_eye_go.Framing.{QueueEntry}
use side_eye_go.Program.{SnapshotProgram, GoContextImpl, GoContextValueType}
use side_eye_go.OutBuf.Bounds.{
  load-Fits, store-Fits, zero_range-Fits, copy-Fits, ensure_len-Fits, truncate-Fits,
  get_entry_len-Fits, prepare_frame_data-Fits, conclude_frame_data-Fits, reserve_queue_entry-Fits,
  dereference-Fits, write_queue_entry-Fits,
}
use side_eye_go.OpDecoder.Keeps.{decoder_rules}
use side_eye_go.Queue.Inv.{push-Keeps, should_record-Keeps}
use side_eye_go.Machine.State.{set_offset_to}
use side_eye_go.Prelude.{modify, Keeps-bind, Keeps-get, Keeps-choose, Keeps-pure}
use side_eye_go.Machine.Sound.{modify-Sound}
use side_eye_go.Machine.Sound.{
  Sound, machine_rules, top-Sound, push_value-Sound, pop_value-Sound, set_top-Sound,
}
use side_eye_go.Prelude.{zero, suc}
use side_eye_go.Machine.Sound.Enqueue.{word_behind-Sound, resolve_empty_interface-Sound}
use side_eye_go.Machine.Enqueue.{ResolvedAnyType}
use side_eye_go.Machine.Context.{
  move_forward, move_back, record_go_context_value, resolve_any_type, resolve_at, record_by_value,
  record_key, record_by_key, record_value, context_type, context_round, context_loop,
  op_prepare_go_context,
}

ruleset op_rules = (
  machine_rules, decoder_rules, top-Sound, push_value-Sound, pop_value-Sound, set_top-Sound,
  push-Keeps, should_record-Keeps, load-Fits, store-Fits, zero_range-Fits, copy-Fits,
  ensure_len-Fits, truncate-Fits, get_entry_len-Fits, prepare_frame_data-Fits,
  conclude_frame_data-Fits, reserve_queue_entry-Fits, dereference-Fits, write_queue_entry-Fits,
  refl,
)

module _ {c : ℕ} {prog : List ℕ} {handed : List QueueEntry} where
  move_forward-Sound : (k : ℕ) → Keeps (Sound c prog handed) (move_forward k)
  unfolding move_forward set_offset_to modify
  move_forward-Sound k = search (op_rules) depth 16

  move_back-Sound : (k : ℕ) → Keeps (Sound c prog handed) (move_back k)
  unfolding move_back set_offset_to modify
  move_back-Sound k = search (op_rules) depth 16

  record_go_context_value-Sound :
      (spec : GoContextValueType) (value : ResolvedAnyType) (expected : ℕ)
      → Keeps (Sound c prog handed) (record_go_context_value spec value expected)
  unfolding record_go_context_value set_offset_to modify
  record_go_context_value-Sound spec value expected = Keeps-bind _ _ Keeps-get λ s.
      Keeps-choose _ _ _ (λ e. Keeps-pure _)
        λ e. Keeps-bind _ _ (modify-Sound _ λ s. (refl, refl, refl)) λ u. search op_rules depth 20

  resolve_any_type-Sound :
      (p : Process) (program : SnapshotProgram)
      → Keeps (Sound c prog handed) (resolve_any_type p program)
  unfolding resolve_any_type set_offset_to modify
  resolve_any_type-Sound p program = search (op_rules, resolve_empty_interface-Sound) depth 24

  resolve_at-Sound :
      (p : Process) (program : SnapshotProgram) (k : ℕ)
      → Keeps (Sound c prog handed) (resolve_at p program k)
  unfolding resolve_at set_offset_to modify
  resolve_at-Sound p program k =
      search (op_rules, move_forward-Sound, move_back-Sound, resolve_any_type-Sound) depth 16

  record_by_value-Sound : (v : ResolvedAnyType) → Keeps (Sound c prog handed) (record_by_value v)
  unfolding record_by_value set_offset_to modify
  record_by_value-Sound v = search (op_rules, record_go_context_value-Sound) depth 16

  record_key-Sound :
      (v : ResolvedAnyType) (k : ResolvedAnyType) → Keeps (Sound c prog handed) (record_key v k)
  unfolding record_key set_offset_to modify
  record_key-Sound v k = search (op_rules, record_go_context_value-Sound) depth 16

  record_by_key-Sound :
      (p : Process) (program : SnapshotProgram) (impl : GoContextImpl) (v : ResolvedAnyType)
      → Keeps (Sound c prog handed) (record_by_key p program impl v)
  unfolding record_by_key set_offset_to modify
  record_by_key-Sound p program impl v =
      search (op_rules, resolve_at-Sound, record_key-Sound) depth 16

  record_value-Sound :
      (p : Process) (program : SnapshotProgram) (impl : GoContextImpl)
      → Keeps (Sound c prog handed) (record_value p program impl)
  unfolding record_value set_offset_to modify
  record_value-Sound p program impl =
      search (op_rules, resolve_at-Sound, record_by_value-Sound, record_by_key-Sound) depth 16

  context_type-Sound :
      (p : Process) (program : SnapshotProgram) (itab : ℕ)
      → Keeps (Sound c prog handed) (context_type p program itab)
  unfolding context_type set_offset_to modify
  context_type-Sound p program itab = search (op_rules, word_behind-Sound) depth 30

  context_round-Sound :
      (p : Process) (program : SnapshotProgram)
      → Keeps (Sound c prog handed) (context_round p program)
  unfolding context_round set_offset_to modify
  context_round-Sound p program =
      search
        (op_rules, word_behind-Sound, context_type-Sound, record_value-Sound, move_forward-Sound)
        depth 30

  context_loop-Sound :
      (p : Process) (program : SnapshotProgram) (fuel : ℕ)
      → Keeps (Sound c prog handed) (context_loop p program fuel)
  unfolding context_loop
  context_loop-Sound p program zero = search op_rules
  context_loop-Sound p program (suc fuel) =
      let again : Keeps (Sound c prog handed) (context_loop p program fuel) =
        context_loop-Sound p program fuel in
      Keeps-bind _ _ Keeps-get λ s.
        Keeps-choose _ _ _ (λ e. Keeps-pure _)
          λ e.
            Keeps-bind _ _ (context_round-Sound p program)
              λ more. Keeps-choose more _ _ (λ e. again) (λ e. Keeps-pure _)

  pub op_prepare_go_context-Sound :
      (p : Process) (program : SnapshotProgram) (fuel : ℕ)
      → Keeps (Sound c prog handed) (op_prepare_go_context p program fuel)
  unfolding op_prepare_go_context set_offset_to modify
  op_prepare_go_context-Sound p program fuel = Keeps-bind _ _ (search op_rules) λ c.
      Keeps-bind _ _ (word_behind-Sound 8) λ data_ptr. Keeps-bind _ _ (search op_rules) λ fresh.
        Keeps-choose _ _ _
          (λ e. Keeps-bind _ _ (search op_rules) λ w.
            Keeps-choose _ _ _
              (λ e. Keeps-bind _ _ (search op_rules) λ u.
                Keeps-bind _ _ (modify-Sound _ λ s. (refl, refl, refl))
                  λ u. search (op_rules, context_loop-Sound) depth 20)
              (λ e. Keeps-pure _))
          (λ e. Keeps-pure _)
