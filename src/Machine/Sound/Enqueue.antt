-- ===== src/Machine/Sound/Enqueue.antt =====
-- The operations of `Machine.Enqueue` are sound.
use side_eye_go.Prelude.{ℕ, List, Keeps, refl}
use side_eye_go.Memory.{Process}
use side_eye_go.Framing.{QueueEntry}
use side_eye_go.Program.{SnapshotProgram}
use side_eye_go.OutBuf.Bounds.{
  load-Fits, store-Fits, zero_range-Fits, copy-Fits, ensure_len-Fits, truncate-Fits,
  get_entry_len-Fits, prepare_frame_data-Fits, conclude_frame_data-Fits, reserve_queue_entry-Fits,
  dereference-Fits, write_queue_entry-Fits,
}
use side_eye_go.OpDecoder.Keeps.{decoder_rules}
use side_eye_go.Queue.Inv.{push-Keeps, should_record-Keeps}
use side_eye_go.Machine.State.{set_offset_to}
use side_eye_go.Prelude.{modify}
use side_eye_go.Machine.Sound.{
  Sound, machine_rules, top-Sound, push_value-Sound, pop_value-Sound, set_top-Sound,
}
use side_eye_go.Machine.Enqueue.{
  field_at, word_behind, set_word, resolve_empty_interface, op_enqueue_empty_interface,
  op_enqueue_interface, op_enqueue_subroutine, op_enqueue_pointer, op_enqueue_slice_header,
  op_enqueue_string_header, op_enqueue_hmap_header, op_enqueue_swiss_map,
  op_enqueue_swiss_map_groups,
}

ruleset op_rules = (
  machine_rules, decoder_rules, top-Sound, push_value-Sound, pop_value-Sound, set_top-Sound,
  push-Keeps, should_record-Keeps, load-Fits, store-Fits, zero_range-Fits, copy-Fits,
  ensure_len-Fits, truncate-Fits, get_entry_len-Fits, prepare_frame_data-Fits,
  conclude_frame_data-Fits, reserve_queue_entry-Fits, dereference-Fits, write_queue_entry-Fits,
  refl,
)

module _ {c : ℕ} {prog : List ℕ} {handed : List QueueEntry} where
  pub field_at-Sound : (w : ℕ) (k : ℕ) → Keeps (Sound c prog handed) (field_at w k)
  unfolding field_at set_offset_to modify
  field_at-Sound w k = search (op_rules) depth 16

  pub word_behind-Sound : (k : ℕ) → Keeps (Sound c prog handed) (word_behind k)
  unfolding word_behind set_offset_to modify
  word_behind-Sound k = search (op_rules) depth 16

  pub set_word-Sound : (v : ℕ) → Keeps (Sound c prog handed) (set_word v)
  unfolding set_word set_offset_to modify
  set_word-Sound v = search (op_rules) depth 16

  pub resolve_empty_interface-Sound :
      (p : Process) (program : SnapshotProgram)
      → Keeps (Sound c prog handed) (resolve_empty_interface p program)
  unfolding resolve_empty_interface set_offset_to modify
  resolve_empty_interface-Sound p program =
      search (op_rules, field_at-Sound, word_behind-Sound, set_word-Sound) depth 16

  pub op_enqueue_empty_interface-Sound :
      (p : Process) (program : SnapshotProgram)
      → Keeps (Sound c prog handed) (op_enqueue_empty_interface p program)
  unfolding op_enqueue_empty_interface set_offset_to modify
  op_enqueue_empty_interface-Sound p program =
      search
        (op_rules, field_at-Sound, word_behind-Sound, set_word-Sound, resolve_empty_interface-Sound)
        depth 24

  pub op_enqueue_interface-Sound :
      (p : Process) (program : SnapshotProgram)
      → Keeps (Sound c prog handed) (op_enqueue_interface p program)
  unfolding op_enqueue_interface set_offset_to modify
  op_enqueue_interface-Sound p program =
      search (op_rules, field_at-Sound, word_behind-Sound, set_word-Sound) depth 24

  pub op_enqueue_subroutine-Sound :
      (p : Process) (program : SnapshotProgram)
      → Keeps (Sound c prog handed) (op_enqueue_subroutine p program)
  unfolding op_enqueue_subroutine set_offset_to modify
  op_enqueue_subroutine-Sound p program =
      search (op_rules, field_at-Sound, word_behind-Sound, set_word-Sound) depth 30

  pub op_enqueue_pointer-Sound : Keeps (Sound c prog handed) (op_enqueue_pointer)
  unfolding op_enqueue_pointer set_offset_to modify
  op_enqueue_pointer-Sound =
      search (op_rules, field_at-Sound, word_behind-Sound, set_word-Sound) depth 24

  pub op_enqueue_slice_header-Sound : Keeps (Sound c prog handed) (op_enqueue_slice_header)
  unfolding op_enqueue_slice_header set_offset_to modify
  op_enqueue_slice_header-Sound =
      search (op_rules, field_at-Sound, word_behind-Sound, set_word-Sound) depth 24

  pub op_enqueue_string_header-Sound : Keeps (Sound c prog handed) (op_enqueue_string_header)
  unfolding op_enqueue_string_header set_offset_to modify
  op_enqueue_string_header-Sound =
      search (op_rules, field_at-Sound, word_behind-Sound, set_word-Sound) depth 24

  pub op_enqueue_hmap_header-Sound : Keeps (Sound c prog handed) (op_enqueue_hmap_header)
  unfolding op_enqueue_hmap_header set_offset_to modify
  op_enqueue_hmap_header-Sound =
      search (op_rules, field_at-Sound, word_behind-Sound, set_word-Sound) depth 24

  pub op_enqueue_swiss_map-Sound : Keeps (Sound c prog handed) (op_enqueue_swiss_map)
  unfolding op_enqueue_swiss_map set_offset_to modify
  op_enqueue_swiss_map-Sound =
      search (op_rules, field_at-Sound, word_behind-Sound, set_word-Sound) depth 24

  pub op_enqueue_swiss_map_groups-Sound : Keeps (Sound c prog handed) (op_enqueue_swiss_map_groups)
  unfolding op_enqueue_swiss_map_groups set_offset_to modify
  op_enqueue_swiss_map_groups-Sound =
      search (op_rules, field_at-Sound, word_behind-Sound, set_word-Sound) depth 24
