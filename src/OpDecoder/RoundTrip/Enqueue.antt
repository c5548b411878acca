-- ===== src/OpDecoder/RoundTrip/Enqueue.antt =====
-- The Decode methods of the calls and of the operations that put pointers on the queue.
use side_eye_go.Prelude.{◌+◌, ◌≡◌, arith}
use side_eye_go.Prelude.{ok, ◌>>=◌}
use side_eye_go.OpDecoder.Ops.{
  OpCall, OpCondJump, OpEnqueuePointer, OpEnqueueSliceHeader, OpEnqueueStringHeader,
  OpEnqueueHMapHeader, OpEnqueueSwissMap, OpEnqueueSwissMapGroups,
}
use side_eye_go.OpDecoder.Decode.{
  OpDecoder, advance, decode_call, decode_cond_jump, decode_enqueue_pointer,
  decode_enqueue_slice_header, decode_enqueue_string_header, decode_enqueue_hmap_header,
  decode_enqueue_swiss_map, decode_enqueue_swiss_map_groups,
}
use side_eye_go.OpDecoder.Encoding.{Operands, Fits}
use side_eye_go.OpDecoder.RoundTrip.Readers.{uint32_at_holds, byte_at_holds, first_four, At}

module _ (d : OpDecoder) where
  pub decode_call-encode :
      (o : OpCall)
      → Fits (Operands.call o)
      → At d (Operands.call o)
      → decode_call d ≡ ok (o, record d { pc = d.pc + 4 })
  unfolding decode_call advance ◌>>=◌
  decode_call-encode o f b =
      rw (uint32_at_holds d 0 o.pc (omega arith) f (first_four b.0), decode_call, ◌>>=◌)
        (ground arith)

  pub decode_cond_jump-encode :
      (o : OpCondJump)
      → Fits (Operands.cond_jump o)
      → At d (Operands.cond_jump o)
      → decode_cond_jump d ≡ ok (o, record d { pc = d.pc + 4 })
  unfolding decode_cond_jump advance ◌>>=◌
  decode_cond_jump-encode o f b =
      rw (uint32_at_holds d 0 o.pc (omega arith) f (first_four b.0), decode_cond_jump, ◌>>=◌)
        (ground arith)

  pub decode_enqueue_pointer-encode :
      (o : OpEnqueuePointer)
      → Fits (Operands.enqueue_pointer o)
      → At d (Operands.enqueue_pointer o)
      → decode_enqueue_pointer d ≡ ok (o, record d { pc = d.pc + 4 })
  unfolding decode_enqueue_pointer advance ◌>>=◌
  decode_enqueue_pointer-encode o f b =
      rw
        (
          uint32_at_holds d 0 o.elem_type (omega arith) f (first_four b.0),
          decode_enqueue_pointer,
          ◌>>=◌,
        )
        (ground arith)

  pub decode_enqueue_slice_header-encode :
      (o : OpEnqueueSliceHeader)
      → Fits (Operands.enqueue_slice_header o)
      → At d (Operands.enqueue_slice_header o)
      → decode_enqueue_slice_header d ≡ ok (o, record d { pc = d.pc + 8 })
  unfolding decode_enqueue_slice_header advance ◌>>=◌
  decode_enqueue_slice_header-encode o f b =
      rw
        (
          uint32_at_holds d 0 o.array_type (omega arith) f.0 (first_four b.0),
          uint32_at_holds d 4 o.elem_byte_len (omega arith) f.1 (first_four b.0.1.1.1.1),
          decode_enqueue_slice_header,
          ◌>>=◌,
        )
        (ground arith)

  pub decode_enqueue_string_header-encode :
      (o : OpEnqueueStringHeader)
      → Fits (Operands.enqueue_string_header o)
      → At d (Operands.enqueue_string_header o)
      → decode_enqueue_string_header d ≡ ok (o, record d { pc = d.pc + 4 })
  unfolding decode_enqueue_string_header advance ◌>>=◌
  decode_enqueue_string_header-encode o f b =
      rw
        (
          uint32_at_holds d 0 o.string_data_type (omega arith) f (first_four b.0),
          decode_enqueue_string_header,
          ◌>>=◌,
        )
        (ground arith)

  pub decode_enqueue_hmap_header-encode :
      (o : OpEnqueueHMapHeader)
      → Fits (Operands.enqueue_hmap_header o)
      → At d (Operands.enqueue_hmap_header o)
      → decode_enqueue_hmap_header d ≡ ok (o, record d { pc = d.pc + 12 })
  unfolding decode_enqueue_hmap_header advance ◌>>=◌
  decode_enqueue_hmap_header-encode o f b =
      rw
        (
          uint32_at_holds d 0 o.buckets_array_type (omega arith) f.0 (first_four b.0),
          uint32_at_holds d 4 o.bucket_byte_len (omega arith) f.1 (first_four b.0.1.1.1.1),
          byte_at_holds d 8 o.flags_offset (omega arith) (b.0.1.1.1.1.1.1.1.1.0, tt),
          byte_at_holds d 9 o.b_offset (omega arith) (b.0.1.1.1.1.1.1.1.1.1.0, tt),
          byte_at_holds d 10 o.buckets_offset (omega arith) (b.0.1.1.1.1.1.1.1.1.1.1.0, tt),
          byte_at_holds d 11 o.old_buckets_offset (omega arith) (b.0.1.1.1.1.1.1.1.1.1.1.1.0, tt),
          decode_enqueue_hmap_header,
          ◌>>=◌,
        )
        (ground arith)

  pub decode_enqueue_swiss_map-encode :
      (o : OpEnqueueSwissMap)
      → Fits (Operands.enqueue_swiss_map o)
      → At d (Operands.enqueue_swiss_map o)
      → decode_enqueue_swiss_map d ≡ ok (o, record d { pc = d.pc + 10 })
  unfolding decode_enqueue_swiss_map advance ◌>>=◌
  decode_enqueue_swiss_map-encode o f b =
      rw
        (
          uint32_at_holds d 0 o.table_ptr_slice_type (omega arith) f.0 (first_four b.0),
          uint32_at_holds d 4 o.group_type (omega arith) f.1 (first_four b.0.1.1.1.1),
          byte_at_holds d 8 o.dir_ptr_offset (omega arith) (b.0.1.1.1.1.1.1.1.1.0, tt),
          byte_at_holds d 9 o.dir_len_offset (omega arith) (b.0.1.1.1.1.1.1.1.1.1.0, tt),
          decode_enqueue_swiss_map,
          ◌>>=◌,
        )
        (ground arith)

  pub decode_enqueue_swiss_map_groups-encode :
      (o : OpEnqueueSwissMapGroups)
      → Fits (Operands.enqueue_swiss_map_groups o)
      → At d (Operands.enqueue_swiss_map_groups o)
      → decode_enqueue_swiss_map_groups d ≡ ok (o, record d { pc = d.pc + 10 })
  unfolding decode_enqueue_swiss_map_groups advance ◌>>=◌
  decode_enqueue_swiss_map_groups-encode o f b =
      rw
        (
          uint32_at_holds d 0 o.group_slice_type (omega arith) f.0 (first_four b.0),
          uint32_at_holds d 4 o.group_byte_len (omega arith) f.1 (first_four b.0.1.1.1.1),
          byte_at_holds d 8 o.data_offset (omega arith) (b.0.1.1.1.1.1.1.1.1.0, tt),
          byte_at_holds d 9 o.length_mask_offset (omega arith) (b.0.1.1.1.1.1.1.1.1.1.0, tt),
          decode_enqueue_swiss_map_groups,
          ◌>>=◌,
        )
        (ground arith)
