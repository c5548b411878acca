-- ===== src/Machine/Enqueue.antt =====
-- The operations of `stackMachine.Run` that put pointers on the queue.
use side_eye_go.Prelude.{ℕ, ◌+◌, ◌*◌, ◌/◌, ◌^◌, Bool, false, ◌&&◌, Option, some, none}
use side_eye_go.Prelude.{
  leb, ltb, ◌==◌, if◌then◌else◌, length, get_elem?, u32, add32, mul32, add64, sub64,
}
use side_eye_go.Prelude.{bit_and, M, pure, get, demand, choose, on_option, ◌>>=◌, ◌>>◌}
use side_eye_go.Memory.{Process, or_zero}
use side_eye_go.Program.{SnapshotProgram, TypeInfo}
use side_eye_go.Search.{sort_search}
use side_eye_go.OutBuf
use side_eye_go.OutBuf.{load, store, truncate, dereference}
use side_eye_go.OutBuf.Framed.{write_queue_entry}
use side_eye_go.Queue
use side_eye_go.OpDecoder.Decode.{decode_enqueue_pointer, decode_enqueue_slice_header}
use side_eye_go.OpDecoder.Decode.{decode_enqueue_string_header, decode_enqueue_hmap_header}
use side_eye_go.OpDecoder.Decode.{decode_enqueue_swiss_map, decode_enqueue_swiss_map_groups}
use side_eye_go.Resolver.{resolve_type_address, resolve_type_id}
use side_eye_go.Machine.State.{Machine, Outcome, next, returned, on_buf, on_queue, on_decoder}
use side_eye_go.Machine.State.{on_resolver, set_top}

pub record ResolvedEmptyInterface : Type 0 where
  pub addr : ℕ
  pub go_runtime_type : ℕ

pub record ResolvedAnyType : Type 0 where
  pub e : ResolvedEmptyInterface
  pub type_id : ℕ
  pub type_info : TypeInfo

-- A read through `s.b.Ptr(s.offset + k)`.
unfoldable pub field_at : ℕ → ℕ → M Machine ℕ
field_at width k = do s ← get; on_buf (load width (add32 s.offset k))

-- A field `k` bytes behind the pointer `s.b.Ptr(s.offset)`.
unfoldable pub word_behind : ℕ → M Machine ℕ
word_behind k = do s ← get; on_buf (load 8 (s.offset + k))

unfoldable pub set_word : ℕ → M Machine (Unit {0})
set_word v = do s ← get; on_buf (store 8 s.offset v)

-- Is the int64 with this bit pattern positive?
abbrev pub is_positive : ℕ → Bool
is_positive w = ltb 0 w && ltb w (2 ^ 63)

module _ (p : Process) (prog : SnapshotProgram) where
  unfoldable pub resolve_empty_interface : M Machine (Option ResolvedEmptyInterface)
  resolve_empty_interface = do
    type_word ← word_behind 0
    data_word ← word_behind 8
    choose (type_word == 0) (pure none) (do
      t ← on_resolver (resolve_type_address p type_word)
      pure (some (record { addr = data_word; go_runtime_type = t })))

  unfoldable pub op_enqueue_empty_interface : M Machine Outcome
  op_enqueue_empty_interface = do
    resolved ← resolve_empty_interface
    on_option resolved (pure next) (λ e. do
      set_word e.go_runtime_type
      let type_id = resolve_type_id prog e.go_runtime_type
      choose (type_id == 0) (pure next) (do on_queue (Queue.push e.addr type_id 0); pure next))

  unfoldable pub op_enqueue_interface : M Machine Outcome
  op_enqueue_interface = do
    itab ← word_behind 0
    s ← get
    choose (itab == 0) (pure next) (do
      done ← on_buf (dereference p s.offset (add64 itab 8) 8)
      choose done
          (do
            type_addr ← word_behind 0
            t ← on_resolver (resolve_type_address p type_addr)
            set_word t
            choose (resolve_type_id prog t == 0) (pure next) (do
              addr ← word_behind 8
              on_queue (Queue.push addr (resolve_type_id prog t) 0)
              pure next))
          (pure next))

  -- The search reads the list only at indices below its length.
  unfoldable pub op_enqueue_subroutine : M Machine Outcome
  op_enqueue_subroutine = do
    s ← get
    let truncate_target = OutBuf.len_of s.b
    let classifier = prog.subroutine_classifier
    addr ← word_behind 0
    (offset, done) ← on_buf (
        write_queue_entry p
          (record { type_id = classifier.unresolved_subroutine_type; len = 8; addr = addr }))
    choose done
        (do
          shift ← demand s.bss_addr_shift
          v ← on_buf (load 8 offset)
          on_buf (store 8 offset (sub64 v shift))
          entry_pc ← on_buf (load 8 offset)
          let i =
              sort_search (length classifier.entry_pc)
                (λ i. leb entry_pc (or_zero (get_elem? classifier.entry_pc i)))
          choose
              (ltb i (length classifier.entry_pc)
                && or_zero (get_elem? classifier.entry_pc i) == entry_pc)
              (do
                on_buf (truncate truncate_target)
                t ← demand (get_elem? classifier.type_id i)
                on_queue (Queue.push addr t 0)
                pure next)
              (pure next))
        (pure next)

unfoldable pub op_enqueue_pointer : M Machine Outcome
op_enqueue_pointer = do
  op ← on_decoder decode_enqueue_pointer
  choose (op.elem_type == 0) (pure (returned false))
      (do addr ← word_behind 0; on_queue (Queue.push addr op.elem_type 0); pure next)

unfoldable pub op_enqueue_slice_header : M Machine Outcome
op_enqueue_slice_header = do
  op ← on_decoder decode_enqueue_slice_header
  len ← field_at 8 8
  choose (is_positive len && ltb 0 op.elem_byte_len)
      (do
        addr ← word_behind 0
        on_queue (Queue.push addr op.array_type (u32 (len * op.elem_byte_len)))
        pure next)
      (pure next)

unfoldable pub op_enqueue_string_header : M Machine Outcome
op_enqueue_string_header = do
  op ← on_decoder decode_enqueue_string_header
  len ← field_at 8 8
  choose (is_positive len)
      (do addr ← word_behind 0; on_queue (Queue.push addr op.string_data_type (u32 len)); pure next)
      (pure next)

abbrev same_size_grow : ℕ
same_size_grow = 8

unfoldable pub op_enqueue_hmap_header : M Machine Outcome
op_enqueue_hmap_header = do
  set_top 0
  op ← on_decoder decode_enqueue_hmap_header
  flags ← field_at 1 op.flags_offset
  b ← field_at 1 op.b_offset
  buckets ← field_at 8 op.buckets_offset
  let num_buckets = u32 (2 ^ b)
  choose (buckets == 0) (pure tt)
      (on_queue (Queue.push buckets op.buckets_array_type (mul32 num_buckets op.bucket_byte_len)))
  old_buckets ← field_at 8 op.old_buckets_offset
  let old_num = if bit_and flags same_size_grow == 0 then num_buckets / 2 else num_buckets
  choose (old_buckets == 0) (pure tt)
      (on_queue (Queue.push old_buckets op.buckets_array_type (mul32 old_num op.bucket_byte_len)))
  pure next

unfoldable pub op_enqueue_swiss_map : M Machine Outcome
op_enqueue_swiss_map = do
  op ← on_decoder decode_enqueue_swiss_map
  dir_ptr ← field_at 8 op.dir_ptr_offset
  dir_len ← field_at 8 op.dir_len_offset
  choose (is_positive dir_len)
      (on_queue (Queue.push dir_ptr op.table_ptr_slice_type (u32 (8 * dir_len))))
      (on_queue (Queue.push dir_ptr op.group_type 0))
  pure next

unfoldable pub op_enqueue_swiss_map_groups : M Machine Outcome
op_enqueue_swiss_map_groups = do
  op ← on_decoder decode_enqueue_swiss_map_groups
  data_ptr ← field_at 8 op.data_offset
  length_mask ← field_at 8 op.length_mask_offset
  on_queue (
      Queue.push data_ptr op.group_slice_type (mul32 op.group_byte_len (add32 (u32 length_mask) 1)))
  pure next
