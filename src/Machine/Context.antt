-- ===== src/Machine/Context.antt =====
-- The operation of `stackMachine.Run` that walks a chain of Go contexts.
use side_eye_go.Prelude.{
  ℕ, zero, suc, ◌-◌, ◌^◌, Bool, true, false, ◌&&◌, not, Option, some, none, ◌==◌,
}
use side_eye_go.Prelude.{if◌then◌else◌, add32, sub32, add64, sub64, u64, bit_and}
use side_eye_go.Prelude.{M, pure, stop, get, modify, demand, choose, on_option, ◌>>=◌, ◌>>◌, stuck}
use side_eye_go.Memory.{Process}
use side_eye_go.Program.{SnapshotProgram, TypeInfo, GoContextImpl, GoContextValueType}
use side_eye_go.OutBuf
use side_eye_go.OutBuf.{load, store, truncate, dereference, zero_range}
use side_eye_go.OutBuf.Framed.{write_queue_entry}
use side_eye_go.Queue
use side_eye_go.OpDecoder.Decode.{decode_prepare_go_context}
use side_eye_go.Resolver.{resolve_type_address, resolve_type_id}
use side_eye_go.Machine.State.{Machine, Outcome, next, on_buf, on_queue, on_decoder, on_resolver}
use side_eye_go.Machine.State.{set_offset_to}
use side_eye_go.Machine.Enqueue.{ResolvedAnyType, word_behind, resolve_empty_interface}

-- `s.offset += k` and `s.offset -= k`.
unfoldable pub move_forward : ℕ → M Machine (Unit {0})
move_forward k = modify (λ s. set_offset_to (add32 s.offset k) s)

unfoldable pub move_back : ℕ → M Machine (Unit {0})
move_back k = modify (λ s. set_offset_to (sub32 s.offset k) s)

-- `uint64(1) << uint64(i)`.
abbrev pub bit64 : ℕ → ℕ
bit64 i = u64 (2 ^ i)

unfoldable pub record_go_context_value :
    GoContextValueType → ResolvedAnyType → ℕ → M Machine (Unit {0})
record_go_context_value spec value expected_type = do
  s ← get
  choose (bit_and s.go_context_capture_bitmask (bit64 spec.index) == 0) (pure tt) (do
    modify (λ s. record s {
      go_context_capture_bitmask =
          bit_and s.go_context_capture_bitmask (2 ^ 64 - 1 - bit64 spec.index);
    })
    on_buf (store 8 (add32 s.go_context_offset spec.offset) value.e.addr)
    on_buf (store 8 (add32 (add32 s.go_context_offset spec.offset) 8) value.e.go_runtime_type)
    choose (not (expected_type == 0) && not (expected_type == value.type_id)) (pure tt) (
        on_queue
          (Queue.push value.e.addr (if spec.type_id == 0 then value.type_id else spec.type_id) 0)))

-- The value under its own type, and under its key's.
unfoldable pub record_by_value : ResolvedAnyType → M Machine (Unit {0})
record_by_value v =
    on_option v.type_info.go_context_value (pure tt) (λ spec. record_go_context_value spec v 0)

-- A key without a value type is a nil pointer.
unfoldable pub record_key : ResolvedAnyType → ResolvedAnyType → M Machine (Unit {0})
record_key v k = on_option k.type_info.go_context_key (pure tt) (λ spec. do
  expected ← demand k.type_info.go_context_key_value_type
  record_go_context_value spec v expected)

module _ (p : Process) (prog : SnapshotProgram) where
  unfoldable pub resolve_any_type : M Machine (Option ResolvedAnyType)
  resolve_any_type = do
    resolved ← resolve_empty_interface p prog
    on_option resolved (pure none) (λ e. choose (e.go_runtime_type == 0) (pure none) (
        let type_id : ℕ = resolve_type_id prog e.go_runtime_type in
        choose (type_id == 0) (pure none) (
          on_option (prog.type_info type_id) (pure none)
            (λ ti. pure (some (record { e = e; type_id = type_id; type_info = ti }))))))

  -- `s.offset += k; v := s.resolveAnyType(); s.offset -= k`.
  unfoldable pub resolve_at : ℕ → M Machine (Option ResolvedAnyType)
  resolve_at k = do move_forward k; v ← resolve_any_type; move_back k; pure v

  unfoldable pub record_by_key : GoContextImpl → ResolvedAnyType → M Machine (Unit {0})
  unfolding record_key
  record_by_key impl v =
      on_option impl.key_offset (pure tt) (λ key_offset. do
        key ← resolve_at key_offset
        on_option key (pure tt) (λ k. record_key v k))

  unfoldable pub record_value : GoContextImpl → M Machine (Unit {0})
  unfolding record_by_value record_by_key
  record_value impl = on_option impl.value_offset (pure tt) (λ value_offset. do
    value ← resolve_at value_offset
    on_option value (pure tt) (λ v. do record_by_value v; record_by_key impl v))

  -- The type of the context at the offset, where it is known to implement one.
  unfoldable pub context_type : ℕ → M Machine (Option (ℕ × TypeInfo × GoContextImpl))
  context_type itab = do
    s ← get
    done ← on_buf (dereference p s.offset (add64 itab 8) 8)
    choose done
        (do
          type_addr ← word_behind 0
          t ← on_resolver (resolve_type_address p type_addr)
          let type_id = resolve_type_id prog t
          choose (type_id == 0) (pure none) (
              on_option (prog.type_info type_id) (pure none) (λ cti.
                on_option cti.go_context_impl (pure none)
                  (λ impl. pure (some (type_id, cti, impl))))))
        (pure none)

  -- One round of the loop; the flag says whether there is another.
  unfoldable pub context_round : M Machine Bool
  unfolding context_type record_value
  context_round = do
    s ← get
    itab ← word_behind 0
    choose (itab == 0) (pure false) (do
      found ← context_type itab
      on_option found (pure false) (λ (type_id, cti, impl). do
        data_ptr ← word_behind 8
        (offset, written) ← on_buf (
            write_queue_entry p (record { type_id = type_id; len = cti.byte_len; addr = data_ptr }))
        modify (set_offset_to offset)
        choose written
            (do
              record_value impl
              on_option impl.context_offset (pure false)
                  (λ context_offset. do move_forward context_offset; pure true))
            (pure false)))

  -- The loop `for` over the chain. `stuck` says that the fuel ran out.
  unfoldable pub context_loop : ℕ → M Machine (Unit {0})
  context_loop zero = stop stuck
  context_loop (suc fuel) = do
    s ← get
    choose (s.go_context_capture_bitmask == 0) (pure tt)
        (do more ← context_round; choose more (context_loop fuel) (pure tt))

  unfoldable pub op_prepare_go_context : ℕ → M Machine Outcome
  op_prepare_go_context fuel = do
    c ← on_decoder decode_prepare_go_context
    data_ptr ← word_behind 8
    fresh ← on_queue (Queue.should_record data_ptr c.type_id)
    choose fresh
        (do
          (o, written) ← on_buf (
              write_queue_entry p
                (record { type_id = c.type_id; len = c.data_byte_len; addr = data_ptr }))
          choose written
              (do
                on_buf (zero_range o c.data_byte_len)
                modify (λ s. record s {
                  go_context_offset = o;
                  go_context_capture_bitmask = sub64 (bit64 c.capture_count) 1;
                })
                s ← get
                let truncate_target = OutBuf.len_of s.b
                context_loop fuel
                on_buf (truncate truncate_target)
                pure next)
              (pure next))
        (pure next)
