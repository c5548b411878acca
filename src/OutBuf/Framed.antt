-- ===== src/OutBuf/Framed.antt =====
-- The methods of internal/snapshot/out_buf.go that write headers and queue entries.
use side_eye_go.Prelude.{ℕ, ◌+◌, ◌-◌, ◌/◌, ◌%◌, ◌^◌, Bool, true, false, List, Option, some, none}
use side_eye_go.Prelude.{
  leb, ltb, ◌==◌, if◌then◌else◌, u32, add32, sub32, mul32, byte_of, length, get_elem?, bit_or,
}
use side_eye_go.Prelude.{panic, M, pure, stop, get, demand, modify, choose, ◌>>=◌, ◌>>◌}
use side_eye_go.Memory.{Process, within, or_zero}
use side_eye_go.Framing.{QueueEntry, queue_entry_size, frame_header_size, snapshot_header_size}
use side_eye_go.Framing.{goroutine_header_size}
use side_eye_go.OutBuf.{OutBuf, len_of, load, store, reslice, set_full, ensure_len, dereference}

-- A `QueueEntry` in memory: its type, length and address at offsets 0, 4 and 8.
unfoldable pub store_entry : ℕ → QueueEntry → M OutBuf (Unit {0})
store_entry offset e = do
  store 4 offset e.type_id
  store 4 (offset + 4) e.len
  store 8 (offset + 8) e.addr

unfoldable pub get_entry_len : ℕ → M OutBuf ℕ
get_entry_len entry_offset = load 4 (sub32 entry_offset queue_entry_size + 4)

-- `paddedLen`: the next multiple of 8, in uint32 arithmetic.
unfoldable pub padded_len : ℕ → ℕ
padded_len n = if n % 8 == 0 then n else add32 n (8 - n % 8)

-- The header's offset stands for its pointer, `none` for nil. The blank field of the header is
-- written as 0.
unfoldable pub prepare_frame_data : ℕ → ℕ → ℕ → ℕ → M OutBuf (Option ℕ × ℕ × Bool)
prepare_frame_data type_id prog_id data_len depth = do
  o ← get
  let frame_header_offset = len_of o
  let new_len = o.len + frame_header_size + queue_entry_size + padded_len data_len + 8
  let queue_entry_offset = add32 frame_header_offset frame_header_size
  let offset = add32 queue_entry_offset queue_entry_size
  choose (ltb o.cap new_len) (do modify set_full; pure (none, 0, false))
      (do
        reslice new_len
        store 8 frame_header_offset queue_entry_offset
        store_entry queue_entry_offset
            (record { type_id = type_id; len = add32 data_len 8; addr = 0 })
        store 4 (add32 offset data_len) prog_id
        store 4 (add32 (add32 offset data_len) 4) depth
        pure (some frame_header_offset, offset, true))

-- A nil pointer panics.
unfoldable pub conclude_frame_data : Option ℕ → M OutBuf (Unit {0})
conclude_frame_data header = do
  at ← demand header
  o ← get
  data_byte_len ← load 4 at
  store 4 at (sub32 (len_of o) data_byte_len)

unfoldable pub write_snapshot_header : M OutBuf (ℕ × Bool)
write_snapshot_header = do
  o ← get
  let offset = len_of o
  let new_len = o.len + snapshot_header_size
  choose (ltb o.cap new_len) (do modify set_full; pure (0, false))
      (do reslice new_len; pure (offset, true))

unfoldable pub write_goroutine_header : M OutBuf (ℕ × Bool)
write_goroutine_header = do
  o ← get
  let offset = len_of o
  done ← ensure_len (add32 offset goroutine_header_size)
  pure (if done then (offset, true) else (0, false))

unfoldable pub reserve_queue_entry : QueueEntry → M OutBuf (ℕ × Bool)
reserve_queue_entry entry = do
  o ← get
  let header_offset = len_of o
  done ← ensure_len (add32 (add32 header_offset (padded_len entry.len)) queue_entry_size)
  choose done
      (do store_entry header_offset entry; pure (add32 header_offset queue_entry_size, true))
      (pure (0, false))

-- The words of a stack as bytes: `copy(o.out[offset:], ...)` copies as many as there is room for.
unfoldable pub copy_words : ℕ → List ℕ → ℕ → OutBuf → OutBuf
copy_words offset ws byte_len o =
    let n = if leb byte_len (o.len - offset) then byte_len else o.len - offset in
    record o {
      mem = λ j.
          if within offset n j
          then byte_of (or_zero (get_elem? ws ((j - offset) / 8))) ((j - offset) % 8)
          else o.mem j;
    }

-- `&stack[0]` panics at an empty stack.
unfoldable pub write_stack : List ℕ → M OutBuf (ℕ × Bool)
write_stack stack = do
  o ← get
  let offset = len_of o
  let byte_len = mul32 (u32 (length stack)) 8
  done ← ensure_len (add32 offset byte_len)
  choose done
      (choose (length stack == 0) (stop panic)
        (do modify (copy_words offset stack byte_len); pure (byte_len, true)))
      (pure (0, false))

module _ (p : Process) where
  -- The second result of `reserveQueueEntry` is dropped, as in the source.
  unfoldable pub write_queue_entry : QueueEntry → M OutBuf (ℕ × Bool)
  write_queue_entry entry = do
    (data_offset, reserved) ← reserve_queue_entry entry
    done ← dereference p data_offset entry.addr entry.len
    let header_offset = sub32 data_offset queue_entry_size
    choose done (pure (data_offset, true))
        (do t ← load 4 header_offset; store 4 header_offset (bit_or t (2 ^ 31)); pure (0, false))
