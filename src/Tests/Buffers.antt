-- ===== src/Tests/Buffers.antt =====
-- internal/snapshot/out_buf.go on small buffers.
use side_eye_go.OutBuf.Frames.{Prepared, Continued, Concluded, frame_data-Concluded}
use side_eye_go.OutBuf.Framed.{prepare_frame_data, conclude_frame_data}
use side_eye_go.Prelude.{
  ℕ, ◌+◌, ◌-◌, ◌^◌, ◌%◌, ◌<◌, ◌≡◌, refl, arith, true, false, some, none, ok, trap, fault,
  if◌then◌else◌, ltb, leb, inr,
}
use side_eye_go.Memory.{Process, all_mapped, peek_at, fill_zero, word, poke}
use side_eye_go.Framing.{QueueEntry}
use side_eye_go.OutBuf.{OutBuf, dereference}
use side_eye_go.OutBuf.Framed.{write_queue_entry}
use side_eye_go.OutBuf.Entries.{Small}
use side_eye_go.OutBuf.Dereference.{copied, dereference_lem}
use side_eye_go.OutBuf.Writes.{Words, Written, write_queue_entry_mapped}
use side_eye_go.OutBuf.Failures.{
  Marked, write_queue_entry_unmapped, write_queue_entry_full, write_queue_entry_full_fault,
}

-- A page is mapped.
abbrev process : Process
process = record {
  peek = λ a. if leb 4096 a then if ltb a 8192 then some (a % 256) else none else none;
  torn = λ src n i. ltb i 3;
}

abbrev buffer : OutBuf
buffer = record { mem = λ j. 0; cap = 64; len = 16; is_full = false }

abbrev entry : QueueEntry
entry = record { type_id = 5; len = 4; addr = 4100 }

abbrev lost_entry : QueueEntry
lost_entry = record { type_id = 5; len = 4; addr = 8190 }

abbrev small_buffer : OutBuf
small_buffer = record { mem = λ j. 0; cap = 20; len = 16; is_full = false }

entry-Words : Words entry
entry-Words = record { type_word = omega arith; len_word = omega arith; addr_word = omega arith }

lost_entry-Words : Words lost_entry
lost_entry-Words = record {
  type_word = omega arith;
  len_word = omega arith;
  addr_word = omega arith;
}

buffer-Small : Small buffer entry
buffer-Small = record { valid = omega arith; cap_word = omega arith; end_word = omega arith }

buffer-Small_lost : Small buffer lost_entry
buffer-Small_lost = record { valid = omega arith; cap_word = omega arith; end_word = omega arith }

small_buffer-Small : Small small_buffer entry
small_buffer-Small = record { valid = omega arith; cap_word = omega arith; end_word = omega arith }

small_buffer-Small_lost : Small small_buffer lost_entry
small_buffer-Small_lost = record {
  valid = omega arith;
  cap_word = omega arith;
  end_word = omega arith;
}

is_mapped : all_mapped process 4100 4 ≡ true
unfolding all_mapped
is_mapped = refl

is_lost : all_mapped process 8190 4 ≡ false
unfolding all_mapped
is_lost = refl

write_queue_entry_mapped_example :
    (o' : OutBuf) × (write_queue_entry process entry buffer ≡ ok ((32, true), o'))
    × Written process buffer o' entry
write_queue_entry_mapped_example =
    write_queue_entry_mapped process buffer entry buffer-Small entry-Words (omega arith) is_mapped

write_queue_entry_unmapped_example :
    (o' : OutBuf) × (write_queue_entry process lost_entry buffer ≡ ok ((0, false), o'))
    × Marked buffer o' lost_entry
write_queue_entry_unmapped_example =
    write_queue_entry_unmapped process buffer lost_entry buffer-Small_lost lost_entry-Words
      (omega arith) is_lost

write_queue_entry_full_example :
    (o' : OutBuf) × (write_queue_entry process entry small_buffer ≡ ok ((0, true), o'))
    × (o'.len ≡ 16)
    × ((i : ℕ) → i < 4 → peek_at process 4100 i ≡ some (o'.mem i))
write_queue_entry_full_example =
    write_queue_entry_full process small_buffer entry small_buffer-Small (omega arith) (omega arith)
      is_mapped

write_queue_entry_full_fault_example :
    write_queue_entry process lost_entry small_buffer ≡ trap fault
write_queue_entry_full_fault_example =
    write_queue_entry_full_fault process small_buffer lost_entry small_buffer-Small_lost
      (omega arith) (omega arith) (inr is_lost)

dereference_lem_example : dereference process 16 4100 4 buffer ≡ (
    if leb (16 + 4) buffer.cap
    then if all_mapped process 4100 4
      then ok (true, record buffer { mem = copied process 16 4100 4 buffer.mem })
      else ok (false, record buffer { mem = fill_zero buffer.mem 16 4 })
    else if ltb buffer.cap ((16 + 4) % 2 ^ 32)
    then ok (false, buffer)
    else trap fault)
dereference_lem_example = dereference_lem process 16 4100 4 buffer (omega arith)

-- A range whose end wraps to the offset 8.
dereference_wraps : dereference process 16 4100 (2 ^ 32 - 8) buffer ≡ trap fault
dereference_wraps = dereference_lem process 16 4100 (2 ^ 32 - 8) buffer (omega arith)

-- A frame of 12 bytes of data behind 56 bytes.
abbrev before_frame : OutBuf
before_frame = record { mem = λ j. 0; cap = 1024; len = 56; is_full = false }

-- The buffer later, with 30 bytes more behind the frame.
abbrev behind_frame : OutBuf
behind_frame = record before_frame { mem = poke before_frame.mem 56 8 64; len = 134 }

behind_frame-Continued : Continued before_frame behind_frame
unfolding poke word
behind_frame-Continued = record {
  start = refl;
  longer = omega arith;
  within_cap = omega arith;
  cap_word = omega arith;
}

frame_data-Concluded_example :
    ((o' : OutBuf) × (prepare_frame_data 3 9 12 2 before_frame ≡ ok ((some 56, 80, true), o'))
      × Prepared before_frame o' 3 9 12 2)
    × ((o' : OutBuf) × (conclude_frame_data (some 56) behind_frame ≡ ok (tt, o'))
        × Concluded before_frame behind_frame o')
frame_data-Concluded_example =
    frame_data-Concluded before_frame behind_frame 3 9 12 2
      (record {
        cap_word = omega arith;
        end_word = omega arith;
        type_word = omega arith;
        prog_word = omega arith;
        depth_word = omega arith;
        room = omega arith;
      })
      behind_frame-Continued
