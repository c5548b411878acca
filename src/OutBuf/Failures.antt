-- ===== src/OutBuf/Failures.antt =====
-- `outBuf.writeQueueEntry` where the memory cannot be read, and where the buffer has no room.
use side_eye_go.Prelude.{
  ℕ, ◌+◌, ◌%◌, ◌^◌, ◌≤◌, ◌<◌, ◌≡◌, ◌⊎◌, inl, inr, arith, true, false, ok, trap, fault, ap, refl,
  sym, ◌∙◌, some,
}
use side_eye_go.Prelude.{>>=_ok, >>=_trap, pure, choose, sub32, bit_or, dec_lt, ◌-◌}
use side_eye_go.Memory.{Process, all_mapped, peek_at, word, poke, fill_zero}
use side_eye_go.Memory.Words.{word-poke, poke_outside}
use side_eye_go.Framing.{QueueEntry}
use side_eye_go.OutBuf.{OutBuf, load, store}
use side_eye_go.OutBuf.Framed.{write_queue_entry}
use side_eye_go.OutBuf.Entries.{
  Small, entry_end, reserve_room, reserve_full, store_ok, load_ok, load_fault,
}
use side_eye_go.OutBuf.Dereference.{
  copied, copied_front, dereference_mapped, dereference_unmapped, dereference_long,
}
use side_eye_go.OutBuf.Writes.{Words, reserved, put_entry-Header, put_entry_outside, all_mapped_at}

-- `o'` is `o` with a marked entry behind it that has no data.
pub record Marked (o o' : OutBuf) (e : QueueEntry) : Type 0 where
  pub length : o'.len ≡ entry_end o e
  pub marked_type : word o'.mem o.len 4 ≡ bit_or e.type_id (2 ^ 31) % 2 ^ 32
  pub no_data : (j : ℕ) → o.len + 16 ≤ j → j < o.len + 16 + e.len → o'.mem j ≡ 0
  pub before : (j : ℕ) → j < o.len → o'.mem j ≡ o.mem j

module _ (p : Process) (o : OutBuf) (e : QueueEntry) (small : Small o e) where
  abbrev zeroed : OutBuf
  zeroed = record o {
    mem = fill_zero (reserved p o e small).mem (o.len + 16) e.len;
    len = entry_end o e;
  }

  abbrev marked : OutBuf
  marked = record zeroed {
    mem = poke zeroed.mem o.len 4 (bit_or (word zeroed.mem o.len 4) (2 ^ 31));
  }

  header_back : sub32 (o.len + 16) 16 ≡ o.len
  header_back = omega arith

  write_unmapped :
      entry_end o e ≤ o.cap
      → all_mapped p e.addr e.len ≡ false
      → write_queue_entry p e o ≡ ok ((0, false), marked)
  unfolding write_queue_entry choose pure
  write_unmapped room h =
      >>=_ok _ _ (reserve_room o e small room)
      ∙ >>=_ok _ _ (
          dereference_unmapped p (o.len + 16) e.addr e.len (reserved p o e small) (omega arith)
            small.cap_word h)
      ∙ >>=_ok _ _ (ap (λ n. load 4 n zeroed) header_back ∙ load_ok 4 o.len zeroed (omega arith))
      ∙ >>=_ok _ _ (
          ap (λ n. store 4 n (bit_or (word zeroed.mem o.len 4) (2 ^ 31)) zeroed) header_back
          ∙ store_ok 4 o.len (bit_or (word zeroed.mem o.len 4) (2 ^ 31)) zeroed (omega arith))

  zeroed_outside : (j : ℕ) → j < o.len + 16 → zeroed.mem j ≡ (reserved p o e small).mem j
  unfolding fill_zero
  zeroed_outside j h = ground arith

  zeroed_inside : (j : ℕ) → o.len + 16 ≤ j → j < o.len + 16 + e.len → zeroed.mem j ≡ 0
  unfolding fill_zero
  zeroed_inside j a b = ground arith

  zeroed_type : Words e → word zeroed.mem o.len 4 ≡ e.type_id
  zeroed_type w = (put_entry-Header zeroed o.mem o.len e w (λ j a b. zeroed_outside j b)).type_field

  marked-Marked : Words e → Marked o marked e
  marked-Marked w = record {
    length = refl;
    marked_type =
        word-poke zeroed.mem o.len 4 _ ∙ ap (λ t. bit_or t (2 ^ 31) % 2 ^ 32) (zeroed_type w);
    no_data =
        λ j a b. poke_outside zeroed.mem o.len 4 _ j (inr (omega arith)) ∙ zeroed_inside j a b;
    before = λ j a.
        poke_outside zeroed.mem o.len 4 _ j (inl a)
        ∙ zeroed_outside j (omega arith)
        ∙ put_entry_outside o.mem o.len e j (inl a);
  }

  -- An entry that fits, without a wrap of uint32, and whose memory cannot be read is refused, but it stays in the buffer: its
  -- header, with the top bit of the type set, and zeroes for its data.
  pub write_queue_entry_unmapped :
      Words e
      → entry_end o e ≤ o.cap
      → all_mapped p e.addr e.len ≡ false
      → (o' : OutBuf) × (write_queue_entry p e o ≡ ok ((0, false), o')) × Marked o o' e
  write_queue_entry_unmapped w room h = (marked, write_unmapped room h, marked-Marked w)

  abbrev full : OutBuf
  full = record o { is_full = true }

  -- Where the buffer has no room for an entry, its memory can be read, it is no longer than the
  -- capacity of the buffer, and no uint32 sum of the reservation wraps, the call succeeds with offset 0, and the first bytes of the buffer are replaced
  -- by the entry's.
  pub write_queue_entry_full :
      o.cap < entry_end o e
      → e.len ≤ o.cap
      → all_mapped p e.addr e.len ≡ true
      → (o' : OutBuf) × (write_queue_entry p e o ≡ ok ((0, true), o'))
        × (o'.len ≡ o.len)
        × ((i : ℕ) → i < e.len → peek_at p e.addr i ≡ some (o'.mem i))
  unfolding write_queue_entry choose pure
  write_queue_entry_full no_room fits h = (
    record full { mem = copied p 0 e.addr e.len o.mem },
    >>=_ok _ _ (reserve_full o e small no_room)
        ∙ >>=_ok _ _ (dereference_mapped p 0 e.addr e.len full (omega arith) small.cap_word h),
    refl,
    λ i lt.
        all_mapped_at p e.addr e.len i h lt
        ∙ ap some (sym (copied_front p e.addr e.len i o.mem lt)),
  )

  fault_long :
      o.cap < entry_end o e
      → o.cap + 12 < 2 ^ 32
      → o.cap < e.len
      → write_queue_entry p e o ≡ trap fault
  unfolding write_queue_entry choose pure
  fault_long no_room top long =
      >>=_ok _ _ (reserve_full o e small no_room)
      ∙ >>=_ok _ _ (dereference_long p 0 e.addr e.len full (omega arith) (omega arith))
      ∙ >>=_trap _ _ (load_fault 4 (2 ^ 32 - 16) full (omega arith))

  fault_unmapped :
      o.cap < entry_end o e
      → o.cap + 12 < 2 ^ 32
      → e.len ≤ o.cap
      → all_mapped p e.addr e.len ≡ false
      → write_queue_entry p e o ≡ trap fault
  unfolding write_queue_entry choose pure
  fault_unmapped no_room top fits h =
      >>=_ok _ _ (reserve_full o e small no_room)
      ∙ >>=_ok _ _ (dereference_unmapped p 0 e.addr e.len full (omega arith) small.cap_word h)
      ∙ >>=_trap _ _ (load_fault 4 (2 ^ 32 - 16) _ (omega arith))

  -- Where the buffer has no room, no uint32 sum wraps, the buffer is more than 12 bytes short of
  -- 4 GiB, and the entry cannot be read or is longer than the capacity of the buffer, the call marks a header that lies 16 bytes before the buffer in uint32 arithmetic: it leaves the
  -- buffer's memory.
  pub write_queue_entry_full_fault :
      o.cap < entry_end o e
      → o.cap + 12 < 2 ^ 32
      → (o.cap < e.len) ⊎ (all_mapped p e.addr e.len ≡ false)
      → write_queue_entry p e o ≡ trap fault
  write_queue_entry_full_fault no_room top (inl long) = fault_long no_room top long
  write_queue_entry_full_fault no_room top (inr h) = elim (dec_lt o.cap e.len) [
    | yes long ↦ fault_long no_room top long
    | no fits ↦ fault_unmapped no_room top (omega arith) h
  ]
