-- ===== src/OutBuf/Writes.antt =====
-- `outBuf.writeQueueEntry`, on each of its paths.
use side_eye_go.Prelude.{
  ℕ, zero, suc, ◌+◌, ◌≤◌, ◌<◌, ◌≡◌, ◌⊎◌, arith, true, ok, ap, refl, sym, ◌∙◌, some,
}
use side_eye_go.Prelude.{>>=_ok, pure, choose, IsU32, IsU64, inl}
use side_eye_go.Memory.{Bytes, Process, all_mapped, peek_at, word, or_zero}
use side_eye_go.Memory.Words.{word-poke_32, word-poke_64, word-poke_apart, word_congr, poke_outside}
use side_eye_go.Framing.{QueueEntry}
use side_eye_go.OutBuf.{OutBuf}
use side_eye_go.OutBuf.Framed.{write_queue_entry}
use side_eye_go.OutBuf.Entries.{Small, entry_end, put_entry, reserve_room}
use side_eye_go.OutBuf.Dereference.{copied, copied_at, dereference_mapped}

pub all_mapped_at :
    (p : Process) (src n i : ℕ)
    → all_mapped p src n ≡ true
    → i < n
    → peek_at p src i ≡ some (or_zero (peek_at p src i))
unfolding all_mapped
all_mapped_at p src zero i h lt = absurd (omega arith)
all_mapped_at p src (suc n) i h lt = ground (arith, all_mapped_at p src n i)

-- The fields of an entry's header at `off`.
pub record Header (o : OutBuf) (off : ℕ) (e : QueueEntry) : Type 0 where
  pub type_field : word o.mem off 4 ≡ e.type_id
  pub len_field : word o.mem (off + 4) 4 ≡ e.len
  pub addr_field : word o.mem (off + 8) 8 ≡ e.addr

pub record Words (e : QueueEntry) : Type 0 where
  pub type_word : IsU32 e.type_id
  pub len_word : IsU32 e.len
  pub addr_word : IsU64 e.addr

-- `o'` is `o` with one more entry behind it.
pub record Written (p : Process) (o o' : OutBuf) (e : QueueEntry) : Type 0 where
  pub length : o'.len ≡ entry_end o e
  pub header : Header o' o.len e
  pub bytes : (i : ℕ) → i < e.len → peek_at p e.addr i ≡ some (o'.mem (o.len + 16 + i))
  pub before : (j : ℕ) → j < o.len → o'.mem j ≡ o.mem j

pub put_entry-Header :
    (o : OutBuf) (m : Bytes) (off : ℕ) (e : QueueEntry)
    → Words e
    → ((j : ℕ) → off ≤ j → j < off + 16 → o.mem j ≡ put_entry m off e j)
    → Header o off e
put_entry-Header o m off e w same = record {
  type_field =
      word_congr o.mem _ off 4 (λ j a b. same j a (omega arith))
      ∙ word-poke_apart _ (off + 8) 8 e.addr off 4 (inl (omega arith))
      ∙ word-poke_apart _ (off + 4) 4 e.len off 4 (inl (omega arith))
      ∙ word-poke_32 m off e.type_id w.type_word;
  len_field =
      word_congr o.mem _ (off + 4) 4 (λ j a b. same j (omega arith) (omega arith))
      ∙ word-poke_apart _ (off + 8) 8 e.addr (off + 4) 4 (inl (omega arith))
      ∙ word-poke_32 _ (off + 4) e.len w.len_word;
  addr_field =
      word_congr o.mem _ (off + 8) 8 (λ j a b. same j (omega arith) (omega arith))
      ∙ word-poke_64 _ (off + 8) e.addr w.addr_word;
}

pub put_entry_outside :
    (m : Bytes) (off : ℕ) (e : QueueEntry) (j : ℕ)
    → (j < off) ⊎ (off + 16 ≤ j)
    → put_entry m off e j ≡ m j
put_entry_outside m off e j h =
    poke_outside _ (off + 8) 8 e.addr j (ground arith)
    ∙ poke_outside _ (off + 4) 4 e.len j (ground arith)
    ∙ poke_outside m off 4 e.type_id j (ground arith)

module _ (p : Process) (o : OutBuf) (e : QueueEntry) (small : Small o e) where
  abbrev pub reserved : OutBuf
  reserved = record o { mem = put_entry o.mem o.len e; len = entry_end o e }

  abbrev written : OutBuf
  written = record reserved { mem = copied p (o.len + 16) e.addr e.len reserved.mem }

  write_mapped :
      entry_end o e ≤ o.cap
      → all_mapped p e.addr e.len ≡ true
      → write_queue_entry p e o ≡ ok ((o.len + 16, true), written)
  unfolding write_queue_entry choose pure
  write_mapped room h =
      >>=_ok _ _ (reserve_room o e small room)
      ∙ >>=_ok _ _
          (dereference_mapped p (o.len + 16) e.addr e.len reserved (omega arith) small.cap_word h)

  written-Written : Words e → all_mapped p e.addr e.len ≡ true → Written p o written e
  written-Written w h = record {
    length = refl;
    header = put_entry-Header written o.mem o.len e w (λ j a b. ground arith);
    bytes = λ i lt.
        all_mapped_at p e.addr e.len i h lt
        ∙ ap some (sym (copied_at p (o.len + 16) e.addr e.len i reserved.mem lt));
    before = λ j lt. ground (arith, put_entry_outside o.mem o.len e j);
  }

  -- An entry that fits, without a wrap of uint32, and whose memory can be read is appended: its header, then its bytes. What
  -- stood in the buffer stays.
  pub write_queue_entry_mapped :
      Words e
      → entry_end o e ≤ o.cap
      → all_mapped p e.addr e.len ≡ true
      → (o' : OutBuf) × (write_queue_entry p e o ≡ ok ((o.len + 16, true), o')) × Written p o o' e
  write_queue_entry_mapped w room h = (written, write_mapped room h, written-Written w h)
