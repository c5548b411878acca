-- ===== src/OutBuf/Bounds.antt =====
-- The slice and the backing array of internal/snapshot/out_buf.go, method by method.
use side_eye_go.Prelude.{ℕ, zero, suc, ◌+◌, ◌≤◌, ◌≡◌, arith, ◌||◌, Option, List, inl, inr}
use side_eye_go.Prelude.{leb, add32, Bool-cases}
use side_eye_go.Prelude.{keeps_rules, Keeps, Keeps-modify, modify}
use side_eye_go.Memory.{Process, update}
use side_eye_go.Framing.{QueueEntry}
use side_eye_go.OutBuf.{OutBuf, load, store, reslice, set_full, zero_range, copy_loop, copy}
use side_eye_go.OutBuf.{ensure_len, truncate, dereference_into, dereference}
use side_eye_go.OutBuf.Framed.{store_entry, get_entry_len, prepare_frame_data, conclude_frame_data}
use side_eye_go.OutBuf.Framed.{write_snapshot_header, write_goroutine_header, reserve_queue_entry}
use side_eye_go.OutBuf.Framed.{copy_words, write_stack, write_queue_entry}

-- The capacity is the one that the buffer was made with.
pub record Fits (c : ℕ) (o : OutBuf) : Type 0 where
  pub capacity : o.cap ≡ c
  pub within_cap : o.len ≤ c

module _ {c : ℕ} where
  pub load-Fits : (k offset : ℕ) → Keeps (Fits c) (load k offset)
  unfolding load
  load-Fits k offset = record { at = λ o h. ground arith }

  pub store-Fits : (k offset v : ℕ) → Keeps (Fits c) (store k offset v)
  unfolding store
  store-Fits k offset v = record { at = λ o h. ground arith }

  pub reslice-Fits : (n : ℕ) → Keeps (Fits c) (reslice n)
  unfolding reslice
  reslice-Fits n = record { at = λ o h. ground arith }

  pub zero_range-Fits : (offset n : ℕ) → Keeps (Fits c) (zero_range offset n)
  unfolding zero_range
  zero_range-Fits offset n = record { at = λ o h. ground arith }

  pub copy_loop-Fits : (src dst i n : ℕ) → Keeps (Fits c) (copy_loop src dst i n)
  unfolding copy_loop
  copy_loop-Fits src dst i zero = record { at = λ o h. h }
  copy_loop-Fits src dst i (suc n) = record {
    at = λ o h.
        let from : ℕ = add32 src i in
        let to : ℕ = add32 dst i in
        let o' : OutBuf = record o { mem = update o.mem to (o.mem from) } in
        elim (Bool-cases (leb o.len from || leb o.len to)) [
          | inl e ↦ rw e tt
          | inr e ↦ rw e (
              (copy_loop-Fits src dst (i + 1) n).at o'
                (record { capacity = h.capacity; within_cap = h.within_cap }))
        ];
  }

  pub set_full-Fits : Keeps (Fits c) (modify set_full)
  unfolding set_full
  set_full-Fits = Keeps-modify _ λ o h. record { capacity = h.capacity; within_cap = h.within_cap }

  pub copy_words-Fits :
      (offset : ℕ) (ws : List ℕ) (n : ℕ) → Keeps (Fits c) (modify (copy_words offset ws n))
  unfolding copy_words
  copy_words-Fits offset ws n =
      Keeps-modify _ λ o h. record { capacity = h.capacity; within_cap = h.within_cap }

pub ruleset primitive_rules = (
  keeps_rules, load-Fits, store-Fits, reslice-Fits, zero_range-Fits, copy_loop-Fits, set_full-Fits,
  copy_words-Fits,
)

module _ {c : ℕ} where
  pub copy-Fits : (src dst n : ℕ) → Keeps (Fits c) (copy src dst n)
  unfolding copy
  copy-Fits src dst n = search primitive_rules

  pub ensure_len-Fits : (n : ℕ) → Keeps (Fits c) (ensure_len n)
  unfolding ensure_len
  ensure_len-Fits n = search primitive_rules

  pub truncate-Fits : (n : ℕ) → Keeps (Fits c) (truncate n)
  unfolding truncate
  truncate-Fits n = search primitive_rules

  pub get_entry_len-Fits : (n : ℕ) → Keeps (Fits c) (get_entry_len n)
  unfolding get_entry_len
  get_entry_len-Fits n = search primitive_rules

  store_entry-Fits : (n : ℕ) (e : QueueEntry) → Keeps (Fits c) (store_entry n e)
  unfolding store_entry
  store_entry-Fits n e = search primitive_rules

  pub prepare_frame_data-Fits :
      (type_id prog_id data_len depth : ℕ)
      → Keeps (Fits c) (prepare_frame_data type_id prog_id data_len depth)
  unfolding prepare_frame_data
  prepare_frame_data-Fits type_id prog_id data_len depth =
      search (primitive_rules, store_entry-Fits) depth 14

  pub conclude_frame_data-Fits : (header : Option ℕ) → Keeps (Fits c) (conclude_frame_data header)
  unfolding conclude_frame_data
  conclude_frame_data-Fits header = search primitive_rules depth 8

  pub write_snapshot_header-Fits : Keeps (Fits c) write_snapshot_header
  unfolding write_snapshot_header
  write_snapshot_header-Fits = search primitive_rules depth 8

  pub write_goroutine_header-Fits : Keeps (Fits c) write_goroutine_header
  unfolding write_goroutine_header
  write_goroutine_header-Fits = search (primitive_rules, ensure_len-Fits) depth 8

  pub reserve_queue_entry-Fits : (e : QueueEntry) → Keeps (Fits c) (reserve_queue_entry e)
  unfolding reserve_queue_entry
  reserve_queue_entry-Fits e = search (primitive_rules, ensure_len-Fits, store_entry-Fits) depth 8

  pub write_stack-Fits : (stack : List ℕ) → Keeps (Fits c) (write_stack stack)
  unfolding write_stack
  write_stack-Fits stack = search (primitive_rules, ensure_len-Fits) depth 9

  module _ (p : Process) where
    dereference_into-Fits : (offset src n : ℕ) → Keeps (Fits c) (dereference_into p offset src n)
    unfolding dereference_into
    dereference_into-Fits offset src n = record { at = λ o h. ground arith }

    pub dereference-Fits : (offset src n : ℕ) → Keeps (Fits c) (dereference p offset src n)
    unfolding dereference
    dereference-Fits offset src n = search (primitive_rules, dereference_into-Fits) depth 8

    pub write_queue_entry-Fits : (e : QueueEntry) → Keeps (Fits c) (write_queue_entry p e)
    unfolding write_queue_entry
    write_queue_entry-Fits e =
        search (primitive_rules, reserve_queue_entry-Fits, dereference-Fits) depth 10
