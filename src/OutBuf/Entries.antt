-- ===== src/OutBuf/Entries.antt =====
-- Reads, writes and reserved entries of a buffer that has room for them, and of one that has not.
use side_eye_go.Prelude.{
  ℕ, ◌+◌, ◌*◌, ◌/◌, ◌^◌, ◌≤◌, ◌<◌, ◌≡◌, arith, true, false, ok, trap, fault, ◌>>=◌, refl, ap, add32,
  get, choose, pure, ◌∙◌, >>=_ok, le→leb,
}
use side_eye_go.Memory.{Bytes, word, poke}
use side_eye_go.Framing.{QueueEntry}
use side_eye_go.OutBuf.{OutBuf, len_of, load, store, reslice, set_full, ensure_len}
use side_eye_go.OutBuf.Framed.{store_entry, padded_len, reserve_queue_entry}

abbrev pub rounded : ℕ → ℕ
rounded n = (n + 7) / 8 * 8

pub padded_len-eq-rounded : (n : ℕ) → n + 8 < 2 ^ 32 → padded_len n ≡ rounded n
unfolding padded_len
padded_len-eq-rounded n h = ground arith

abbrev pub put_entry : Bytes → ℕ → QueueEntry → Bytes
put_entry m off e = poke (poke (poke m off 4 e.type_id) (off + 4) 4 e.len) (off + 8) 8 e.addr

pub store_ok :
    (k off v : ℕ) (o : OutBuf)
    → off + k ≤ o.cap
    → store k off v o ≡ ok (tt, record o { mem = poke o.mem off k v })
unfolding store
store_ok k off v o h = rw (le→leb _ _ h)

pub load_ok : (k off : ℕ) (o : OutBuf) → off + k ≤ o.cap → load k off o ≡ ok (word o.mem off k, o)
unfolding load
load_ok k off o h = rw (le→leb _ _ h)

pub load_fault : (k off : ℕ) (o : OutBuf) → o.cap < off + k → load k off o ≡ trap fault
unfolding load
load_fault k off o h = ground arith

pub store_entry_lem :
    (off : ℕ) (e : QueueEntry) (o : OutBuf)
    → off + 16 ≤ o.cap
    → store_entry off e o ≡ ok (tt, record o { mem = put_entry o.mem off e })
unfolding store_entry
store_entry_lem off e o h =
    >>=_ok _ _ (store_ok 4 off e.type_id o (omega arith))
    ∙ >>=_ok _ _ (store_ok 4 (off + 4) e.len _ (omega arith))
    ∙ store_ok 8 (off + 8) e.addr _ (omega arith)

module _ (n : ℕ) (o : OutBuf) (valid : o.len ≤ o.cap) (small : o.cap < 2 ^ 32)
    (longer : o.len ≤ n) where
  ensure_len_room : n ≤ o.cap → ensure_len n o ≡ ok (true, record o { len = n })
  unfolding ensure_len len_of reslice ◌>>=◌
  ensure_len_room h = ground arith

  ensure_len_full : o.cap < n → ensure_len n o ≡ ok (false, record o { is_full = true })
  unfolding ensure_len len_of set_full ◌>>=◌
  ensure_len_full h = ground arith

-- Where a reserved entry ends: behind its header and its data, padded to 8 bytes.
abbrev pub entry_end : OutBuf → QueueEntry → ℕ
entry_end o e = o.len + rounded e.len + 16

-- No uint32 sum of `reserveQueueEntry` wraps.
pub record Small (o : OutBuf) (e : QueueEntry) : Type 0 where
  pub valid : o.len ≤ o.cap
  pub cap_word : o.cap < 2 ^ 32
  pub end_word : o.len + e.len + 24 < 2 ^ 32

module _ (o : OutBuf) (e : QueueEntry) (small : Small o e) where
  pub len_of_small : len_of o ≡ o.len
  unfolding len_of
  len_of_small = omega arith

  size_small : add32 (add32 (len_of o) (padded_len e.len)) 16 ≡ entry_end o e
  size_small = omega (arith, len_of_small, padded_len-eq-rounded e.len (omega arith))

  data_small : add32 (len_of o) 16 ≡ o.len + 16
  data_small = omega (arith, len_of_small)

  -- Where the entry fits, the slice grows by it and its header is written.
  pub reserve_room :
      entry_end o e ≤ o.cap
      → reserve_queue_entry e o
        ≡ ok ((o.len + 16, true), record o { mem = put_entry o.mem o.len e; len = entry_end o e })
  unfolding reserve_queue_entry get choose pure
  reserve_room h =
      let grown : OutBuf = record o { len = entry_end o e } in
      >>=_ok _ _ refl
      ∙ >>=_ok _ _ (
          ap (λ n. ensure_len n o) size_small
          ∙ ensure_len_room _ o small.valid small.cap_word (omega arith) h)
      ∙ >>=_ok _ _ (
          ap (λ n. store_entry n e grown) len_of_small
          ∙ store_entry_lem o.len e grown (omega arith))
      ∙ ap (λ n. ok ((n, true), record grown { mem = put_entry o.mem o.len e })) data_small

  -- Where it does not fit, the buffer is marked full and is otherwise as before.
  pub reserve_full :
      o.cap < entry_end o e → reserve_queue_entry e o ≡ ok ((0, false), record o { is_full = true })
  unfolding reserve_queue_entry get choose pure
  reserve_full h =
      >>=_ok _ _ refl
      ∙ >>=_ok _ _ (
          ap (λ n. ensure_len n o) size_small
          ∙ ensure_len_full _ o small.valid small.cap_word (omega arith) h)
