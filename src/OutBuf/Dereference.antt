-- ===== src/OutBuf/Dereference.antt =====
-- `Dereference` of internal/snapshot/out_buf.go, on each of its paths.
use side_eye_go.Prelude.{
  ℕ, ◌+◌, ◌-◌, ◌^◌, ◌≤◌, ◌<◌, ◌≡◌, arith, true, false, ok, trap, fault, ◌%◌, fun_ext, refl, ◌∙◌,
}
use side_eye_go.Prelude.{
  >>=_ok, >>=_trap, pure, choose, get, if◌then◌else◌, le→leb, ltb, leb, dec_lt, Bool-cases, inl,
  inr, u32, add32,
}
use side_eye_go.Memory.{
  Bytes, Process, fill_zero, raw_dereference, all_mapped, peek_at, within, or_zero,
}
use side_eye_go.OutBuf.{OutBuf, zero_range, dereference_into, dereference}

long_test :
    (p : Process) (off src n : ℕ) (o : OutBuf)
    → off + n < 2 ^ 32
    → o.cap < off + n
    → ltb (u32 o.cap) (add32 off n) ≡ true
long_test p off src n o small h = ground arith

-- `m` with `n` bytes of the process from `src` on at `off`.
abbrev pub copied : Process → ℕ → ℕ → ℕ → Bytes → Bytes
copied p off src n m j = if within off n j then or_zero (peek_at p src (j - off)) else m j

module _ (p : Process) (off src n : ℕ) (o : OutBuf) (room : off + n ≤ o.cap)
    (small : o.cap < 2 ^ 32) where
  zero_range_lem :
      (m : Bytes)
      → zero_range off n (record o { mem = m }) ≡ ok (tt, record o { mem = fill_zero m off n })
  unfolding zero_range
  zero_range_lem m = ground arith

  fill_zero-torn : fill_zero (raw_dereference p off src n o.mem).0 off n ≡ fill_zero o.mem off n
  unfolding fill_zero raw_dereference
  fill_zero-torn = fun_ext λ j. ground arith

  fits_test : ltb (u32 o.cap) (add32 off n) ≡ false
  fits_test = ground arith

  into_mapped :
      all_mapped p src n ≡ true
      → dereference_into p off src n o ≡ ok (true, record o { mem = copied p off src n o.mem })
  unfolding dereference_into raw_dereference
  into_mapped h = rw (h, le→leb _ _ room)

  into_unmapped :
      all_mapped p src n ≡ false
      → dereference_into p off src n o
        ≡ ok (false, record o { mem = (raw_dereference p off src n o.mem).0 })
  unfolding dereference_into raw_dereference
  into_unmapped h = rw (h, le→leb _ _ room)

  pub dereference_mapped :
      all_mapped p src n ≡ true
      → dereference p off src n o ≡ ok (true, record o { mem = copied p off src n o.mem })
  unfolding dereference choose pure get
  dereference_mapped h = >>=_ok _ _ refl ∙ rw fits_test (>>=_ok _ _ (into_mapped h))

  pub dereference_unmapped :
      all_mapped p src n ≡ false
      → dereference p off src n o ≡ ok (false, record o { mem = fill_zero o.mem off n })
  unfolding dereference choose pure get
  dereference_unmapped h =
      >>=_ok _ _ refl
      ∙ rw fits_test
          (>>=_ok _ _ (into_unmapped h) ∙ >>=_ok _ _ (zero_range_lem _) ∙ rw fill_zero-torn)

dereference_far :
    (p : Process) (off src n : ℕ) (o : OutBuf)
    → ltb (u32 o.cap) (add32 off n) ≡ true
    → dereference p off src n o ≡ ok (false, o)
unfolding dereference choose pure get
dereference_far p off src n o far = >>=_ok _ _ refl ∙ rw far refl

-- A range that ends past the capacity is not read, and the buffer stays as it was.
pub dereference_long :
    (p : Process) (off src n : ℕ) (o : OutBuf)
    → off + n < 2 ^ 32
    → o.cap < off + n
    → dereference p off src n o ≡ ok (false, o)
unfolding dereference choose pure get
dereference_long p off src n o small h = >>=_ok _ _ refl ∙ rw (long_test p off src n o small h)

-- A range that leaves the buffer, with an end that wraps to an offset within it, passes the test.
dereference_wrapped :
    (p : Process) (off src n : ℕ) (o : OutBuf)
    → o.cap < off + n
    → ltb (u32 o.cap) (add32 off n) ≡ false
    → dereference p off src n o ≡ trap fault
unfolding dereference dereference_into choose pure get
dereference_wrapped p off src n o long passed =
    let past : leb (off + n) o.cap ≡ false = ground arith in
    >>=_ok _ _ refl ∙ rw passed (>>=_trap _ _ (rw past refl))

-- `Dereference` of a range that fits into the buffer and can be read puts its bytes there and says
-- so. A range that fits and cannot be read leaves zeroes, whatever part of it was copied before the
-- fault. A range that does not fit changes nothing where its end, as a uint32, is past the capacity.
-- Where that end wraps to an offset within the capacity, the test lets the range pass, and the copy
-- past the end of the buffer is a fault of the model.
pub dereference_lem :
    (p : Process) (off src n : ℕ) (o : OutBuf)
    → o.cap < 2 ^ 32
    → dereference p off src n o ≡ (
        if leb (off + n) o.cap
        then if all_mapped p src n
          then ok (true, record o { mem = copied p off src n o.mem })
          else ok (false, record o { mem = fill_zero o.mem off n })
        else if ltb o.cap ((off + n) % 2 ^ 32)
        then ok (false, o)
        else trap fault)
dereference_lem p off src n o small = elim (dec_lt o.cap (off + n)) [
  | yes long ↦
      let past : leb (off + n) o.cap ≡ false = ground arith in
      let cap : u32 o.cap ≡ o.cap = omega arith in
      elim (Bool-cases (ltb o.cap ((off + n) % 2 ^ 32))) [
        | inl far ↦ rw (past, far) (dereference_far p off src n o (rw cap far))
        | inr near ↦ rw (past, near) (dereference_wrapped p off src n o long (rw cap near))
      ]
  | no fits ↦
      let room : off + n ≤ o.cap = omega arith in
      rw (le→leb (off + n) o.cap room) (elim (Bool-cases (all_mapped p src n)) [
        | inl e ↦ rw e (dereference_mapped p off src n o room small e)
        | inr e ↦ rw e (dereference_unmapped p off src n o room small e)
      ])
]

-- Inside the copied range stand the bytes of the process.
pub copied_at :
    (p : Process) (off src n i : ℕ) (m : Bytes)
    → i < n
    → copied p off src n m (off + i) ≡ or_zero (peek_at p src i)
copied_at p off src n i m h = let e : off + i - off ≡ i = omega arith in rw (e) (ground arith)

pub copied_front :
    (p : Process) (src n i : ℕ) (m : Bytes)
    → i < n
    → copied p 0 src n m i ≡ or_zero (peek_at p src i)
copied_front p src n i m h = let e : i - 0 ≡ i = omega arith in rw e (ground arith)
