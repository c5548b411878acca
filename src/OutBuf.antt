-- ===== src/OutBuf.antt =====
-- internal/snapshot/out_buf.go: the output buffer of a snapshot, a byte slice of fixed capacity.
-- Its backing array is `mem` below `cap`; the slice holds the first `len` bytes of it.
-- `Framed` has the methods that write whole records.
pub mod Framed
pub mod Bounds
pub mod Entries
pub mod Dereference
pub mod Writes
pub mod Failures
pub mod Frames
use side_eye_go.Prelude.{ℕ, zero, suc, ◌+◌, ◌-◌, ◌%◌, ◌^◌, Bool, true, false, ◌||◌, List, [], ◌∷◌}
use side_eye_go.Prelude.{leb, ltb, if◌then◌else◌, u32, add32}
use side_eye_go.Prelude.{ok, trap, panic, fault, M, pure, stop, get, modify, choose, ◌>>=◌, ◌>>◌}
use side_eye_go.Memory.{Bytes, Process, word, poke, fill_zero, raw_dereference, update}

pub record OutBuf : Type 0 where
  pub mem : Bytes
  pub cap : ℕ
  pub len : ℕ
  pub is_full : Bool

-- `make` zeroes the backing array.
unfoldable pub make_out_buf : ℕ → OutBuf
make_out_buf size = record { mem = λ _. 0; cap = size; len = 0; is_full = false }

-- `Len` converts the length of the slice to a uint32.
unfoldable pub len_of : OutBuf → ℕ
len_of o = u32 o.len

-- A read of `k` bytes through `Ptr(offset)`, and a write. The backing array ends at `cap`; past
-- it is the memory of some other object.
unfoldable pub load : ℕ → ℕ → M OutBuf ℕ
load k offset o = if leb (offset + k) o.cap then ok (word o.mem offset k, o) else trap fault

unfoldable pub store : ℕ → ℕ → ℕ → M OutBuf (Unit {0})
store k offset v o =
    if leb (offset + k) o.cap then ok (tt, record o { mem = poke o.mem offset k v }) else trap fault

-- `o.out = o.out[:newLen]`, which panics past the capacity.
unfoldable pub reslice : ℕ → M OutBuf (Unit {0})
reslice new_len o = if leb new_len o.cap then ok (tt, record o { len = new_len }) else trap panic

unfoldable pub set_full : OutBuf → OutBuf
set_full o = record o { is_full = true }

-- `Zero`: a range that ends past the capacity is left alone. The sum may wrap; the slice
-- expression then panics.
unfoldable pub zero_range : ℕ → ℕ → M OutBuf (Unit {0})
zero_range offset zero_len o =
    let end = add32 offset zero_len in
    if ltb (u32 o.cap) end
    then ok (tt, o)
    else if ltb o.cap end || ltb end offset
    then trap panic
    else ok (tt, record o { mem = fill_zero o.mem offset (end - offset) })

-- The loop of `Copy`, with `n` bytes left: `o.out[dst+i] = o.out[src+i]`.
unfoldable pub copy_loop : ℕ → ℕ → ℕ → ℕ → M OutBuf (Unit {0})
copy_loop src dst i zero o = ok (tt, o)
copy_loop src dst i (suc n) o =
    let from = add32 src i in
    let to = add32 dst i in
    let rest = copy_loop src dst (i + 1) n (record o { mem = update o.mem to (o.mem from) }) in
    if leb o.len from || leb o.len to then trap panic else rest

unfoldable pub copy : ℕ → ℕ → ℕ → M OutBuf (Unit {0})
copy src dst n = do
  o ← get
  choose (ltb (u32 o.cap) (add32 src n)) (pure tt)
      (choose (ltb (u32 o.cap) (add32 dst n)) (pure tt) (copy_loop src dst 0 n))

unfoldable pub ensure_len : ℕ → M OutBuf Bool
ensure_len min_len = do
  o ← get
  choose (ltb min_len (len_of o)) (pure true) (
      choose (ltb (u32 o.cap) min_len) (do modify set_full; pure false)
        (do reslice min_len; pure true))

unfoldable pub truncate : ℕ → M OutBuf (Unit {0})
truncate offset = reslice offset

unfoldable pub full : OutBuf → Bool
full o = o.is_full

-- The bytes of `data()`.
bytes_from : Bytes → ℕ → ℕ → List ℕ
bytes_from m off zero = []
bytes_from m off (suc n) = m off ∷ bytes_from m (off + 1) n

unfoldable pub contents : OutBuf → List ℕ
unfolding bytes_from
contents o = bytes_from o.mem 0 o.len

module _ (p : Process) where
  -- The copy of `stoptheworld.Dereference` into the buffer. A destination that leaves the backing
  -- array is a fault.
  unfoldable pub dereference_into : ℕ → ℕ → ℕ → M OutBuf Bool
  dereference_into offset src n o =
      let (m, done) = raw_dereference p offset src n o.mem in
      if leb (offset + n) o.cap then ok (done, record o { mem = m }) else trap fault

  unfoldable pub dereference : ℕ → ℕ → ℕ → M OutBuf Bool
  dereference offset src n = do
    o ← get
    choose (ltb (u32 o.cap) (add32 offset n)) (pure false) (do
      done ← dereference_into offset src n
      choose done (pure true) (do zero_range offset n; pure false))
