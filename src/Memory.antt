-- ===== src/Memory.antt =====
-- Bytes at offsets, and the memory of the process that a snapshot reads.
-- internal/snapshot reaches both through unsafe pointers.
pub mod Words
use side_eye_go.Prelude.{
  ℕ, zero, suc, ◌+◌, ◌-◌, ◌*◌, ◌/◌, ◌%◌, ◌^◌, Bool, true, false, ◌&&◌, Option, some, none,
}
use side_eye_go.Prelude.{ltb, leb, ◌==◌, if◌then◌else◌}

abbrev pub Bytes : Type 0
Bytes = ℕ → ℕ

abbrev pub update : Bytes → ℕ → ℕ → Bytes
update m p v q = if p == q then v else m q

-- The little-endian number in the `k` bytes from `off` on, and its replacement.
unfoldable pub word : Bytes → ℕ → ℕ → ℕ
word m off zero = 0
word m off (suc k) = m off + 256 * word m (off + 1) k

unfoldable pub poke : Bytes → ℕ → ℕ → ℕ → Bytes
poke m off zero v = m
poke m off (suc k) v = poke (update m off (v % 256)) (off + 1) k (v / 256)

-- Is `j` one of the `n` offsets from `off` on?
abbrev pub within : ℕ → ℕ → ℕ → Bool
within off n j = leb off j && ltb j (off + n)

unfoldable pub fill_zero : Bytes → ℕ → ℕ → Bytes
fill_zero m off n j = if within off n j then 0 else m j

-- What the process has mapped while the world is stopped: the byte at an address, if there is
-- one. Its output buffer is not part of it. A copy that runs into an unmapped byte is cut short by
-- the signal handler; `torn src n i` says whether byte `i` of the copy was made before.
pub record Process : Type 0 where
  pub peek : ℕ → Option ℕ
  pub torn : ℕ → ℕ → ℕ → Bool

is_some {ℓ} : {A : Type ℓ} → Option A → Bool
is_some none = false
is_some (some a) = true

abbrev pub or_zero : Option ℕ → ℕ
or_zero none = 0
or_zero (some b) = b

module _ (p : Process) where
  -- The address of byte `i` behind `src`.
  unfoldable pub peek_at : ℕ → ℕ → Option ℕ
  peek_at src i = p.peek ((src + i) % 2 ^ 64)

  unfoldable pub all_mapped : ℕ → ℕ → Bool
  unfolding peek_at is_some
  all_mapped src zero = true
  all_mapped src (suc n) = is_some (peek_at src n) && all_mapped src n

  -- The little-endian number in the `k` bytes from `addr` on.
  unfoldable pub peek_word : ℕ → ℕ → Option ℕ
  unfolding peek_at all_mapped
  peek_word addr k =
      if all_mapped addr k then some (word (λ i. or_zero (peek_at addr i)) 0 k) else none

  -- `stoptheworld.Dereference`: the bytes at `dst` afterwards, and whether the copy was finished.
  unfoldable pub raw_dereference : ℕ → ℕ → ℕ → Bytes → Bytes × Bool
  unfolding peek_at
  raw_dereference dst src n m =
      if all_mapped src n
      then ((λ j. if within dst n j then or_zero (peek_at src (j - dst)) else m j), true)
      else (
        (λ j.
            if within dst n j && p.torn src n (j - dst)
            then or_zero (peek_at src (j - dst))
            else m j),
        false,
      )
