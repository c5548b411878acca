-- ===== src/Memory/Words.antt =====
-- Words in the bytes of the output buffer: writes, and reads behind them.
use side_eye_go.Prelude.{
  ℕ, zero, suc, ◌+◌, ◌*◌, ◌/◌, ◌%◌, ◌^◌, ◌<◌, ◌≤◌, ◌≡◌, refl, ap, ◌∙◌, ◌⊎◌, inl, inr, arith,
}
use side_eye_go.Prelude.{IsU32, IsU64}
use native.Mathlib.Nat.{mod-add-div', div-div-eq-div-mul, pow-succ'}
use side_eye_go.Memory.{Bytes, word, poke, update}

pub poke_outside : (m : Bytes) (off k v j : ℕ) → (j < off) ⊎ (off + k ≤ j) → poke m off k v j ≡ m j
unfolding poke
poke_outside m off zero v j h = refl
poke_outside m off (suc k) v j h =
    poke_outside (update m off (v % 256)) (off + 1) k (v / 256) j (ground arith) ∙ ground arith

pub word_congr :
    (m m' : Bytes) (off k : ℕ)
    → ((j : ℕ) → off ≤ j → j < off + k → m j ≡ m' j)
    → word m off k ≡ word m' off k
unfolding word
word_congr m m' off zero h = refl
word_congr m m' off (suc k) h = omega (
  arith,
  h off (omega arith) (omega arith),
  word_congr m m' (off + 1) k (λ j a b. h j (omega arith) (omega arith)),
)

-- A read away from a write sees what was there before.
pub word-poke_apart :
    (m : Bytes) (off k v off' k' : ℕ)
    → (off' + k' ≤ off) ⊎ (off + k ≤ off')
    → word (poke m off k v) off' k' ≡ word m off' k'
word-poke_apart m off k v off' k' h =
    word_congr (poke m off k v) m off' k' (λ j a b. poke_outside m off k v j (apart j a b h))
  where
    apart :
        (j : ℕ)
        → off' ≤ j
        → j < off' + k'
        → (off' + k' ≤ off) ⊎ (off + k ≤ off')
        → (j < off) ⊎ (off + k ≤ j)
    apart j a b (inl p) = inl (omega arith)
    apart j a b (inr p) = inr (omega arith)

update_self : (m : Bytes) (p v : ℕ) → update m p v p ≡ v
update_self m p v = ground arith

mod_split : (p v : ℕ) → v % (256 * p) ≡ v % 256 + 256 * (v / 256 % p)
mod_split p v = omega (
  arith,
  mod-add-div' v (256 * p),
  mod-add-div' (v / 256) p,
  ap (λ (t : ℕ). t * (256 * p)) (div-div-eq-div-mul v 256 p),
)

-- The bytes of a number, written and read back.
pub word-poke : (m : Bytes) (off k v : ℕ) → word (poke m off k v) off k ≡ v % 256 ^ k
unfolding word poke
word-poke m off zero v = omega arith
word-poke m off (suc k) v = omega (
  arith,
  poke_outside (update m off (v % 256)) (off + 1) k (v / 256) off (inl (omega arith)),
  word-poke (update m off (v % 256)) (off + 1) k (v / 256),
  update_self m off (v % 256),
  mod_split (256 ^ k) v,
  ap (λ (t : ℕ). v % t) (pow-succ' 256 k),
)

pub word-poke_32 : (m : Bytes) (off v : ℕ) → IsU32 v → word (poke m off 4 v) off 4 ≡ v
word-poke_32 m off v h = word-poke m off 4 v ∙ omega arith

pub word-poke_64 : (m : Bytes) (off v : ℕ) → IsU64 v → word (poke m off 8 v) off 8 ≡ v
word-poke_64 m off v h = word-poke m off 8 v ∙ omega arith

-- The first bytes of a number, read back.
pub word-poke_prefix :
    (m : Bytes) (off k n v : ℕ) → k ≤ n → word (poke m off n v) off k ≡ v % 256 ^ k
unfolding word poke
word-poke_prefix m off zero n v h = omega arith
word-poke_prefix m off (suc k) zero v h = absurd (omega arith)
word-poke_prefix m off (suc k) (suc n) v h = omega (
  arith,
  poke_outside (update m off (v % 256)) (off + 1) n (v / 256) off (inl (omega arith)),
  word-poke_prefix (update m off (v % 256)) (off + 1) k n (v / 256) (omega arith),
  update_self m off (v % 256),
  mod_split (256 ^ k) v,
  ap (λ (t : ℕ). v % t) (pow-succ' 256 k),
)
