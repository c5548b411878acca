-- ===== src/Fifo/Node.antt =====
-- A node of the queue: a ring buffer of 128 places.
use side_eye_go.Prelude.{
  ℕ, zero, suc, ◌+◌, ◌-◌, ◌%◌, ◌≤◌, ◌<◌, ◌≡◌, refl, ap, sym, ◌∙◌, length, ◌≢◌, arith, List, [], ◌∷◌,
  ◌++◌,
}
use mathlib.Core.Path.{ap₂}
use side_eye_go.Fifo.{QueueNode, update, queue_node_size, node_push_back, node_peek_front}
use side_eye_go.Fifo.{node_pop_front}

-- Indices in range; a node in the queue is not empty.
pub record IsNode {T : Type 0} (n : QueueNode T) : Type 0 where
  pub head_in : n.head < queue_node_size
  pub len_in : n.len ≤ queue_node_size

pub update_ne {ℓ} : {A : Type ℓ} (f : ℕ → A) (i : ℕ) (v : A) (j : ℕ) → i ≢ j → update f i v j ≡ f j
update_ne f i v j h = ground arith

pub update_eq {ℓ} : {A : Type ℓ} (f : ℕ → A) (i : ℕ) (v : A) (j : ℕ) → i ≡ j → update f i v j ≡ v
update_eq f i v j h = ground arith

module _ {T : Type 0} where
  -- The `n` elements from index `h` on, going round at the end.
  abbrev pub window : (ℕ → T) → ℕ → ℕ → List T
  window buf h zero = []
  window buf h (suc n) = buf h ∷ window buf ((h + 1) % 128) n

  abbrev pub contents : QueueNode T → List T
  contents n = window n.buf n.head n.len

  length-window : (buf : ℕ → T) (h n : ℕ) → length (window buf h n) ≡ n
  length-window buf h zero = refl
  length-window buf h (suc n) = ap suc (length-window buf ((h + 1) % 128) n)

  -- A write that is at least `n` places ahead is not seen.
  window-update :
      (buf : ℕ → T) (i : ℕ) (v : T) (h n : ℕ)
      → h < 128
      → i < 128
      → n ≤ (i + 128 - h) % 128
      → window (update buf i v) h n ≡ window buf h n
  window-update buf i v h zero hh hi far = refl
  window-update buf i v h (suc n) hh hi far =
      ap₂ ◌∷◌ (update_ne buf i v h (omega arith))
        (window-update buf i v ((h + 1) % 128) n (omega arith) hi (omega arith))

  window-snoc :
      (buf : ℕ → T) (i : ℕ) (v : T) (h n : ℕ)
      → h < 128
      → n < 128
      → i ≡ (h + n) % 128
      → window (update buf i v) h (suc n) ≡ window buf h n ++ (v ∷ [])
  window-snoc buf i v h zero hh hn e = ap₂ ◌∷◌ (ground arith) refl
  window-snoc buf i v h (suc n) hh hn e =
      ap₂ ◌∷◌ (update_ne buf i v h (omega arith))
        (window-snoc buf i v ((h + 1) % 128) n (omega arith) (omega arith) (omega arith))

  pub contents-push :
      (t : T) (n : QueueNode T)
      → IsNode n
      → n.len < 128
      → IsNode (node_push_back t n) × (contents (node_push_back t n) ≡ contents n ++ (t ∷ []))
  unfolding node_push_back
  contents-push t n v room = (
    record { head_in = v.head_in; len_in = omega arith },
    ap (window (update n.buf ((n.head + n.len) % 128) t) n.head) {y = suc n.len} (omega arith)
        ∙ window-snoc n.buf ((n.head + n.len) % 128) t n.head n.len v.head_in room refl,
  )

  window_of_pos :
      (buf : ℕ → T) (h n : ℕ) → 0 < n → window buf h n ≡ buf h ∷ window buf ((h + 1) % 128) (n - 1)
  window_of_pos buf h zero lt = absurd (omega arith)
  window_of_pos buf h (suc n) lt = ap (λ k. buf h ∷ window buf ((h + 1) % 128) k) (omega arith)

  pub contents-pop :
      (z : T) (n : QueueNode T)
      → IsNode n
      → 0 < n.len
      → IsNode (node_pop_front z n)
        × (contents n ≡ node_peek_front n ∷ contents (node_pop_front z n))
  unfolding node_pop_front node_peek_front
  contents-pop z n v some_left = (
    record { head_in = omega arith; len_in = omega arith },
    window_of_pos n.buf n.head n.len some_left
        ∙ ap (λ l. n.buf n.head ∷ l)
            (sym (
              window-update n.buf n.head z ((n.head + 1) % 128) (n.len - 1) (omega arith) v.head_in
                (omega arith))),
  )

  pub length-contents : (n : QueueNode T) → length (contents n) ≡ n.len
  length-contents n = length-window n.buf n.head n.len
