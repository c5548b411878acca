-- ===== src/Search.antt =====
-- `sort.Search` of Go's library, which the snapshot code calls to classify program counters.
use side_eye_go.Prelude.{
  ℕ, zero, suc, ◌+◌, ◌-◌, ◌/◌, ◌≤◌, ◌<◌, ◌≡◌, arith, Bool, true, false, ltb, lt→ltb, le→not_ltb,
  if◌then◌else◌, inl, inr, Bool-cases, dec_lt,
}

-- The least index in `[i, j)` at which `f` holds, and `j` if there is none, for an `f` that stays
-- true once it is. `fuel` bounds the rounds.
search_loop : ℕ → (ℕ → Bool) → ℕ → ℕ → ℕ
search_loop zero f i j = i
search_loop (suc fuel) f i j =
    let h = (i + j) / 2 in
    let right = search_loop fuel f (h + 1) j in
    let left = search_loop fuel f i h in if ltb i j then (if f h then left else right) else i

-- The range shrinks in every round, so `n` rounds are enough.
unfoldable pub sort_search : ℕ → (ℕ → Bool) → ℕ
unfolding search_loop
sort_search n f = search_loop n f 0 n

-- `f` stays true below `n` once it is.
abbrev pub Monotone : ℕ → (ℕ → Bool) → Type 0
Monotone n f = (a b : ℕ) → a ≤ b → b < n → f a ≡ true → f b ≡ true

-- What a search in `[i, j)` returns.
pub record Least (f : ℕ → Bool) (i j r : ℕ) : Type 0 where
  pub above : i ≤ r
  pub below : r ≤ j
  pub false_before : (k : ℕ) → i ≤ k → k < r → f k ≡ false
  pub true_from : (k : ℕ) → r ≤ k → k < j → f k ≡ true

module _ (n : ℕ) (f : ℕ → Bool) (mono : Monotone n f) where
  false_below : (a b : ℕ) → a ≤ b → b < n → f b ≡ false → f a ≡ false
  false_below a b le lt e = elim (Bool-cases (f a)) [
    | inl t ↦ ground (arith, mono a b le lt t)
    | inr u ↦ u
  ]

  Least-left : (i h j r : ℕ) → h < j → j ≤ n → f h ≡ true → Least f i h r → Least f i j r
  Least-left i h j r lt top t l = record {
    above = l.above;
    below = omega (arith, l.below);
    false_before = l.false_before;
    true_from = λ k a b. elim (dec_lt k h) [
      | yes p ↦ l.true_from k a p
      | no p ↦ mono h k (omega arith) (omega arith) t
    ];
  }

  Least-right :
      (i h j r : ℕ) → i ≤ h → h < j → j ≤ n → f h ≡ false → Least f (h + 1) j r → Least f i j r
  Least-right i h j r le lt top u l = record {
    above = omega (arith, l.above);
    below = l.below;
    false_before = λ k a b. elim (dec_lt h k) [
      | yes p ↦ l.false_before k (omega arith) b
      | no p ↦ false_below k h (omega arith) (omega arith) u
    ];
    true_from = l.true_from;
  }

  Least-empty : (i j : ℕ) → i ≡ j → Least f i j i
  Least-empty i j e = record {
    above = omega arith;
    below = omega arith;
    false_before = λ k a b. absurd (omega arith);
    true_from = λ k a b. absurd (omega arith);
  }

  search_loop-Least :
      (fuel i j : ℕ) → i ≤ j → j ≤ n → j - i ≤ fuel → Least f i j (search_loop fuel f i j)
  unfolding search_loop
  search_loop-Least zero i j le top enough = Least-empty i j (omega arith)
  search_loop-Least (suc fuel) i j le top enough = elim (dec_lt i j) [
    | yes more ↦ elim (Bool-cases (f ((i + j) / 2))) [
      | inl t ↦
          rw (lt→ltb i j more, t)
            (Least-left i ((i + j) / 2) j _ (omega arith) top t
              (search_loop-Least fuel i ((i + j) / 2) (omega arith) (omega arith) (omega arith)))
      | inr u ↦
          rw (lt→ltb i j more, u)
            (Least-right i ((i + j) / 2) j _ (omega arith) (omega arith) top u
              (search_loop-Least fuel ((i + j) / 2 + 1) j (omega arith) top (omega arith)))
    ]
    | no done ↦ rw (le→not_ltb i j (omega arith)) (Least-empty i j (omega arith))
  ]

  -- On a test that stays true once it is, the search returns the least index at which it holds:
  -- the test fails at every smaller index, and holds from there to the end.
  pub sort_search-Least : Least f 0 n (sort_search n f)
  unfolding sort_search
  sort_search-Least = search_loop-Least n 0 n (omega arith) (omega arith) (omega arith)
