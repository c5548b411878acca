-- ===== src/Server/Fetcher/Cache.antt =====
-- The cache of `cachedSnapshotFetcher` of internal/server/fetcher.go.
use Prim.Native.String.{String}
use text.Mathlib.Text.{◌==◌ as str_eq}
use text.Mathlib.TextEquality.{eq_iff}
use text.Mathlib.TextPositions.{eq_refl}
use mathlib.Core.Path.{subst}
use side_eye_go.Prelude.{
  ℕ, zero, suc, ◌%◌, ◌<◌, ◌≤◌, ◌≡◌, ◌⊎◌, refl, ◌∙◌, arith, true, Bool-cases, inl, inr, Option, none,
  some, List, [], ◌∷◌, ◌++◌, length, Option-cases, ltb, if◌then◌else◌, All,
}
use side_eye_go.Go.{Reply, done, failed}
use side_eye_go.Server.Fetcher.{
  CachedFetcher, Flight, ran, shared, lookup, insert, remove_at, evict, put, should_retry,
  fetch_loop, fetch_snapshot_program,
}

module _ {P : Type 0} where
  length-insert :
      (k : String) (p : P) (m : List (String × P)) → length (insert k p m) ≤ suc (length m)
  length-insert k p [] = omega arith
  length-insert k p ((j, q) ∷ m) = ground (arith, length-insert k p m)

  length-remove_at :
      (i : ℕ) (m : List (String × P)) → i < length m → suc (length (remove_at i m)) ≡ length m
  length-remove_at i [] h = absurd (omega arith)
  length-remove_at zero (e ∷ m) h = refl
  length-remove_at (suc i) (e ∷ m) h = omega (arith, length-remove_at i m (omega arith))

  -- Below the capacity, or empty.
  length-evict :
      (max : ℕ) (choose : ℕ → ℕ) (n : ℕ) (m : List (String × P))
      → n ≡ length m
      → (length (evict max choose n m) < max) ⊎ (length (evict max choose n m) ≡ 0)
  unfolding evict
  length-evict max choose zero m e = inr (omega arith)
  length-evict max choose (suc n) m e = elim (Bool-cases (ltb (length m) max)) [
    | inl small ↦ rw small (inl (ground arith))
    | inr big ↦ rw big (
        length-evict max choose n (remove_at (choose n % suc n) m)
          (omega (arith, length-remove_at (choose n % suc n) m (grind arith))))
  ]

  lookup-insert :
      (k j : String) (p : P) (m : List (String × P))
      → lookup j (insert k p m) ≡ (if str_eq k j then some p else lookup j m)
  lookup-insert k j p [] = refl
  lookup-insert k j p ((i, q) ∷ m) =
      ground (arith, eq_iff k j, eq_iff i k, eq_iff i j, lookup-insert k j p m)

  lookup-put :
      (k : String) (p : P) (choose : ℕ → ℕ) (s : CachedFetcher P)
      → lookup k (put k p choose s).cache ≡ some p
  unfolding put
  lookup-put k p choose s =
      rw (lookup-insert k k p (evict s.max_capacity choose (length s.cache) s.cache), eq_refl k)
        refl

  ran_done :
      (k : String) (later : List (Flight P)) (p : P) (choose : ℕ → ℕ) (s : CachedFetcher P)
      → fetch_loop k (ran (done p) choose ∷ later) s ≡ (some (done p), put k p choose s)
  unfolding fetch_loop
  ran_done k later p choose s = refl

  -- Every program of the cache is one that was fetched for its key.
  module _ (Fetched : String → P → Type 0) where
    abbrev pub Sourced : List (String × P) → Type 0
    Sourced m = All (λ e. Fetched e.0 e.1) m

    Sourced-insert :
        (k : String) (p : P) (m : List (String × P))
        → Fetched k p
        → Sourced m
        → Sourced (insert k p m)
    Sourced-insert k p [] h s = (h, tt)
    Sourced-insert k p ((j, q) ∷ m) h s = elim (Bool-cases (str_eq j k)) [
      | inl e ↦ rw e (h, s.1)
      | inr e ↦ rw e (s.0, Sourced-insert k p m h s.1)
    ]

    Sourced-remove_at : (i : ℕ) (m : List (String × P)) → Sourced m → Sourced (remove_at i m)
    Sourced-remove_at i [] s = tt
    Sourced-remove_at zero (e ∷ m) s = s.1
    Sourced-remove_at (suc i) (e ∷ m) s = (s.0, Sourced-remove_at i m s.1)

    Sourced-evict :
        (max : ℕ) (choose : ℕ → ℕ) (n : ℕ) (m : List (String × P))
        → Sourced m
        → Sourced (evict max choose n m)
    unfolding evict
    Sourced-evict max choose zero m s = s
    Sourced-evict max choose (suc n) m s = elim (Bool-cases (ltb (length m) max)) [
      | inl small ↦ rw small s
      | inr big ↦ rw big (Sourced-evict max choose n _ (Sourced-remove_at _ m s))
    ]

    Sourced-lookup :
        (k : String) (m : List (String × P)) {p : P} → Sourced m → lookup k m ≡ some p → Fetched k p
    Sourced-lookup k [] s e = absurd (cc)
    Sourced-lookup k ((j, q) ∷ m) {p} s e = elim (Bool-cases (str_eq j k)) [
      | inl same ↦
          let key : j ≡ k = (eq_iff j k).0 same in
          let found : some q ≡ some p = rw same at e in
          let value : q ≡ p = cc in
          subst (λ x. Fetched k x) value (subst (λ x. Fetched x q) key s.0)
      | inr apart ↦ Sourced-lookup k m s.1 (rw apart at e)
    ]

    -- The flights for a key bring programs that were fetched for it.
    abbrev pub Brings : String → Flight P → Type 0
    Brings k (ran (done p) choose) = Fetched k p
    Brings k (ran (failed e) choose) = Unit {0}
    Brings k (shared (done p) alive) = Fetched k p
    Brings k (shared (failed e) alive) = Unit {0}

    -- The program that a call returns, if it returns one, was fetched for the key.
    abbrev pub Got : String → Option (Reply P) → Type 0
    Got k none = Unit {0}
    Got k (some (failed e)) = Unit {0}
    Got k (some (done p)) = Fetched k p

    pub record IsValid (max : ℕ) (s : CachedFetcher P) : Type 0 where
      pub capacity : s.max_capacity ≡ max
      pub bounded : (length s.cache ≤ max) ⊎ (length s.cache ≤ 1)
      pub sourced : Sourced s.cache

    put-IsValid :
        (max : ℕ) (k : String) (p : P) (choose : ℕ → ℕ) (s : CachedFetcher P)
        → Fetched k p
        → IsValid max s
        → IsValid max (put k p choose s)
    unfolding put
    put-IsValid max k p choose s f v =
        let kept = evict s.max_capacity choose (length s.cache) s.cache in
        record {
          capacity = v.capacity;
          bounded = elim (length-evict s.max_capacity choose (length s.cache) s.cache refl) [
            | inl small ↦ inl (omega (arith, length-insert k p kept, v.capacity))
            | inr empty ↦ inr (omega (arith, length-insert k p kept))
          ];
          sourced =
              Sourced-insert k p kept f
                (Sourced-evict s.max_capacity choose (length s.cache) s.cache v.sourced);
        }

    fetch_loop-IsValid :
        (max : ℕ) (k : String) (fs : List (Flight P)) (s : CachedFetcher P)
        → All (λ f. Brings k f) fs
        → IsValid max s
        → IsValid max (fetch_loop k fs s).1 × Got k (fetch_loop k fs s).0
    unfolding fetch_loop
    fetch_loop-IsValid max k [] s h v = (v, tt)
    fetch_loop-IsValid max k (ran (done p) choose ∷ fs) s (f, h) v =
        (put-IsValid max k p choose s f v, f)
    fetch_loop-IsValid max k (ran (failed e) choose ∷ fs) s h v = (v, tt)
    fetch_loop-IsValid max k (shared (done p) alive ∷ fs) s (f, h) v = (v, f)
    fetch_loop-IsValid max k (shared (failed e) alive ∷ fs) s (f, h) v =
        elim (Bool-cases (should_retry {P = P} (failed e) alive)) [
          | inl again ↦ rw again (fetch_loop-IsValid max k fs s h v)
          | inr over ↦ rw over (v, tt)
        ]

    -- A fetch keeps the cache within its capacity, or at one entry where that is zero, and filled with
    -- programs that were fetched for their keys; and what it returns was fetched for its key. This
    -- holds whichever entries are evicted and whichever calls for the key it shares.
    pub fetch-IsValid :
        (max : ℕ) (k : String) (fs : List (Flight P)) (s : CachedFetcher P)
        → All (λ f. Brings k f) fs
        → IsValid max s
        → IsValid max (fetch_snapshot_program k fs s).1 × Got k (fetch_snapshot_program k fs s).0
    unfolding fetch_snapshot_program
    fetch-IsValid max k fs s h v = elim (Option-cases (lookup k s.cache)) [
      | inl (p, e) ↦ rw (e, fetch_snapshot_program) (v, Sourced-lookup k s.cache v.sourced e)
      | inr e ↦ rw (e, fetch_snapshot_program) (fetch_loop-IsValid max k fs s h v)
    ]

  -- Results that make the loop go round: errors of the contexts of other callers.
  abbrev pub Retried : Flight P → Type 0
  Retried (ran r choose) = ⊥
  Retried (shared r alive) = should_retry r alive ≡ true

  fetch_loop_retries :
      (k : String) (before fs : List (Flight P)) (s : CachedFetcher P)
      → All Retried before
      → fetch_loop k (before ++ fs) s ≡ fetch_loop k fs s
  unfolding fetch_loop
  fetch_loop_retries k [] fs s h = refl
  fetch_loop_retries k (ran r choose ∷ before) fs s h = absurd h.0
  fetch_loop_retries k (shared r alive ∷ before) fs s (h, hs) =
      rw h (fetch_loop_retries k before fs s hs)

  -- A fetch of a key that is not cached, which is let down by the contexts of other callers any number
  -- of times and then runs and gets `p`, returns `p`; and a fetch of the key from the cache that it
  -- leaves returns `p` without another call, and leaves the cache as it is.
  pub fetch_again :
      (k : String) (before later others : List (Flight P)) (p : P) (choose : ℕ → ℕ)
      (s : CachedFetcher P)
      → lookup k s.cache ≡ none
      → All Retried before
      → (fetch_snapshot_program k (before ++ ran (done p) choose ∷ later) s
          ≡ (some (done p), put k p choose s))
        × (fetch_snapshot_program k others (put k p choose s) ≡ (some (done p), put k p choose s))
  unfolding fetch_snapshot_program
  fetch_again k before later others p choose s missing h = (
    rw (missing, fetch_snapshot_program)
        (fetch_loop_retries k before _ s h ∙ ran_done k later p choose s),
    rw (lookup-put k p choose s, fetch_snapshot_program) refl,
  )
