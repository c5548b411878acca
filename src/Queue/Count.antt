-- ===== src/Queue/Count.antt =====
-- How many entries the queue of internal/snapshot/queue.go can hand out: there are 2 ^ 96 keys.
use side_eye_go.Prelude.{
  ℕ, zero, suc, ◌+◌, ◌*◌, ◌^◌, ◌<◌, ◌≤◌, ◌≡◌, refl, ap, arith, Bool-cases, inl, inr, List, [], ◌∷◌,
  map, length, All, if◌then◌else◌, ◌==◌,
}
use side_eye_go.Framing.{QueueEntry}
use side_eye_go.Queue.{Queue}
use side_eye_go.Queue.Calls.{SameKey, DiffersFrom, Once, Once-front, InRange, InRange-front}
use side_eye_go.Queue.Inv.{Inv}

-- `x` is not in the list.
abbrev Apart : ℕ → List ℕ → Type 0
Apart x ys = All (λ y. ¬ (x ≡ y)) ys

abbrev NoRepeat : List ℕ → Type 0
NoRepeat [] = Unit {0}
NoRepeat (x ∷ xs) = Apart x xs × NoRepeat xs

abbrev without : ℕ → List ℕ → List ℕ
without v [] = []
without v (x ∷ xs) = if x == v then xs else x ∷ without v xs

Apart-without : (x v : ℕ) (xs : List ℕ) → Apart x xs → Apart x (without v xs)
Apart-without x v [] a = tt
Apart-without x v (y ∷ xs) a = elim (Bool-cases (y == v)) [
  | inl e ↦ rw e a.1
  | inr e ↦ rw e (a.0, Apart-without x v xs a.1)
]

NoRepeat-without : (v : ℕ) (xs : List ℕ) → NoRepeat xs → NoRepeat (without v xs)
NoRepeat-without v [] n = tt
NoRepeat-without v (x ∷ xs) n = elim (Bool-cases (x == v)) [
  | inl e ↦ rw e n.1
  | inr e ↦ rw e (Apart-without x v xs n.0, NoRepeat-without v xs n.1)
]

length-without : (v : ℕ) (xs : List ℕ) → length xs ≤ suc (length (without v xs))
length-without v [] = omega arith
length-without v (x ∷ xs) = ground (arith, length-without v xs)

-- Numbers below `suc v` that are not `v` are below `v`.
below_less : (v : ℕ) (xs : List ℕ) → All (λ x. x < suc v) xs → Apart v xs → All (λ x. x < v) xs
below_less v [] b a = tt
below_less v (x ∷ xs) b a = (
  elim (Bool-cases (x == v)) [ inl e ↦ absurd (a.0 (grind arith)) | inr e ↦ ground arith ],
  below_less v xs b.1 a.1,
)

below_without :
    (v : ℕ) (xs : List ℕ) → All (λ x. x < suc v) xs → NoRepeat xs → All (λ x. x < v) (without v xs)
below_without v [] b n = tt
below_without v (x ∷ xs) b n = elim (Bool-cases (x == v)) [
  | inl e ↦ let same : x ≡ v = grind arith in rw e (below_less v xs b.1 (rw⁻¹ same n.0))
  | inr e ↦ rw e (ground arith, below_without v xs b.1 n.1)
]

-- A list of distinct numbers below `n` has at most `n` of them.
pigeonhole : (n : ℕ) (xs : List ℕ) → All (λ x. x < n) xs → NoRepeat xs → length xs ≤ n
pigeonhole zero [] b n = omega arith
pigeonhole zero (x ∷ xs) b n = absurd (omega (arith, b.0))
pigeonhole (suc v) xs b n = omega (
  arith,
  length-without v xs,
  pigeonhole v (without v xs) (below_without v xs b n) (NoRepeat-without v xs n),
)

abbrev code : QueueEntry → ℕ
code e = e.addr + 2 ^ 64 * e.type_id

code-SameKey : (e e' : QueueEntry) → InRange e → InRange e' → code e ≡ code e' → SameKey e e'
code-SameKey e e' r r' h = (omega (arith, r.0, r'.0, h), omega (arith, r.0, r'.0, h))

code-Apart :
    (e : QueueEntry) (es : List QueueEntry)
    → InRange e
    → All InRange es
    → DiffersFrom e es
    → Apart (code e) (map code es)
code-Apart e [] r rs d = tt
code-Apart e (e' ∷ es) r rs d = (λ h. d.0 (code-SameKey e e' r rs.0 h), code-Apart e es r rs.1 d.1)

code-NoRepeat : (es : List QueueEntry) → All InRange es → Once es → NoRepeat (map code es)
code-NoRepeat [] r o = tt
code-NoRepeat (e ∷ es) r o = (code-Apart e es r.0 r.1 o.1, code-NoRepeat es r.1 o.2)

code_below : (es : List QueueEntry) → All InRange es → All (λ x. x < 2 ^ 96) (map code es)
code_below [] r = tt
code_below (e ∷ es) r = (omega (arith, r.0.0, r.0.1), code_below es r.1)

length-code : (es : List QueueEntry) → length (map code es) ≡ length es
length-code [] = refl
length-code (e ∷ es) = ap suc (length-code es)

-- A well-formed queue has handed out at most 2 ^ 96 entries.
pub handed_bound : (s : Queue) (handed : List QueueEntry) → Inv s handed → length handed ≤ 2 ^ 96
handed_bound s handed v =
    let range : All InRange handed = InRange-front handed v.items v.in_range in
    let once : Once handed = Once-front handed v.items v.once in
    let few : length (map code handed) ≤ 2 ^ 96 =
      pigeonhole (2 ^ 96) (map code handed) (code_below handed range)
        (code-NoRepeat handed range once) in
    rw (length-code handed) at few
