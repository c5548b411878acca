-- ===== src/Snapshotter/Classify.antt =====
-- The search for the frames of interest in snapshotGoroutine of internal/snapshot/snapshot.go, and a
-- plain scan that finds the same ones.
use side_eye_go.Prelude.{
  ℕ, zero, suc, ◌+◌, ◌≤◌, ◌<◌, ◌≡◌, refl, ◌∙◌, arith, Bool, true, false, Bool-cases, inl, inr, List,
  [], ◌∷◌, Option, none, some, length, get_elem?, get_elem?_in_range, get_elem?_out_of_range, All,
  ltb, leb, ◌==◌, if◌then◌else◌, ok, >>=_ok, pure, demand, demand-some, choose, ◌>>=◌,
}
use side_eye_go.Memory.{or_zero}
use side_eye_go.Program.{PcClassifier}
use side_eye_go.Search.{sort_search, sort_search-Least, Monotone, Least}
use side_eye_go.Snapshotter.{Snapshotter, FrameOfInterest, classify}

-- The program for the first target that is not below the program counter.
abbrev pub scan : ℕ → List ℕ → List ℕ → Option ℕ
scan pc [] ps = none
scan pc (t ∷ ts) [] = none
scan pc (t ∷ ts) (p ∷ ps) = if leb pc t then some p else scan pc ts ps

abbrev pub with_frame : ℕ → Option ℕ → List FrameOfInterest → List FrameOfInterest
with_frame i none rest = rest
with_frame i (some p) rest = if p == 0 then rest else record { idx = i; pc = p } ∷ rest

-- The frames of a stack from index `i` on that have a program.
abbrev pub frames_of : PcClassifier → ℕ → List ℕ → List FrameOfInterest
frames_of c i [] = []
frames_of c i (pc ∷ pcs) = with_frame i (scan pc c.target_pc c.prog_pc) (frames_of c (i + 1) pcs)

abbrev pub Ascending : List ℕ → Type 0
Ascending [] = Unit {0}
Ascending (x ∷ xs) = All (λ y. x ≤ y) xs × Ascending xs

-- The test that is given to `sort.Search`.
abbrev test : ℕ → List ℕ → ℕ → Bool
test pc ts j = leb pc (or_zero (get_elem? ts j))

at_least :
    (x : ℕ) (xs : List ℕ) (j : ℕ)
    → All (λ y. x ≤ y) xs
    → j < length xs
    → x ≤ or_zero (get_elem? xs j)
at_least x [] j a h = absurd (omega arith)
at_least x (y ∷ xs) zero a h = a.0
at_least x (y ∷ xs) (suc j) a h = at_least x xs j a.1 (omega arith)

ascends :
    (xs : List ℕ) (a b : ℕ)
    → Ascending xs
    → a ≤ b
    → b < length xs
    → or_zero (get_elem? xs a) ≤ or_zero (get_elem? xs b)
ascends [] a b s le h = absurd (omega arith)
ascends (x ∷ xs) zero zero s le h = omega arith
ascends (x ∷ xs) zero (suc b) s le h = at_least x xs b s.0 (omega arith)
ascends (x ∷ xs) (suc a) zero s le h = absurd (omega arith)
ascends (x ∷ xs) (suc a) (suc b) s le h = ascends xs a b s.1 (omega arith) (omega arith)

test-Monotone : (pc : ℕ) (ts : List ℕ) → Ascending ts → Monotone (length ts) (test pc ts)
test-Monotone pc ts s a b le h e = ground (arith, ascends ts a b s le h)

-- The least index at which the test holds is where the scan stops.
scan-Least :
    (pc : ℕ) (ts ps : List ℕ) (r : ℕ)
    → length ps ≡ length ts
    → Least (test pc ts) 0 (length ts) r
    → scan pc ts ps ≡ get_elem? ps r
scan-Least pc [] [] r e l = refl
scan-Least pc [] (p ∷ ps) r e l = absurd (omega arith)
scan-Least pc (t ∷ ts) [] r e l = absurd (omega arith)
scan-Least pc (t ∷ ts) (p ∷ ps) zero e l =
    let h : leb pc t ≡ true = l.true_from 0 (omega arith) (omega arith) in rw h refl
scan-Least pc (t ∷ ts) (p ∷ ps) (suc r) e l =
    let h : leb pc t ≡ false = l.false_before 0 (omega arith) (omega arith) in
    rw h (
      scan-Least pc ts ps r (omega arith) (record {
        above = omega arith;
        below = omega (arith, l.below);
        false_before = λ k a b. l.false_before (suc k) (omega arith) (omega arith);
        true_from = λ k a b. l.true_from (suc k) (omega arith) (omega arith);
      }))

-- One program counter, with what the search finds.
classify_one :
    (c : PcClassifier) (i pc j : ℕ) (rest : List FrameOfInterest) (s : Snapshotter)
    → length c.prog_pc ≡ length c.target_pc
    → scan pc c.target_pc c.prog_pc ≡ get_elem? c.prog_pc j
    → choose
        (ltb j (length c.target_pc))
        (do
          prog_pc ← demand (get_elem? c.prog_pc j)
          pure (if prog_pc == 0 then rest else record { idx = i; pc = prog_pc } ∷ rest))
        (pure rest)
        s
      ≡ ok (with_frame i (scan pc c.target_pc c.prog_pc) rest, s)
unfolding choose pure
classify_one c i pc j rest s same found = elim (Bool-cases (ltb j (length c.target_pc))) [
  | inl e ↦
      let (p, there) = get_elem?_in_range c.prog_pc j (ground (arith, same)) in
      rw (e, found, there) (>>=_ok (demand (some p)) _ (demand-some refl))
  | inr e ↦
      let missing : get_elem? c.prog_pc j ≡ none =
        get_elem?_out_of_range c.prog_pc j (ground (arith, same)) in
      rw (e, found, missing) refl
]

classify_scan :
    (c : PcClassifier) (i : ℕ) (pcs : List ℕ) (s : Snapshotter)
    → Ascending c.target_pc
    → length c.prog_pc ≡ length c.target_pc
    → classify c i pcs s ≡ ok (frames_of c i pcs, s)
unfolding classify pure
classify_scan c i [] s a same = refl
classify_scan c i (pc ∷ pcs) s a same =
    let n = length c.target_pc in
    let found : scan pc c.target_pc c.prog_pc
        ≡ get_elem? c.prog_pc (sort_search n (test pc c.target_pc)) =
      scan-Least pc c.target_pc c.prog_pc _ same
        (sort_search-Least n (test pc c.target_pc) (test-Monotone pc c.target_pc a)) in
    >>=_ok (classify c (i + 1) pcs) _ (classify_scan c (i + 1) pcs s a same)
    ∙ classify_one c i pc _ (frames_of c (i + 1) pcs) s same found

-- The index points into the stack from `i` to `n`, and there is a program.
abbrev pub IsFrame : ℕ → ℕ → FrameOfInterest → Type 0
IsFrame i n f = (i ≤ f.idx) × (f.idx < n) × (¬ (f.pc ≡ 0))

IsFrame-wider :
    (i j n : ℕ) (fs : List FrameOfInterest)
    → i ≤ j
    → All (λ f. IsFrame j n f) fs
    → All (λ f. IsFrame i n f) fs
IsFrame-wider i j n [] le a = tt
IsFrame-wider i j n (f ∷ fs) le a =
    ((omega (arith, a.0.0), a.0.1, a.0.2), IsFrame-wider i j n fs le a.1)

with_frame-IsFrame :
    (i n : ℕ) (found : Option ℕ) (rest : List FrameOfInterest)
    → i < n
    → All (λ f. IsFrame i n f) rest
    → All (λ f. IsFrame i n f) (with_frame i found rest)
with_frame-IsFrame i n none rest lt a = a
with_frame-IsFrame i n (some p) rest lt a = elim (Bool-cases (p == 0)) [
  | inl e ↦ rw e a
  | inr e ↦ rw e ((omega arith, lt, λ z. ground (arith, e)), a)
]

frames_of-IsFrame :
    (c : PcClassifier) (i n : ℕ) (pcs : List ℕ)
    → i + length pcs ≤ n
    → All (λ f. IsFrame i n f) (frames_of c i pcs)
frames_of-IsFrame c i n [] le = tt
frames_of-IsFrame c i n (pc ∷ pcs) le =
    with_frame-IsFrame i n (scan pc c.target_pc c.prog_pc) (frames_of c (i + 1) pcs) (omega arith) (
      IsFrame-wider i (i + 1) n (frames_of c (i + 1) pcs) (omega arith)
        (frames_of-IsFrame c (i + 1) n pcs (omega arith)))

-- Over a classifier whose targets ascend, with a program for each, the search finds the same frames
-- of a stack as the plain scan over the targets, without a panic, and changes nothing. Each has an
-- index into the stack, and a program.
pub classify_scans :
    (c : PcClassifier) (pcs : List ℕ) (s : Snapshotter)
    → Ascending c.target_pc
    → length c.prog_pc ≡ length c.target_pc
    → (classify c 0 pcs s ≡ ok (frames_of c 0 pcs, s))
      × All (λ f. IsFrame 0 (length pcs) f) (frames_of c 0 pcs)
classify_scans c pcs s a same =
    (classify_scan c 0 pcs s a same, frames_of-IsFrame c 0 (length pcs) pcs (omega arith))
