-- ===== src/Unwinder/Walk.antt =====
-- The stacks that `walkStack` returns.
use side_eye_go.Prelude.{
  ℕ, zero, suc, ◌≤◌, ◌≡◌, refl, ap, sym, ◌∙◌, arith, List, [], ◌∷◌, Option, some, none, map, ◌==◌,
  length, add64, sub64, Bool-cases, inl, inr,
}
use side_eye_go.Memory.{Process}
use side_eye_go.Unwinder.{
  CallFrame, Arch, amd64, arm64, adjust_cfa, adjust_cfa_arm64, read_frame, walk_loop, walk_stack,
}

length-map : {A B : Type 0} (f : A → B) (xs : List A) → length (map f xs) ≡ length xs
length-map f [] = refl
length-map f (x ∷ xs) = ap suc (length-map f xs)

length-adjust_cfa_arm64 : (fps : List ℕ) (top : ℕ) → length (adjust_cfa_arm64 fps top) ≡ length fps
unfolding adjust_cfa_arm64
length-adjust_cfa_arm64 [] top = refl
length-adjust_cfa_arm64 (fp ∷ []) top = refl
length-adjust_cfa_arm64 (fp ∷ next ∷ fps) top = ap suc (length-adjust_cfa_arm64 (next ∷ fps) top)

length-adjust_cfa :
    (arch : Arch) (fps : List ℕ) (top : ℕ) → length (adjust_cfa arch fps top) ≡ length fps
unfolding adjust_cfa
length-adjust_cfa amd64 fps top = length-map (λ fp. add64 fp 16) fps
length-adjust_cfa arm64 fps top = length-adjust_cfa_arm64 fps top

frames_bound :
    (n : ℕ) (walk : ℕ → List CallFrame)
    → ((next : ℕ) → length (walk next) ≤ n)
    → (r : Option CallFrame)
    → length (elim r as (λ _. List CallFrame) [ none ↦ [] | some f ↦ f ∷ walk f.fp ]) ≤ suc n
frames_bound n walk h none = omega arith
frames_bound n walk h (some f) = omega (arith, h f.fp)

module _ (p : Process) where
  walk_loop-bound : (n next : ℕ) → length (walk_loop p n next) ≤ n
  unfolding walk_loop
  walk_loop-bound zero next = omega arith
  walk_loop-bound (suc n) next = elim (Bool-cases (next == 0)) [
    | inl e ↦ rw e (omega arith)
    | inr e ↦ rw e (frames_bound n (walk_loop p n) (walk_loop-bound n) (read_frame p next))
  ]

  -- `walkStack` returns as many program counters as frame addresses: at least one, and no more than
  -- its arrays hold.
  pub walk_stack-bounds :
      (arch : Arch) (base pc fp top : ℕ)
      → (length (walk_stack p arch base pc fp top).0 ≡ length (walk_stack p arch base pc fp top).1)
        × (1 ≤ length (walk_stack p arch base pc fp top).0)
        × (length (walk_stack p arch base pc fp top).0 ≤ 512)
  unfolding walk_stack
  walk_stack-bounds arch base pc fp top = elim (Bool-cases (fp == 0)) [
    | inl e ↦ rw e (refl, omega arith, omega arith)
    | inr e ↦
        let frames : List CallFrame = walk_loop p 511 fp in
        let pcs : length (map (λ f. f.pc) frames) ≡ length frames = length-map (λ f. f.pc) frames in
        let fps : length (map (λ f. f.fp) frames) ≡ length frames = length-map (λ f. f.fp) frames in
        let all_pcs : length (map (λ c. sub64 c base) (pc ∷ map (λ f. f.pc) frames))
            ≡ suc (length frames) =
          length-map (λ c. sub64 c base) (pc ∷ map (λ f. f.pc) frames) ∙ ap suc pcs in
        let all_fps : length (adjust_cfa arch (fp ∷ map (λ f. f.fp) frames) top)
            ≡ suc (length frames) =
          length-adjust_cfa arch (fp ∷ map (λ f. f.fp) frames) top ∙ ap suc fps in
        rw e (
          all_pcs ∙ sym all_fps,
          rw all_pcs (omega arith),
          rw all_pcs (omega (arith, walk_loop-bound 511 fp)),
        )
  ]
