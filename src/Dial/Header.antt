-- ===== src/Dial/Header.antt =====
-- The header on a connection, `writeHeader` of internal/serverdial/header_dialer.go.
use mathlib.Core.Path.{subst}
use mathlib.Core.List.{append_assoc}
use side_eye_go.Prelude.{
  ℕ, zero, suc, ◌-◌, ◌≤◌, ◌<◌, ◌≡◌, ◌⊎◌, inl, inr, refl, ap, ◌∙◌, arith, false, Bool-cases, List,
  [], ◌∷◌, ◌++◌, length, take, drop, take-append-drop, length-drop, ltb,
}
use side_eye_go.Go.{GoError, wrapped}
use side_eye_go.Dial.{
  Wrote, wrote, broke, Ending, returned, errored, panicked, pending, write_loop, write_header,
  inbound_server_prefix,
}

-- What went out is a first part of what was to go out, and all of it where the loop returns.
abbrev Sent : List ℕ → List ℕ × Ending → Type 0
Sent bs (out, returned) = out ≡ bs
Sent bs (out, errored e) = (rest : List ℕ) × (out ++ rest ≡ bs)
Sent bs (out, panicked) = (rest : List ℕ) × (out ++ rest ≡ bs)
Sent bs (out, pending) = (rest : List ℕ) × (out ++ rest ≡ bs)

part_of_rest :
    (n : ℕ) (bs out rest : List ℕ) → out ++ rest ≡ drop n bs → (take n bs ++ out) ++ rest ≡ bs
part_of_rest n bs out rest h =
    append_assoc (take n bs) out rest ∙ ap (λ l. take n bs ++ l) h ∙ take-append-drop n bs

Sent-more :
    (n : ℕ) (bs : List ℕ) (r : List ℕ × Ending)
    → Sent (drop n bs) r
    → Sent bs (take n bs ++ r.0, r.1)
Sent-more n bs (out, returned) h = rw h (take-append-drop n bs)
Sent-more n bs (out, errored e) (rest, h) = (rest, part_of_rest n bs out rest h)
Sent-more n bs (out, panicked) (rest, h) = (rest, part_of_rest n bs out rest h)
Sent-more n bs (out, pending) (rest, h) = (rest, part_of_rest n bs out rest h)

write_loop-Sent : (results : List Wrote) (bs : List ℕ) → Sent bs (write_loop results bs)
unfolding write_loop
write_loop-Sent results [] = refl
write_loop-Sent [] (b ∷ bs) = (b ∷ bs, refl)
write_loop-Sent (broke n e ∷ results) (b ∷ bs) = (drop n (b ∷ bs), take-append-drop n (b ∷ bs))
write_loop-Sent (wrote n ∷ results) (b ∷ bs) = elim (Bool-cases (ltb (length (b ∷ bs)) n)) [
  | inl e ↦ rw e (drop n (b ∷ bs), take-append-drop n (b ∷ bs))
  | inr e ↦ rw e (Sent-more n (b ∷ bs) _ (write_loop-Sent results (drop n (b ∷ bs))))
]

-- Calls that go on: each writes at least a byte and no more than it was given, or fails.
abbrev pub Honest : List Wrote → ℕ → Type 0
Honest results zero = Unit {0}
Honest [] (suc m) = Unit {0}
Honest (broke n e ∷ results) (suc m) = Unit {0}
Honest (wrote n ∷ results) (suc m) = (0 < n) × (n ≤ suc m) × Honest results (suc m - n)

-- How `writeHeader` may end then.
abbrev Ends : Ending → Type 0
Ends e = (e ≡ returned) ⊎ ((x : GoError) × (e ≡ errored (wrapped "failed to write header" x)))

write_loop-Ends :
    (results : List Wrote) (bs : List ℕ)
    → Honest results (length bs)
    → length bs ≤ length results
    → Ends (write_loop results bs).1
unfolding write_loop
write_loop-Ends results [] h enough = inl refl
write_loop-Ends [] (b ∷ bs) h enough = absurd (omega arith)
write_loop-Ends (broke n e ∷ results) (b ∷ bs) h enough = inr (e, refl)
write_loop-Ends (wrote n ∷ results) (b ∷ bs) (some, fits, h) enough =
    let whole : ltb (length (b ∷ bs)) n ≡ false = ground arith in
    rw whole (
      write_loop-Ends results (drop n (b ∷ bs)) (rw (length-drop n (b ∷ bs)) h)
        (omega (arith, length-drop n (b ∷ bs))))

-- All of the header went out, or a call failed behind a first part of it.
abbrev pub Finished : List ℕ × Ending → Type 0
Finished (out, e) =
    ((e ≡ returned) × (out ≡ inbound_server_prefix))
    ⊎ ((x : GoError) × (e ≡ errored (wrapped "failed to write header" x))
        × ((rest : List ℕ) × (out ++ rest ≡ inbound_server_prefix)))

finish : (r : List ℕ × Ending) → Ends r.1 → Sent inbound_server_prefix r → Finished r
finish (out, e) (inl h) s = inl (h, subst (λ e. Sent inbound_server_prefix (out, e)) h s)
finish (out, e) (inr (x, h)) s = inr (x, h, subst (λ e. Sent inbound_server_prefix (out, e)) h s)

-- Where each call of Write writes at least a byte and no more than it was given, or fails, eight
-- calls are enough: `writeHeader` returns, without an error and with the whole header sent, or with
-- the error of a call behind a first part of the header.
pub write_header_ends :
    (results : List Wrote) → Honest results 8 → 8 ≤ length results → Finished (write_header results)
unfolding write_header
write_header_ends results h enough =
    finish (write_loop results inbound_server_prefix)
      (write_loop-Ends results inbound_server_prefix h enough)
      (write_loop-Sent results inbound_server_prefix)
