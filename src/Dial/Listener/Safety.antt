-- ===== src/Dial/Listener/Safety.antt =====
-- The connections of the listener of internal/serverdial/server_dial.go, and its status.
use side_eye_go.Prelude.{
  ℕ, ◌≤◌, ◌≡◌, refl, ◌≢◌, ◌⊎◌, ◌↔◌, arith, true, false, List, [], ◌∷◌, length, inl, inr,
}
use side_eye_go.Dial.Listener.{
  disconnected, connecting, RunPc, starting, soon, due, dialing, parted, stopping, finishing, ended,
  arrived, offering, serving, Listener, contains, Reach,
}
use side_eye_go.Dial.Listener.Inv.{Agrees, Reach-Inv}

-- Nobody was given the connections.
abbrev pub NotAccepted : List ℕ → List ℕ → Type 0
NotAccepted [] accepted = Unit {0}
NotAccepted (c ∷ live) accepted = (contains accepted c ≡ false) × NotAccepted live accepted

-- What holds of a listener in every state.
abbrev pub IsSafe : Listener → Type 0
IsSafe l =
    (length l.live ≤ 1)
    × (NotAccepted l.live l.accepted ⊎ (l.status ≢ connecting))
    × ((l.status ≡ disconnected) ↔ ((l.pc ≡ finishing) ⊎ (l.pc ≡ ended)))
    × ((l.is_done ≡ true) ↔ (l.pc ≡ ended))

-- Before the deferred calls.
running :
    (l : Listener)
    → length l.live ≤ 1
    → NotAccepted l.live l.accepted ⊎ (l.status ≢ connecting)
    → l.status ≢ disconnected
    → l.is_done ≡ false
    → l.pc ≢ finishing
    → l.pc ≢ ended
    → IsSafe l
running l short given st d f g = (
  short,
  given,
  (λ e. absurd (st e), λ x. elim x [ inl e ↦ absurd (f e) | inr e ↦ absurd (g e) ]),
  (λ e. cc, λ e. absurd (g e)),
)

Agrees-IsSafe : (p : RunPc) (l : Listener) → l.pc ≡ p → Agrees p l → IsSafe l
Agrees-IsSafe starting l e a =
    running l (rw a.0 (omega arith)) (inl (rw a.0 tt)) (λ z. cc) a.2 (λ z. cc) (λ z. cc)
Agrees-IsSafe soon l e a =
    running l (rw a.0 (omega arith)) (inl (rw a.0 tt)) (λ z. cc) a.2 (λ z. cc) (λ z. cc)
Agrees-IsSafe due l e a =
    running l (rw a.0 (omega arith)) (inl (rw a.0 tt)) (λ z. cc) a.2 (λ z. cc) (λ z. cc)
Agrees-IsSafe dialing l e a =
    running l (rw a.0 (omega arith)) (inl (rw a.0 tt)) (λ z. cc) a.2 (λ z. cc) (λ z. cc)
Agrees-IsSafe parted l e a =
    running l (rw a.0 (omega arith)) (inl (rw a.0 tt)) (λ z. cc) a.2 (λ z. cc) (λ z. cc)
Agrees-IsSafe (arrived c) l e a =
    running l (rw a.0 (omega arith)) (inl (rw a.0 (a.4, tt))) (λ z. cc) a.3 (λ z. cc) (λ z. cc)
Agrees-IsSafe (offering c) l e a =
    running l (rw a.0 (omega arith)) (inr (λ z. cc)) (λ z. cc) a.3 (λ z. cc) (λ z. cc)
Agrees-IsSafe (serving c) l e (inl x, st, open_) =
    running l (rw x (omega arith)) (inr (λ z. cc)) (λ z. cc) open_ (λ z. cc) (λ z. cc)
Agrees-IsSafe (serving c) l e (inr x, st, open_) =
    running l (rw x (omega arith)) (inr (λ z. cc)) (λ z. cc) open_ (λ z. cc) (λ z. cc)
Agrees-IsSafe stopping l e (short, st, open_, inl x) =
    running l short (inl (rw x tt)) st open_ (λ z. cc) (λ z. cc)
Agrees-IsSafe stopping l e (short, st, open_, inr x) =
    running l short (inr x) st open_ (λ z. cc) (λ z. cc)
Agrees-IsSafe finishing l e a = (a.0, inr (λ z. cc), (λ z. inl e, λ z. a.1), (λ z. cc, λ z. cc))
Agrees-IsSafe ended l e a = (a.0, inr (λ z. cc), (λ z. inr e, λ z. a.1), (λ z. e, λ z. a.2))

-- In every state of a listener, however its goroutine, Accept, Close and the closing of connections
-- are interleaved: at most one of the connections that it dialed is open; while the status is
-- Connecting, no call of Accept has returned one that is open; the status is Disconnected exactly
-- from the deferred call on that sets it; and `done` is closed exactly where the goroutine has ended.
pub Reach-IsSafe : {l : Listener} → Reach l → IsSafe l
Reach-IsSafe {l} r = Agrees-IsSafe l.pc l refl (Reach-Inv r).agrees
