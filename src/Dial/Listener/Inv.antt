-- ===== src/Dial/Listener/Inv.antt =====
-- The invariant of the listener of internal/serverdial/server_dial.go: its connections, its status
-- and where its goroutine stands.
use mathlib.Core.Path.{subst}
use side_eye_go.Prelude.{
  ap, ℕ, suc, ◌≤◌, ◌≡◌, ◌≢◌, ◌⊎◌, inl, inr, refl, arith, true, false, Bool-cases, List, [], ◌∷◌,
  length, ◌==◌,
}
use side_eye_go.Dial.Listener.{
  unknown_status, connected, disconnected, connecting, RunPc, starting, soon, due, dialing,
  stopping, parted, finishing, arrived, ended, offering, serving, Listener, announce, part, finish,
  contains, remove, RunStep, start, give_up, wait, dial, fail_soon, fail_late, connect, leave,
  again_soon, again_late, stop, Step, run, accept, close_conn, cancel, Reach, new, next,
}

-- Which connections may be live where the goroutine stands, and the status that goes with it.
abbrev pub Agrees : RunPc → Listener → Type 0
Agrees starting l = (l.live ≡ []) × (l.status ≡ unknown_status) × (l.is_done ≡ false)
Agrees soon l = (l.live ≡ []) × (l.status ≡ connecting) × (l.is_done ≡ false)
Agrees due l = (l.live ≡ []) × (l.status ≡ connecting) × (l.is_done ≡ false)
Agrees dialing l = (l.live ≡ []) × (l.status ≡ connecting) × (l.is_done ≡ false)
Agrees parted l = (l.live ≡ []) × (l.status ≡ connected) × (l.is_done ≡ false)
Agrees (arrived c) l =
    (l.live ≡ c ∷ [])
    × (l.status ≡ connecting)
    × (suc c ≡ l.dialed)
    × (l.is_done ≡ false)
    × (contains l.accepted c ≡ false)
Agrees (offering c) l =
    (l.live ≡ c ∷ [])
    × (l.status ≡ connected)
    × (suc c ≡ l.dialed)
    × (l.is_done ≡ false)
    × (contains l.accepted c ≡ false)
Agrees (serving c) l =
    ((l.live ≡ []) ⊎ (l.live ≡ c ∷ [])) × (l.status ≡ connected) × (l.is_done ≡ false)
Agrees stopping l =
    (length l.live ≤ 1)
    × (l.status ≢ disconnected)
    × (l.is_done ≡ false)
    × ((l.live ≡ []) ⊎ (l.status ≢ connecting))
Agrees finishing l = (length l.live ≤ 1) × (l.status ≡ disconnected) × (l.is_done ≡ false)
Agrees ended l = (length l.live ≤ 1) × (l.status ≡ disconnected) × (l.is_done ≡ true)

pub record Inv (l : Listener) : Type 0 where
  pub agrees : Agrees l.pc l
  pub numbered : (c : ℕ) → l.dialed ≤ c → contains l.accepted c ≡ false

length-remove-le : (c : ℕ) (xs : List ℕ) → length (remove c xs) ≤ length xs
length-remove-le c [] = omega arith
length-remove-le c (x ∷ xs) = ground (arith, length-remove-le c xs)

at_most_one : {xs : List ℕ} (c : ℕ) → (xs ≡ []) ⊎ (xs ≡ c ∷ []) → length xs ≤ 1
at_most_one c (inl e) = rw e (omega arith)
at_most_one c (inr e) = rw e (omega arith)

none_live : (c : ℕ) (xs : List ℕ) → (xs ≡ []) ⊎ (xs ≡ c ∷ []) → contains xs c ≡ false → xs ≡ []
none_live c xs (inl e) z = e
none_live c xs (inr e) z = ground arith

pub at : {l : Listener} (p : RunPc) → l.pc ≡ p → Inv l → Agrees p l
at {l} p e h = subst (λ p. Agrees p l) e h.agrees

contains-cons :
    (c d : ℕ) (xs : List ℕ) → suc d ≤ c → contains xs c ≡ false → contains (d ∷ xs) c ≡ false
contains-cons c d xs lt h = ground arith

RunStep-Inv : {l l' : Listener} → RunStep l l' → Inv l → Inv l'
RunStep-Inv (start e) h =
    let a = at starting e h in record { agrees = (a.0, refl, a.2); numbered = h.numbered }
RunStep-Inv (give_up e z) h =
    let a = at soon e h in
    record { agrees = (rw a.0 (omega arith), λ d. cc, a.2, inl a.0); numbered = h.numbered }
RunStep-Inv (wait e) h = record { agrees = at soon e h; numbered = h.numbered }
RunStep-Inv (dial e) h = record { agrees = at due e h; numbered = h.numbered }
RunStep-Inv (fail_soon e) h = record { agrees = at dialing e h; numbered = h.numbered }
RunStep-Inv (fail_late e) h = record { agrees = at dialing e h; numbered = h.numbered }
RunStep-Inv {l} (connect e) h =
    let a = at dialing e h in
    record {
      agrees = (ap (λ xs. l.dialed ∷ xs) a.0, a.1, refl, a.2, h.numbered l.dialed (omega arith));
      numbered = λ c lt. h.numbered c (omega arith);
    }
RunStep-Inv (announce c e) h =
    let a = at (arrived c) e h in
    record { agrees = (a.0, refl, a.2, a.3, a.4); numbered = h.numbered }
RunStep-Inv (leave c e z) h =
    let a = at (serving c) e h in
    record { agrees = (at_most_one c a.0, λ d. cc, a.2, inr (λ d. cc)); numbered = h.numbered }
RunStep-Inv {l} (part c e z) h =
    let a = at (serving c) e h in
    record { agrees = (none_live c l.live a.0 z, a.1, a.2); numbered = h.numbered }
RunStep-Inv (again_soon e) h =
    let a = at parted e h in record { agrees = (a.0, refl, a.2); numbered = h.numbered }
RunStep-Inv (again_late e) h =
    let a = at parted e h in record { agrees = (a.0, refl, a.2); numbered = h.numbered }
RunStep-Inv (stop e) h =
    let a = at stopping e h in record { agrees = (a.0, refl, a.2); numbered = h.numbered }
RunStep-Inv (finish e) h =
    let a = at finishing e h in record { agrees = (a.0, a.1, refl); numbered = h.numbered }

-- What is left of the live connections when one is closed.
remove_one :
    (c d : ℕ) (xs : List ℕ)
    → (xs ≡ []) ⊎ (xs ≡ c ∷ [])
    → (remove d xs ≡ []) ⊎ (remove d xs ≡ c ∷ [])
remove_one c d xs (inl e) = inl (rw e refl)
remove_one c d xs (inr e) = elim (Bool-cases (c == d)) [
  | inl same ↦ inl (ground arith)
  | inr apart ↦ inr (ground arith)
]

keep_offered :
    (c d : ℕ) (xs accepted : List ℕ)
    → xs ≡ c ∷ []
    → contains accepted c ≡ false
    → contains accepted d ≡ true
    → remove d xs ≡ c ∷ []
keep_offered c d xs accepted e fresh old = ground arith

close-Agrees :
    (p : RunPc) (l : Listener) (d : ℕ)
    → contains l.accepted d ≡ true
    → Agrees p l
    → Agrees p (record l { live = remove d l.live })
close-Agrees starting l d z a = (rw a.0 refl, a.1, a.2)
close-Agrees soon l d z a = (rw a.0 refl, a.1, a.2)
close-Agrees due l d z a = (rw a.0 refl, a.1, a.2)
close-Agrees dialing l d z a = (rw a.0 refl, a.1, a.2)
close-Agrees parted l d z a = (rw a.0 refl, a.1, a.2)
close-Agrees finishing l d z a = (omega (arith, length-remove-le d l.live), a.1, a.2)
close-Agrees (arrived c) l d z a =
    (keep_offered c d l.live l.accepted a.0 a.4 z, a.1, a.2, a.3, a.4)
close-Agrees (offering c) l d z a =
    (keep_offered c d l.live l.accepted a.0 a.4 z, a.1, a.2, a.3, a.4)
close-Agrees (serving c) l d z a = (remove_one c d l.live a.0, a.1, a.2)
close-Agrees stopping l d z (short, st, alive, inl e) =
    (omega (arith, length-remove-le d l.live), st, alive, inl (rw e refl))
close-Agrees stopping l d z (short, st, alive, inr e) =
    (omega (arith, length-remove-le d l.live), st, alive, inr e)
close-Agrees ended l d z a = (omega (arith, length-remove-le d l.live), a.1, a.2)

cancel-Agrees : (p : RunPc) (l : Listener) → Agrees p l → Agrees p (record l { cancelled = true })
cancel-Agrees starting l a = a
cancel-Agrees soon l a = a
cancel-Agrees due l a = a
cancel-Agrees dialing l a = a
cancel-Agrees parted l a = a
cancel-Agrees finishing l a = a
cancel-Agrees (arrived c) l a = a
cancel-Agrees (offering c) l a = a
cancel-Agrees (serving c) l a = a
cancel-Agrees stopping l a = a
cancel-Agrees ended l a = a

accepted_below :
    (c d : ℕ) (xs : List ℕ) → suc c ≤ d → contains xs d ≡ false → contains (c ∷ xs) d ≡ false
accepted_below c d xs lt h = ground arith

Step-Inv : {l l' : Listener} → Step l l' → Inv l → Inv l'
Step-Inv (run r) h = RunStep-Inv r h
Step-Inv {l} (accept c e) h =
    let a = at (offering c) e h in
    record {
      agrees = (inr a.0, a.1, a.3);
      numbered = λ d lt. accepted_below c d l.accepted (omega (arith, a.2)) (h.numbered d lt);
    }
Step-Inv {l} (close_conn c z) h = record {
  agrees = close-Agrees l.pc l c z h.agrees;
  numbered = h.numbered;
}
Step-Inv {l} cancel h = record { agrees = cancel-Agrees l.pc l h.agrees; numbered = h.numbered }

pub Reach-Inv : {l : Listener} → Reach l → Inv l
Reach-Inv new = record { agrees = (refl, refl, refl); numbered = λ c lt. refl }
Reach-Inv (next r st) = Step-Inv st (Reach-Inv r)
