-- ===== src/Dial/Listener/Blocked.antt =====
-- How `Close` of the listener of internal/serverdial/server_dial.go waits for the goroutine.
use side_eye_go.Prelude.{ℕ, ◌≡◌, ◌≢◌, refl, true, false}
use side_eye_go.Dial.Listener.{
  disconnected, RunPc, starting, soon, due, dialing, stopping, ended, parted, finishing, arrived,
  offering, serving, Listener, announce, part, finish, remove, RunStep, start, give_up, wait, dial,
  fail_soon, fail_late, connect, leave, again_soon, again_late, stop, Reach,
}
use side_eye_go.Dial.Listener.Inv.{at, Reach-Inv}

-- What may happen while nobody calls Accept.
pub data Quiet (l : Listener) : Listener → Type 0 where
  here : Quiet l l
  run : {l' l'' : Listener} → Quiet l l' → RunStep l' l'' → Quiet l l''
  close_conn :
      {l' : Listener} (c : ℕ) → Quiet l l' → Quiet l (record l' { live = remove c l'.live })
  cancel : {l' : Listener} → Quiet l l' → Quiet l (record l' { cancelled = true })

IsOffering : Listener → Type 0
IsOffering l = ((c : ℕ) × (l.pc ≡ offering c)) × (l.is_done ≡ false)

stays : {l l' : Listener} → RunStep l l' → (c : ℕ) → l.pc ≡ offering c → ⊥
stays (start e) c h = cc
stays (give_up e z) c h = cc
stays (wait e) c h = cc
stays (dial e) c h = cc
stays (fail_soon e) c h = cc
stays (fail_late e) c h = cc
stays (connect e) c h = cc
stays (leave d e z) c h = cc
stays (announce d e) c h = cc
stays (part d e z) c h = cc
stays (again_soon e) c h = cc
stays (again_late e) c h = cc
stays (stop e) c h = cc
stays (finish e) c h = cc

Quiet-IsOffering : {l l' : Listener} → Quiet l l' → IsOffering l → IsOffering l'
unfolding IsOffering
Quiet-IsOffering here h = h
Quiet-IsOffering (run q s) h = let ((c, e), d) = Quiet-IsOffering q h in absurd (stays s c e)
Quiet-IsOffering (close_conn c q) h = Quiet-IsOffering q h
Quiet-IsOffering (cancel q) h = Quiet-IsOffering q h

-- While the goroutine stands at its send and nobody calls Accept, `done` stays open, whatever happens
-- and whether `Close` has cancelled the dialing or not: `Close` does not return.
pub Quiet-not_done :
    {l l' : Listener} (c : ℕ) → Reach l → l.pc ≡ offering c → Quiet l l' → l'.is_done ≡ false
unfolding IsOffering
Quiet-not_done c r e q = (Quiet-IsOffering q ((c, e), (at (offering c) e (Reach-Inv r)).3)).1

-- Steps of the goroutine alone.
pub data Runs : Listener → Listener → Type 0 where
  nil : (l : Listener) → Runs l l
  cons : {l l' l'' : Listener} → RunStep l l' → Runs l' l'' → Runs l l''

-- The goroutine can end by itself.
abbrev pub CanEnd : Listener → Type 0
CanEnd l = (l' : Listener) × Runs l l' × (l'.is_done ≡ true) × (l'.status ≡ disconnected)

from_stopping : (l : Listener) → l.pc ≡ stopping → CanEnd l
from_stopping l e = (_, cons (stop e) (cons (finish refl) (nil _)), refl, refl)

before : {l l' : Listener} → RunStep l l' → CanEnd l' → CanEnd l
before s (l'', r, d, st) = (l'', cons s r, d, st)

from_dialing : (l : Listener) → l.pc ≡ dialing → l.cancelled ≡ true → CanEnd l
from_dialing l e z = before (fail_soon e) (before (give_up refl z) (from_stopping _ refl))

from :
    (p : RunPc) (l : Listener)
    → Reach l
    → l.pc ≡ p
    → l.cancelled ≡ true
    → ((c : ℕ) → (p ≢ offering c) × (p ≢ arrived c))
    → CanEnd l
from starting l r e z free = before (start e) (before (dial refl) (from_dialing _ refl z))
from soon l r e z free = before (give_up e z) (from_stopping _ refl)
from due l r e z free = before (dial e) (from_dialing _ refl z)
from dialing l r e z free = from_dialing l e z
from parted l r e z free = before (again_soon e) (before (give_up refl z) (from_stopping _ refl))
from finishing l r e z free =
    let a = at finishing e (Reach-Inv r) in (_, cons (finish e) (nil _), refl, a.1)
from (arrived c) l r e z free = absurd ((free c).1 refl)
from stopping l r e z free = from_stopping l e
from ended l r e z free = let a = at ended e (Reach-Inv r) in (l, nil l, a.2, a.1)
from (offering c) l r e z free = absurd ((free c).0 refl)
from (serving c) l r e z free = before (leave c e z) (from_stopping _ refl)

-- Once `Close` has cancelled the dialing, the goroutine of a listener can end by its own steps, with
-- the status Disconnected, wherever it stands but at its send, or before it with a new connection.
pub cancelled-CanEnd :
    (l : Listener)
    → Reach l
    → l.cancelled ≡ true
    → ((c : ℕ) → (l.pc ≢ offering c) × (l.pc ≢ arrived c))
    → CanEnd l
cancelled-CanEnd l r z free = from l.pc l r refl z free
