-- ===== src/Conn/Threads/Inv.antt =====
-- What holds of a connection and its one caller, of internal/sideeyeconn/side_eye_conn.go, and that the
-- steps of the caller keep it.
use mathlib.Core.Path.{subst}
use side_eye_go.Prelude.{
  ℕ, ◌<◌, ◌≤◌, ◌≡◌, ◌⊎◌, inl, inr, refl, sym, ◌∙◌, arith, Bool, true, false, Bool-cases, Option,
  none, some, ◌==◌,
}
use side_eye_go.Conn.{Config, SideEyeConn, close_inner, install}
use side_eye_go.Conn.Threads.{
  TaskPc, unborn, serving, closing, ended, CallerPc, idle, entering, inner, waiting, preparing,
  starting, World, CallerStep, call_close, call_connect, skip, enter, stop, wait, refuse, put,
  spawn,
}

-- The goroutine may still call closeInner.
abbrev pub is_active : TaskPc → Bool
is_active serving = true
is_active closing = true
is_active t = false

-- The goroutine that the caller waits for.
abbrev pub waits_for : CallerPc → Option ℕ
waits_for (waiting g b) = some g
waits_for p = none

-- What the caller knows where it stands.
abbrev pub Knows : CallerPc → World → Type 0
Knows preparing w = w.conn.listener ≡ none
Knows (starting g) w = (w.conn.listener ≡ some g) × (w.tasks g ≡ unborn) × (g < w.next_task)
Knows (waiting g b) w = w.conn.listener ≡ none
Knows p w = (l : ℕ) → w.conn.listener ≡ some l → w.conn.wg ≡ some l

pub record Inv (w : World) : Type 0 where
  pub knows : Knows (w.callers 0) w
  -- An active goroutine owns the connection, or the connection is closed and the caller waits for it.
  pub owner :
      (g : ℕ)
      → is_active (w.tasks g) ≡ true
      → (w.conn.listener ≡ some g) ⊎ ((w.conn.listener ≡ none) × (waits_for (w.callers 0) ≡ some g))
  pub fresh : (g : ℕ) → w.next_task ≤ g → w.tasks g ≡ unborn

pub at : {w : World} (p : CallerPc) → w.callers 0 ≡ p → Inv w → Knows p w
at {w} p e h = subst (λ p. Knows p w) e h.knows

pub listener-close_inner : (c : SideEyeConn) → (close_inner c).listener ≡ none
unfolding close_inner
listener-close_inner c = ground arith

pub closed_now : (c : SideEyeConn) (l : ℕ) → (close_inner c).listener ≡ some l → ⊥
closed_now c l x = let e = listener-close_inner c in cc

-- Where the caller waits for nobody, an active goroutine owns the connection.
pub owned :
    {w : World} (g : ℕ)
    → Inv w
    → waits_for (w.callers 0) ≡ none
    → is_active (w.tasks g) ≡ true
    → w.conn.listener ≡ some g
owned g h free a = elim (h.owner g a) [ inl e ↦ e | inr (e, z) ↦ cc ]

install_listener :
    (g c : ℕ) (cfg : Config) (k : SideEyeConn) → (install g c cfg k).listener ≡ some g
unfolding install
install_listener g c cfg k = refl

-- Behind the wait no goroutine is active.
nobody :
    {w : World} (g g' : ℕ) (b : Bool)
    → w.callers 0 ≡ waiting g b
    → w.tasks g ≡ ended
    → is_active (w.tasks g') ≡ true
    → Inv w
    → ⊥
nobody {w} g g' b e z a h = elim (h.owner g' a) [
  | inl own ↦ let none_left = at (waiting g b) e h in cc
  | inr (none_left, mine) ↦ ground (arith, e)
]

pub CallerStep-Inv : {w w' : World} → CallerStep w 0 w' → Inv w → Inv w'
CallerStep-Inv {w} (call_close e) h = record {
  knows = at idle e h;
  owner = λ g a. inl (owned g h (rw e refl) a);
  fresh = h.fresh;
}
CallerStep-Inv {w} (call_connect e) h = record {
  knows = at idle e h;
  owner = λ g a. inl (owned g h (rw e refl) a);
  fresh = h.fresh;
}
CallerStep-Inv {w} (skip true e z) h = record {
  knows = z;
  owner = λ g a. inl (owned g h (rw e refl) a);
  fresh = h.fresh;
}
CallerStep-Inv {w} (skip false e z) h = record {
  knows = at (entering false) e h;
  owner = λ g a. inl (owned g h (rw e refl) a);
  fresh = h.fresh;
}
CallerStep-Inv {w} (enter b l e z) h = record {
  knows = at (entering b) e h;
  owner = λ g a. inl (owned g h (rw e refl) a);
  fresh = h.fresh;
}
CallerStep-Inv {w} (stop b g e z) h = record {
  knows = listener-close_inner w.conn;
  owner = λ g' a.
      let own = owned g' h (rw e refl) a in
      inr (listener-close_inner w.conn, sym z ∙ at (inner b) e h g' own);
  fresh = h.fresh;
}
CallerStep-Inv {w} (wait true g e z) h = record {
  knows = at (waiting g true) e h;
  owner = λ g' a. absurd (nobody g g' true e z a h);
  fresh = h.fresh;
}
CallerStep-Inv {w} (wait false g e z) h = record {
  knows = λ l x. absurd (let y = at (waiting g false) e h in cc);
  owner = λ g' a. absurd (nobody g g' false e z a h);
  fresh = h.fresh;
}
CallerStep-Inv {w} (refuse e) h = record {
  knows = λ l x. absurd (let y = at preparing e h in cc);
  owner = λ g a. inl (owned g h (rw e refl) a);
  fresh = h.fresh;
}
CallerStep-Inv {w} (put cfg c e) h = record {
  knows =
      (install_listener w.next_task c cfg w.conn, h.fresh w.next_task (omega arith), omega arith);
  owner = λ g a. absurd (let y = at preparing e h in let x = owned g h (rw e refl) a in cc);
  fresh = λ g lt. h.fresh g (omega arith);
}
CallerStep-Inv {w} (spawn g e) h =
    let (mine, unstarted, below) = at (starting g) e h in
    record {
      knows = λ l x. sym mine ∙ x;
      owner = λ g' a. inl (elim (Bool-cases (g == g')) [
        | inl same ↦ ground (arith, mine)
        | inr apart ↦ owned g' h (rw e refl) (rw apart at a)
      ]);
      fresh = λ g' lt. ground (arith, h.fresh g' lt);
    }
