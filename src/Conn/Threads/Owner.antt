-- ===== src/Conn/Threads/Owner.antt =====
-- Which goroutine closes which connection, where Connect and Close of
-- internal/sideeyeconn/side_eye_conn.go have one caller.
use mathlib.Core.Path.{subst}
use side_eye_go.Prelude.{
  ℕ, zero, suc, ◌≡◌, ◌≢◌, ◌⊎◌, inl, inr, refl, ap, ◌∙◌, arith, true, Bool-cases, none, some, ◌==◌,
}
use side_eye_go.Conn.{close_inner}
use side_eye_go.Conn.Threads.{
  TaskPc, unborn, closing, leaving, ended, CallerPc, idle, entering, inner, waiting, preparing,
  starting, World, update, TaskStep, return_serve, close_task, end_task, Step, call, task, Reach,
  new, next,
}
use side_eye_go.Conn.Threads.Inv.{
  is_active, waits_for, Knows, Inv, at, owned, listener-close_inner, closed_now, CallerStep-Inv,
}

was_active :
    (g g' : ℕ) (p : TaskPc) (tasks : ℕ → TaskPc)
    → (is_active p ≡ true → is_active (tasks g) ≡ true)
    → is_active (update tasks g p g') ≡ true
    → is_active (tasks g') ≡ true
was_active g g' p tasks active a = elim (Bool-cases (g == g')) [
  | inl same ↦
      let e : g ≡ g' = ground arith in
      subst (λ i. is_active (tasks i) ≡ true) e (active (rw same at a))
  | inr apart ↦ rw apart at a
]

still_unborn :
    (g g' : ℕ) (p : TaskPc) (tasks : ℕ → TaskPc)
    → tasks g ≢ unborn
    → tasks g' ≡ unborn
    → update tasks g p g' ≡ unborn
still_unborn g g' p tasks born u = elim (Bool-cases (g == g')) [
  | inl same ↦ let e : g ≡ g' = ground arith in absurd (born (ap tasks e ∙ u))
  | inr apart ↦ rw apart u
]

move-Knows :
    (g : ℕ) (p : TaskPc) (c : CallerPc) (w : World)
    → w.tasks g ≢ unborn
    → Knows c w
    → Knows c (record w { tasks = update w.tasks g p })
move-Knows g p idle w born k = k
move-Knows g p (entering b) w born k = k
move-Knows g p (inner b) w born k = k
move-Knows g p (waiting g' b) w born k = k
move-Knows g p preparing w born k = k
move-Knows g p (starting g') w born (mine, u, below) =
    (mine, still_unborn g g' p w.tasks born u, below)

-- An active goroutine closes the connection.
close-Knows :
    (g : ℕ) (c : CallerPc) (w : World)
    → w.callers 0 ≡ c
    → w.tasks g ≡ closing
    → Inv w
    → Knows c (record w { conn = close_inner w.conn; tasks = update w.tasks g leaving })
close-Knows g idle w at_c e h = λ l x. absurd (closed_now w.conn l x)
close-Knows g (entering b) w at_c e h = λ l x. absurd (closed_now w.conn l x)
close-Knows g (inner b) w at_c e h = λ l x. absurd (closed_now w.conn l x)
close-Knows g (waiting g' b) w at_c e h = listener-close_inner w.conn
close-Knows g preparing w at_c e h = listener-close_inner w.conn
close-Knows g (starting g') w at_c e h =
    let (mine, u, below) = at (starting g') at_c h in
    let own = owned g h (rw at_c refl) (rw e refl) in absurd (ground (arith, u, own, mine))

-- A step of a goroutine that is active before it, at `p`, and active or not behind it.
move-Inv :
    {w : World} (g : ℕ) (p : TaskPc)
    → (w.tasks g ≢ unborn)
    → (is_active p ≡ true → is_active (w.tasks g) ≡ true)
    → Inv w
    → Inv (record w { tasks = update w.tasks g p })
move-Inv {w} g p born active h = record {
  knows = move-Knows g p (w.callers 0) w born h.knows;
  owner = λ g' a. h.owner g' (was_active g g' p w.tasks active a);
  fresh = λ g' lt. ground (arith, h.fresh g' lt);
}

-- Another goroutine that is active is the one that the caller waits for.
other_waits :
    {w : World} (g g' : ℕ)
    → w.tasks g ≡ closing
    → is_active (update w.tasks g leaving g') ≡ true
    → Inv w
    → waits_for (w.callers 0) ≡ some g'
other_waits {w} g g' e a h = elim (Bool-cases (g == g')) [
  | inl same ↦ absurd (let x = (rw same at a) in cc)
  | inr apart ↦ elim (h.owner g' (rw apart at a)) [
    | inl mine ↦ elim (h.owner g (rw e refl)) [
      | inl own ↦ absurd (ground (arith, mine))
      | inr (closed, z) ↦ absurd (cc)
    ]
    | inr (closed, z) ↦ z
  ]
]

close_task-Inv :
    {w : World} (g : ℕ)
    → w.tasks g ≡ closing
    → Inv w
    → Inv (record w { conn = close_inner w.conn; tasks = update w.tasks g leaving })
close_task-Inv {w} g e h = record {
  knows = close-Knows g (w.callers 0) w refl e h;
  owner = λ g' a. inr (listener-close_inner w.conn, other_waits g g' e a h);
  fresh = λ g' lt. ground (arith, h.fresh g' lt);
}

TaskStep-Inv : {w : World} (g : ℕ) {w' : World} → TaskStep w g w' → Inv w → Inv w'
TaskStep-Inv {w} g (return_serve e) h = move-Inv g closing (λ u. cc) (λ a. rw e refl) h
TaskStep-Inv {w} g (close_task e) h = close_task-Inv g e h
TaskStep-Inv {w} g (end_task e) h = move-Inv g ended (λ u. cc) (λ a. cc) h

Step-Inv : {w w' : World} → Step 1 w w' → Inv w → Inv w'
Step-Inv (call zero lt st) h = CallerStep-Inv st h
Step-Inv (call (suc i) lt st) h = absurd (omega arith)
Step-Inv (task g st) h = TaskStep-Inv g st h

Reach-Inv : {w : World} → Reach 1 w → Inv w
Reach-Inv new = record { knows = λ l x. cc; owner = λ g a. cc; fresh = λ g lt. refl }
Reach-Inv (next r st) = Step-Inv st (Reach-Inv r)

-- Where Connect and Close have one caller, a goroutine that is about to run its deferred closeInner
-- finds its own connection or none: it never closes a later one, however the steps are interleaved.
pub closing_own :
    {w : World} (g : ℕ)
    → Reach 1 w
    → w.tasks g ≡ closing
    → (w.conn.listener ≡ some g) ⊎ (w.conn.listener ≡ none)
closing_own g r e = elim ((Reach-Inv r).owner g (rw e refl)) [
  | inl own ↦ inl own
  | inr (closed, z) ↦ inr closed
]
