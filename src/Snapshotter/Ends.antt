-- ===== src/Snapshotter/Ends.antt =====
-- The loop of processQueue of internal/snapshot/snapshot.go ends.
use side_eye_go.Prelude.{
  ℕ, zero, suc, ◌+◌, ◌^◌, ◌<◌, ◌≡◌, refl, ap, arith, Bool, true, false, List, [], ◌∷◌, ◌++◌, length,
  Option, none, some, M, Result, ok, trap, Returns, Returns-zoom, pure, stop, stuck, get, choose,
  on_option, ◌>>=◌, ◌>>◌, Keeps, Keeps-option, Keeps-pure,
}
use side_eye_go.Prelude.{◌⊎◌}
use side_eye_go.Framing.{QueueEntry}
use side_eye_go.OutBuf
use side_eye_go.Queue
use side_eye_go.Queue.{Queue}
use side_eye_go.Queue.Calls.{entries_of}
use side_eye_go.Queue.Inv.{Inv, pop_result}
use side_eye_go.Queue.Count.{handed_bound}
use side_eye_go.Machine.State.{Machine, on_queue}
use side_eye_go.Machine.Sound.{Sound}
use side_eye_go.Snapshotter.{Snapshotter, Target, on_machine}
use side_eye_go.Snapshotter.Pointers.{process_entry, drain, process_queue}
use side_eye_go.Snapshotter.Held.{Held, process_entry-Held}
use side_eye_go.Snapshotter.Sane.{Sane}
use side_eye_go.Snapshotter.Drain.{process_queue-Done}

-- Code that goes on in two ways, which agree wherever it may return.
module _ {S A B : Type 0} (Q : A → S → Type 0) (f g : A → M S B) where
  bind_agree :
      (r : Result (A × S))
      → Returns Q r
      → ((a : A) (s : S) → Q a s → f a s ≡ g a s)
      → (elim r as (λ _. Result (B × S)) [ ok (a, s') ↦ f a s' | trap t ↦ trap t ])
        ≡ (elim r as (λ _. Result (B × S)) [ ok (a, s') ↦ g a s' | trap t ↦ trap t ])
  bind_agree (ok (a, s)) h k = k a s h
  bind_agree (trap t) h k = refl

  agree :
      (m : M S A) (s : S)
      → Returns Q (m s)
      → ((a : A) (s' : S) → Q a s' → f a s' ≡ g a s')
      → (m >>= f) s ≡ (m >>= g) s
  unfolding ◌>>=◌
  agree m s h k = bind_agree (m s) h k

choose_agree :
    {S A : Type 0} (b : Bool) (m k k' : M S A) (s : S)
    → k s ≡ k' s
    → choose b m k s ≡ choose b m k' s
unfolding choose
choose_agree true m k k' s e = refl
choose_agree false m k k' s e = e

length-snoc : (es : List QueueEntry) (e : QueueEntry) → length (es ++ (e ∷ [])) ≡ suc (length es)
length-snoc [] e = refl
length-snoc (x ∷ es) e = ap suc (length-snoc es e)

module _ {c : ℕ} {prog : List ℕ} where
  -- The queue hands out one entry more, or none.
  pop-Held :
      (handed : List QueueEntry) (s : Snapshotter)
      → Held c prog handed s
      → Returns
          (λ e s'. Held c prog (handed ++ entries_of e) s')
          (on_machine (on_queue Queue.pop) s)
  unfolding on_machine on_queue
  pop-Held handed s h =
      Returns-zoom (λ e (m : Machine). Sound c prog (handed ++ entries_of e) m) _ (λ s. s.sm)
        (λ s sm. record s { sm = sm }) (on_queue Queue.pop) s
        (Returns-zoom (λ e q. Inv q (handed ++ entries_of e)) _ (λ m. m.q)
          (λ m q. record m { q = q }) Queue.pop s.sm (pop_result s.sm.q handed h.queue)
          λ e q v. record { buffer = h.buffer; program = h.program; queue = v })
        λ e m v. v

  round-Held :
      (t : Target) (handed : List QueueEntry) (entry : QueueEntry)
      → Keeps
          (Held c prog handed)
          (on_option (t.program.type_info entry.type_id) (pure tt) (λ ti. process_entry t entry ti))
  round-Held t handed entry = Keeps-option _ _ _ (Keeps-pure tt) λ ti. process_entry-Held t entry ti

  -- A round for what was popped, before loops that agree.
  round_agree :
      (t : Target) (k k' : M Snapshotter (Unit {0})) (handed : List QueueEntry)
      (front : Option QueueEntry) (s : Snapshotter)
      → Held c prog (handed ++ entries_of front) s
      → ((e : QueueEntry) (s' : Snapshotter) → Held c prog (handed ++ (e ∷ [])) s' → k s' ≡ k' s')
      → on_option front
          (pure tt)
          (λ entry. do
            on_option (t.program.type_info entry.type_id) (pure tt) (λ ti. process_entry t entry ti)
            k)
          s
        ≡ on_option front
            (pure tt)
            (λ entry. do
              on_option
                  (t.program.type_info entry.type_id)
                  (pure tt)
                  (λ ti. process_entry t entry ti)
              k')
            s
  unfolding on_option
  round_agree t k k' handed none s h same = refl
  round_agree t k k' handed (some e) s h same =
      agree (λ u s'. Held c prog (handed ++ (e ∷ [])) s') (λ u. k) (λ u. k') _ s
        ((round-Held t (handed ++ (e ∷ [])) e).at s h) λ u s' h'. same e s' h'

  -- As many rounds as there are keys are enough, whatever would come behind them.
  drain_agree :
      (t : Target) (rest rest' : M Snapshotter (Unit {0})) (fuel : ℕ) (handed : List QueueEntry)
      (s : Snapshotter)
      → Held c prog handed s
      → 2 ^ 96 < length handed + fuel
      → drain t rest fuel s ≡ drain t rest' fuel s
  unfolding drain get
  drain_agree t rest rest' zero handed s h enough =
      absurd (omega (arith, handed_bound s.sm.q handed h.queue))
  drain_agree t rest rest' (suc fuel) handed s h enough =
      agree (λ a s'. Held c prog handed s') _ _ get s h
        λ a s1 h1. choose_agree (OutBuf.full a.sm.b) (pure tt) _ _ s1 (
          agree (λ e s'. Held c prog (handed ++ entries_of e) s') _ _
            (on_machine (on_queue Queue.pop)) s1 (pop-Held handed s1 h1)
            λ front s2 h2. round_agree t _ _ handed front s2 h2 λ e s3 h3.
              drain_agree t rest rest' fuel (handed ++ (e ∷ [])) s3 h3
                (omega (arith, length-snoc handed e, enough)))

-- The loop of processQueue ends within 2 ^ 96 rounds, from a state in which the queue is well-formed
-- with distinct keys and the buffer is within its capacity: with more fuel than that, what the model
-- would do where the fuel runs out makes no difference to the result. Where the loop returns, the
-- buffer is full or the queue is empty.
pub process_queue_ends :
    (t : Target) (c : ℕ) (prog : List ℕ) (fuel : ℕ) (s : Snapshotter)
    → Sane c prog s
    → 2 ^ 96 < fuel
    → (rest : M Snapshotter (Unit {0}))
    → (process_queue t fuel s ≡ drain t rest fuel s)
      × Returns
          (λ u s'. (OutBuf.full s'.sm.b ≡ true) ⊎ (Queue.len_of s'.sm.q ≡ 0))
          (process_queue t fuel s)
unfolding process_queue
process_queue_ends t c prog fuel s h enough rest = (
  drain_agree t (stop stuck) rest fuel h.handed s h.sound (omega (arith, enough)),
  process_queue-Done t fuel s,
)
