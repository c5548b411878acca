-- ===== src/Queue/Steps.antt =====
-- What one call of a method of the queue does.
use side_eye_go.Prelude.{
  ℕ, ◌≡◌, refl, ◌∙◌, arith, Bool, true, false, ◌==◌, List, [], ◌∷◌, some, none, ok, if◌then◌else◌,
  not,
}
use side_eye_go.Prelude.{M, >>=_ok, zoom_ok, pure, get, modify, demand, choose, ◌>>=◌}
use side_eye_go.Framing.{QueueEntry}
use side_eye_go.Fifo
use side_eye_go.Fifo.{Fifo}
use side_eye_go.Fifo.Holds.{Holds}
use side_eye_go.Fifo.PopFront.{peek_front-Holds, pop_front-Holds}
use side_eye_go.Queue.{
  Queue, QueueEntryKey, is_seen, on_fifo, len_of, pop, push_words, should_record, no_entry,
}

abbrev pub key_of : QueueEntry → QueueEntryKey
key_of e = record { addr = e.addr; t = e.type_id }

on_fifo_ok :
    {A : Type 0} (m : M (Fifo QueueEntry) A) (s : Queue) (q : Fifo QueueEntry) (a : A)
    → m s.q ≡ ok (a, q)
    → on_fifo m s ≡ ok (a, record s { q = q })
unfolding on_fifo
on_fifo_ok m s q a e = zoom_ok _ _ m e

-- An entry is recorded where its address is not nil and its address and type were not seen.
abbrev pub is_new : ℕ → ℕ → Queue → Bool
is_new addr t s = if addr == 0 then false else not (is_seen (record { addr = addr; t = t }) s.seen)

abbrev pub mark : ℕ → ℕ → Queue → Queue
mark addr t s = record s { seen = record { addr = addr; t = t } ∷ s.seen }

pub should_record_lem :
    (addr t : ℕ) (s : Queue)
    → should_record addr t s ≡ ok (is_new addr t s, if is_new addr t s then mark addr t s else s)
unfolding should_record get modify pure choose ◌>>=◌
should_record_lem addr t s = ground arith

module _ (addr t : ℕ) (s : Queue) where
  pub record_new : is_new addr t s ≡ true → should_record addr t s ≡ ok (true, mark addr t s)
  record_new e = should_record_lem addr t s ∙ rw e refl

  pub record_old : is_new addr t s ≡ false → should_record addr t s ≡ ok (false, s)
  record_old e = should_record_lem addr t s ∙ rw e refl

module _ (addr t data_len : ℕ) (s : Queue) where
  abbrev pub entry : QueueEntry
  entry = record { type_id = t; len = data_len; addr = addr }

  pub push_new :
      (q : Fifo QueueEntry)
      → is_new addr t s ≡ true
      → Fifo.push_back no_entry entry s.q ≡ ok (tt, q)
      → push_words addr t data_len s ≡ ok (tt, record (mark addr t s) { q = q })
  unfolding push_words choose pure
  push_new q e pushed =
      >>=_ok _ _ (record_new addr t s e)
      ∙ on_fifo_ok (Fifo.push_back no_entry entry) (mark addr t s) q tt pushed

  pub push_old : is_new addr t s ≡ false → push_words addr t data_len s ≡ ok (tt, s)
  unfolding push_words choose pure
  push_old e = >>=_ok _ _ (record_old addr t s e)

pub pop_empty : (s : Queue) → Holds s.q [] → pop s ≡ ok (none, s)
unfolding pop get choose pure len_of
pop_empty s h = >>=_ok _ _ refl ∙ rw (peek_front-Holds s.q [] h).1 refl

pub pop_front :
    (s : Queue) (e : QueueEntry) (es : List QueueEntry)
    → Holds s.q (e ∷ es)
    → (q : Fifo QueueEntry) × (pop s ≡ ok (some e, record s { q = q })) × Holds q es
unfolding pop get choose pure len_of demand
pop_front s e es h =
    let (peeked, count) = peek_front-Holds s.q (e ∷ es) h in
    let (q, popped, h') = pop_front-Holds no_entry s.q e es h in
    let not_empty : Fifo.len_of s.q == 0 ≡ false = ground arith in
    (
      q,
      >>=_ok _ _ refl
          ∙ rw not_empty (
              >>=_ok _ _ (on_fifo_ok Fifo.peek_front s s.q (some e) peeked)
              ∙ >>=_ok _ _ refl
              ∙ >>=_ok _ _ (on_fifo_ok (Fifo.pop_front no_entry) s q tt popped)),
      h',
    )
