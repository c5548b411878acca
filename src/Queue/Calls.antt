-- ===== src/Queue/Calls.antt =====
-- Sequences of calls of the methods of the queue, and the entries that they hand out.
use side_eye_go.Prelude.{
  ℕ, ◌<◌, ◌^◌, All, ◌≡◌, sym, true, false, List, [], ◌∷◌, ◌++◌, Option, some, none, M, pure, ◌>>=◌,
  ◌>>◌, arith,
}
use side_eye_go.Framing.{QueueEntry}
use side_eye_go.Queue.{Queue, QueueEntryKey, is_seen, pop, push, should_record}
use side_eye_go.Queue.Steps.{key_of}

-- A call of a method, with its arguments.
pub data Call : Type 0 where
  push_call : (addr t data_len : ℕ) → Call
  record_call : (addr t : ℕ) → Call
  pop_call : Call

abbrev pub entries_of : Option QueueEntry → List QueueEntry
entries_of none = []
entries_of (some e) = e ∷ []

-- The entries that a call hands out.
unfoldable pub call : Call → M Queue (List QueueEntry)
call (push_call addr t data_len) = do push addr t data_len; pure []
call (record_call addr t) = do recorded ← should_record addr t; pure []
call pop_call = do e ← pop; pure (entries_of e)

unfoldable pub calls : List Call → M Queue (List QueueEntry)
calls [] = pure []
calls (c ∷ cs) = do es ← call c; rest ← calls cs; pure (es ++ rest)

abbrev pub SameKey : QueueEntry → QueueEntry → Type 0
SameKey e e' = (e.addr ≡ e'.addr) × (e.type_id ≡ e'.type_id)

abbrev pub DiffersFrom : QueueEntry → List QueueEntry → Type 0
DiffersFrom e [] = Unit {0}
DiffersFrom e (e' ∷ es) = (¬ SameKey e e') × DiffersFrom e es

-- No two entries of the list have the same address and type, and none has the address nil.
abbrev pub Once : List QueueEntry → Type 0
Once [] = Unit {0}
Once (e ∷ es) = (¬ (e.addr ≡ 0)) × DiffersFrom e es × Once es

-- The address and the type are words of 64 and 32 bits.
abbrev pub InRange : QueueEntry → Type 0
InRange e = (e.addr < 2 ^ 64) × (e.type_id < 2 ^ 32)

pub InRange-snoc :
    (es : List QueueEntry) (e : QueueEntry)
    → All InRange es
    → InRange e
    → All InRange (es ++ (e ∷ []))
InRange-snoc [] e a h = (h, tt)
InRange-snoc (x ∷ es) e a h = (a.0, InRange-snoc es e a.1 h)

pub InRange-front : (es es' : List QueueEntry) → All InRange (es ++ es') → All InRange es
InRange-front [] es' a = tt
InRange-front (e ∷ es) es' a = (a.0, InRange-front es es' a.1)

abbrev pub AllSeen : List QueueEntryKey → List QueueEntry → Type 0
AllSeen seen [] = Unit {0}
AllSeen seen (e ∷ es) = (is_seen (key_of e) seen ≡ true) × AllSeen seen es

DiffersFrom-snoc :
    (e : QueueEntry) (es : List QueueEntry) (e' : QueueEntry)
    → DiffersFrom e es
    → ¬ SameKey e e'
    → DiffersFrom e (es ++ (e' ∷ []))
DiffersFrom-snoc e [] e' d ne = (ne, tt)
DiffersFrom-snoc e (x ∷ es) e' d ne = (d.0, DiffersFrom-snoc e es e' d.1 ne)

pub Once-snoc :
    (es : List QueueEntry) (e : QueueEntry)
    → Once es
    → ¬ (e.addr ≡ 0)
    → DiffersFrom e es
    → Once (es ++ (e ∷ []))
Once-snoc [] e o nz d = (nz, tt, tt)
Once-snoc (x ∷ es) e o nz d =
    (o.0, DiffersFrom-snoc x es e o.1 (λ k. d.0 (sym k.0, sym k.1)), Once-snoc es e o.2 nz d.1)

DiffersFrom-front :
    (e : QueueEntry) (es es' : List QueueEntry) → DiffersFrom e (es ++ es') → DiffersFrom e es
DiffersFrom-front e [] es' d = tt
DiffersFrom-front e (x ∷ es) es' d = (d.0, DiffersFrom-front e es es' d.1)

pub Once-front : (es es' : List QueueEntry) → Once (es ++ es') → Once es
Once-front [] es' o = tt
Once-front (e ∷ es) es' o = (o.0, DiffersFrom-front e es es' o.1, Once-front es es' o.2)

pub AllSeen-snoc :
    (seen : List QueueEntryKey) (es : List QueueEntry) (e : QueueEntry)
    → AllSeen seen es
    → is_seen (key_of e) seen ≡ true
    → AllSeen seen (es ++ (e ∷ []))
AllSeen-snoc seen [] e a h = (h, tt)
AllSeen-snoc seen (x ∷ es) e a h = (a.0, AllSeen-snoc seen es e a.1 h)

is_seen-more :
    (key k : QueueEntryKey) (seen : List QueueEntryKey)
    → is_seen key seen ≡ true
    → is_seen key (k ∷ seen) ≡ true
unfolding is_seen
is_seen-more key k seen e = ground arith

pub is_seen-marked :
    (key : QueueEntryKey) (seen : List QueueEntryKey) → is_seen key (key ∷ seen) ≡ true
unfolding is_seen
is_seen-marked key seen = ground arith

pub AllSeen-more :
    (k : QueueEntryKey) (seen : List QueueEntryKey) (es : List QueueEntry)
    → AllSeen seen es
    → AllSeen (k ∷ seen) es
AllSeen-more k seen [] a = tt
AllSeen-more k seen (e ∷ es) a = (is_seen-more (key_of e) k seen a.0, AllSeen-more k seen es a.1)

pub unseen-DiffersFrom :
    (seen : List QueueEntryKey) (e : QueueEntry) (es : List QueueEntry)
    → is_seen (key_of e) seen ≡ false
    → AllSeen seen es
    → DiffersFrom e es
unseen-DiffersFrom seen e [] h a = tt
unseen-DiffersFrom seen e (x ∷ es) h a = (λ k. cc, unseen-DiffersFrom seen e es h a.1)
