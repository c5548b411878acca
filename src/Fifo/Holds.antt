-- ===== src/Fifo/Holds.antt =====
-- What the queue holds: the elements of the nodes that it reaches.
use side_eye_go.Prelude.{
  ℕ, ◌<◌, ◌≡◌, ◌≢◌, refl, sym, List, [], ◌∷◌, ◌++◌, Option, some, none, length,
}
use side_eye_go.Fifo.{Fifo, QueueNode, update, make_fifo}
use side_eye_go.Fifo.Node.{IsNode, contents, update_eq, update_ne}
use side_eye_go.Fifo.Chain.{
  Links, chain_contents, AllNodes, Avoids, Distinct, Links-update, chain_contents-update,
  AllNodes-update,
}

-- The head of the free list, if there is one, is an empty node that the queue does not reach.
abbrev pub FreeOk : {T : Type 0} → (ℕ → QueueNode T) → Option ℕ → ℕ → List ℕ → Type 0
FreeOk h none fresh ns = Unit {0}
FreeOk h (some f) fresh ns = ((h f).head ≡ 0) × ((h f).len ≡ 0) × (f < fresh) × Avoids f ns

-- The nodes that the queue reaches are `ns` and then `t`, which may be empty.
pub record Reaches {T : Type 0} (q : Fifo T) (ns : List ℕ) (t : ℕ) : Type 0 where
  pub links : Links q.heap q.head ns t
  pub tail_is : q.tail ≡ some t
  pub ends : (q.heap t).next ≡ none
  pub nodes : AllNodes q.heap q.fresh ns
  pub last_node : IsNode (q.heap t)
  pub last_made : t < q.fresh
  pub distinct : Distinct ns
  pub apart : Avoids t ns
  pub free_ok : FreeOk q.heap q.free q.fresh (t ∷ ns)

abbrev pub reached : {T : Type 0} → Fifo T → List ℕ → ℕ → List T
reached q ns t = chain_contents q.heap ns ++ contents (q.heap t)

-- `q` is a well-formed queue that holds `xs`.
pub data Holds {T : Type 0} (q : Fifo T) (xs : List T) : Type 0 where
  empty : q.head ≡ none → FreeOk q.heap q.free q.fresh [] → xs ≡ [] → q.len ≡ length xs → Holds q xs
  chain :
      (ns : List ℕ) (t : ℕ)
      → Reaches q ns t
      → 0 < (q.heap t).len
      → xs ≡ reached q ns t
      → q.len ≡ length xs
      → Holds q xs

module _ {T : Type 0} where
  -- A change of a node that the queue reaches.
  pub FreeOk-update :
      (h : ℕ → QueueNode T) (b : ℕ) (n : QueueNode T) (free : Option ℕ) (fresh : ℕ) (ns : List ℕ)
      → ((f : ℕ) → Avoids f ns → f ≢ b)
      → FreeOk h free fresh ns
      → FreeOk (update h b n) free fresh ns
  FreeOk-update h b n none fresh ns one ok_free = tt
  FreeOk-update h b n (some f) fresh ns one ok_free =
      rw (update_ne h b n f (λ e. one f ok_free.3 (sym e))) ok_free

  -- Another last node.
  pub last-Reaches :
      (q : Fifo T) (ns : List ℕ) (t : ℕ) (n : QueueNode T) (k : ℕ)
      → Reaches q ns t
      → IsNode n
      → n.next ≡ none
      → Reaches (record q { heap = update q.heap t n; len = k }) ns t
  last-Reaches q ns t n k r v e = record {
    links = Links-update q.heap t n q.head ns t r.apart r.links;
    tail_is = r.tail_is;
    ends = rw (update_eq q.heap t n t refl) e;
    nodes = AllNodes-update q.heap t n q.fresh ns r.apart r.nodes;
    last_node = rw (update_eq q.heap t n t refl) v;
    last_made = r.last_made;
    distinct = r.distinct;
    apart = r.apart;
    free_ok = FreeOk-update q.heap t n q.free q.fresh (t ∷ ns) (λ f av. av.0) r.free_ok;
  }

  pub last_reached :
      (q : Fifo T) (ns : List ℕ) (t : ℕ) (n : QueueNode T) (k : ℕ)
      → Reaches q ns t
      → reached (record q { heap = update q.heap t n; len = k }) ns t
        ≡ chain_contents q.heap ns ++ contents n
  last_reached q ns t n k r =
      rw (chain_contents-update q.heap t n ns r.apart, update_eq q.heap t n t refl) refl

  pub no_contents : (n : QueueNode T) → n.len ≡ 0 → contents n ≡ []
  no_contents n e = rw e refl

module _ {T : Type 0} (z : T) where
  pub make_fifo-Holds : Holds (make_fifo z) []
  unfolding make_fifo
  make_fifo-Holds = empty refl tt refl refl
