-- ===== src/Fifo/Shrink.antt =====
-- A queue whose first node changes or goes to the free list.
use side_eye_go.Prelude.{ℕ, ◌<◌, ◌≡◌, ◌≢◌, refl, sym, ap, ◌∙◌, List, [], ◌∷◌, ◌++◌, some}
use mathlib.Core.List.{append_assoc}
use side_eye_go.Fifo.{Fifo, QueueNode, update, node_peek_front, node_pop_front}
use side_eye_go.Fifo.Node.{IsNode, contents, contents-pop, update_eq, update_ne}
use side_eye_go.Fifo.Chain.{
  chain_contents, Avoids, Links-update, chain_contents-update, AllNodes-update,
}
use side_eye_go.Fifo.Holds.{Reaches, reached, FreeOk-update}

module _ {T : Type 0} where
  rest : List T → List T
  rest [] = []
  rest (x ∷ xs) = xs

  first_or : T → List T → T
  first_or y [] = y
  first_or y (x ∷ xs) = x

  pub cons-injective : (x y : T) (xs ys : List T) → x ∷ xs ≡ y ∷ ys → (x ≡ y) × (xs ≡ ys)
  unfolding rest first_or
  cons-injective x y xs ys e = (ap (first_or x) e, ap rest e)

  -- Another first node.
  pub first-Reaches :
      (q : Fifo T) (a : ℕ) (ns : List ℕ) (t : ℕ) (n : QueueNode T) (k : ℕ)
      → Reaches q (a ∷ ns) t
      → IsNode n
      → 0 < n.len
      → n.next ≡ (q.heap a).next
      → Reaches (record q { heap = update q.heap a n; len = k }) (a ∷ ns) t
  first-Reaches q a ns t n k r v pos e =
      let same : update q.heap a n t ≡ q.heap t = update_ne q.heap a n t (λ e. r.apart.0 (sym e)) in
      let at : update q.heap a n a ≡ n = update_eq q.heap a n a refl in
      record {
        links = (r.links.0, rw (at, e) (Links-update q.heap a n _ ns t r.distinct.0 r.links.1));
        tail_is = r.tail_is;
        ends = rw same r.ends;
        nodes = (
          rw at (v, pos, r.nodes.0.2),
          AllNodes-update q.heap a n q.fresh ns r.distinct.0 r.nodes.1,
        );
        last_node = rw same r.last_node;
        last_made = r.last_made;
        distinct = r.distinct;
        apart = r.apart;
        free_ok = FreeOk-update q.heap a n q.free q.fresh (t ∷ a ∷ ns) (λ f av. av.1.0) r.free_ok;
      }

  -- The first node goes to the free list.
  pub drop-Reaches :
      (q : Fifo T) (a : ℕ) (ns : List ℕ) (t : ℕ) (n n2 : QueueNode T) (k : ℕ)
      → Reaches q (a ∷ ns) t
      → n.next ≡ (q.heap a).next
      → n2.head ≡ 0
      → n2.len ≡ 0
      → Reaches
          (record q {
            heap = update (update q.heap a n) a n2;
            head = (update q.heap a n a).next;
            free = some a;
            len = k;
          })
          ns
          t
  drop-Reaches q a ns t n n2 k r e e_head e_len =
      let h : ℕ → QueueNode T = update q.heap a n in
      let ne : a ≢ t = λ e. r.apart.0 (sym e) in
      let same : update h a n2 t ≡ q.heap t = update_ne h a n2 t ne ∙ update_ne q.heap a n t ne in
      let at : update q.heap a n a ≡ n = update_eq q.heap a n a refl in
      let e_next : (update q.heap a n a).next ≡ (q.heap a).next =
        ap {A = QueueNode T} (λ k. k.next) at ∙ e in
      let at2 : update h a n2 a ≡ n2 = update_eq h a n2 a refl in
      record {
        links = rw e_next (
            Links-update h a n2 _ ns t r.distinct.0
              (Links-update q.heap a n _ ns t r.distinct.0 r.links.1));
        tail_is = r.tail_is;
        ends = rw same r.ends;
        nodes =
            AllNodes-update h a n2 q.fresh ns r.distinct.0
              (AllNodes-update q.heap a n q.fresh ns r.distinct.0 r.nodes.1);
        last_node = rw same r.last_node;
        last_made = r.last_made;
        distinct = r.distinct.1;
        apart = r.apart.1;
        free_ok = (rw at2 e_head, rw at2 e_len, r.nodes.0.2, (ne, r.distinct.0));
      }

  pub reached_update :
      (h : ℕ → QueueNode T) (a : ℕ) (n : QueueNode T) (ns : List ℕ) (t : ℕ)
      → Avoids a ns
      → a ≢ t
      → chain_contents (update h a n) ns ++ contents (update h a n t)
        ≡ chain_contents h ns ++ contents (h t)
  reached_update h a n ns t av ne =
      rw (chain_contents-update h a n ns av, update_ne h a n t ne) refl

  -- What a node holds, behind what stands before it.
  pub parts :
      (q : Fifo T) (a : ℕ) (ns : List ℕ) (t : ℕ)
      → reached q (a ∷ ns) t ≡ contents (q.heap a) ++ reached q ns t
  parts q a ns t =
      append_assoc (contents (q.heap a)) (chain_contents q.heap ns) (contents (q.heap t))

  -- The first element, and what is left, in terms of the first node.
  pub split_front :
      (z : T) (n : QueueNode T) (x : T) (xs others : List T)
      → IsNode n
      → 0 < n.len
      → x ∷ xs ≡ contents n ++ others
      → (x ≡ node_peek_front n) × (xs ≡ contents (node_pop_front z n) ++ others)
  split_front z n x xs others v pos items =
      cons-injective x (node_peek_front n) xs (contents (node_pop_front z n) ++ others)
        (items ∙ ap (λ l. l ++ others) (contents-pop z n v pos).1)
