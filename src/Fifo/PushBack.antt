-- ===== src/Fifo/PushBack.antt =====
-- `PushBack` of the queue, and the list that the queue holds.
use side_eye_go.Prelude.{
  ℕ, ◌+◌, ◌≡◌, refl, sym, ap, ◌∙◌, arith, List, [], ◌∷◌, ◌++◌, Option, some, none, length,
  length-append, ok, >>=_ok, demand-some,
}
use mathlib.Core.List.{append_assoc}
use side_eye_go.Prelude.{pure, get, modify, demand}
use side_eye_go.Fifo.{Fifo, QueueNode, node_push_back, at_node, count_up, extend, push_back}
use side_eye_go.Fifo.Node.{contents, contents-push}
use side_eye_go.Fifo.Chain.{Links, chain_contents}
use side_eye_go.Fifo.Holds.{Holds, empty, chain, last-Reaches, last_reached}
use side_eye_go.Fifo.Extend.{Open, extend_empty, extend_chain}

module _ {T : Type 0} where
  Links-head :
      (h : ℕ → QueueNode T) (p : Option ℕ) (ns : List ℕ) (t : ℕ)
      → Links h p ns t
      → (a : ℕ) × (p ≡ some a)
  Links-head h p [] t l = (t, l)
  Links-head h p (a ∷ ns) t l = (a, l.0)

module _ {T : Type 0} (z : T) where
  push_onto :
      (q : Fifo T) (xs : List T) (ns : List ℕ) (t : ℕ) (v : T)
      → Open q xs ns t
      → Holds (at_node t (node_push_back v) (count_up q)) (xs ++ (v ∷ []))
  unfolding at_node count_up node_push_back
  push_onto q xs ns t v o =
      let n : QueueNode T = node_push_back v (q.heap t) in
      let (valid, appended) = contents-push v (q.heap t) o.reaches.last_node o.room in
      chain ns t (last-Reaches q ns t n (q.len + 1) o.reaches valid o.reaches.ends) (ground arith)
        (ap (λ l. l ++ (v ∷ [])) o.items
          ∙ append_assoc (chain_contents q.heap ns) (contents (q.heap t)) (v ∷ [])
          ∙ ap (λ l. chain_contents q.heap ns ++ l) (sym appended)
          ∙ sym (last_reached q ns t n (q.len + 1) o.reaches))
        (omega (arith, length-append xs (v ∷ [])))

  push_after :
      (q q' : Fifo T) (xs : List T) (ns : List ℕ) (t : ℕ) (v : T) (head : Option ℕ)
      → q.head ≡ head
      → extend z head q ≡ ok (tt, q')
      → Open q' xs ns t
      → push_back z v q ≡ ok (tt, at_node t (node_push_back v) (count_up q'))
  unfolding push_back modify get demand pure count_up
  push_after q q' xs ns t v head h e o =
      >>=_ok _ _ refl
      ∙ >>=_ok _ _ (ap (λ p. extend z p q) h ∙ e)
      ∙ >>=_ok _ _ refl
      ∙ >>=_ok _ _ refl
      ∙ >>=_ok _ _ (demand-some o.reaches.tail_is)

  -- A queue that holds `xs` holds `xs` and then `v` after `PushBack`, which does not panic.
  pub push_back-Holds :
      (q : Fifo T) (xs : List T) (v : T)
      → Holds q xs
      → (q' : Fifo T) × (push_back z v q ≡ ok (tt, q')) × Holds q' (xs ++ (v ∷ []))
  push_back-Holds q xs v (empty head_is free items count) =
      let (q', a, runs, o) = extend_empty z q free (count ∙ ap length items) in
      (_, push_after q q' [] [] a v none head_is runs o, rw items (push_onto q' [] [] a v o))
  push_back-Holds q xs v (chain ns t r pos items count) =
      let (p, head_is) = Links-head q.heap q.head ns t r.links in
      let (q', ns', t', runs, o) = extend_chain z q xs ns t p r pos items count in
      (_, push_after q q' xs ns' t' v (some p) head_is runs o, push_onto q' xs ns' t' v o)
