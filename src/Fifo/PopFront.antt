-- ===== src/Fifo/PopFront.antt =====
-- `PeekFront`, `PopFront` and `Len` of the queue, and the list that the queue holds.
use side_eye_go.Prelude.{
  ℕ, ◌-◌, ◌<◌, ◌≡◌, ◌≢◌, refl, sym, ap, ◌∙◌, arith, List, [], ◌∷◌, ◌++◌, some, get_elem?, length,
  ok, >>=_ok, demand-some, inl, inr, Bool-cases, true, false, ◌==◌,
}
use mathlib.Core.Path.{ap₂}
use mathlib.Core.List.{append-nil}
use side_eye_go.Prelude.{pure, get, modify, demand, choose}
use side_eye_go.Fifo.{
  Fifo, QueueNode, update, free_put, node_peek_front, node_pop_front, len_of, peek_front, at_node,
  drop_head, count_down, pop_front,
}
use side_eye_go.Fifo.Node.{IsNode, contents, contents-pop, update_eq, update_ne}
use side_eye_go.Fifo.Holds.{
  Reaches, reached, Holds, empty, chain, last-Reaches, last_reached, no_contents,
}
use side_eye_go.Fifo.Shrink.{first-Reaches, drop-Reaches, reached_update, parts, split_front}

module _ {T : Type 0} (z : T) where
  abbrev popped : Fifo T → ℕ → Fifo T
  popped q p = at_node p (node_pop_front z) q

  popped_none :
      (q : Fifo T) (p : ℕ)
      → ((popped q p).heap p).len == 0 ≡ true
      → (node_pop_front z (q.heap p)).len ≡ 0
  unfolding at_node node_pop_front
  popped_none q p e = ground arith

  popped_some :
      (q : Fifo T) (p : ℕ)
      → ((popped q p).heap p).len == 0 ≡ false
      → 0 < (node_pop_front z (q.heap p)).len
  unfolding at_node node_pop_front
  popped_some q p e = ground arith

  pop_keep :
      (q : Fifo T) (p : ℕ)
      → q.head ≡ some p
      → ((popped q p).heap p).len == 0 ≡ false
      → pop_front z q ≡ ok (tt, count_down (popped q p))
  unfolding pop_front modify get demand pure choose
  pop_keep q p h e =
      >>=_ok _ _ refl
      ∙ >>=_ok _ _ (demand-some h)
      ∙ >>=_ok _ _ refl
      ∙ >>=_ok _ _ refl
      ∙ >>=_ok (choose (((popped q p).heap p).len == 0) _ _) _ {s' = popped q p} (rw e refl)

  pop_drop :
      (q : Fifo T) (p : ℕ)
      → q.head ≡ some p
      → ((popped q p).heap p).len == 0 ≡ true
      → pop_front z q ≡ ok (tt, count_down (drop_head p (popped q p)))
  unfolding pop_front modify get demand pure choose
  pop_drop q p h e =
      >>=_ok _ _ refl
      ∙ >>=_ok _ _ (demand-some h)
      ∙ >>=_ok _ _ refl
      ∙ >>=_ok _ _ refl
      ∙ >>=_ok (choose (((popped q p).heap p).len == 0) _ _) _ {s' = drop_head p (popped q p)}
          (rw e refl)

  last_node-popped :
      (q : Fifo T) (t : ℕ) (x : T) (xs : List T)
      → Reaches q [] t
      → 0 < (q.heap t).len
      → x ∷ xs ≡ reached q [] t
      → q.len ≡ length (x ∷ xs)
      → (q' : Fifo T) × (pop_front z q ≡ ok (tt, q')) × Holds q' xs
  unfolding at_node count_down drop_head free_put node_pop_front
  last_node-popped q t x xs r pos items count =
      let n : QueueNode T = node_pop_front z (q.heap t) in
      let (first, left) =
        split_front z (q.heap t) x xs [] r.last_node pos
          (items ∙ sym (append-nil (contents (q.heap t)))) in
      elim (Bool-cases (((popped q t).heap t).len == 0)) [
        | inl e ↦
            let h : ℕ → QueueNode T = update q.heap t n in
            let m : QueueNode T = record (h t) { head = 0; len = 0; next = q.free } in
            let at : update h t m t ≡ m = update_eq h t m t refl in
            (
              _,
              pop_drop q t r.links e,
              empty (ap {A = QueueNode T} (λ k. k.next) (update_eq q.heap t n t refl) ∙ r.ends)
                  (rw at refl, rw at refl, r.last_made, tt)
                  (left ∙ append-nil (contents n) ∙ no_contents n (popped_none q t e))
                  (omega arith),
            )
        | inr e ↦ (
          _,
          pop_keep q t r.links e,
          chain [] t
              (last-Reaches q [] t n (q.len - 1) r (contents-pop z (q.heap t) r.last_node pos).0
                r.ends)
              (rw (update_eq q.heap t n t refl) (popped_some q t e))
              (left ∙ append-nil (contents n) ∙ sym (last_reached q [] t n (q.len - 1) r))
              (omega arith),
        )
      ]

  front_node-popped :
      (q : Fifo T) (a : ℕ) (ns : List ℕ) (t : ℕ) (x : T) (xs : List T)
      → Reaches q (a ∷ ns) t
      → 0 < (q.heap t).len
      → x ∷ xs ≡ reached q (a ∷ ns) t
      → q.len ≡ length (x ∷ xs)
      → (q' : Fifo T) × (pop_front z q ≡ ok (tt, q')) × Holds q' xs
  unfolding at_node count_down drop_head free_put node_pop_front
  front_node-popped q a ns t x xs r pos items count =
      let n : QueueNode T = node_pop_front z (q.heap a) in
      let ne : a ≢ t = λ e. r.apart.0 (sym e) in
      let v : IsNode n = (contents-pop z (q.heap a) r.nodes.0.0 r.nodes.0.1).0 in
      let (first, left) =
        split_front z (q.heap a) x xs (reached q ns t) r.nodes.0.0 r.nodes.0.1
          (items ∙ parts q a ns t) in
      elim (Bool-cases (((popped q a).heap a).len == 0)) [
        | inl e ↦
            let h : ℕ → QueueNode T = update q.heap a n in
            let m : QueueNode T = record (h a) { head = 0; len = 0; next = q.free } in
            (
              _,
              pop_drop q a r.links.0 e,
              chain ns t (drop-Reaches q a ns t n m (q.len - 1) r refl refl refl)
                  (rw (update_ne h a m t ne, update_ne q.heap a n t ne) pos)
                  (left
                    ∙ ap (λ l. l ++ reached q ns t) (no_contents n (popped_none q a e))
                    ∙ sym (
                        reached_update h a m ns t r.distinct.0 ne
                        ∙ reached_update q.heap a n ns t r.distinct.0 ne))
                  (omega arith),
            )
        | inr e ↦ (
          _,
          pop_keep q a r.links.0 e,
          chain (a ∷ ns) t (first-Reaches q a ns t n (q.len - 1) r v (popped_some q a e) refl)
              (rw (update_ne q.heap a n t ne) pos)
              (left
                ∙ ap₂ ◌++◌ (sym (ap {A = QueueNode T} contents (update_eq q.heap a n a refl)))
                    (sym (reached_update q.heap a n ns t r.distinct.0 ne))
                ∙ sym (parts (record q { heap = update q.heap a n }) a ns t))
              (omega arith),
        )
      ]

  -- A queue that holds `x` and then `xs` holds `xs` after `PopFront`, which does not panic.
  pub pop_front-Holds :
      (q : Fifo T) (x : T) (xs : List T)
      → Holds q (x ∷ xs)
      → (q' : Fifo T) × (pop_front z q ≡ ok (tt, q')) × Holds q' xs
  pop_front-Holds q x xs (empty head_is free items count) = absurd (omega (arith, ap length items))
  pop_front-Holds q x xs (chain [] t r pos items count) =
      last_node-popped q t x xs r pos items count
  pop_front-Holds q x xs (chain (a ∷ ns) t r pos items count) =
      front_node-popped q a ns t x xs r pos items count

module _ {T : Type 0} where
  peek_at :
      (q : Fifo T) (p : ℕ) (x : T)
      → q.head ≡ some p
      → 0 < q.len
      → x ≡ node_peek_front (q.heap p)
      → peek_front q ≡ ok (some x, q)
  unfolding peek_front get demand pure choose
  peek_at q p x h pos e =
      let not_empty : q.len == 0 ≡ false = ground arith in
      >>=_ok _ _ refl ∙ rw not_empty (>>=_ok _ _ (demand-some h) ∙ ap (λ y. ok (some y, q)) (sym e))

  -- Of a queue that holds a list, `PeekFront` returns the first element, or nothing where the list
  -- is empty, `Len` its length, and both leave the queue as it was.
  pub peek_front-Holds :
      (q : Fifo T) (xs : List T)
      → Holds q xs
      → (peek_front q ≡ ok (get_elem? xs 0, q)) × (len_of q ≡ length xs)
  unfolding peek_front get demand pure choose len_of
  peek_front-Holds q [] (empty head_is free items count) = (>>=_ok _ _ refl ∙ rw count refl, count)
  peek_front-Holds q [] (chain ns t r pos items count) = (>>=_ok _ _ refl ∙ rw count refl, count)
  peek_front-Holds q (x ∷ xs) (empty head_is free items count) =
      absurd (omega (arith, ap length items))
  peek_front-Holds q (x ∷ xs) (chain [] t r pos items count) = (
    peek_at q t x r.links (omega arith)
        (split_front x (q.heap t) x xs [] r.last_node pos
          (items ∙ sym (append-nil (contents (q.heap t))))).0,
    count,
  )
  peek_front-Holds q (x ∷ xs) (chain (a ∷ ns) t r pos items count) = (
    peek_at q a x r.links.0 (omega arith)
        (split_front x (q.heap a) x xs (reached q ns t) r.nodes.0.0 r.nodes.0.1
          (items ∙ parts q a ns t)).0,
    count,
  )
