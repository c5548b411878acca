-- ===== src/Fifo/Extend.antt =====
-- `PushBack` up to the push: it finds or makes a last node that has room.
use side_eye_go.Prelude.{
  ℕ, ◌+◌, ◌≤◌, ◌<◌, ◌≡◌, refl, sym, ap, ◌∙◌, arith, List, [], ◌∷◌, ◌++◌, Option, some, none, length,
  ok, >>=_ok, demand-some, inl, inr, Bool-cases, ◌==◌,
}
use mathlib.Core.Path.{ap₂}
use mathlib.Core.List.{append-nil}
use side_eye_go.Prelude.{pure, get, modify, demand, choose}
use side_eye_go.Fifo.{
  Fifo, QueueNode, new_node, update, free_get, node_is_full, set_ends, link, extend,
}
use side_eye_go.Fifo.Node.{IsNode, contents, update_eq, update_ne}
use side_eye_go.Fifo.Chain.{
  Avoids, Links-update, chain_contents-update, AllNodes-update, AllNodes-mono, Links-snoc,
  AllNodes-snoc, chain_contents-snoc, Avoids-snoc, Distinct-snoc, Avoids-fresh,
}
use side_eye_go.Fifo.Holds.{FreeOk, Reaches, reached, no_contents}

module _ {T : Type 0} where
  -- A queue with a last node that has room.
  pub record Open (q : Fifo T) (xs : List T) (ns : List ℕ) (t : ℕ) : Type 0 where
    pub reaches : Reaches q ns t
    pub room : (q.heap t).len < 128
    pub items : xs ≡ reached q ns t
    pub count : q.len ≡ length xs

module _ {T : Type 0} (z : T) where
  -- A node from the allocator or the free list is empty and apart from the queue's.
  record Got (q : Fifo T) (ns : List ℕ) (a : ℕ) (n : QueueNode T) (q' : Fifo T) : Type 0 where
    got_is : free_get z q ≡ ok (a, q')
    is_node : IsNode n
    is_empty : n.len ≡ 0
    unlinked : n.next ≡ none
    made : a < q'.fresh
    more : q.fresh ≤ q'.fresh
    apart : Avoids a ns
    no_free : q'.free ≡ none
    same : (q'.head ≡ q.head) × (q'.tail ≡ q.tail) × (q'.len ≡ q.len)
    heap_is : q'.heap ≡ update q.heap a n

  free_get-Got :
      (q : Fifo T) (ns : List ℕ) (o : Option ℕ)
      → q.free ≡ o
      → FreeOk q.heap o q.fresh ns
      → Avoids q.fresh ns
      → (a : ℕ) × (n : QueueNode T) × (q' : Fifo T) × Got q ns a n q'
  unfolding free_get new_node
  free_get-Got q ns none e free av = (
    q.fresh,
    new_node z,
    record q { heap = update q.heap q.fresh (new_node z); fresh = q.fresh + 1 },
    record {
      got_is = rw e refl;
      is_node = record { head_in = omega arith; len_in = omega arith };
      is_empty = refl;
      unlinked = refl;
      made = omega arith;
      more = omega arith;
      apart = av;
      no_free = e;
      same = (refl, refl, refl);
      heap_is = refl;
    },
  )
  free_get-Got q ns (some f) e free av = (
    f,
    record (q.heap f) { next = none },
    record q { heap = update q.heap f (record (q.heap f) { next = none }); free = none },
    record {
      got_is = rw e (
          let n : QueueNode T = record (q.heap f) { next = none } in
          ap (λ m. ok (f, record q { heap = update q.heap f n; free = m.next }))
            (update_eq q.heap f n f refl));
      is_node = record { head_in = omega arith; len_in = omega arith };
      is_empty = free.1;
      unlinked = refl;
      made = free.2;
      more = omega arith;
      apart = free.3;
      no_free = refl;
      same = (refl, refl, refl);
      heap_is = refl;
    },
  )

  first-Open :
      (q : Fifo T) (a : ℕ) (n : QueueNode T) (q' : Fifo T)
      → q.len ≡ 0
      → Got q [] a n q'
      → Open (set_ends a q') [] [] a
  unfolding set_ends
  first-Open q a n q' e g =
      let at : q'.heap a ≡ n = rw g.heap_is (update_eq q.heap a n a refl) in
      record {
        reaches = record {
          links = refl;
          tail_is = refl;
          ends = rw at g.unlinked;
          nodes = tt;
          last_node = rw at g.is_node;
          last_made = g.made;
          distinct = tt;
          apart = tt;
          free_ok = rw g.no_free tt;
        };
        room = rw at (omega arith);
        items = rw at (sym (no_contents n g.is_empty));
        count = g.same.2 ∙ e;
      }

  next-Open :
      (q : Fifo T) (xs : List T) (ns : List ℕ) (t a : ℕ) (n : QueueNode T) (q' : Fifo T)
      → Reaches q ns t
      → 0 < (q.heap t).len
      → xs ≡ reached q ns t
      → q.len ≡ length xs
      → Got q (t ∷ ns) a n q'
      → Open (link t a q') xs (ns ++ (t ∷ [])) a
  unfolding link
  next-Open q xs ns t a n q' r pos items count g =
      let h : ℕ → QueueNode T = update q.heap a n in
      let m : QueueNode T = record (h t) { next = some a } in
      let at_a : update h t m a ≡ n =
        update_ne h t m a (λ e. g.apart.0 (sym e)) ∙ update_eq q.heap a n a refl in
      let at_t : update h t m t ≡ record (q.heap t) { next = some a } =
        update_eq h t m t refl
        ∙ ap {A = QueueNode T} (λ k. record k { next = some a })
            (update_ne q.heap a n t g.apart.0) in
      record {
        reaches = record {
          links =
              rw (g.heap_is, g.same.0)
                (Links-snoc (update h t m) q.head ns t a
                  (Links-update h t m q.head ns t r.apart
                    (Links-update q.heap a n q.head ns t g.apart.1 r.links))
                  (ap {A = QueueNode T} (λ k. k.next) at_t));
          tail_is = refl;
          ends = rw (g.heap_is, at_a) g.unlinked;
          nodes = rw g.heap_is (
              AllNodes-snoc (update h t m) q'.fresh ns t
                (AllNodes-update h t m q'.fresh ns r.apart (
                  AllNodes-update q.heap a n q'.fresh ns g.apart.1
                    (AllNodes-mono q.heap q.fresh q'.fresh ns g.more r.nodes)))
                (rw at_t (
                  record { head_in = r.last_node.head_in; len_in = r.last_node.len_in },
                  pos,
                  omega arith,
                )));
          last_node = rw (g.heap_is, at_a) g.is_node;
          last_made = g.made;
          distinct = Distinct-snoc ns t r.distinct r.apart;
          apart = Avoids-snoc a ns t g.apart.1 g.apart.0;
          free_ok = rw g.no_free tt;
        };
        room = rw (g.heap_is, at_a) (omega arith);
        items = rw g.heap_is (
            items
            ∙ sym (
                ap₂ ◌++◌
                  (chain_contents-snoc (update h t m) ns t
                    ∙ ap₂ ◌++◌
                        (chain_contents-update h t m ns r.apart
                          ∙ chain_contents-update q.heap a n ns g.apart.1)
                        (ap {A = QueueNode T} contents at_t))
                  (ap {A = QueueNode T} contents at_a ∙ no_contents n g.is_empty)
                ∙ append-nil (reached q ns t)));
        count = g.same.2 ∙ count;
      }

  pub extend_empty :
      (q : Fifo T)
      → FreeOk q.heap q.free q.fresh []
      → q.len ≡ 0
      → (q' : Fifo T) × (a : ℕ) × (extend z none q ≡ ok (tt, q')) × Open q' [] [] a
  unfolding extend modify
  extend_empty q free e =
      let (a, n, q', g) = free_get-Got q [] q.free refl free tt in
      (set_ends a q', a, >>=_ok _ _ g.got_is, first-Open q a n q' e g)

  pub extend_chain :
      (q : Fifo T) (xs : List T) (ns : List ℕ) (t p : ℕ)
      → Reaches q ns t
      → 0 < (q.heap t).len
      → xs ≡ reached q ns t
      → q.len ≡ length xs
      → (q' : Fifo T) × (ns' : List ℕ) × (t' : ℕ) × (extend z (some p) q ≡ ok (tt, q'))
        × Open q' xs ns' t'
  unfolding extend modify get demand pure choose node_is_full
  extend_chain q xs ns t p r pos items count = elim (Bool-cases ((q.heap t).len == 128)) [
    | inl e ↦
        let (a, n, q', g) =
          free_get-Got q (t ∷ ns) q.free refl r.free_ok
            (omega arith, Avoids-fresh q.heap q.fresh ns r.nodes) in
        (
          link t a q',
          ns ++ (t ∷ []),
          a,
          >>=_ok _ _ refl ∙ >>=_ok _ _ (demand-some r.tail_is) ∙ (rw e (>>=_ok _ _ g.got_is)),
          next-Open q xs ns t a n q' r pos items count g,
        )
    | inr e ↦ (
      q,
      ns,
      t,
      >>=_ok _ _ refl ∙ >>=_ok _ _ (demand-some r.tail_is) ∙ rw e refl,
      record { reaches = r; room = ground arith; items = items; count = count },
    )
  ]
