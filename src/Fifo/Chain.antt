-- ===== src/Fifo/Chain.antt =====
-- The nodes that a queue reaches: a chain of pointers from the head, each node's `next` the
-- following one, and a last node behind them.
use side_eye_go.Prelude.{
  ℕ, ◌≤◌, ◌<◌, ◌≡◌, ◌≢◌, refl, sym, ap, ◌∙◌, arith, List, [], ◌∷◌, ◌++◌, Option, some,
}
use mathlib.Core.List.{append_assoc, append-nil}
use side_eye_go.Fifo.{QueueNode, update}
use side_eye_go.Fifo.Node.{IsNode, contents, update_ne}

-- No node of the list is `b`.
abbrev pub Avoids : ℕ → List ℕ → Type 0
Avoids b [] = Unit {0}
Avoids b (a ∷ ns) = (b ≢ a) × Avoids b ns

abbrev pub Distinct : List ℕ → Type 0
Distinct [] = Unit {0}
Distinct (a ∷ ns) = Avoids a ns × Distinct ns

pub Avoids-snoc : (b : ℕ) (ns : List ℕ) (t : ℕ) → Avoids b ns → b ≢ t → Avoids b (ns ++ (t ∷ []))
Avoids-snoc b [] t av ne = (ne, tt)
Avoids-snoc b (a ∷ ns) t av ne = (av.0, Avoids-snoc b ns t av.1 ne)

pub Distinct-snoc : (ns : List ℕ) (t : ℕ) → Distinct ns → Avoids t ns → Distinct (ns ++ (t ∷ []))
Distinct-snoc [] t d av = (tt, tt)
Distinct-snoc (a ∷ ns) t d av =
    (Avoids-snoc a ns t d.0 (λ e. av.0 (sym e)), Distinct-snoc ns t d.1 av.1)

module _ {T : Type 0} where
  -- From `p` through the nodes `ns` to the pointer `t`.
  abbrev pub Links : (ℕ → QueueNode T) → Option ℕ → List ℕ → ℕ → Type 0
  Links h p [] t = p ≡ some t
  Links h p (a ∷ ns) t = (p ≡ some a) × Links h (h a).next ns t

  abbrev pub chain_contents : (ℕ → QueueNode T) → List ℕ → List T
  chain_contents h [] = []
  chain_contents h (a ∷ ns) = contents (h a) ++ chain_contents h ns

  -- The nodes are well-formed, not empty, and made before `fresh`.
  abbrev pub AllNodes : (ℕ → QueueNode T) → ℕ → List ℕ → Type 0
  AllNodes h fresh [] = Unit {0}
  AllNodes h fresh (a ∷ ns) = (IsNode (h a) × (0 < (h a).len) × (a < fresh)) × AllNodes h fresh ns

  module _ (h : ℕ → QueueNode T) (b : ℕ) (n : QueueNode T) where
    -- A change of another node is not seen.
    pub Links-update :
        (p : Option ℕ) (ns : List ℕ) (t : ℕ)
        → Avoids b ns
        → Links h p ns t
        → Links (update h b n) p ns t
    Links-update p [] t av l = l
    Links-update p (a ∷ ns) t av l =
        (l.0, rw (update_ne h b n a av.0) (Links-update (h a).next ns t av.1 l.1))

    pub chain_contents-update :
        (ns : List ℕ) → Avoids b ns → chain_contents (update h b n) ns ≡ chain_contents h ns
    chain_contents-update [] av = refl
    chain_contents-update (a ∷ ns) av = rw (update_ne h b n a av.0, chain_contents-update ns av.1)

    pub AllNodes-update :
        (fresh : ℕ) (ns : List ℕ)
        → Avoids b ns
        → AllNodes h fresh ns
        → AllNodes (update h b n) fresh ns
    AllNodes-update fresh [] av all = tt
    AllNodes-update fresh (a ∷ ns) av all =
        rw (update_ne h b n a av.0) (all.0, AllNodes-update fresh ns av.1 all.1)

  pub AllNodes-mono :
      (h : ℕ → QueueNode T) (f f' : ℕ) (ns : List ℕ) → f ≤ f' → AllNodes h f ns → AllNodes h f' ns
  AllNodes-mono h f f' [] le all = tt
  AllNodes-mono h f f' (a ∷ ns) le all =
      ((all.0.0, all.0.1, omega arith), AllNodes-mono h f f' ns le all.1)

  -- One more node at the end.
  pub Links-snoc :
      (h : ℕ → QueueNode T) (p : Option ℕ) (ns : List ℕ) (t t' : ℕ)
      → Links h p ns t
      → (h t).next ≡ some t'
      → Links h p (ns ++ (t ∷ [])) t'
  Links-snoc h p [] t t' l e = (l, e)
  Links-snoc h p (a ∷ ns) t t' l e = (l.0, Links-snoc h (h a).next ns t t' l.1 e)

  pub AllNodes-snoc :
      (h : ℕ → QueueNode T) (f : ℕ) (ns : List ℕ) (t : ℕ)
      → AllNodes h f ns
      → IsNode (h t) × (0 < (h t).len) × (t < f)
      → AllNodes h f (ns ++ (t ∷ []))
  AllNodes-snoc h f [] t all n = (n, tt)
  AllNodes-snoc h f (a ∷ ns) t all n = (all.0, AllNodes-snoc h f ns t all.1 n)

  pub chain_contents-snoc :
      (h : ℕ → QueueNode T) (ns : List ℕ) (t : ℕ)
      → chain_contents h (ns ++ (t ∷ [])) ≡ chain_contents h ns ++ contents (h t)
  chain_contents-snoc h [] t = append-nil (contents (h t))
  chain_contents-snoc h (a ∷ ns) t =
      ap (λ l. contents (h a) ++ l) (chain_contents-snoc h ns t)
      ∙ sym (append_assoc (contents (h a)) (chain_contents h ns) (contents (h t)))

  -- A node that was not made yet is none of the list.
  pub Avoids-fresh : (h : ℕ → QueueNode T) (f : ℕ) (ns : List ℕ) → AllNodes h f ns → Avoids f ns
  Avoids-fresh h f [] all = tt
  Avoids-fresh h f (a ∷ ns) all = (omega arith, Avoids-fresh h f ns all.1)
