-- ===== src/Async/Event/Remove.antt =====
-- An unlinked event is gone from the list, and the others stand as before.
use forstio.Prelude.{ℕ, ◌≡◌, ◌≢◌, sym, ap, ◌∙◌, none, some, List, [], ◌∷◌, ◌++◌}
use forstio.Async.Event.{Slot, at_head, next_of, EventLoop, deref, assign, set_prev_of, unlink}
use forstio.Async.Event.Chain.{
  NotIn, IsDistinct, IsOutside, Chain, end_slot, Same, Chain-same, end_slot-ne, IsOutside-tail,
  IsOutside-ne, IsOutside-left, NotIn-right, NotIn-middle, NotIn-without, first-ne,
  IsOutside-middle, Chain-behind,
}
use forstio.Async.Event.Link.{
  update_at, update-ne, deref-assign, deref-assign-ne, prev-assign, deref-set_prev_of,
  prev-set_prev_of, prev-set_prev_of-ne,
}

-- `e`, which stood behind the slot `t` in `l`, is gone in `l'`, and all else is as in `l`.
pub record IsUnlinked (l l' : EventLoop) (e : ℕ) (t : Slot) : Type 0 where
  pub at : deref l' t ≡ l.next e
  pub slots : (s : Slot) → s ≢ t → s ≢ next_of e → deref l' s ≡ deref l s
  pub back : (b : ℕ) → e ≢ b → l.next e ≡ some b → l'.prev b ≡ some t
  pub gone : l'.prev e ≡ none
  pub others : (x : ℕ) → x ≢ e → l.next e ≢ some x → l'.prev x ≡ l.prev x

module _ (e : ℕ) (t : Slot) (l : EventLoop) (h : t ≢ next_of e) where
  abbrev passed : EventLoop
  passed = assign t (l.next e) l

  passed_lem : passed.next e ≡ l.next e
  passed_lem = deref-assign-ne t (l.next e) l (next_of e) (λ p. h (sym p))

  abbrev closed : EventLoop
  closed = set_prev_of (passed.next e) t passed

  deref-unlink : (s : Slot) → s ≢ next_of e → deref (unlink e t l) s ≡ deref passed s
  unfolding unlink
  deref-unlink at_head n = deref-set_prev_of (passed.next e) t passed at_head
  deref-unlink (next_of j) n =
      update-ne closed.next e none j (λ p. n (ap next_of p))
      ∙ deref-set_prev_of (passed.next e) t passed (next_of j)

  pub next-unlink : (unlink e t l).next e ≡ none
  unfolding unlink
  next-unlink = update_at closed.next e none

  pub unlink-IsUnlinked : IsUnlinked l (unlink e t l) e t
  unfolding unlink
  unlink-IsUnlinked = record {
    at = deref-unlink t h ∙ deref-assign t (l.next e) l;
    slots = λ s n m. deref-unlink s m ∙ deref-assign-ne t (l.next e) l s n;
    back = λ b n p.
        update-ne closed.prev e none b (λ q. n (sym q))
        ∙ prev-set_prev_of (passed.next e) t passed b (passed_lem ∙ p);
    gone = update_at closed.prev e none;
    others = λ x n m.
        update-ne closed.prev e none x n
        ∙ prev-set_prev_of-ne (passed.next e) t passed x (λ p. m (sym passed_lem ∙ p))
        ∙ prev-assign t (l.next e) l x;
  }

module _ (l l' : EventLoop) (e : ℕ) (t : Slot) (k : IsUnlinked l l' e t) where
  keep :
      (b : ℕ)
      → l.next e ≡ some b
      → (xs : List ℕ) → NotIn e xs
      → IsOutside t xs
      → NotIn b xs
      → Same l l' xs
  keep b f [] n o m = tt
  keep b f (x ∷ xs) n o m = (
    k.slots (next_of x) (λ p. IsOutside-ne t x xs o (sym p)) (λ p. n.0 (cc)),
    k.others x (λ p. n.0 (sym p)) (λ p. m.0 (cc)),
    keep b f xs n.1 (IsOutside-tail t x xs o) m.1,
  )

  behind-Chain :
      (ys : List ℕ)
      → NotIn e ys
      → IsOutside t ys
      → IsDistinct ys
      → Chain l (next_of e) ys
      → Chain l' t ys
  behind-Chain [] n o d c = k.at ∙ c
  behind-Chain (b ∷ ys) n o d c = (
    k.at ∙ c.0,
    k.back b n.0 c.0,
    Chain-same l l' (next_of b) ys
        (k.slots (next_of b) (λ p. IsOutside-ne t b ys o (sym p)) (λ p. n.0 (cc)))
        (keep b c.0 ys n.1 (IsOutside-tail t b ys o) d.0) c.2,
  )

-- Where `e` is unlinked from behind the events `xs`, the events behind it stand there.
pub remove-Chain :
    (l l' : EventLoop) (e : ℕ) (s : Slot) (xs ys : List ℕ)
    → Chain l s (xs ++ e ∷ ys)
    → IsOutside s (xs ++ e ∷ ys)
    → IsDistinct (xs ++ e ∷ ys)
    → IsUnlinked l l' e (end_slot s xs)
    → Chain l' s (xs ++ ys)
remove-Chain l l' e s [] ys c o d k =
    behind-Chain l l' e s k ys d.0 (IsOutside-tail s e ys o) d.1 c.2
remove-Chain l l' e s (a ∷ xs) ys c o d k =
    let m = NotIn-middle a e xs ys d.0 in
    (
      k.slots s (end_slot-ne s a xs (IsOutside-left s (a ∷ xs) (e ∷ ys) o))
            (IsOutside-middle s e xs ys (IsOutside-tail s a (xs ++ e ∷ ys) o))
          ∙ c.0,
      k.others a m (λ p.
            first-ne a ys (NotIn-right a xs ys (NotIn-without a e xs ys d.0))
              (sym (Chain-behind l (next_of a) xs e ys c.2) ∙ p))
          ∙ c.1,
      remove-Chain l l' e (next_of a) xs ys c.2 d.0 d.1 k,
    )
