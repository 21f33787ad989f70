-- ===== src/Async/Event/Insert.antt =====
-- A linked event stands in the list behind the slot.
use forstio.Prelude.{ℕ, ◌≡◌, ◌≢◌, sym, ◌∙◌, some, List, [], ◌∷◌, ◌++◌}
use forstio.Async.Event.{Slot, next_of, EventLoop, deref}
use forstio.Async.Event.Chain.{
  NotIn, IsDistinct, IsOutside, Chain, end_slot, Same, Chain-same, Chain-first, end_slot-ne,
  IsOutside-tail, IsOutside-ne, NotIn-right, first-ne, IsOutside-left,
}
use forstio.Async.Event.Link.{IsLinked}

module _ (l l' : EventLoop) (e : ℕ) (t : Slot) (k : IsLinked l l' e t) where
  -- Events that are neither in front of the place nor behind it keep their pointers.
  keep :
      (b : ℕ)
      → deref l t ≡ some b
      → (xs : List ℕ) → NotIn e xs
      → IsOutside t xs
      → NotIn b xs
      → Same l l' xs
  keep b f [] n o m = tt
  keep b f (x ∷ xs) n o m = (
    k.slots (next_of x) (λ p. IsOutside-ne t x xs o (sym p)) (λ p. n.0 (cc)),
    k.others x (λ p. n.0 (sym p)) (λ p. m.0 (cc)),
    keep b f xs n.1 (IsOutside-tail t x xs o) m.1,
  )

  behind-Chain :
      (ys : List ℕ)
      → NotIn e ys
      → IsOutside t ys
      → IsDistinct ys
      → Chain l t ys
      → Chain l' (next_of e) ys
  behind-Chain [] n o d c = k.behind ∙ c
  behind-Chain (b ∷ ys) n o d c = (
    k.behind ∙ c.0,
    k.back_behind b n.0 c.0,
    Chain-same l l' (next_of b) ys
        (k.slots (next_of b) (λ p. IsOutside-ne t b ys o (sym p)) (λ p. n.0 (cc)))
        (keep b c.0 ys n.1 (IsOutside-tail t b ys o) d.0) c.2,
  )

-- Where `e` is linked behind the events `xs`, it stands between them and the others.
pub insert-Chain :
    (l l' : EventLoop) (e : ℕ) (s : Slot) (xs ys : List ℕ)
    → Chain l s (xs ++ ys)
    → s ≢ next_of e
    → IsOutside s (xs ++ ys)
    → IsDistinct (xs ++ ys)
    → NotIn e (xs ++ ys)
    → IsLinked l l' e (end_slot s xs)
    → Chain l' s (xs ++ e ∷ ys)
insert-Chain l l' e s [] ys c h o d n k = (k.at, k.back, behind-Chain l l' e s k ys n o d c)
insert-Chain l l' e s (a ∷ xs) ys c h o d n k = (
  k.slots s (end_slot-ne s a xs (IsOutside-left s (a ∷ xs) ys o)) h ∙ c.0,
  k.others a (λ p. n.0 (sym p))
        (λ p.
          first-ne a ys (NotIn-right a xs ys d.0) (sym (Chain-first l (next_of a) xs ys c.2) ∙ p))
      ∙ c.1,
  insert-Chain l l' e (next_of a) xs ys c.2 (λ p. n.0 (cc)) d.0 d.1 n.1 k,
)
