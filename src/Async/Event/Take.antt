-- ===== src/Async/Event/Take.antt =====
-- Taking an event out of the list takes it out of the queue.
use mathlib.Core.Path.{subst}
use native.Mathlib.Decide.{ℕ_discrete}
use forstio.Prelude.{ℕ, ◌≡◌, refl, sym, ap, ◌∙◌, none, some, List, [], ◌∷◌, ◌++◌, if◌then◌else◌}
use forstio.Async.Event.{Slot, at_head, next_of, EventLoop, slot_eq, unlink}
use forstio.Async.Event.Chain.{
  NotIn, IsDistinct, Chain, end_slot, end_slot-append, end_slot-ne-next_of, slot_eq_refl,
  slot_eq-ne, first-ne, NotIn-right, NotIn-left, Chain-fields, IsDistinct-without, NotIn-with,
  Chain-behind, Chain-back,
}
use forstio.Async.Event.Remove.{unlink-IsUnlinked, remove-Chain}
use forstio.Async.Event.Queue.{Queue, events}
use forstio.Async.Event.Holds.{Holds}

-- The slot that ends a list which the event behind `s` leaves.
pub freed_slot :
    (e : ℕ) (s : Slot) (ys : List ℕ)
    → NotIn e ys
    → (if slot_eq (end_slot (next_of e) ys) (next_of e) then s else end_slot (next_of e) ys)
      ≡ end_slot s ys
freed_slot e s [] n = rw (slot_eq_refl (next_of e)) refl
freed_slot e s (y ∷ ys) n =
    rw
      (slot_eq-ne (end_slot (next_of y) ys) (next_of e)
        (end_slot-ne-next_of e (next_of y) ys (λ p. n.0 (cc)) n.1))
      refl

module _ (l : EventLoop) (q : Queue) (h : Holds l q) (e : ℕ) (xs ys : List ℕ)
    (p : events q ≡ xs ++ e ∷ ys) where
  abbrev place : Slot
  place = end_slot at_head xs

  apart : IsDistinct (xs ++ e ∷ ys)
  apart = subst IsDistinct p h.distinct

  old : Chain l at_head (xs ++ e ∷ ys)
  old = subst (Chain l at_head) p h.chain

  rest : IsDistinct (xs ++ ys) × NotIn e (xs ++ ys)
  rest = IsDistinct-without e xs ys apart

  pub place_lem : l.prev e ≡ some place
  place_lem = Chain-back l at_head xs e ys old

  -- What unlinking the event between `xs` and `ys` makes of the loop.
  pub freed_at :
      (nip lip t : Slot) (q' : Queue)
      → events q' ≡ xs ++ ys
      → nip ≡ end_slot at_head q'.soon
      → lip ≡ end_slot at_head (q'.soon ++ q'.later)
      → t ≡ (if slot_eq l.tail (next_of e) then place else l.tail)
      → Holds
          (record (unlink e place l) {
            next_insert_point = nip;
            later_insert_point = lip;
            tail = t;
          })
          q'
  freed_at nip lip t q' p' a c d =
      let k =
        unlink-IsUnlinked e place l
          (end_slot-ne-next_of e at_head xs (λ r. cc) (NotIn-left e xs ys rest.1)) in
      record {
        chain =
            Chain-fields (unlink e place l)
              (record (unlink e place l) {
                next_insert_point = nip;
                later_insert_point = lip;
                tail = t;
              })
              (events q') refl refl refl
              (subst (Chain (unlink e place l) at_head) (sym p')
                (remove-Chain l (unlink e place l) e at_head xs ys old tt apart k));
        distinct = subst IsDistinct (sym p') rest.0;
        idle = λ x m.
            let m' = subst (NotIn x) p' m in
            elim (ℕ_discrete x e) [
              | yes r ↦ subst (λ y. (unlink e place l).prev y ≡ none) (sym r) k.gone
              | no n ↦
                  k.others x n (λ r.
                    first-ne x ys (NotIn-right x xs ys m')
                      (sym (Chain-behind l at_head xs e ys old) ∙ r))
                  ∙ h.idle x (subst (NotIn x) (sym p) (NotIn-with x e xs ys n m'))
            ];
        next_point = a;
        later_point = c;
        end_point =
            d
            ∙ ap (λ s. if slot_eq s (next_of e) then place else s)
                (h.end_point ∙ ap (end_slot at_head) p ∙ end_slot-append at_head xs (e ∷ ys))
            ∙ freed_slot e place ys (NotIn-right e xs ys rest.1)
            ∙ sym (end_slot-append at_head xs ys)
            ∙ ap (end_slot at_head) (sym p');
      }
