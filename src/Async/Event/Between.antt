-- ===== src/Async/Event/Between.antt =====
-- What linking an event between two others makes of the queue.
use mathlib.Core.Path.{subst}
use forstio.Prelude.{ℕ, ◌≡◌, refl, sym, ap, ◌∙◌, true, List, ◌∷◌, ◌++◌, if◌then◌else◌}
use forstio.Async.Event.{Slot, at_head, next_of, EventLoop, slot_eq, link}
use forstio.Async.Event.Chain.{
  NotIn, IsDistinct, Chain, end_slot, end_slot-append, end_slot-IsOutside, end_slot-ne-next_of,
  IsDistinct-with, Chain-first, first-ne, NotIn-right, NotIn-left, NotIn-without, NotIn-middle,
  Chain-fields,
}
use forstio.Async.Event.Link.{IsLinked, link-IsLinked}
use forstio.Async.Event.Insert.{insert-Chain}
use forstio.Async.Event.Queue.{Queue, events}
use forstio.Async.Event.Holds.{Holds, moved_slot}

module _ (l : EventLoop) (q : Queue) (h : Holds l q) (e : ℕ) (n : NotIn e (events q)) where
  module _ (xs ys : List ℕ) (p : events q ≡ xs ++ ys) where
    abbrev place : Slot
    place = end_slot at_head xs

    outside : NotIn e (xs ++ ys)
    outside = subst (NotIn e) p n

    apart : IsDistinct (xs ++ ys)
    apart = subst IsDistinct p h.distinct

    old : Chain l at_head (xs ++ ys)
    old = subst (Chain l at_head) p h.chain

    placed : IsLinked l (link e place l) e place
    placed =
        link-IsLinked e place l
          (end_slot-ne-next_of e at_head xs (λ r. cc) (NotIn-left e xs ys outside))
          (λ r.
            first-ne e ys (NotIn-right e xs ys outside) (sym (Chain-first l at_head xs ys old) ∙ r))

    old_end : l.tail ≡ end_slot place ys
    old_end = h.end_point ∙ ap (end_slot at_head) p ∙ end_slot-append at_head xs ys

    -- What linking `e` behind the events `xs` makes of the loop.
    pub armed_at :
        (nip lip t : Slot) (q' : Queue)
        → events q' ≡ xs ++ e ∷ ys
        → nip ≡ end_slot at_head q'.soon
        → lip ≡ end_slot at_head (q'.soon ++ q'.later)
        → t ≡ (if slot_eq l.tail place then next_of e else l.tail)
        → Holds
            (record (link e place l) {
              next_insert_point = nip;
              later_insert_point = lip;
              tail = t;
              is_runnable = true;
            })
            q'
    armed_at nip lip t q' p' a c d =
        let k = placed in
        record {
          chain =
              Chain-fields (link e place l)
                (record (link e place l) {
                  next_insert_point = nip;
                  later_insert_point = lip;
                  tail = t;
                  is_runnable = true;
                })
                (events q') refl refl refl
                (subst (Chain (link e place l) at_head) (sym p') (
                  insert-Chain l (link e place l) e at_head xs ys old (λ r. cc) tt apart outside
                    k));
          distinct = subst IsDistinct (sym p') (IsDistinct-with e xs ys apart outside);
          idle = λ x m.
              let m' = subst (NotIn x) p' m in
              let w = NotIn-without x e xs ys m' in
              k.others x (NotIn-middle x e xs ys m') (λ r.
                first-ne x ys (NotIn-right x xs ys w) (sym (Chain-first l at_head xs ys old) ∙ r))
              ∙ h.idle x (subst (NotIn x) (sym p) w);
          next_point = a;
          later_point = c;
          end_point =
              d
              ∙ ap (λ s. if slot_eq s place then next_of e else s) old_end
              ∙ moved_slot e at_head xs ys (end_slot-IsOutside at_head xs ys tt apart)
              ∙ ap (end_slot at_head) (sym p');
        }
