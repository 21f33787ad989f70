-- ===== src/Async/Event/Holds.antt =====
-- The pointers implement the queue.
use forstio.Prelude.{ℕ, ◌≡◌, refl, sym, none, List, [], ◌∷◌, ◌++◌, if◌then◌else◌}
use forstio.Async.Event.{Slot, at_head, next_of, EventLoop, slot_eq, fresh_loop}
use forstio.Async.Event.Chain.{
  NotIn, IsDistinct, IsOutside, Chain, end_slot, end_slot-append, end_slot-ne, slot_eq_refl,
  slot_eq-ne,
}
use forstio.Async.Event.Queue.{Queue, empty, events}

-- The list and the three insert points of the loop are those of the queue, and exactly its events
-- are armed.
pub record Holds (l : EventLoop) (q : Queue) : Type 0 where
  pub chain : Chain l at_head (events q)
  pub distinct : IsDistinct (events q)
  pub idle : (e : ℕ) → NotIn e (events q) → l.prev e ≡ none
  pub next_point : l.next_insert_point ≡ end_slot at_head q.soon
  pub later_point : l.later_insert_point ≡ end_slot at_head (q.soon ++ q.later)
  pub end_point : l.tail ≡ end_slot at_head (events q)

pub fresh_loop-Holds : Holds fresh_loop empty
fresh_loop-Holds = record {
  chain = refl;
  distinct = tt;
  idle = λ e n. refl;
  next_point = refl;
  later_point = refl;
  end_point = refl;
}

-- A slot that followed the events `xs` follows the new event too, if it was the same; with events
-- between them it stays.
pub moved_slot :
    (e : ℕ) (s : Slot) (xs ys : List ℕ)
    → IsOutside (end_slot s xs) ys
    → (if slot_eq (end_slot (end_slot s xs) ys) (end_slot s xs)
        then next_of e
        else end_slot (end_slot s xs) ys)
      ≡ end_slot s (xs ++ e ∷ ys)
moved_slot e s xs [] o = rw (slot_eq_refl (end_slot s xs)) (sym (end_slot-append s xs (e ∷ [])))
moved_slot e s xs (y ∷ ys) o =
    rw
      (slot_eq-ne (end_slot (next_of y) ys) (end_slot s xs)
        (λ p. end_slot-ne (end_slot s xs) y ys o (sym p)))
      (sym (end_slot-append s xs (e ∷ y ∷ ys)))
