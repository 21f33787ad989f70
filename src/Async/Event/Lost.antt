-- ===== src/Async/Event/Lost.antt =====
-- What `disarm` leaves where the insert point of `armLater` is right behind the event.
use mathlib.Core.Path.{subst}
use forstio.Prelude.{
  ℕ, ◌≡◌, ◌≢◌, refl, sym, ap, ◌∙◌, true, Option, none, some, List, [], ◌∷◌, ◌++◌, append_assoc, inl,
  inr,
}
use forstio.Async.Event.{
  Slot, at_head, next_of, EventLoop, link, arm_later, unlink, is_armed, has_prev, disarm,
  disarm_from,
}
use forstio.Async.Event.Chain.{
  NotIn, IsDistinct, Chain, end_slot, Same, Chain-same, Chain-fields, end_slot-ne-next_of,
  NotIn-left, NotIn-without, NotIn-middle, IsDistinct-without,
}
use forstio.Async.Event.Link.{IsLinked, link-IsLinked}
use forstio.Async.Event.Remove.{next-unlink}
use forstio.Async.Event.Queue.{Queue, events, remove, without}
use forstio.Async.Event.Holds.{Holds}
use forstio.Async.Event.Keeps.{unlink-Keeps}
use forstio.Async.Event.Arm.{guarded, later_armed}
use forstio.Async.Event.Take.{place_lem}
use forstio.Async.Event.Disarm.{Split, find_event, freed, freed-Holds, events-without, remove_at}

-- An event linked behind one that is in no list changes no list.
linked-Same :
    (l l' : EventLoop) (x e : ℕ)
    → IsLinked l l' x (next_of e)
    → l.next e ≡ none
    → (xs : List ℕ) → NotIn x xs
    → NotIn e xs
    → Same l l' xs
linked-Same l l' x e k f [] n m = tt
linked-Same l l' x e k f (y ∷ ys) n m = (
  k.slots (next_of y) (λ p. m.0 (cc)) (λ p. n.0 (cc)),
  k.others y (λ p. n.0 (sym p)) (λ p. cc),
  linked-Same l l' x e k f ys n.1 m.1,
)

-- `run` has armed the event `x`, but the list from the head on is `xs`.
pub record Loses (run : Option EventLoop) (x : ℕ) (xs : List ℕ) : Type 0 where
  pub loop : EventLoop
  pub returned : run ≡ some loop
  pub armed : is_armed x loop ≡ true
  pub chain : Chain loop at_head xs

module _ (l : EventLoop) (q : Queue) (e x : ℕ) (h : Holds l q) (n : NotIn x (events q))
    (k : Split e (events q)) where
  abbrev place : Slot
  place = end_slot at_head k.front

  outside : NotIn x (k.front ++ e ∷ k.back)
  outside = subst (NotIn x) k.split n

  ne : x ≢ e
  ne = NotIn-middle x e k.front k.back outside

  gap : NotIn e (k.front ++ k.back)
  gap = (IsDistinct-without e k.front k.back (subst IsDistinct k.split h.distinct)).1

  others_lem : events (without e q) ≡ k.front ++ k.back
  others_lem = events-without e q ∙ ap (remove e) k.split ∙ remove_at e k.front k.back gap

  abbrev disarmed : EventLoop
  disarmed = freed l q e h k (unlink e place l).later_insert_point

  old : Chain disarmed at_head (k.front ++ k.back)
  old =
      let p = end_slot at_head (remove e q.soon ++ remove e q.later) in
      subst (Chain disarmed at_head) others_lem (
        Chain-fields (freed l q e h k p) disarmed (events (without e q)) refl refl refl
          (freed-Holds l q e h k p refl).chain)

  free : place ≢ next_of e
  free = end_slot-ne-next_of e at_head k.front (λ p. cc) (NotIn-left e k.front k.back gap)

  placed : IsLinked disarmed (link x (next_of e) disarmed) x (next_of e)
  placed =
      link-IsLinked x (next_of e) disarmed (λ p. ne (cc))
        (λ p. let r = sym (next-unlink e place l free) ∙ p in cc)

  kept : Chain (link x (next_of e) disarmed) at_head (k.front ++ k.back)
  kept =
      Chain-same disarmed (link x (next_of e) disarmed) at_head (k.front ++ k.back)
        (placed.slots at_head (λ p. cc) (λ p. cc))
        (linked-Same disarmed (link x (next_of e) disarmed) x e placed (next-unlink e place l free)
          (k.front ++ k.back) (NotIn-without x e k.front k.back outside) gap)
        old

  idle : disarmed.prev x ≡ none
  idle =
      (freed-Holds l q e h k (end_slot at_head (remove e q.soon ++ remove e q.later)) refl).idle x
        (subst (NotIn x) (sym others_lem) (NotIn-without x e k.front k.back outside))

  -- The loop in which `x` is armed, for the slot `t` behind which it is put.
  abbrev armed_late : Slot → EventLoop
  armed_late t = later_armed x disarmed t

  lost :
      l.entered ≡ true
      → l.later_insert_point ≡ next_of e
      → Loses (arm_later x disarmed) x (remove e (events q))
  unfolding arm_later
  lost inside p =
      let t = disarmed.later_insert_point in
      let r : next_of e ≡ t = sym ((unlink-Keeps e place l).later_point ∙ p) in
      record {
        loop = armed_late t;
        returned =
            guarded disarmed.entered (is_armed x disarmed) disarmed (armed_late t)
              ((unlink-Keeps e place l).entered ∙ inside) (ap has_prev idle);
        armed = subst (λ s. is_armed x (armed_late s) ≡ true) r (ap has_prev placed.back);
        chain =
            subst (λ s. Chain (armed_late s) at_head (remove e (events q))) r
              (Chain-fields (link x (next_of e) disarmed) (armed_late (next_of e))
                (remove e (events q)) refl refl refl
                (subst (Chain (link x (next_of e) disarmed) at_head)
                  (sym others_lem ∙ events-without e q) kept));
      }

-- In an entered loop that holds a queue, where the insert point of `armLater` is right behind a
-- disarmed event, the next event that `armLater` arms counts as armed, but it is not in the list
-- of events to fire, which is that of the others.
pub disarm-Loses :
    (l : EventLoop) (q : Queue) (e x : ℕ)
    → l.entered ≡ true
    → Holds l q
    → l.later_insert_point ≡ next_of e
    → NotIn x (events q)
    → Loses (arm_later x (disarm e l)) x (remove e (events q))
unfolding disarm
disarm-Loses l q e x inside h p n = elim (find_event e (events q)) [
  | inl m ↦ absurd (
      end_slot-ne-next_of e at_head (q.soon ++ q.later) (λ r. cc)
        (NotIn-left e (q.soon ++ q.later) q.last
          (subst (NotIn e) (sym (append_assoc q.soon q.later q.last)) m))
        (sym h.later_point ∙ p))
  | inr k ↦
      subst (λ v. Loses (arm_later x (disarm_from v e l)) x (remove e (events q)))
        (sym (place_lem l q h e k.front k.back k.split)) (lost l q e x h n k inside p)
]
