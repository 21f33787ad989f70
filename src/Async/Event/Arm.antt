-- ===== src/Async/Event/Arm.antt =====
-- Arming an event puts it into the queue.
use mathlib.Core.Path.{subst}
use forstio.Prelude.{
  ℕ, ◌≡◌, refl, sym, ap, ◌∙◌, Bool, true, false, Option, some, List, [], ◌∷◌, ◌++◌, append_assoc,
  if◌then◌else◌, ◌>>◌, assert,
}
use forstio.Async.Event.{
  Slot, at_head, next_of, EventLoop, slot_eq, link, arm_next, arm_later, arm_last, is_armed,
  has_prev,
}
use forstio.Async.Event.Chain.{NotIn, end_slot, end_slot-append, end_slot-IsOutside, IsOutside-left}
use forstio.Async.Event.Queue.{Queue, events, put_next, put_later, put_last}
use forstio.Async.Event.Holds.{Holds, moved_slot}
use forstio.Async.Event.Keeps.{link-Keeps}
use forstio.Async.Event.Between.{armed_at}

-- `run` has armed an event: the loop holds the queue `q`, has something to do, and is entered.
pub record Arms (run : Option EventLoop) (q : Queue) : Type 0 where
  pub loop : EventLoop
  pub returned : run ≡ some loop
  pub holds : Holds loop q
  pub runnable : loop.is_runnable ≡ true
  pub inside : loop.entered ≡ true

-- What arming does where the loop is entered and the event not armed.
pub guarded :
    (b c : Bool) (l l' : EventLoop)
    → b ≡ true
    → c ≡ false
    → (assert b >> some (if c then l else l')) ≡ some l'
guarded b c l l' p q = rw (p, q) refl

-- The loops that the three arming operations leave, the event behind the slot `t`.
abbrev next_armed : ℕ → EventLoop → Slot → EventLoop
next_armed e l t = record (link e t l) {
  next_insert_point = next_of e;
  later_insert_point = if slot_eq l.later_insert_point t then next_of e else l.later_insert_point;
  tail = if slot_eq l.tail t then next_of e else l.tail;
  is_runnable = true;
}

abbrev pub later_armed : ℕ → EventLoop → Slot → EventLoop
later_armed e l t = record (link e t l) {
  later_insert_point = next_of e;
  tail = if slot_eq l.tail t then next_of e else l.tail;
  is_runnable = true;
}

abbrev last_armed : ℕ → EventLoop → Slot → EventLoop
last_armed e l t = record (link e t l) {
  tail = if slot_eq l.tail t then next_of e else l.tail;
  is_runnable = true;
}

guarded_armed :
    (b c : Bool) (l l' : EventLoop)
    → b ≡ true
    → c ≡ true
    → (assert b >> some (if c then l else l')) ≡ some l
guarded_armed b c l l' p q = rw (p, q) refl

module _ (l : EventLoop) (q : Queue) (e : ℕ) (inside : l.entered ≡ true) (h : Holds l q)
    (n : NotIn e (events q)) where
  abbrev xs : List ℕ
  xs = q.soon ++ q.later

  split : events q ≡ xs ++ q.last
  split = sym (append_assoc q.soon q.later q.last)

  next_armed-Holds : Holds (next_armed e l (end_slot at_head q.soon)) (put_next e q)
  next_armed-Holds =
      armed_at l q h e n q.soon (q.later ++ q.last) refl _ _ _ (put_next e q)
        (append_assoc q.soon (e ∷ []) (q.later ++ q.last))
        (sym (end_slot-append at_head q.soon (e ∷ [])))
        (ap (λ s. if slot_eq s (end_slot at_head q.soon) then next_of e else s)
            (h.later_point ∙ end_slot-append at_head q.soon q.later)
          ∙ moved_slot e at_head q.soon q.later (
              IsOutside-left (end_slot at_head q.soon) q.later q.last
                (end_slot-IsOutside at_head q.soon (q.later ++ q.last) tt h.distinct))
          ∙ ap (end_slot at_head) (sym (append_assoc q.soon (e ∷ []) q.later)))
        refl

  later_armed-Holds : Holds (later_armed e l (end_slot at_head xs)) (put_later e q)
  later_armed-Holds =
      armed_at l q h e n xs q.last split (link e (end_slot at_head xs) l).next_insert_point _ _
        (put_later e q)
        (ap (λ ys. q.soon ++ ys) (append_assoc q.later (e ∷ []) q.last)
          ∙ sym (append_assoc q.soon q.later (e ∷ q.last)))
        ((link-Keeps e (end_slot at_head xs) l).next_point ∙ h.next_point)
        (sym (end_slot-append at_head xs (e ∷ []))
          ∙ ap (end_slot at_head) (append_assoc q.soon q.later (e ∷ [])))
        refl

  last_armed-Holds : Holds (last_armed e l (end_slot at_head xs)) (put_last e q)
  last_armed-Holds =
      armed_at l q h e n xs q.last split (link e (end_slot at_head xs) l).next_insert_point
        (link e (end_slot at_head xs) l).later_insert_point _ (put_last e q)
        (sym (append_assoc q.soon q.later (e ∷ q.last)))
        ((link-Keeps e (end_slot at_head xs) l).next_point ∙ h.next_point)
        ((link-Keeps e (end_slot at_head xs) l).later_point ∙ h.later_point) refl

  not_armed : is_armed e l ≡ false
  not_armed = ap has_prev (h.idle e n)

  pub arm_next_refines : Arms (arm_next e l) (put_next e q)
  unfolding arm_next
  arm_next_refines =
      let t = l.next_insert_point in
      record {
        loop = next_armed e l t;
        returned = guarded l.entered (is_armed e l) l (next_armed e l t) inside not_armed;
        holds =
            subst (λ s. Holds (next_armed e l s) (put_next e q)) (sym h.next_point)
              next_armed-Holds;
        runnable = refl;
        inside = (link-Keeps e t l).entered ∙ inside;
      }

  pub arm_later_refines : Arms (arm_later e l) (put_later e q)
  unfolding arm_later
  arm_later_refines =
      let t = l.later_insert_point in
      record {
        loop = later_armed e l t;
        returned = guarded l.entered (is_armed e l) l (later_armed e l t) inside not_armed;
        holds =
            subst (λ s. Holds (later_armed e l s) (put_later e q)) (sym h.later_point)
              later_armed-Holds;
        runnable = refl;
        inside = (link-Keeps e t l).entered ∙ inside;
      }

  pub arm_last_refines : Arms (arm_last e l) (put_last e q)
  unfolding arm_last
  arm_last_refines =
      let t = l.later_insert_point in
      record {
        loop = last_armed e l t;
        returned = guarded l.entered (is_armed e l) l (last_armed e l t) inside not_armed;
        holds =
            subst (λ s. Holds (last_armed e l s) (put_last e q)) (sym h.later_point)
              last_armed-Holds;
        runnable = refl;
        inside = (link-Keeps e t l).entered ∙ inside;
      }

  -- In an entered loop that holds a queue, arming an event that is not armed returns: `armNext`
  -- has put it behind the first queue, `armLater` behind the second, and `armLast` in front of the
  -- third. The loop then has something to do.
  pub arming_refines :
      Arms (arm_next e l) (put_next e q)
      × Arms (arm_later e l) (put_later e q)
      × Arms (arm_last e l) (put_last e q)
  arming_refines = (arm_next_refines, arm_later_refines, arm_last_refines)

-- An armed event stays where it is, whichever way it is armed again.
pub armed_stays :
    (l : EventLoop) (e : ℕ)
    → l.entered ≡ true
    → is_armed e l ≡ true
    → (arm_next e l ≡ some l) × (arm_later e l ≡ some l) × (arm_last e l ≡ some l)
unfolding arm_next arm_later arm_last
armed_stays l e p a =
    let stays = λ (m : EventLoop). guarded_armed l.entered (is_armed e l) l m p a in
    (stays _, stays _, stays _)

-- In an entered loop, an arming operation returns, and the loop stays entered.
arm_returns :
    (b c : Bool) (l l' : EventLoop)
    → b ≡ true
    → l.entered ≡ true
    → l'.entered ≡ true
    → (m : EventLoop) × ((assert b >> some (if c then l else l')) ≡ some m) × (m.entered ≡ true)
arm_returns b true l l' p q r = (l, guarded_armed b true l l' p refl, q)
arm_returns b false l l' p q r = (l', guarded b false l l' p refl, r)

pub arm_next_returns :
    (e : ℕ) (l : EventLoop)
    → l.entered ≡ true
    → (m : EventLoop) × (arm_next e l ≡ some m) × (m.entered ≡ true)
unfolding arm_next
arm_next_returns e l p =
    let t = l.next_insert_point in
    arm_returns l.entered (is_armed e l) l (next_armed e l t) p p ((link-Keeps e t l).entered ∙ p)

pub arm_later_returns :
    (e : ℕ) (l : EventLoop)
    → l.entered ≡ true
    → (m : EventLoop) × (arm_later e l ≡ some m) × (m.entered ≡ true)
unfolding arm_later
arm_later_returns e l p =
    let t = l.later_insert_point in
    arm_returns l.entered (is_armed e l) l (later_armed e l t) p p ((link-Keeps e t l).entered ∙ p)
