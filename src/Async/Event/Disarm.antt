-- ===== src/Async/Event/Disarm.antt =====
-- Disarming an event takes it out of its queue, unless the insert point of `armLater` is behind it.
use mathlib.Core.Path.{subst}
use native.Mathlib.Decide.{ℕ_discrete}
use forstio.Prelude.{
  ℕ, ◌≡◌, ◌≢◌, refl, sym, ap, ◌∙◌, Bool, true, false, List, [], ◌∷◌, ◌++◌, append_assoc,
  if◌then◌else◌, ◌⊎◌, inl, inr, ◌==◌, arith,
}
use forstio.Async.Event.{Slot, at_head, next_of, EventLoop, slot_eq, unlink, disarm, disarm_from}
use forstio.Async.Event.Chain.{
  NotIn, IsDistinct, end_slot, slot_eq-ne, NotIn-right, NotIn-left, NotIn-middle,
  IsDistinct-without,
}
use forstio.Async.Event.Queue.{Queue, events, remove, without}
use forstio.Async.Event.Holds.{Holds}
use forstio.Async.Event.Keeps.{unlink-Keeps}
use forstio.Async.Event.Take.{freed_slot, freed_at, place_lem}

remove_same : (e : ℕ) (xs : List ℕ) → remove e (e ∷ xs) ≡ remove e xs
remove_same e xs = ground arith

remove_other : (e x : ℕ) (xs : List ℕ) → e ≢ x → remove e (x ∷ xs) ≡ x ∷ remove e xs
remove_other e x xs n = ground arith

remove-NotIn : (e : ℕ) (xs : List ℕ) → NotIn e xs → remove e xs ≡ xs
remove-NotIn e [] n = refl
remove-NotIn e (x ∷ xs) n = remove_other e x xs n.0 ∙ ap (λ ys. x ∷ ys) (remove-NotIn e xs n.1)

-- With the event out of all three lists, the events are the others.
if-append :
    (b : Bool) (x : ℕ) (xs ys : List ℕ)
    → (if b then xs ++ ys else x ∷ (xs ++ ys)) ≡ (if b then xs else x ∷ xs) ++ ys
if-append true x xs ys = refl
if-append false x xs ys = refl

remove-append : (e : ℕ) (xs ys : List ℕ) → remove e (xs ++ ys) ≡ remove e xs ++ remove e ys
remove-append e [] ys = refl
remove-append e (x ∷ xs) ys =
    ap (λ zs. if e == x then zs else x ∷ zs) (remove-append e xs ys)
    ∙ if-append (e == x) x (remove e xs) (remove e ys)

pub remove_at : (e : ℕ) (xs ys : List ℕ) → NotIn e (xs ++ ys) → remove e (xs ++ e ∷ ys) ≡ xs ++ ys
remove_at e xs ys n =
    remove-append e xs (e ∷ ys)
    ∙ ap (λ zs. remove e xs ++ zs) (remove_same e ys)
    ∙ sym (remove-append e xs ys)
    ∙ remove-NotIn e (xs ++ ys) n

pub events-without : (e : ℕ) (q : Queue) → events (without e q) ≡ remove e (events q)
events-without e q = sym (
    remove-append e q.soon (q.later ++ q.last)
    ∙ ap (λ zs. remove e q.soon ++ zs) (remove-append e q.later q.last))

-- Either the event is not among them, or they are split at it.
pub record Split (e : ℕ) (xs : List ℕ) : Type 0 where
  pub front : List ℕ
  pub back : List ℕ
  pub split : xs ≡ front ++ e ∷ back

pub find_event : (e : ℕ) (xs : List ℕ) → NotIn e xs ⊎ Split e xs
find_event e [] = inl tt
find_event e (x ∷ xs) = elim (ℕ_discrete e x) [
  | yes p ↦ inr (record { front = []; back = xs; split = ap (λ y. y ∷ xs) (sym p) })
  | no n ↦ elim (find_event e xs) [
    | inl m ↦ inl (n, m)
    | inr k ↦ inr (record { front = x ∷ k.front; back = k.back; split = ap (λ ys. x ∷ ys) k.split })
  ]
]

-- The slot behind some of the events, without the event `e` that stands behind `xs`.
point-without :
    (e : ℕ) (s : Slot) (us vs xs ys : List ℕ)
    → us ++ vs ≡ xs ++ e ∷ ys
    → s ≢ next_of e
    → IsDistinct (us ++ vs)
    → (if slot_eq (end_slot s us) (next_of e) then end_slot s xs else end_slot s us)
      ≡ end_slot s (remove e us)
point-without e s [] vs xs ys p n d = rw (slot_eq-ne s (next_of e) n) refl
point-without e s (a ∷ us) vs [] ys p n d =
    let r : a ≡ e = cc in
    let m = subst (λ b. NotIn b us) r (NotIn-left a us vs d.0) in
    ap (λ b. if slot_eq (end_slot (next_of b) us) (next_of e) then s else end_slot (next_of b) us) r
    ∙ freed_slot e s us m
    ∙ ap (end_slot s) (sym (ap (λ b. remove e (b ∷ us)) r ∙ remove_same e us ∙ remove-NotIn e us m))
point-without e s (a ∷ us) vs (x ∷ xs) ys p n d =
    let r : a ≡ x = cc in
    let m : a ≢ e = NotIn-middle a e xs ys (subst (NotIn a) (cc) d.0) in
    ap
      (λ b.
        if slot_eq (end_slot (next_of a) us) (next_of e)
        then end_slot (next_of b) xs
        else end_slot (next_of a) us)
      (sym r)
    ∙ point-without e (next_of a) us vs xs ys (cc) (λ k. m (cc)) d.1
    ∙ ap (end_slot s) (sym (remove_other e a us (λ k. m (sym k))))

without-NotIn : (e : ℕ) (q : Queue) → NotIn e (events q) → without e q ≡ q
without-NotIn e q n =
    let m = NotIn-right e q.soon (q.later ++ q.last) n in
    ap (λ xs. record { soon = xs; later = remove e q.later; last = remove e q.last })
      (remove-NotIn e q.soon (NotIn-left e q.soon (q.later ++ q.last) n))
    ∙ ap (λ xs. record { soon = q.soon; later = xs; last = remove e q.last })
        (remove-NotIn e q.later (NotIn-left e q.later q.last m))
    ∙ ap (λ xs. record { soon = q.soon; later = q.later; last = xs })
        (remove-NotIn e q.last (NotIn-right e q.later q.last m))

module _ (l : EventLoop) (q : Queue) (e : ℕ) (h : Holds l q) (k : Split e (events q)) where
  abbrev place : Slot
  place = end_slot at_head k.front

  next_point_lem :
      (if slot_eq l.next_insert_point (next_of e) then place else l.next_insert_point)
      ≡ end_slot at_head (remove e q.soon)
  next_point_lem =
      ap (λ s. if slot_eq s (next_of e) then place else s) h.next_point
      ∙ point-without e at_head q.soon (q.later ++ q.last) k.front k.back k.split (λ p. cc)
          h.distinct

  later_point_lem :
      l.later_insert_point ≢ next_of e
      → l.later_insert_point ≡ end_slot at_head (remove e q.soon ++ remove e q.later)
  later_point_lem n =
      let assoc = append_assoc q.soon q.later q.last in
      sym (
        ap (λ b. if b then place else l.later_insert_point)
          (slot_eq-ne l.later_insert_point (next_of e) n))
      ∙ ap (λ s. if slot_eq s (next_of e) then place else s) h.later_point
      ∙ point-without e at_head (q.soon ++ q.later) q.last k.front k.back (assoc ∙ k.split)
          (λ p. cc) (subst IsDistinct (sym assoc) h.distinct)
      ∙ ap (end_slot at_head) (remove-append e q.soon q.later)

  -- The loop without the event, with a correct insert point of `armLater`.
  abbrev pub freed : Slot → EventLoop
  freed lip = record (unlink e place l) {
    tail = if slot_eq l.tail (next_of e) then place else l.tail;
    next_insert_point =
        if slot_eq l.next_insert_point (next_of e) then place else l.next_insert_point;
    later_insert_point = lip;
  }

  pub freed-Holds :
      (lip : Slot)
      → lip ≡ end_slot at_head (remove e q.soon ++ remove e q.later)
      → Holds (freed lip) (without e q)
  freed-Holds lip a =
      freed_at l q h e k.front k.back k.split
        (if slot_eq l.next_insert_point (next_of e) then place else l.next_insert_point) lip
        (if slot_eq l.tail (next_of e) then place else l.tail) (without e q)
        (events-without e q
          ∙ ap (remove e) k.split
          ∙ remove_at e k.front k.back
              (IsDistinct-without e k.front k.back (subst IsDistinct k.split h.distinct)).1)
        next_point_lem a refl

  disarmed : l.later_insert_point ≢ next_of e → Holds (disarm e l) (without e q)
  unfolding disarm
  disarmed n =
      subst (λ v. Holds (disarm_from v e l) (without e q))
        (sym (place_lem l q h e k.front k.back k.split))
        (freed-Holds (unlink e place l).later_insert_point
          ((unlink-Keeps e place l).later_point ∙ later_point_lem n))

-- Where the loop holds a queue and the insert point of `armLater` is not right behind the event,
-- disarming takes the event out of its queue, and does nothing where it is in none.
pub disarm_refines :
    (l : EventLoop) (q : Queue) (e : ℕ)
    → Holds l q
    → l.later_insert_point ≢ next_of e
    → Holds (disarm e l) (without e q)
unfolding disarm
disarm_refines l q e h n = elim (find_event e (events q)) [
  | inl m ↦
      subst (λ v. Holds (disarm_from v e l) (without e q)) (sym (h.idle e m))
        (subst (Holds l) (sym (without-NotIn e q m)) h)
  | inr k ↦ disarmed l q e h k n
]
