-- ===== src/Async/Event/Turn.antt =====
-- A turn takes the event that the queue takes.
use mathlib.Core.Path.{subst}
use forstio.Prelude.{
  ℕ, ◌≡◌, refl, sym, ap, ◌∙◌, Option, none, some, List, [], ◌∷◌, ◌++◌, append_assoc, if◌then◌else◌,
}
use forstio.Async.Event.{at_head, next_of, EventLoop, slot_eq, take_event, take_head}
use forstio.Async.Event.Chain.{NotIn, Chain, end_slot, Chain-first, NotIn-left}
use forstio.Async.Event.Queue.{Queue, events, take_from, take}
use forstio.Async.Event.Holds.{Holds}
use forstio.Async.Event.Keeps.{unlink-Keeps}
use forstio.Async.Event.Take.{freed_slot, freed_at}

-- The loop `l` and the queue take the same event, or both none, and the loop stays that of the queue.
abbrev pub Takes : EventLoop → Option (ℕ × EventLoop) → Option (ℕ × Queue) → Type 0
Takes l none none = Unit {0}
Takes l none (some r) = ⊥
Takes l (some r) none = ⊥
Takes l (some (e, l')) (some (e', q')) = (e ≡ e') × Holds l' q' × (l'.entered ≡ l.entered)

module _ (l : EventLoop) (xs ys zs : List ℕ)
    (h : Holds l (record { soon = xs; later = ys; last = zs })) where
  -- The first event of all goes, and the queue that is left has none to fire soon.
  took :
      (e : ℕ) (rest ys' zs' : List ℕ)
      → xs ++ (ys ++ zs) ≡ e ∷ rest
      → ys' ++ zs' ≡ rest
      → (if slot_eq l.later_insert_point (next_of e) then at_head else l.later_insert_point)
        ≡ end_slot at_head ys'
      → Takes l (take_head l) (some (e, record { soon = []; later = ys'; last = zs' }))
  unfolding take_head
  took e rest ys' zs' p r a =
      subst
        (λ v. Takes l (take_event v l) (some (e, record { soon = []; later = ys'; last = zs' })))
        (sym (Chain-first l at_head [] (e ∷ rest) (subst (Chain l at_head) p h.chain)))
        (
          refl,
          freed_at l _ h e [] rest p at_head
              (if slot_eq l.later_insert_point (next_of e) then at_head else l.later_insert_point)
              (if slot_eq l.tail (next_of e) then at_head else l.tail)
              (record { soon = []; later = ys'; last = zs' }) r refl a refl,
          (unlink-Keeps e at_head l).entered,
        )

taken :
    (l : EventLoop) (xs ys zs : List ℕ)
    → Holds l (record { soon = xs; later = ys; last = zs })
    → Takes l (take_head l) (take_from xs ys zs)
unfolding take_head
taken l [] [] [] h = subst (λ v. Takes l (take_event v l) none) (sym h.chain) tt
taken l [] [] (e ∷ zs) h =
    took l [] [] (e ∷ zs) h e zs [] zs refl refl
      (ap (λ s. if slot_eq s (next_of e) then at_head else s) h.later_point)
taken l [] (e ∷ ys) zs h = took l [] (e ∷ ys) zs h e (ys ++ zs) ys zs refl refl (
    ap (λ s. if slot_eq s (next_of e) then at_head else s) h.later_point
    ∙ freed_slot e at_head ys (NotIn-left e ys zs h.distinct.0))
taken l (e ∷ xs) ys zs h =
    took l (e ∷ xs) ys zs h e (xs ++ (ys ++ zs)) (xs ++ ys) zs refl (append_assoc xs ys zs) (
      ap (λ s. if slot_eq s (next_of e) then at_head else s) h.later_point
      ∙ freed_slot e at_head (xs ++ ys)
          (NotIn-left e (xs ++ ys) zs (subst (NotIn e) (sym (append_assoc xs ys zs)) h.distinct.0)))

-- Where the loop holds a queue, a turn takes the event that the queue yields, or none where that
-- is empty, and the loop then holds the queue that is left.
pub take_head_refines : (l : EventLoop) (q : Queue) → Holds l q → Takes l (take_head l) (take q)
take_head_refines l q h = taken l q.soon q.later q.last h

-- What the queue yields is its first event, and the others stay in their order.
abbrev pub Yields : Option (ℕ × Queue) → List ℕ → Type 0
Yields none xs = xs ≡ []
Yields (some (e, q)) xs = xs ≡ e ∷ events q

Yields-from : (xs ys zs : List ℕ) → Yields (take_from xs ys zs) (xs ++ (ys ++ zs))
Yields-from (e ∷ xs) ys zs = ap (λ vs. e ∷ vs) (sym (append_assoc xs ys zs))
Yields-from [] (e ∷ ys) zs = refl
Yields-from [] [] (e ∷ zs) = refl
Yields-from [] [] [] = refl

pub take-events : (q : Queue) → Yields (take q) (events q)
take-events q = Yields-from q.soon q.later q.last
