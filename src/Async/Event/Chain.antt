-- ===== src/Async/Event/Chain.antt =====
-- The list of armed events as a list: what the pointers have to say for it.
use forstio.Prelude.{
  ℕ, ◌≡◌, ◌≢◌, refl, sym, ap, ◌∙◌, true, false, Option, none, some, List, [], ◌∷◌, ◌++◌, arith,
}
use forstio.Async.Event.{Slot, at_head, next_of, EventLoop, deref, slot_eq}

abbrev pub NotIn : ℕ → List ℕ → Type 0
NotIn e [] = Unit {0}
NotIn e (x ∷ xs) = (e ≢ x) × NotIn e xs

abbrev pub IsDistinct : List ℕ → Type 0
IsDistinct [] = Unit {0}
IsDistinct (x ∷ xs) = NotIn x xs × IsDistinct xs

-- The slot is not the `next` of one of the events.
abbrev pub IsOutside : Slot → List ℕ → Type 0
IsOutside at_head xs = Unit {0}
IsOutside (next_of e) xs = NotIn e xs

-- From the slot on, the pointers forward and back are those of the list.
abbrev pub Chain : EventLoop → Slot → List ℕ → Type 0
Chain l s [] = deref l s ≡ none
Chain l s (x ∷ xs) = (deref l s ≡ some x) × (l.prev x ≡ some s) × Chain l (next_of x) xs

-- The slot behind the events.
abbrev pub end_slot : Slot → List ℕ → Slot
end_slot s [] = s
end_slot s (x ∷ xs) = end_slot (next_of x) xs

abbrev pub first : List ℕ → Option ℕ
first [] = none
first (x ∷ xs) = some x

pub slot_eq_refl : (s : Slot) → slot_eq s s ≡ true
slot_eq_refl at_head = refl
slot_eq_refl (next_of e) = ground arith

pub slot_eq-ne : (s t : Slot) → s ≢ t → slot_eq s t ≡ false
slot_eq-ne at_head at_head h = absurd (h refl)
slot_eq-ne at_head (next_of e) h = refl
slot_eq-ne (next_of e) at_head h = refl
slot_eq-ne (next_of e) (next_of e') h = ground (arith, h)

pub next_of-ne : {e e' : ℕ} → e ≢ e' → next_of e ≢ next_of e'
next_of-ne h p = h (cc)

pub NotIn-left : (e : ℕ) (xs ys : List ℕ) → NotIn e (xs ++ ys) → NotIn e xs
NotIn-left e [] ys h = tt
NotIn-left e (x ∷ xs) ys h = (h.0, NotIn-left e xs ys h.1)

pub NotIn-right : (e : ℕ) (xs ys : List ℕ) → NotIn e (xs ++ ys) → NotIn e ys
NotIn-right e [] ys h = h
NotIn-right e (x ∷ xs) ys h = NotIn-right e xs ys h.1

pub NotIn-append : (e : ℕ) (xs ys : List ℕ) → NotIn e xs → NotIn e ys → NotIn e (xs ++ ys)
NotIn-append e [] ys h k = k
NotIn-append e (x ∷ xs) ys h k = (h.0, NotIn-append e xs ys h.1 k)

-- An element in the middle is none of the others.
pub NotIn-middle : (x e : ℕ) (xs ys : List ℕ) → NotIn x (xs ++ e ∷ ys) → x ≢ e
NotIn-middle x e [] ys h = h.0
NotIn-middle x e (y ∷ xs) ys h = NotIn-middle x e xs ys h.1

pub NotIn-without : (x e : ℕ) (xs ys : List ℕ) → NotIn x (xs ++ e ∷ ys) → NotIn x (xs ++ ys)
NotIn-without x e [] ys h = h.1
NotIn-without x e (y ∷ xs) ys h = (h.0, NotIn-without x e xs ys h.1)

pub NotIn-with : (x e : ℕ) (xs ys : List ℕ) → x ≢ e → NotIn x (xs ++ ys) → NotIn x (xs ++ e ∷ ys)
NotIn-with x e [] ys n h = (n, h)
NotIn-with x e (y ∷ xs) ys n h = (h.0, NotIn-with x e xs ys n h.1)

pub IsDistinct-without :
    (e : ℕ) (xs ys : List ℕ)
    → IsDistinct (xs ++ e ∷ ys)
    → IsDistinct (xs ++ ys) × NotIn e (xs ++ ys)
IsDistinct-without e [] ys h = (h.1, h.0)
IsDistinct-without e (x ∷ xs) ys h =
    let k = IsDistinct-without e xs ys h.1 in
    ((NotIn-without x e xs ys h.0, k.0), (λ p. NotIn-middle x e xs ys h.0 (sym p), k.1))

pub IsDistinct-with :
    (e : ℕ) (xs ys : List ℕ)
    → IsDistinct (xs ++ ys)
    → NotIn e (xs ++ ys)
    → IsDistinct (xs ++ e ∷ ys)
IsDistinct-with e [] ys h k = (k, h)
IsDistinct-with e (x ∷ xs) ys h k =
    (NotIn-with x e xs ys (λ p. k.0 (sym p)) h.0, IsDistinct-with e xs ys h.1 k.1)

pub IsOutside-tail : (s : Slot) (x : ℕ) (xs : List ℕ) → IsOutside s (x ∷ xs) → IsOutside s xs
IsOutside-tail at_head x xs h = tt
IsOutside-tail (next_of e) x xs h = h.1

pub IsOutside-ne : (s : Slot) (x : ℕ) (xs : List ℕ) → IsOutside s (x ∷ xs) → s ≢ next_of x
IsOutside-ne at_head x xs h p = cc
IsOutside-ne (next_of e) x xs h p = h.0 (cc)

-- The slot behind some events is none in front of them.
pub end_slot-ne :
    (s : Slot) (x : ℕ) (xs : List ℕ) → IsOutside s (x ∷ xs) → s ≢ end_slot (next_of x) xs
end_slot-ne s x [] h = IsOutside-ne s x [] h
end_slot-ne s x (y ∷ ys) h = end_slot-ne s y ys (IsOutside-tail s x (y ∷ ys) h)

pub end_slot-append :
    (s : Slot) (xs ys : List ℕ) → end_slot s (xs ++ ys) ≡ end_slot (end_slot s xs) ys
end_slot-append s [] ys = refl
end_slot-append s (x ∷ xs) ys = end_slot-append (next_of x) xs ys

pub end_slot-IsOutside :
    (s : Slot) (xs ys : List ℕ)
    → IsOutside s (xs ++ ys)
    → IsDistinct (xs ++ ys)
    → IsOutside (end_slot s xs) ys
end_slot-IsOutside s [] ys h d = h
end_slot-IsOutside s (x ∷ xs) ys h d = end_slot-IsOutside (next_of x) xs ys d.0 d.1

-- An event that is not among them is not the one behind which they end.
pub end_slot-ne-next_of :
    (e : ℕ) (s : Slot) (xs : List ℕ) → s ≢ next_of e → NotIn e xs → end_slot s xs ≢ next_of e
end_slot-ne-next_of e s [] h k = h
end_slot-ne-next_of e s (x ∷ xs) h k = end_slot-ne-next_of e (next_of x) xs (λ p. k.0 (cc)) k.1

pub Chain-first :
    (l : EventLoop) (s : Slot) (xs ys : List ℕ)
    → Chain l s (xs ++ ys)
    → deref l (end_slot s xs) ≡ first ys
Chain-first l s [] [] c = c
Chain-first l s [] (y ∷ ys) c = c.0
Chain-first l s (x ∷ xs) ys c = Chain-first l (next_of x) xs ys c.2

-- The pointers of the events are the same in two loops.
abbrev pub Same : EventLoop → EventLoop → List ℕ → Type 0
Same l l' [] = Unit {0}
Same l l' (x ∷ xs) = (l'.next x ≡ l.next x) × (l'.prev x ≡ l.prev x) × Same l l' xs

-- A chain stays where its pointers stay.
pub Chain-same :
    (l l' : EventLoop) (s : Slot) (xs : List ℕ)
    → deref l' s ≡ deref l s
    → Same l l' xs
    → Chain l s xs
    → Chain l' s xs
Chain-same l l' s [] e same c = e ∙ c
Chain-same l l' s (x ∷ xs) e same c =
    (e ∙ c.0, same.1 ∙ c.1, Chain-same l l' (next_of x) xs same.0 same.2 c.2)

pub first-ne : (a : ℕ) (ys : List ℕ) → NotIn a ys → first ys ≢ some a
first-ne a [] n p = cc
first-ne a (b ∷ ys) n p = n.0 (cc)

pub IsOutside-left : (s : Slot) (xs ys : List ℕ) → IsOutside s (xs ++ ys) → IsOutside s xs
IsOutside-left at_head xs ys h = tt
IsOutside-left (next_of e) xs ys h = NotIn-left e xs ys h

pub IsOutside-middle :
    (s : Slot) (e : ℕ) (xs ys : List ℕ) → IsOutside s (xs ++ e ∷ ys) → s ≢ next_of e
IsOutside-middle at_head e xs ys h p = cc
IsOutside-middle (next_of x) e xs ys h p = NotIn-middle x e xs ys h (cc)

-- What stands in front of an event in the list, and what behind it.
pub Chain-behind :
    (l : EventLoop) (s : Slot) (xs : List ℕ) (e : ℕ) (ys : List ℕ)
    → Chain l s (xs ++ e ∷ ys)
    → l.next e ≡ first ys
Chain-behind l s [] e [] c = c.2
Chain-behind l s [] e (y ∷ ys) c = c.2.0
Chain-behind l s (x ∷ xs) e ys c = Chain-behind l (next_of x) xs e ys c.2

pub Chain-back :
    (l : EventLoop) (s : Slot) (xs : List ℕ) (e : ℕ) (ys : List ℕ)
    → Chain l s (xs ++ e ∷ ys)
    → l.prev e ≡ some (end_slot s xs)
Chain-back l s [] e ys c = c.1
Chain-back l s (x ∷ xs) e ys c = Chain-back l (next_of x) xs e ys c.2

Same-fields : (l l' : EventLoop) (xs : List ℕ) → l'.next ≡ l.next → l'.prev ≡ l.prev → Same l l' xs
Same-fields l l' [] e f = tt
Same-fields l l' (x ∷ xs) e f = (ap (λ g. g x) e, ap (λ g. g x) f, Same-fields l l' xs e f)

-- A chain knows of no other field.
pub Chain-fields :
    (l l' : EventLoop) (xs : List ℕ)
    → l'.head ≡ l.head
    → l'.next ≡ l.next
    → l'.prev ≡ l.prev
    → Chain l at_head xs
    → Chain l' at_head xs
Chain-fields l l' xs d e f c = Chain-same l l' at_head xs d (Same-fields l l' xs e f) c
