-- ===== src/Async/Event/Link.antt =====
-- What `link` changes: the slot, the event, and the `prev` of the event behind.
use forstio.Prelude.{ℕ, ◌≡◌, ◌≢◌, refl, sym, ap, ◌∙◌, Option, none, some, arith}
use forstio.Async.Event.{
  Slot, at_head, next_of, EventLoop, deref, update, link, assign, set_prev_of,
}

-- `e` stands between the slot `t` and `b` in `l'`, and all else is as in `l`.
pub record IsLinked (l l' : EventLoop) (e : ℕ) (t : Slot) : Type 0 where
  pub at : deref l' t ≡ some e
  pub behind : l'.next e ≡ deref l t
  pub slots : (s : Slot) → s ≢ t → s ≢ next_of e → deref l' s ≡ deref l s
  pub back : l'.prev e ≡ some t
  pub back_behind : (b : ℕ) → e ≢ b → deref l t ≡ some b → l'.prev b ≡ some (next_of e)
  pub others : (x : ℕ) → x ≢ e → deref l t ≢ some x → l'.prev x ≡ l.prev x

pub update_at : {A : Type 0} (f : ℕ → A) (i : ℕ) (v : A) → update f i v i ≡ v
update_at f i v = ground arith

pub update-ne : {A : Type 0} (f : ℕ → A) (i : ℕ) (v : A) (j : ℕ) → j ≢ i → update f i v j ≡ f j
update-ne f i v j h = ground arith

pub deref-assign : (t : Slot) (v : Option ℕ) (l : EventLoop) → deref (assign t v l) t ≡ v
deref-assign at_head v l = refl
deref-assign (next_of e) v l = update_at l.next e v

pub deref-assign-ne :
    (t : Slot) (v : Option ℕ) (l : EventLoop) (s : Slot)
    → s ≢ t
    → deref (assign t v l) s ≡ deref l s
deref-assign-ne at_head v l at_head h = absurd (h refl)
deref-assign-ne at_head v l (next_of e) h = refl
deref-assign-ne (next_of e) v l at_head h = refl
deref-assign-ne (next_of e) v l (next_of j) h = update-ne l.next e v j (λ p. h (ap next_of p))

pub prev-assign :
    (t : Slot) (v : Option ℕ) (l : EventLoop) (x : ℕ) → (assign t v l).prev x ≡ l.prev x
prev-assign at_head v l x = refl
prev-assign (next_of e) v l x = refl

pub deref-set_prev_of :
    (v : Option ℕ) (t : Slot) (l : EventLoop) (s : Slot) → deref (set_prev_of v t l) s ≡ deref l s
deref-set_prev_of none t l s = refl
deref-set_prev_of (some n) t l at_head = refl
deref-set_prev_of (some n) t l (next_of e) = refl

pub prev-set_prev_of :
    (v : Option ℕ) (t : Slot) (l : EventLoop) (b : ℕ)
    → v ≡ some b
    → (set_prev_of v t l).prev b ≡ some t
prev-set_prev_of none t l b e = absurd (cc)
prev-set_prev_of (some n) t l b e = ground arith

pub prev-set_prev_of-ne :
    (v : Option ℕ) (t : Slot) (l : EventLoop) (x : ℕ)
    → v ≢ some x
    → (set_prev_of v t l).prev x ≡ l.prev x
prev-set_prev_of-ne none t l x h = refl
prev-set_prev_of-ne (some n) t l x h = update-ne l.prev n (some t) x (λ p. h (ap some (sym p)))

module _ (e : ℕ) (t : Slot) (l : EventLoop) (h : t ≢ next_of e) (k : deref l t ≢ some e) where
  abbrev before : EventLoop
  before = record l { next = update l.next e (deref l t); prev = update l.prev e (some t) }

  abbrev placed : EventLoop
  placed = assign t (some e) before

  deref-before : (s : Slot) → s ≢ next_of e → deref before s ≡ deref l s
  deref-before at_head n = refl
  deref-before (next_of j) n = update-ne l.next e (deref l t) j (λ p. n (ap next_of p))

  behind_lem : placed.next e ≡ deref l t
  behind_lem =
      deref-assign-ne t (some e) before (next_of e) (λ p. h (sym p))
      ∙ update_at l.next e (deref l t)

  pub link-IsLinked : IsLinked l (link e t l) e t
  unfolding link
  link-IsLinked = record {
    at = deref-set_prev_of (placed.next e) (next_of e) placed t ∙ deref-assign t (some e) before;
    behind = deref-set_prev_of (placed.next e) (next_of e) placed (next_of e) ∙ behind_lem;
    slots = λ s n m.
        deref-set_prev_of (placed.next e) (next_of e) placed s
        ∙ deref-assign-ne t (some e) before s n
        ∙ deref-before s m;
    back =
        prev-set_prev_of-ne (placed.next e) (next_of e) placed e (λ p. k (sym behind_lem ∙ p))
        ∙ prev-assign t (some e) before e
        ∙ update_at l.prev e (some t);
    back_behind = λ b n p. prev-set_prev_of (placed.next e) (next_of e) placed b (behind_lem ∙ p);
    others = λ x n m.
        prev-set_prev_of-ne (placed.next e) (next_of e) placed x (λ p. m (sym behind_lem ∙ p))
        ∙ prev-assign t (some e) before x
        ∙ update-ne l.prev e (some t) x n;
  }
