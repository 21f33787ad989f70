-- ===== src/Async/Event/Keeps.antt =====
-- What of the loop neither linking nor unlinking changes.
use forstio.Prelude.{ℕ, ◌≡◌, refl, Option, none, some}
use forstio.Async.Event.{
  Slot, at_head, next_of, EventLoop, deref, link, unlink, assign, set_prev_of, update,
}

pub record Keeps (l l' : EventLoop) : Type 0 where
  pub next_point : l'.next_insert_point ≡ l.next_insert_point
  pub later_point : l'.later_insert_point ≡ l.later_insert_point
  pub entered : l'.entered ≡ l.entered

all_kept : (l : EventLoop) → Keeps l l
all_kept l = record { next_point = refl; later_point = refl; entered = refl }

assign-Keeps : (t : Slot) (v : Option ℕ) (l : EventLoop) → Keeps l (assign t v l)
assign-Keeps at_head v l = record { next_point = refl; later_point = refl; entered = refl }
assign-Keeps (next_of e) v l = record { next_point = refl; later_point = refl; entered = refl }

set_prev_of-Keeps :
    (v : Option ℕ) (t : Slot) (l l' : EventLoop) → Keeps l l' → Keeps l (set_prev_of v t l')
set_prev_of-Keeps none t l l' k = k
set_prev_of-Keeps (some n) t l l' k = record {
  next_point = k.next_point;
  later_point = k.later_point;
  entered = k.entered;
}

pub link-Keeps : (e : ℕ) (t : Slot) (l : EventLoop) → Keeps l (link e t l)
unfolding link
link-Keeps e t l =
    let l₂ = record l { next = update l.next e (deref l t); prev = update l.prev e (some t) } in
    let l₃ = assign t (some e) l₂ in
    let k = assign-Keeps t (some e) l₂ in
    set_prev_of-Keeps (l₃.next e) (next_of e) l l₃
      (record { next_point = k.next_point; later_point = k.later_point; entered = k.entered })

pub unlink-Keeps : (e : ℕ) (t : Slot) (l : EventLoop) → Keeps l (unlink e t l)
unfolding unlink
unlink-Keeps e t l =
    let l₁ = assign t (l.next e) l in
    let k = set_prev_of-Keeps (l₁.next e) t l l₁ (assign-Keeps t (l.next e) l) in
    record { next_point = k.next_point; later_point = k.later_point; entered = k.entered }
