-- ===== src/Async/Event.antt =====
-- `Event` and the list of armed events in `EventLoop`, source/forstio/async.h and
-- source/forstio/async.cpp. Events are numbers. The list is intrusive: an `Event **` points either to
-- the head of the loop or to the `next` of an event. There is one loop, so the loop of each event
-- is it.
pub mod Chain
pub mod Link
pub mod Insert
pub mod Remove
pub mod Queue
pub mod Holds
pub mod Keeps
pub mod Between
pub mod Arm
pub mod Take
pub mod Turn
pub mod Disarm
pub mod Lost
use forstio.Prelude.{
  ℕ, Bool, true, false, Option, none, some, if◌then◌else◌, ◌>>=◌, ◌>>◌, assert, ◌==◌,
}

-- `Event **`
pub data Slot : Type 0 where
  at_head : Slot
  next_of : ℕ → Slot

-- `EventLoop`, with the `prev` and `next` of all events. `entered` tells that `local_loop` is this
-- loop.
pub record EventLoop : Type 0 where
  pub head : Option ℕ
  pub next : ℕ → Option ℕ
  pub prev : ℕ → Option Slot
  pub tail : Slot
  pub next_insert_point : Slot
  pub later_insert_point : Slot
  pub is_runnable : Bool
  pub entered : Bool

-- The member initialisers of `EventLoop` and `Event`.
abbrev pub fresh_loop : EventLoop
fresh_loop = record {
  head = none;
  next = λ e. none;
  prev = λ e. none;
  tail = at_head;
  next_insert_point = at_head;
  later_insert_point = at_head;
  is_runnable = false;
  entered = false;
}

-- Two pointers compared.
abbrev pub slot_eq : Slot → Slot → Bool
slot_eq at_head at_head = true
slot_eq at_head (next_of e) = false
slot_eq (next_of e) at_head = false
slot_eq (next_of e) (next_of e') = e == e'

abbrev pub update : {A : Type 0} → (ℕ → A) → ℕ → A → ℕ → A
update f i v j = if j == i then v else f j

-- `*slot`
abbrev pub deref : EventLoop → Slot → Option ℕ
deref l at_head = l.head
deref l (next_of e) = l.next e

-- `*slot = event`
abbrev pub assign : Slot → Option ℕ → EventLoop → EventLoop
assign at_head v l = record l { head = v }
assign (next_of e) v l = record l { next = update l.next e v }

abbrev pub set_prev : ℕ → Option Slot → EventLoop → EventLoop
set_prev e v l = record l { prev = update l.prev e v }

-- `if(event){ event->prev = slot; }`
abbrev pub set_prev_of : Option ℕ → Slot → EventLoop → EventLoop
set_prev_of none t l = l
set_prev_of (some n) t l = set_prev n (some t) l

-- The part that `armNext`, `armLater` and `armLast` share: the event goes between the slot `t` and
-- what it points to.
unfoldable pub link : ℕ → Slot → EventLoop → EventLoop
link e t l =
    let l₁ = record l { next = update l.next e (deref l t) } in
    let l₂ = set_prev e (some t) l₁ in
    let l₃ = assign t (some e) l₂ in set_prev_of (l₃.next e) (next_of e) l₃

-- `prev != nullptr`
abbrev pub has_prev : Option Slot → Bool
has_prev none = false
has_prev (some t) = true

-- `Event::isArmed`
abbrev pub is_armed : ℕ → EventLoop → Bool
is_armed e l = has_prev (l.prev e)

-- `Event::armNext`
unfoldable pub arm_next : ℕ → EventLoop → Option EventLoop
arm_next e l = do
  assert l.entered
  some (
      if is_armed e l
      then l
      else let t = l.next_insert_point in
        record (link e t l) {
          next_insert_point = next_of e;
          later_insert_point =
              if slot_eq l.later_insert_point t then next_of e else l.later_insert_point;
          tail = if slot_eq l.tail t then next_of e else l.tail;
          is_runnable = true;
        })

-- `Event::armLater`
unfoldable pub arm_later : ℕ → EventLoop → Option EventLoop
arm_later e l = do
  assert l.entered
  some (
      if is_armed e l
      then l
      else let t = l.later_insert_point in
        record (link e t l) {
          later_insert_point = next_of e;
          tail = if slot_eq l.tail t then next_of e else l.tail;
          is_runnable = true;
        })

-- `Event::armLast`
unfoldable pub arm_last : ℕ → EventLoop → Option EventLoop
arm_last e l = do
  assert l.entered
  some (
      if is_armed e l
      then l
      else let t = l.later_insert_point in
        record (link e t l) {
          tail = if slot_eq l.tail t then next_of e else l.tail;
          is_runnable = true;
        })

-- What `disarm` and `turn` do to take an event out: the slot `t` in front of it points to the event
-- behind it.
unfoldable pub unlink : ℕ → Slot → EventLoop → EventLoop
unlink e t l =
    let l₁ = assign t (l.next e) l in
    let l₂ = set_prev_of (l₁.next e) t l₁ in
    record l₂ { prev = update l₂.prev e none; next = update l₂.next e none }

-- `Event::disarm`, for the `prev` of the event.
abbrev pub disarm_from : Option Slot → ℕ → EventLoop → EventLoop
disarm_from none e l = l
disarm_from (some t) e l = record (unlink e t l) {
  tail = if slot_eq l.tail (next_of e) then t else l.tail;
  next_insert_point = if slot_eq l.next_insert_point (next_of e) then t else l.next_insert_point;
}

-- `Event::disarm`
unfoldable pub disarm : ℕ → EventLoop → EventLoop
disarm e l = disarm_from (l.prev e) e l

-- `EventLoop::turn` up to the call of `fire`, for the event at the head.
abbrev pub head_taken : ℕ → EventLoop → EventLoop
head_taken e l = record (unlink e at_head l) {
  next_insert_point = at_head;
  later_insert_point =
      if slot_eq l.later_insert_point (next_of e) then at_head else l.later_insert_point;
  tail = if slot_eq l.tail (next_of e) then at_head else l.tail;
}

abbrev pub take_event : Option ℕ → EventLoop → Option (ℕ × EventLoop)
take_event none l = none
take_event (some e) l = some (e, head_taken e l)

-- `EventLoop::turn` up to the call of `fire`: the event that is to fire, `none` where there is none.
unfoldable pub take_head : EventLoop → Option (ℕ × EventLoop)
take_head l = take_event l.head l
