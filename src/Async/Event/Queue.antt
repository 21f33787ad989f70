-- ===== src/Async/Event/Queue.antt =====
-- The specification of the list of armed events: three queues, one behind the other. `armNext` puts
-- an event behind the first, `armLater` behind the second, `armLast` in front of the third. A turn
-- takes the first event of all and closes the first queue.
use forstio.Prelude.{ℕ, Option, none, some, List, [], ◌∷◌, ◌++◌, if◌then◌else◌, ◌==◌}

pub record Queue : Type 0 where
  pub soon : List ℕ
  pub later : List ℕ
  pub last : List ℕ

abbrev pub empty : Queue
empty = record { soon = []; later = []; last = [] }

-- The events in the order in which they fire.
abbrev pub events : Queue → List ℕ
events q = q.soon ++ (q.later ++ q.last)

abbrev pub put_next : ℕ → Queue → Queue
put_next e q = record q { soon = q.soon ++ e ∷ [] }

abbrev pub put_later : ℕ → Queue → Queue
put_later e q = record q { later = q.later ++ e ∷ [] }

abbrev pub put_last : ℕ → Queue → Queue
put_last e q = record q { last = e ∷ q.last }

abbrev pub take_from : List ℕ → List ℕ → List ℕ → Option (ℕ × Queue)
take_from (e ∷ xs) ys zs = some (e, record { soon = []; later = xs ++ ys; last = zs })
take_from [] (e ∷ ys) zs = some (e, record { soon = []; later = ys; last = zs })
take_from [] [] (e ∷ zs) = some (e, record { soon = []; later = []; last = zs })
take_from [] [] [] = none

abbrev pub take : Queue → Option (ℕ × Queue)
take q = take_from q.soon q.later q.last

abbrev pub remove : ℕ → List ℕ → List ℕ
remove e [] = []
remove e (x ∷ xs) = let rest = remove e xs in if e == x then rest else x ∷ rest

-- Disarming takes an event out of the queue in which it is.
abbrev pub without : ℕ → Queue → Queue
without e q = record { soon = remove e q.soon; later = remove e q.later; last = remove e q.last }
