-- ===== src/Message/Access/Union.antt =====
-- What `get<i>` and `init<i>` do to a union, also where a `Reader` calls them.
use forstio.Prelude.{ℕ, ◌≡◌, refl, ap, Bool, true, false, Option, some, if◌then◌else◌, ◌==◌, arith}
use forstio.Message.Schema.{Schema, union, Choices}
use forstio.Message.Value.{Message, Alternatives, fresh, index}
use forstio.Message.Keys.{InUnion, position}
use forstio.Message.Access.{hold, get_held, select, Place, of_union, load, union_get, union_index}
use forstio.Message.Access.Laws.{load-store, get_held-hold, index-hold}

equal_of : (i j : ℕ) → (i == j) ≡ true → i ≡ j
equal_of i j e = ground arith

index-if :
    {cs : Choices} {s : Schema} (i : InUnion cs s) (a : Alternatives cs) (same : Bool)
    → (same ≡ true → index cs a ≡ position i)
    → index cs (if same then a else hold i (fresh s)) ≡ position i
index-if i a true h = h refl
index-if {s = s} i a false h = index-hold i (fresh s)

held-if :
    {cs : Choices} {s : Schema} (i : InUnion cs s) (a : Alternatives cs) (same : Bool)
    → get_held i (if same then a else hold i (fresh s))
      ≡ (if same then get_held i a else some (fresh s))
held-if i a true = refl
held-if {s = s} i a false = get_held-hold i (fresh s)

-- `run` has selected alternative `i` of a union that held `a`.
pub record Selected {r s : Schema} {cs : Choices} (p : Place r (union cs)) (i : InUnion cs s)
    (a : Alternatives cs) (run : Option (Place r s × Message r)) : Type 0 where
  pub after : Message r
  pub returned : run ≡ some (of_union p i, after)
  pub selected : union_index p after ≡ some (position i)
  pub found :
      load (of_union p i) after
      ≡ (if index cs a == position i then get_held i a else some (fresh s))

-- Getting alternative `i` of a union that can be reached succeeds, and `i` is the alternative that
-- the union holds afterwards: what it held of it before, or, where it held another alternative, a
-- fresh message in the place of what is lost.
pub union_get-Selected :
    {r s : Schema} {cs : Choices} (p : Place r (union cs)) (i : InUnion cs s) (x : Message r)
    (a : Alternatives cs)
    → load p x ≡ some a
    → Selected p i a (union_get p i x)
unfolding union_get union_index select load
union_get-Selected {cs = cs} p i x a e =
    let h = load-store p (select i a) x a e in
    record {
      after = h.after;
      returned = rw (e, h.returned) refl;
      selected =
          rw h.found (
            ap some (index-if i a (index cs a == position i) (equal_of (index cs a) (position i))));
      found = rw h.found (held-if i a (index cs a == position i));
    }
