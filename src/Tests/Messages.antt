-- ===== src/Tests/Messages.antt =====
-- The theorems on messages at the struct of the codec's tests.
use text.Mathlib.Text as Text
use mathlib.Core.Path.{subst}
use forstio.Prelude.{
  some-injective, zero, suc, ◌≡◌, refl, some, String, List, [], ◌∷◌, inl, inr, arith, false,
}
use forstio.Message.Schema.{primitive, array, union, last, choice, unsigned}
use forstio.Message.Value.{Message, index, fresh}
use forstio.Message.Keys.{InStruct, InUnion, position, key_index, key_index_first, Before}
use forstio.Message.Access.{
  Place, root, of_struct, of_union, load, store, union_get, get_member, put_member, select, hold,
}
use forstio.Message.Access.Walk.{walk, build_number, ReadsBack, read_number-build_number}
use forstio.Message.Access.Union.{Selected, union_get-Selected}
use forstio.Stream.Defs.{w1}
use forstio.Tests.Codecs.{person, ann}

abbrev names : List String
names = "id" ∷ "name" ∷ "more" ∷ "name" ∷ []

Before-name : Before "name" names 1
Before-name zero k h e = subst (λ c. Text.◌==◌ "name" c ≡ false) (some-injective e) refl
Before-name (suc j) k h e = absurd (omega arith)

key_index_first_example : key_index "name" names ≡ some 1
key_index_first_example = key_index_first "name" names 1 "name" refl refl Before-name

-- the union of the person
abbrev more :
    Place person
      (union (choice (primitive unsigned w1) "age" (last (array (primitive unsigned w1)) "tags")))
more = of_struct root (InStruct.next (InStruct.next InStruct.first))

load-more : load more ann ≡ some (inr (1 ∷ 2 ∷ []))
unfolding load get_member
load-more = refl

-- The `age` of a person whose union holds `tags`, which are thrown away.
abbrev age : Place person (primitive unsigned w1)
age = of_union more InUnion.first

abbrev young : Message person
young = (513, (97 ∷ 110 ∷ 110 ∷ [], (inl 0, tt)))

walk-age : walk age ann ≡ some young
unfolding walk union_get load store select hold get_member put_member index position fresh
walk-age = refl

read_number-build_number_example : ReadsBack age 9 (build_number age 9 ann)
read_number-build_number_example = read_number-build_number age 9 ann young walk-age

union_get-Selected_example :
    Selected more InUnion.first (inr (1 ∷ 2 ∷ [])) (union_get more InUnion.first ann)
union_get-Selected_example = union_get-Selected more InUnion.first ann (inr (1 ∷ 2 ∷ [])) load-more
