-- ===== src/Message/Keys.antt =====
-- The helpers of source/forstio/message_container.h that pick a member of a parameter pack:
-- `MessageParameterPackType` by its number, `MessageParameterKeyPackIndex` by its name.
use text.Mathlib.Text as Text
use forstio.Prelude.{
  ℕ, zero, suc, ◌<◌, ◌≡◌, refl, ap, ◌∙◌, lt→ltb, true, false, Option, none, some, String, List, [],
  ◌∷◌, length, if◌then◌else◌, ltb, arith, get_elem?,
}
use forstio.Message.Schema.{Schema, Schemas, cons, Members, end, member, Choices, last, choice}

-- The number of a member and the type that it has: the parameter pack from the front.
pub data InStruct : Members → Schema → Type 0 where
  first : {t : Schema} {k : String} {ts : Members} → InStruct (member t k ts) t
  next : {s t : Schema} {k : String} {ts : Members} → InStruct ts s → InStruct (member t k ts) s

pub data InUnion : Choices → Schema → Type 0 where
  only : {t : Schema} {k : String} → InUnion (last t k) t
  first : {t : Schema} {k : String} {cs : Choices} → InUnion (choice t k cs) t
  next : {s t : Schema} {k : String} {cs : Choices} → InUnion cs s → InUnion (choice t k cs) s

pub data InTuple : Schemas → Schema → Type 0 where
  first : {t : Schema} {ts : Schemas} → InTuple (cons t ts) t
  next : {s t : Schema} {ts : Schemas} → InTuple ts s → InTuple (cons t ts) s

unfoldable pub position : {cs : Choices} {s : Schema} → InUnion cs s → ℕ
position only = 0
position InUnion.first = 0
position (InUnion.next i) = suc (position i)

unfoldable pub member_keys : Members → List String
member_keys end = []
member_keys (member t k ts) = k ∷ member_keys ts

unfoldable pub choice_keys : Choices → List String
choice_keys (last t k) = k ∷ []
choice_keys (choice t k cs) = k ∷ choice_keys cs

-- `MessageParameterKeyPackIndexHelper`: the index of the first match, or the number of keys.
unfoldable pub key_index_helper : String → List String → ℕ
key_index_helper v [] = 0
key_index_helper v (k ∷ ks) = if Text.◌==◌ v k then 0 else suc (key_index_helper v ks)

-- `MessageParameterKeyPackIndex`: `none` where its `static_assert` stops the compilation.
unfoldable pub key_index : String → List String → Option ℕ
key_index v ks =
    if ltb (key_index_helper v ks) (length ks) then some (key_index_helper v ks) else none

-- No key before the first match equals it.
abbrev pub Before : String → List String → ℕ → Type 0
Before v ks i = (j : ℕ) (k : String) → j < i → get_elem? ks j ≡ some k → Text.◌==◌ v k ≡ false

helper_first :
    (v : String) (ks : List String) (i : ℕ) (k : String)
    → get_elem? ks i ≡ some k
    → Text.◌==◌ v k ≡ true
    → Before v ks i
    → (key_index_helper v ks ≡ i) × (i < length ks)
unfolding key_index_helper
helper_first v [] i k e m b = absurd cc
helper_first v (x ∷ xs) zero k e m b =
    let same : Text.◌==◌ v x ≡ true = ap (λ o. Text.◌==◌ v (or_else x o)) e ∙ m in
    (rw same refl, omega arith)
  where
    or_else : String → Option String → String
    or_else d none = d
    or_else d (some a) = a
helper_first v (x ∷ xs) (suc i) k e m b =
    let l = helper_first v xs i k e m (λ j c h. b (suc j) c (omega arith)) in
    (rw (b 0 x (omega arith) refl) (ap suc l.0), omega (arith, l.1))

-- The first member that has the name is found: the key at `i` is the name and no key before it is.
pub key_index_first :
    (v : String) (ks : List String) (i : ℕ) (k : String)
    → get_elem? ks i ≡ some k
    → Text.◌==◌ v k ≡ true
    → Before v ks i
    → key_index v ks ≡ some i
unfolding key_index
key_index_first v ks i k e m b =
    let l = helper_first v ks i k e m b in rw (l.0, lt→ltb i (length ks) l.1) refl
