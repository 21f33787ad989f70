-- ===== src/Codec/Steps.antt =====
-- `if(error.failed()){ return error; }`, for encoders and for decoders.
use forstio.Prelude.{Option, some, List, [], ◌∷◌, if◌then◌else◌, ◌>>=◌}
use forstio.Error.{Error, no_error, failed}

-- An encoder goes on where its first part has not failed.
abbrev pub then_encode :
    {S : Type 0} → Option (Error × S) → (S → Option (Error × S)) → Option (Error × S)
then_encode run k = do r ← run; if failed r.0 then some r else k r.1

-- A decoder goes on where its first part has not failed; `keep` is what the target holds then.
abbrev pub then_decode :
    {S A B : Type 0}
    → Option (Error × A × S)
    → (A → B)
    → (A → S → Option (Error × B × S))
    → Option (Error × B × S)
then_decode run keep k = do r ← run; if failed r.0 then some (r.0, keep r.1, r.2) else k r.1 r.2

-- `for (size_t i = 0; i < array_length; ++i)` over the elements of an array.
unfoldable pub encode_elements :
    {S A : Type 0} → (A → S → Option (Error × S)) → List A → S → Option (Error × S)
encode_elements f [] s = some (no_error, s)
encode_elements f (x ∷ xs) s = then_encode (f x s) (encode_elements f xs)

unfoldable pub decode_elements :
    {S A : Type 0} → (A → S → Option (Error × A × S)) → List A → S → Option (Error × List A × S)
decode_elements f [] s = some (no_error, [], s)
decode_elements f (x ∷ xs) s =
    then_decode (f x s) (λ x'. x' ∷ xs)
      (λ x' s'.
        then_decode (decode_elements f xs s') (λ xs'. x' ∷ xs')
          (λ xs' s''. some (no_error, x' ∷ xs', s'')))
