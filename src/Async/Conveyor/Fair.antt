-- ===== src/Async/Conveyor/Fair.antt =====
-- Which appendage a merge node serves.
use forstio.Prelude.{
  ℕ, suc, min, ◌≡◌, refl, sym, ap, ap₂, ◌∙◌, Option, none, some, List, [], ◌∷◌, ◌++◌, length, take,
  drop, ◌>>=◌,
}
use forstio.Error.{ErrorOr, error, critical_error}
use forstio.Async.Conveyor.{Node, merge_node, Net, held}
use forstio.Async.Conveyor.Fetch.{scan, scan_both, merged, get_storage}

-- The appendages, from that on whose turn it is.
abbrev pub in_turn : ℕ → List ℕ → List ℕ
in_turn k us = drop (min (length us) k) us ++ take (min (length us) k) us

module _ {V : Type 0} where
  -- What the first of the appendages that holds something holds.
  abbrev pub first_held : (ℕ → Node V) → List ℕ → Option (ErrorOr V)
  first_held node [] = none
  first_held node (a ∷ us) = elim (held (node a)) [ some v ↦ some v | none ↦ first_held node us ]

  abbrev pub or_none : Option (ErrorOr V) → ErrorOr V
  or_none none = error (critical_error "No value in Merge Appendages")
  or_none (some v) = v

  abbrev found : Option (ℕ × ℕ × ErrorOr V) → Option (ErrorOr V)
  found none = none
  found (some (k, a, v)) = some v

  abbrev or_else : Option (ErrorOr V) → Option (ErrorOr V) → Option (ErrorOr V)
  or_else none w = w
  or_else (some v) w = some v

  scan_step :
      (v : Option (ErrorOr V)) (i a : ℕ) (r : Option (ℕ × ℕ × ErrorOr V)) (w : Option (ErrorOr V))
      → found r ≡ w
      → found (elim v [ some u ↦ some (i, a, u) | none ↦ r ])
        ≡ (elim v [ some u ↦ some u | none ↦ w ])
  scan_step none i a r w e = e
  scan_step (some v) i a r w e = refl

  scan-first_held :
      (node : ℕ → Node V) (i : ℕ) (us : List ℕ) → found (scan node i us) ≡ first_held node us
  scan-first_held node i [] = refl
  scan-first_held node i (a ∷ us) =
      scan_step (held (node a)) i a (scan node (suc i) us) (first_held node us)
        (scan-first_held node (suc i) us)

  held_step :
      (v : Option (ErrorOr V)) (w w' z : Option (ErrorOr V))
      → w ≡ or_else w' z
      → (elim v [ some u ↦ some u | none ↦ w ]) ≡ or_else (elim v [ some u ↦ some u | none ↦ w' ]) z
  held_step none w w' z e = e
  held_step (some v) w w' z e = refl

  first_held-append :
      (node : ℕ → Node V) (xs ys : List ℕ)
      → first_held node (xs ++ ys) ≡ or_else (first_held node xs) (first_held node ys)
  first_held-append node [] ys = refl
  first_held-append node (a ∷ xs) ys =
      held_step (held (node a)) (first_held node (xs ++ ys)) (first_held node xs)
        (first_held node ys) (first_held-append node xs ys)

  both_step :
      (r s : Option (ℕ × ℕ × ErrorOr V))
      → found (elim r [ some t ↦ some t | none ↦ s ]) ≡ or_else (found r) (found s)
  both_step none s = refl
  both_step (some t) s = refl

  scan_both-first_held :
      (node : ℕ → Node V) (us : List ℕ) (k : ℕ)
      → found (scan_both node us k) ≡ first_held node (drop k us ++ take k us)
  scan_both-first_held node us k =
      both_step (scan node k (drop k us)) (scan node 0 (take k us))
      ∙ ap₂ or_else (scan-first_held node k (drop k us)) (scan-first_held node 0 (take k us))
      ∙ sym (first_held-append node (drop k us) (take k us))

  merged-found :
      (i : ℕ) (us : List ℕ) (k : ℕ) (n : Net V) (r : Option (ℕ × ℕ × ErrorOr V))
      → (merged i us k n r).0 ≡ or_none (found r)
  merged-found i us k n none = refl
  merged-found i us k n (some (j, a, v)) = refl

  -- `getResult` of a merge node returns what the first of its appendages holds that holds something,
  -- in turn from the next appendage on and round to the first, or else an error.
  pub get_storage-merge_node :
      (i : ℕ) (us : List ℕ) (k : ℕ) (n : Net V)
      → (get_storage i (merge_node us k) n >>= λ r. some r.0)
        ≡ some (or_none (first_held n.node (in_turn k us)))
  get_storage-merge_node i us k n =
      let k' = min (length us) k in
      ap some (
        merged-found i us k' n (scan_both n.node us k')
        ∙ ap or_none (scan_both-first_held n.node us k'))
