-- ===== src/Async/Conveyor/Pure.antt =====
-- A chain of `then` and `attach` as one function.
use forstio.Prelude.{
  ℕ, ◌≡◌, refl, sym, ap, ◌∙◌, true, Option, none, some, ◌>>=◌, bind_assoc, some-injective,
}
use forstio.Error.{Error, ErrorOr, error, value, critical_error}
use forstio.Async.Conveyor.{
  Outcome, returned, bad_alloc, thrown, Pipe, null_node, storage_node, convert_node, attach_node,
  Net, has_node,
}
use forstio.Async.Conveyor.Fetch.{get_storage, get_result, converted, outcome}

module _ {V : Type 0} where
  -- What the nodes of a chain make of what its storage returns.
  abbrev pub apply : Pipe V → ErrorOr V → ErrorOr V
  apply null_node r = r
  apply (storage_node i) r = r
  apply (convert_node f g p) r = converted f g (apply p r)
  apply (attach_node p) r = apply p r

  -- The storage at the end of a chain.
  abbrev pub end_of : Pipe V → Option ℕ
  end_of null_node = none
  end_of (storage_node i) = some i
  end_of (convert_node f g p) = end_of p
  end_of (attach_node p) = end_of p

  bind_return : (m : Option (ErrorOr V × Net V)) → (m >>= λ r. some (r.0, r.1)) ≡ m
  bind_return none = refl
  bind_return (some r) = refl

  pub end_of-has_node : (p : Pipe V) (k : ℕ) → end_of p ≡ some k → has_node p ≡ true
  end_of-has_node null_node k e = absurd (cc)
  end_of-has_node (storage_node i) k e = refl
  end_of-has_node (convert_node f g p) k e = refl
  end_of-has_node (attach_node p) k e = refl

  -- All error functions are `PropagateError`.
  abbrev pub IsPropagating : Pipe V → Type 0
  IsPropagating null_node = Unit {0}
  IsPropagating (storage_node i) = Unit {0}
  IsPropagating (convert_node f g p) = ((e : Error) → g e ≡ error e) × IsPropagating p
  IsPropagating (attach_node p) = IsPropagating p

  -- `getResult` of a chain that ends in a storage asks the storage once, and applies the functions
  -- of the chain to what that returns.
  pub get_result-apply :
      (p : Pipe V) (k : ℕ) (n : Net V)
      → end_of p ≡ some k
      → get_result p n ≡ (get_storage k (n.node k) n >>= λ r. some (apply p r.0, r.1))
  get_result-apply null_node k n e = absurd (cc)
  get_result-apply (storage_node i) k n e =
      let j : i ≡ k = some-injective e in
      ap (λ x. get_storage x (n.node x) n) j ∙ sym (bind_return (get_storage k (n.node k) n))
  get_result-apply (convert_node f g p) k n e =
      rw (end_of-has_node p k e, get_result-apply p k n e)
        (bind_assoc (get_storage k (n.node k) n) (λ r. some (apply p r.0, r.1))
          (λ r. some (converted f g r.0, r.1)))
  get_result-apply (attach_node p) k n e = rw (end_of-has_node p k e) (get_result-apply p k n e)

  -- Through a chain without error functions of its own, an error comes out as it went in.
  pub apply-error : (p : Pipe V) (e : Error) → IsPropagating p → apply p (error e) ≡ error e
  apply-error null_node e h = refl
  apply-error (storage_node i) e h = refl
  apply-error (convert_node f g p) e h = ap (converted f g) (apply-error p e h.1) ∙ h.0 e
  apply-error (attach_node p) e h = apply-error p e h

  -- `Flows p r r'`: what the storage at the end of the chain returns, `r`, comes out of it as `r'`. The
  -- function of `then` is called with a value, and gives what comes out, or an error if it throws; the
  -- error function is called with an error. What is attached changes nothing.
  pub data Flows : Pipe V → ErrorOr V → ErrorOr V → Type 0 where
    from_storage : (i : ℕ) (r : ErrorOr V) → Flows (storage_node i) r r
    attached : (p : Pipe V) (r r' : ErrorOr V) → Flows p r r' → Flows (attach_node p) r r'
    called :
        (f : V → Outcome V) (g : Error → ErrorOr V) (p : Pipe V) (r : ErrorOr V) (v : V)
        (r' : ErrorOr V)
        → Flows p r (value v)
        → f v ≡ returned r'
        → Flows (convert_node f g p) r r'
    out_of_memory :
        (f : V → Outcome V) (g : Error → ErrorOr V) (p : Pipe V) (r : ErrorOr V) (v : V)
        → Flows p r (value v)
        → f v ≡ bad_alloc
        → Flows (convert_node f g p) r (error (critical_error "Out of memory"))
    threw :
        (f : V → Outcome V) (g : Error → ErrorOr V) (p : Pipe V) (r : ErrorOr V) (v : V)
        → Flows p r (value v)
        → f v ≡ thrown
        → Flows (convert_node f g p) r (
            error (
              critical_error
                "Exception in chain occured. Return ErrorOr<T> if you want to handle errors which are recoverable"))
    handled :
        (f : V → Outcome V) (g : Error → ErrorOr V) (p : Pipe V) (r : ErrorOr V) (e : Error)
        → Flows p r (error e)
        → Flows (convert_node f g p) r (g e)

  value-Flows :
      (f : V → Outcome V) (g : Error → ErrorOr V) (p : Pipe V) (r : ErrorOr V) (v : V)
      (o : Outcome V)
      → f v ≡ o
      → Flows p r (value v)
      → Flows (convert_node f g p) r (outcome o)
  value-Flows f g p r v (returned r') e h = called f g p r v r' h e
  value-Flows f g p r v bad_alloc e h = out_of_memory f g p r v h e
  value-Flows f g p r v thrown e h = threw f g p r v h e

  convert-Flows :
      (f : V → Outcome V) (g : Error → ErrorOr V) (p : Pipe V) (r r' : ErrorOr V)
      → Flows p r r'
      → Flows (convert_node f g p) r (converted f g r')
  convert-Flows f g p r (value v) h = value-Flows f g p r v (f v) refl h
  convert-Flows f g p r (error e) h = handled f g p r e h

  apply-Flows : (p : Pipe V) (k : ℕ) (r : ErrorOr V) → end_of p ≡ some k → Flows p r (apply p r)
  apply-Flows null_node k r e = absurd (cc)
  apply-Flows (storage_node i) k r e = from_storage i r
  apply-Flows (convert_node f g p) k r e = convert-Flows f g p r (apply p r) (apply-Flows p k r e)
  apply-Flows (attach_node p) k r e = attached p r (apply p r) (apply-Flows p k r e)

  -- For what the storage does, `run` is what the chain does.
  abbrev pub FlowsThrough :
      Pipe V → Option (ErrorOr V × Net V) → Option (ErrorOr V × Net V) → Type 0
  FlowsThrough p none run = run ≡ none
  FlowsThrough p (some (r, n)) run = (r' : ErrorOr V) × Flows p r r' × (run ≡ some (r', n))

  through :
      (p : Pipe V) (k : ℕ) (q run : Option (ErrorOr V × Net V))
      → end_of p ≡ some k
      → run ≡ (q >>= λ r. some (apply p r.0, r.1))
      → FlowsThrough p q run
  through p k none run e h = h
  through p k (some (r, n)) run e h = (apply p r, apply-Flows p k r e, h)

  -- `getResult` of a chain that ends in a storage asks the storage once and changes nothing else. What
  -- the storage returns comes out as the rules of the chain say: each function of `then` is called with
  -- the value that reaches it, and an exception becomes a critical error; each error function is called
  -- with the error that reaches it. Where the storage faults, the chain does.
  pub get_result-FlowsThrough :
      (p : Pipe V) (k : ℕ) (n : Net V)
      → end_of p ≡ some k
      → FlowsThrough p (get_storage k (n.node k) n) (get_result p n)
  get_result-FlowsThrough p k n e =
      through p k (get_storage k (n.node k) n) (get_result p n) e (get_result-apply p k n e)
