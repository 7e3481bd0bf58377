-- ===== src/Tape/CallInto.antt =====
-- ssa/tape.rs: `InterpretedFn::call_into`, which writes what `call` returns, and the parameters.
use mathlib.Core.List.{append_assoc}
use fastsim.Common.{
  ℕ, suc, ◌≡◌, refl, sym, ap, ◌∙◌, true, false, List, [], ◌∷◌, ◌++◌, Option, none, some, ◌>>=◌,
  >>=-eq-some, some-inj, none≢some, inl, inr, Bool-cases, length, length-push, length-append,
  get_elem?, set, ltb, lt→ltb, if◌then◌else◌, arith,
}
use fastsim.F64.{F64}
use fastsim.Tape.Build.{Tape}
use fastsim.Tape.Eval.{check_inputs, eval, read_outputs, call}

module _ (R : F64) where
  -- `for (i, &id) in self.tape.outputs.iter().enumerate()`, from index `i`
  unfoldable pub write_outputs : List R.F → List ℕ → ℕ → List R.F → Option (List R.F)
  write_outputs w [] i out = some out
  write_outputs w (o ∷ outputs) i out = elim (ltb i (length out)) [
    | true ↦ get_elem? w o >>= λ x. write_outputs w outputs (suc i) (set out i x)
    | false ↦ write_outputs w outputs (suc i) out
  ]

  -- The output buffer after the call.
  unfoldable pub call_into :
      Tape R → List R.F → List (List R.F) → List R.F → List R.F → Option (List R.F)
  unfolding write_outputs
  call_into t w inputs params out =
      if check_inputs R t inputs
      then (do w' ← eval R t inputs params w; write_outputs w' t.outputs 0 out)
      else none

  unfoldable pub set_param : List R.F → ℕ → R.F → List R.F
  set_param params index value =
      if ltb index (length params) then set params index value else params

  set_at :
      (pre : List R.F) (x r : R.F) (rest : List R.F)
      → set (pre ++ r ∷ rest) (length pre) x ≡ pre ++ x ∷ rest
  set_at [] x r rest = refl
  set_at (p ∷ pre) x r rest = ap (λ l. p ∷ l) (set_at pre x r rest)

  write_outputs_lem :
      (w : List R.F) (outputs : List ℕ) (pre rest ys : List R.F)
      → length rest ≡ length outputs
      → read_outputs R w outputs ≡ some ys
      → write_outputs w outputs (length pre) (pre ++ rest) ≡ some (pre ++ ys)
  unfolding write_outputs read_outputs
  write_outputs_lem w [] pre [] ys h e = ap (λ l. some (pre ++ l)) (some-inj e)
  write_outputs_lem w [] pre (r ∷ rest) ys h e = absurd (omega (arith, h))
  write_outputs_lem w (o ∷ outputs) pre [] ys h e = absurd (omega (arith, h))
  write_outputs_lem w (o ∷ outputs) pre (r ∷ rest) ys h e =
      let (x, p, e') =
        >>=-eq-some (get_elem? w o) (λ x. read_outputs R w outputs >>= λ xs. some (x ∷ xs)) e in
      let (xs, q, e'') = >>=-eq-some (read_outputs R w outputs) (λ xs. some (x ∷ xs)) e' in
      let room =
        lt→ltb (length pre) (length (pre ++ r ∷ rest))
          (omega (arith, length-append pre (r ∷ rest))) in
      let pushed = append_assoc pre (x ∷ []) in
      ap
        (λ b. elim b [
          | true ↦ get_elem? w o >>= λ y.
              write_outputs w outputs (suc (length pre)) (set (pre ++ r ∷ rest) (length pre) y)
          | false ↦ write_outputs w outputs (suc (length pre)) (pre ++ r ∷ rest)
        ])
        room
      ∙ ap
          (λ m. m >>= λ y.
            write_outputs w outputs (suc (length pre)) (set (pre ++ r ∷ rest) (length pre) y))
          p
      ∙ ap (write_outputs w outputs (suc (length pre))) (set_at pre x r rest ∙ sym (pushed rest))
      ∙ ap (λ n. write_outputs w outputs n ((pre ++ x ∷ []) ++ rest)) (sym (length-push pre x))
      ∙ write_outputs_lem w outputs (pre ++ x ∷ []) rest xs (omega (arith, h)) q
      ∙ ap some (pushed xs ∙ ap (λ l. pre ++ l) (some-inj e''))

  -- Where `call` returns a result, `call_into` with a buffer of as many elements as the tape has
  -- outputs leaves the same result in the buffer, whatever the buffer held.
  pub call_into-call :
      (t : Tape R) (w : List R.F) (inputs : List (List R.F)) (params out ys : List R.F)
      → length out ≡ length t.outputs
      → call R t w inputs params ≡ some ys
      → call_into t w inputs params out ≡ some ys
  unfolding call_into call
  call_into-call t w inputs params out ys h e = elim (Bool-cases (check_inputs R t inputs)) [
    | inl ok ↦
        let (w', p, e') =
          >>=-eq-some (eval R t inputs params w) (λ w'. read_outputs R w' t.outputs) (rw ok at e) in
        rw (ok, p) (write_outputs_lem w' t.outputs [] out ys h e')
    | inr bad ↦ absurd (none≢some (rw bad at e))
  ]
