-- ===== src/Tape/Eval.antt =====
-- ssa/tape.rs: `Tape::eval` and the calls of `InterpretedFn`.
--
-- The source reads and writes with `get_unchecked`: an access out of bounds, and an opcode that is
-- not in the table, is undefined behaviour, and so is not a result: `none`. The scratch buffer is
-- the list that is gathered, under the test that it has room.
use mathlib.Core.Option
use fastsim.Common.{
  ℕ, zero, suc, ◌+◌, ◌*◌, Bool, true, false, ◌&&◌, ◌||◌, List, [], ◌∷◌, Option, none, some, ◌>>=◌,
  length, get_elem?, set, ltb, leb, ◌==◌, if◌then◌else◌,
}
use fastsim.F64.{F64, zero_f, one_f, nan}
use fastsim.Op.Code
use fastsim.Op.Kinds.{ReduceOp}
use fastsim.Op.Apply.{numpy_sign, digamma, rand_uniform, float_eq_tol}
use fastsim.Op.Lanes.{dot_scalar, reduce_scalar}
use fastsim.Tape.Build.{TapeOp, Tape}

module _ (R : F64) where
  -- The arms of the binary operations.
  unfoldable pub exec_binary : ℕ → R.F → R.F → Option R.F
  exec_binary opcode x y =
      if opcode == Code.add
      then some (R.add x y)
      else if opcode == Code.sub
      then some (R.sub x y)
      else if opcode == Code.mul
      then some (R.mul x y)
      else if opcode == Code.div
      then some (R.div x y)
      else if opcode == Code.pow
      then some (R.powf x y)
      else if opcode == Code.modulo
      then some (R.rem x y)
      else if opcode == Code.min
      then some (R.min x y)
      else if opcode == Code.max
      then some (R.max x y)
      else if opcode == Code.atan2
      then some (R.atan2 x y)
      else if opcode == Code.hypot
      then some (R.hypot x y)
      else none

  -- The arms of the unary operations.
  unfoldable pub exec_unary : ℕ → R.F → Option R.F
  exec_unary opcode x =
      if opcode == Code.neg
      then some (R.neg x)
      else if opcode == Code.sin
      then some (R.sin x)
      else if opcode == Code.cos
      then some (R.cos x)
      else if opcode == Code.tan
      then some (R.tan x)
      else if opcode == Code.atan
      then some (R.atan x)
      else if opcode == Code.sinh
      then some (R.sinh x)
      else if opcode == Code.cosh
      then some (R.cosh x)
      else if opcode == Code.tanh
      then some (R.tanh x)
      else if opcode == Code.exp
      then some (R.exp x)
      else if opcode == Code.log
      then some (R.ln x)
      else if opcode == Code.log10
      then some (R.log10 x)
      else if opcode == Code.abs
      then some (R.abs x)
      else if opcode == Code.sqrt
      then some (R.sqrt x)
      else if opcode == Code.sign
      then some (numpy_sign R x)
      else if opcode == Code.floor
      then some (R.floor x)
      else if opcode == Code.asin
      then some (R.asin x)
      else if opcode == Code.acos
      then some (R.acos x)
      else if opcode == Code.asinh
      then some (R.asinh x)
      else if opcode == Code.acosh
      then some (R.acosh x)
      else if opcode == Code.atanh
      then some (R.atanh x)
      else if opcode == Code.ceil
      then some (R.ceil x)
      else if opcode == Code.round
      then some (R.round x)
      else if opcode == Code.trunc
      then some (R.trunc x)
      else if opcode == Code.log2
      then some (R.log2 x)
      else if opcode == Code.log1p
      then some (R.ln_1p x)
      else if opcode == Code.expm1
      then some (R.exp_m1 x)
      else if opcode == Code.cbrt
      then some (R.cbrt x)
      else if opcode == Code.erf
      then some (R.erf x)
      else if opcode == Code.erfc
      then some (R.erfc x)
      else if opcode == Code.lgamma
      then some (R.lgamma x)
      else if opcode == Code.tgamma
      then some (R.tgamma x)
      else if opcode == Code.digamma
      then some (Option.get_or (digamma R x) (nan R))
      else if opcode == Code.rand_uniform
      then some (rand_uniform R x)
      else none

  -- The arms of the comparisons.
  unfoldable pub exec_cmp : ℕ → R.F → R.F → Option R.F
  exec_cmp opcode x y =
      if opcode == Code.cmp_gt
      then some (if R.lt y x then one_f R else zero_f R)
      else if opcode == Code.cmp_ge
      then some (if R.le y x then one_f R else zero_f R)
      else if opcode == Code.cmp_lt
      then some (if R.lt x y then one_f R else zero_f R)
      else if opcode == Code.cmp_le
      then some (if R.le x y then one_f R else zero_f R)
      else if opcode == Code.cmp_eq
      then some (if R.lt (R.abs (R.sub x y)) (float_eq_tol R) then one_f R else zero_f R)
      else if opcode == Code.cmp_ne
      then some (if R.le (float_eq_tol R) (R.abs (R.sub x y)) then one_f R else zero_f R)
      else none

  -- The sub-code of a reduction; any other than the first three is the maximum.
  unfoldable pub reduce_op_of : ℕ → ReduceOp
  reduce_op_of code =
      if code == Code.reduce_sum
      then ReduceOp.sum
      else if code == Code.reduce_product
      then ReduceOp.product
      else if code == Code.reduce_min
      then ReduceOp.min
      else ReduceOp.max

  -- The operands that the pool names in `start .. start + count`.
  unfoldable pub gather : List ℕ → List R.F → ℕ → ℕ → Option (List R.F)
  gather pool w start zero = some []
  gather pool w start (suc count) = do
    k ← get_elem? pool start
    x ← get_elem? w k
    xs ← gather pool w (suc start) count
    some (x ∷ xs)

  module _ (t : Tape R) (inputs : List (List R.F)) (params w : List R.F) where
    unfoldable pub exec_leaf : TapeOp → Option R.F
    exec_leaf op =
        if op.opcode == Code.const
        then get_elem? t.consts op.arg0
        else if op.opcode == Code.input
        then (do s ← get_elem? inputs op.arg0; get_elem? s op.arg1)
        else get_elem? params op.arg0

    unfoldable pub exec_select : TapeOp → R.F → Option R.F
    exec_select op c = elim (R.eq c (zero_f R)) [
      | true ↦ get_elem? w op.arg2
      | false ↦ get_elem? w op.arg1
    ]

    unfoldable pub exec_reduce : TapeOp → Option R.F
    unfolding gather reduce_op_of
    exec_reduce op = do
      xs ← gather t.arg_pool w op.arg1 op.arg2
      if leb op.arg2 t.scratch_len then some (reduce_scalar R (reduce_op_of op.arg0) xs) else none

    unfoldable pub exec_dot : TapeOp → Option R.F
    unfolding gather
    exec_dot op = do
      xs ← gather t.arg_pool w op.arg1 op.arg0
      ys ← gather t.arg_pool w (op.arg1 + op.arg0) op.arg0
      if leb (2 * op.arg0) t.scratch_len then some (dot_scalar R xs ys) else none

    -- The value that one op computes: the match on the opcode, by the ranges of the numbering.
    unfoldable pub exec_value : TapeOp → Option R.F
    unfolding exec_leaf exec_binary exec_unary exec_cmp exec_select exec_reduce exec_dot
    exec_value op =
        if ltb op.opcode 3
        then exec_leaf op
        else if ltb op.opcode 20
        then (do x ← get_elem? w op.arg0; y ← get_elem? w op.arg1; exec_binary op.opcode x y)
        else if ltb op.opcode 60
        then (do x ← get_elem? w op.arg0; exec_unary op.opcode x)
        else if ltb op.opcode 70
        then (do x ← get_elem? w op.arg0; y ← get_elem? w op.arg1; exec_cmp op.opcode x y)
        else if op.opcode == Code.select
        then (do c ← get_elem? w op.arg0; exec_select op c)
        else if op.opcode == Code.fma
        then (do
          x ← get_elem? w op.arg0
          y ← get_elem? w op.arg1
          z ← get_elem? w op.arg2
          some (R.mul_add x y z))
        else if op.opcode == Code.reduce
        then exec_reduce op
        else if op.opcode == Code.dot
        then exec_dot op
        else none

  module _ (t : Tape R) (inputs : List (List R.F)) (params : List R.F) where
    -- One round of the loop: the value is stored in the slot of the op.
    unfoldable pub exec_op : List R.F → TapeOp → Option (List R.F)
    unfolding exec_value
    exec_op w op = do
      v ← exec_value t inputs params w op
      if ltb op.dst (length w) then some (set w op.dst v) else none

    unfoldable pub eval_ops : List R.F → List TapeOp → Option (List R.F)
    eval_ops w [] = some w
    eval_ops w (op ∷ ops) = elim (exec_op w op) [ none ↦ none | some w' ↦ eval_ops w' ops ]

    unfoldable pub eval : List R.F → Option (List R.F)
    unfolding eval_ops
    eval w = eval_ops w t.ops

  -- `check_inputs`: each slot that the tape reads is long enough.
  unfoldable pub slot_length : Option (List R.F) → ℕ
  slot_length none = 0
  slot_length (some s) = length s

  unfoldable pub check_lens : List (List R.F) → ℕ → List ℕ → Bool
  unfolding slot_length
  check_lens inputs slot [] = true
  check_lens inputs slot (need ∷ needs) =
      (need == 0 || leb need (slot_length (get_elem? inputs slot)))
      && check_lens inputs (suc slot) needs

  unfoldable pub check_inputs : Tape R → List (List R.F) → Bool
  unfolding check_lens
  check_inputs t inputs = check_lens inputs 0 t.min_input_lens

  unfoldable pub read_outputs : List R.F → List ℕ → Option (List R.F)
  read_outputs w [] = some []
  read_outputs w (o ∷ outputs) = do x ← get_elem? w o; xs ← read_outputs w outputs; some (x ∷ xs)

  -- `InterpretedFn::call` over the work buffer `w`, as the last call left it; `none` is the panic of
  -- `check_inputs`, or an undefined access.
  unfoldable pub call : Tape R → List R.F → List (List R.F) → List R.F → Option (List R.F)
  unfolding check_inputs eval read_outputs
  call t w inputs params =
      if check_inputs t inputs
      then (do w' ← eval t inputs params w; read_outputs w' t.outputs)
      else none
