-- ===== src/Legacy/BoolExpr.antt =====
-- `BoolExpr` of crates/msr-legacy/src/lib.rs: boolean expressions over comparisons. A leaf of
-- another type than `Comparison` is evaluated by the parameter `eval_leaf`.
use mathlib.Core.Bool.{not as not_bool}
use msr.Prelude.{◌≡◌, refl, Bool, List, [], ◌∷◌, ◌++◌, arith, Result, ok, ◌>>=◌, All}
use msr.Legacy.Float.{Float}
use msr.Legacy.State.{ErrorKind, SystemState, Source, value_of}
use msr.Legacy.Comparison.{eval as eval_comparison, Comparison}
use msr.Legacy.Comparison.Laws.{get_val-value_of}

pub data BoolExpr (T : Type 0) : Type 0 where
  true false : BoolExpr T
  and or : BoolExpr T → BoolExpr T → BoolExpr T
  not : BoolExpr T → BoolExpr T
  eval : T → BoolExpr T

-- `Evaluation::eval`: `&&` and `||` do not evaluate a right side that cannot matter.
unfoldable pub eval_expr :
    {T S : Type 0} → (T → S → Result Bool ErrorKind) → BoolExpr T → S → Result Bool ErrorKind
eval_expr eval_leaf true s = ok Bool.true
eval_expr eval_leaf false s = ok Bool.false
eval_expr eval_leaf (and a b) s = do
  x ← eval_expr eval_leaf a s
  elim x [ Bool.true ↦ eval_expr eval_leaf b s | Bool.false ↦ ok Bool.false ]
eval_expr eval_leaf (or a b) s = do
  x ← eval_expr eval_leaf a s
  elim x [ Bool.true ↦ ok Bool.true | Bool.false ↦ eval_expr eval_leaf b s ]
eval_expr eval_leaf (not a) s = do x ← eval_expr eval_leaf a s; ok (not_bool x)
eval_expr eval_leaf (eval x) s = eval_leaf x s

module _ {F : Type 0} ⦃f : Float F⦄ where
  -- `eval` at comparisons
  unfoldable pub evaluate : BoolExpr (Comparison F) → SystemState F → Result Bool ErrorKind
  evaluate = eval_expr eval_comparison

-- `Sources for BoolExpr<Comparison>`
unfoldable pub sources : {F : Type 0} → BoolExpr (Comparison F) → List (Source F)
sources true = []
sources false = []
sources (and a b) = sources a ++ sources b
sources (or a b) = sources a ++ sources b
sources (not a) = sources a
sources (eval x) = x.left ∷ x.right ∷ []

All-left : {A : Type 0} (P : A → Type 0) (xs ys : List A) → All P (xs ++ ys) → All P xs × All P ys
All-left P [] ys h = (tt, h)
All-left P (x ∷ xs) ys h = let (a, b) = All-left P xs ys h.1 in ((h.0, a), b)

module _ {T S : Type 0} (eval_leaf : T → S → Result Bool ErrorKind) where
  -- De Morgan's laws hold with the errors and the order of evaluation.
  not-and :
      (a b : BoolExpr T) (s : S)
      → (eval_expr eval_leaf (not (and a b)) s ≡ eval_expr eval_leaf (or (not a) (not b)) s)
        × (eval_expr eval_leaf (not (or a b)) s ≡ eval_expr eval_leaf (and (not a) (not b)) s)
  unfolding eval_expr
  not-and a b s = (ground arith, ground arith)

module _ {F : Type 0} ⦃f : Float F⦄ where
  eval-agree :
      (c : Comparison F) (s t : SystemState F)
      → value_of s c.left ≡ value_of t c.left
      → value_of s c.right ≡ value_of t c.right
      → eval_comparison c s ≡ eval_comparison c t
  unfolding eval_comparison
  eval-agree c s t p q = rw (
    get_val-value_of c.left s,
    get_val-value_of c.right s,
    get_val-value_of c.left t,
    get_val-value_of c.right t,
    p,
    q,
  )

  -- The result of an expression depends on the state only through the values of its sources.
  evaluate-agree :
      (e : BoolExpr (Comparison F)) (s t : SystemState F)
      → All (λ src. value_of s src ≡ value_of t src) (sources e)
      → evaluate e s ≡ evaluate e t
  unfolding evaluate eval_expr sources
  evaluate-agree true s t h = refl
  evaluate-agree false s t h = refl
  evaluate-agree (and a b) s t h =
      let (ha, hb) = All-left _ (sources a) (sources b) h in
      ground (arith, evaluate-agree a s t ha, evaluate-agree b s t hb)
  evaluate-agree (or a b) s t h =
      let (ha, hb) = All-left _ (sources a) (sources b) h in
      ground (arith, evaluate-agree a s t ha, evaluate-agree b s t hb)
  evaluate-agree (not a) s t h = rw (evaluate-agree a s t h)
  evaluate-agree (eval c) s t h = eval-agree c s t h.0 h.1.0
