-- ===== src/Ir/Core/Ops.antt =====
-- crates/cielo-ir/src/core.rs: operators, their categories and the runtime functions they call.
use cielo.Prelude.Classes.{Text, codes}

pub data UnaryOp : Type 0 where
  neg not : UnaryOp

pub data BinaryOp : Type 0 where
  add sub mul div mod_op eq ne lt le gt ge and or : BinaryOp

pub data OpCategory : Type 0 where
  arithmetic comparison equality logical : OpCategory

pub data StageDirective : Type 0 where
  comptime runtime : StageDirective

unfoldable pub category : BinaryOp → OpCategory
category add = arithmetic
category sub = arithmetic
category mul = arithmetic
category div = arithmetic
category mod_op = arithmetic
category lt = comparison
category le = comparison
category gt = comparison
category ge = comparison
category eq = equality
category ne = equality
category and = logical
category or = logical

unfoldable pub unary_c_func : UnaryOp → Text
unary_c_func neg = codes "cv_neg"
unary_c_func not = codes "cv_not"

unfoldable pub c_func : BinaryOp → Text
c_func add = codes "cv_add"
c_func sub = codes "cv_sub"
c_func mul = codes "cv_mul"
c_func div = codes "cv_div"
c_func mod_op = codes "cv_mod"
c_func eq = codes "cv_eq"
c_func ne = codes "cv_ne"
c_func lt = codes "cv_lt"
c_func le = codes "cv_le"
c_func gt = codes "cv_gt"
c_func ge = codes "cv_ge"
c_func and = codes "cv_and"
c_func or = codes "cv_or"
