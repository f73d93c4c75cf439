-- ===== src/Odata/Ast.antt =====
-- libs/modkit-odata/src/lib.rs: the syntax of filters. The numbers of bigdecimal and the times of
-- chrono are types that a value of `Literals` gives.
use hyperspot.Common.{ℕ, Bool, Str}

pub record Literals : Type 1 where
  pub Number : Type 0
  pub DateTime : Type 0
  pub Date : Type 0
  pub Time : Type 0

pub data Value (l : Literals) : Type 0 where
  null : Value l
  bool : Bool → Value l
  number : l.Number → Value l
  uuid : ℕ → Value l
  date_time : l.DateTime → Value l
  date : l.Date → Value l
  time : l.Time → Value l
  string : Str → Value l

pub data CompareOperator : Type 0 where
  eq ne gt ge lt le : CompareOperator

mutual
  pub data Expr (l : Literals) : Type 0 where
    and_expr or_expr : Expr l → Expr l → Expr l
    not_expr : Expr l → Expr l
    compare_expr : Expr l → CompareOperator → Expr l → Expr l
    in_expr : Expr l → Exprs l → Expr l
    function_expr : Str → Exprs l → Expr l
    identifier : Str → Expr l
    value : Value l → Expr l

  -- `Vec<Expr>`.
  pub data Exprs (l : Literals) : Type 0 where
    none_left : Exprs l
    more : Expr l → Exprs l → Exprs l
