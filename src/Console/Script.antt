-- ===== src/Console/Script.antt =====
-- The crate fomoscript, the interpreter behind the commands of the console, as far as the console
-- uses it, and the formatting of the standard library.
use Prim.Native.String.{String}
use fomos.Common.{ℕ, ◌≤◌, ◌<◌, ◌≡◌, Bool, Option, some}
use fomos.Console.Text.{Text}

-- A value of `eval` is the result, the context after it, and whether the native function `quit` was
-- called; its `none` is a panic in a native function. `remaining` is the code not parsed yet, which
-- an expression parsed uses up and evaluation leaves.
pub record Script : Type 1 where
  pub Ctx : Type 0
  pub Expr : Type 0
  pub Value : Type 0
  pub new : Ctx
  pub unit : Value
  pub insert_code : Ctx → Text → Ctx
  pub parse_next_expr : Ctx → Option Expr × Ctx
  pub eval : Expr → Ctx → Option (Value × Ctx × Bool)
  pub set_number : Ctx → String → ℕ → Ctx
  pub set_native : Ctx → String → Ctx
  pub debug : Value → Text
  pub decimal : ℕ → Text
  pub remaining : Ctx → ℕ
  pub remaining-parse :
      (ctx ctx' : Ctx) (e : Expr)
      → parse_next_expr ctx ≡ (some e, ctx')
      → remaining ctx' < remaining ctx
  pub remaining-eval :
      (e : Expr) (ctx ctx' : Ctx) (v : Value) (quit : Bool)
      → eval e ctx ≡ some (v, ctx', quit)
      → remaining ctx' ≤ remaining ctx
