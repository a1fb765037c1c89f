-- ===== src/Overlay/Templates.antt =====
-- overlay/expand_replication.py, the rendering of templates. A text reaches it as the segments into
-- which a regular expression divides it: the texts between the matches, and the matches.
use range42_backend_api.Prelude.{
  ℕ, suc, ◌+◌, ◌-◌, ◌*◌, String, ◌<>◌, Bool, Option, none, some, List, [], ◌∷◌, leb, if◌then◌else◌,
}
use range42_backend_api.Prelude.Result.{Result, ok, raise, error, ◌>>=◌}
use range42_backend_api.Models.{ℤ, pos, negsuc}
use range42_backend_api.Json.{Json}

pos_part : ℤ → ℕ
pos_part (pos n) = n
pos_part (negsuc n) = 0

neg_part : ℤ → ℕ
neg_part (pos n) = 0
neg_part (negsuc n) = suc n

difference : ℕ → ℕ → ℤ
difference a b = if leb b a then pos (a - b) else negsuc (b - a - 1)

infixl 65 ◌+ℤ◌ ◌-ℤ◌
infixl 70 ◌*ℤ◌
unfoldable pub ◌+ℤ◌ : ℤ → ℤ → ℤ
unfolding pos_part neg_part difference
a +ℤ b = difference (pos_part a + pos_part b) (neg_part a + neg_part b)

unfoldable pub ◌-ℤ◌ : ℤ → ℤ → ℤ
unfolding pos_part neg_part difference
a -ℤ b = difference (pos_part a + neg_part b) (neg_part a + pos_part b)

unfoldable pub ◌*ℤ◌ : ℤ → ℤ → ℤ
unfolding pos_part neg_part difference
a *ℤ b =
    difference (pos_part a * pos_part b + neg_part a * neg_part b)
      (pos_part a * neg_part b + neg_part a * pos_part b)

-- An int, or a float by its literal.
pub data Number : Type 0 where
  whole : ℤ → Number
  decimal : String → Number

pub data Operator : Type 0 where
  plus minus times : Operator

-- What `_TOKEN_RE` finds
pub data Token : Type 0 where
  digits : ℕ → Token
  team_id bridge_base : Token
  operator : Operator → Token

pub data Segment (M : Type 0) : Type 0 where
  between : String → Segment M
  match_ : M → Segment M

-- `{{ ... }}`: the match and its group
pub record Jinja : Type 0 where
  pub group_0 : String
  pub group_1 : String

-- `{140+team_id}`: the number before it, if any, and the operator, if any
pub record Legacy : Type 0 where
  pub base : Option ℕ
  pub op : Option Operator

-- The regular expressions, and Python's floats and printed forms.
pub record Python : Type 0 where
  pub jinja : String → List (Segment Jinja)
  pub supported : String → Bool
  pub tokens : String → List Token
  pub legacy : String → List (Segment Legacy)
  -- `parseInt`'s match at the start of a text
  pub leading_int : String → Option ℤ
  pub float_of : String → Option Number
  pub float_op : Operator → Number → Number → Number
  -- `int(value)` where `value.is_integer()`
  pub integral : String → Option ℤ
  pub show_int : ℤ → String
  pub show_float : String → String
  -- `str(value)` of a value that is no number, text, truth value or `None`
  pub show : Json → String

integer_op : Operator → ℤ → ℤ → ℤ
integer_op Operator.plus a b = a +ℤ b
integer_op Operator.minus a b = a -ℤ b
integer_op Operator.times a b = a *ℤ b

module _ (x : Python) where
  unfoldable pub compute : Operator → Number → Number → Number
  unfolding integer_op
  compute op (Number.whole a) (Number.whole b) = Number.whole (integer_op op a b)
  compute op (Number.whole a) (Number.decimal b) = x.float_op op (Number.whole a) (Number.decimal b)
  compute op (Number.decimal a) b = x.float_op op (Number.decimal a) b

  -- `_num_to_str`
  unfoldable pub num_to_str : Number → String
  num_to_str (Number.whole i) = x.show_int i
  num_to_str (Number.decimal d) = elim (x.integral d) [
    | none ↦ x.show_float d
    | some i ↦ x.show_int i
  ]

  -- `_num_to_str_value`
  unfoldable pub num_to_str_value : Number → Json
  num_to_str_value (Number.whole i) = Json.number i
  num_to_str_value (Number.decimal d) = elim (x.integral d) [
    | none ↦ Json.float d
    | some i ↦ Json.number i
  ]

  -- `val`, in `_eval_expr`: `int` of an operator raises.
  unfoldable pub val : ℕ → Number → Token → Result Number
  val team base (Token.digits n) = ok (Number.whole (pos n))
  val team base Token.team_id = ok (Number.whole (pos team))
  val team base Token.bridge_base = ok base
  val team base (Token.operator op) = raise (error 500 "INTERNAL")

  apply_op : Token → Number → Number → Number
  apply_op (Token.operator op) acc operand = compute op acc operand
  apply_op (Token.digits n) acc operand = acc
  apply_op Token.team_id acc operand = acc
  apply_op Token.bridge_base acc operand = acc

  -- The loop over the pairs of an operator and an operand
  unfoldable pub eval_rest : ℕ → Number → Number → List Token → Result Number
  unfolding apply_op
  eval_rest team base acc [] = ok acc
  eval_rest team base acc (op ∷ []) = ok acc
  eval_rest team base acc (op ∷ t ∷ rest) =
      val team base t >>= λ operand. eval_rest team base (apply_op op acc operand) rest

  unfoldable pub eval_tokens : ℕ → Number → String → List Token → Result String
  eval_tokens team base expr [] = ok expr
  eval_tokens team base expr (t ∷ rest) = do
    acc ← val team base t
    last ← eval_rest team base acc rest
    ok (num_to_str last)

  -- `_eval_expr`
  unfoldable pub eval_expr : ℕ → Number → String → Result String
  eval_expr team base expr = eval_tokens team base expr (x.tokens expr)

  -- `re.sub` with a function for the matches
  unfoldable pub substitute : {M : Type 0} → (M → Result String) → List (Segment M) → Result String
  substitute f [] = ok ""
  substitute f (Segment.between t ∷ rest) = do later ← substitute f rest; ok (t <> later)
  substitute f (Segment.match_ m ∷ rest) = do
    here ← f m
    later ← substitute f rest
    ok (here <> later)

  replace_jinja : ℕ → Number → Jinja → Result String
  replace_jinja team base m =
      if x.supported m.group_1 then eval_expr team base m.group_1 else ok m.group_0

  base_or_zero : Option ℕ → ℤ
  base_or_zero none = pos 0
  base_or_zero (some n) = pos n

  op_or_plus : Option Operator → Operator
  op_or_plus none = Operator.plus
  op_or_plus (some op) = op

  replace_legacy : ℕ → Legacy → Result String
  unfolding integer_op base_or_zero op_or_plus
  replace_legacy team m =
      ok (x.show_int (integer_op (op_or_plus m.op) (base_or_zero m.base) (pos team)))

  -- `_render_template`
  unfoldable pub render_template : ℕ → Number → String → Result String
  unfolding replace_jinja replace_legacy
  render_template team base tpl = do
    rendered ← substitute (replace_jinja team base) (x.jinja tpl)
    substitute (replace_legacy team) (x.legacy rendered)
