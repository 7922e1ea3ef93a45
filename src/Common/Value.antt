-- ===== src/Common/Value.antt =====
-- What a parsed document holds: Python's dynamic values. Mappings have string keys.
use mathlib.Core.Path.{◌≡◌, refl, ap}
use Prim.Native.String.{String}
use mathlib.Core.Bool.{Bool, true, false}
use mathlib.Core.List.{List, [], ◌∷◌, map}
use mathlib.Core.Option.{Option, none, some}
use Prim.Native.Nat.{ℕ}
use knowledge_flow.Common.Text.{Text}
use knowledge_flow.Common.Int.{ℤ, pos}

mutual
  pub data Value : Type 0 where
    null : Value
    bool : Bool → Value
    num : ℤ → Value
    str : Text → Value
    seq : Values → Value
    dict : Entries → Value

  pub data Values : Type 0 where
    nil : Values
    cons : Value → Values → Values

  pub data Entries : Type 0 where
    end : Entries
    entry : String → Value → Entries → Entries

unfoldable pub to_list : Values → List Value
to_list nil = []
to_list (cons v vs) = v ∷ to_list vs

unfoldable pub of_list : List Value → Values
of_list [] = nil
of_list (v ∷ vs) = cons v (of_list vs)

pub to_list-of_list : (vs : List Value) → to_list (of_list vs) ≡ vs
unfolding to_list of_list
to_list-of_list [] = refl
to_list-of_list (v ∷ vs) = ap (λ ws. v ∷ ws) (to_list-of_list vs)

-- `list(texts)`
abbrev pub strs : List Text → Value
strs ts = seq (of_list (map str ts))

abbrev pub opt_str : Option Text → Value
opt_str none = null
opt_str (some s) = str s

abbrev pub opt_num : Option ℕ → Value
opt_num none = null
opt_num (some n) = num (pos n)

abbrev pub is_null : Value → Bool
is_null null = true
is_null _ = false
