-- ===== src/Models/Any.antt =====
-- The values of Go's `any` that requests and results carry. A `float64` stands here by its integral
-- value: numbers with a fraction are left out. A typed text (a job's status, say) is its text, and
-- the RFC 3339 text of an instant is the instant (`time`).
use proxmaster.Prelude.{ℕ, String, Option, none, some, Bool, List, [], ◌∷◌}
use proxmaster.Prelude.Int.{ℤ}
use proxmaster.Prelude.Dict.{Dict, lookup}

mutual
  pub data Fields : Type 0 where
    end : Fields
    field : String → Value → Fields → Fields

  pub data Items : Type 0 where
    nil : Items
    cons : Value → Items → Items

  pub data Value : Type 0 where
    null : Value
    obj : Fields → Value
    arr : Items → Value
    bool : Bool → Value
    str : String → Value
    int : ℤ → Value
    float64 : ℤ → Value
    time : ℕ → Value

abbrev pub Params : Type 0
Params = Dict Value

-- A map as a value, and back.
abbrev pub fields : Params → Fields
fields [] = end
fields ((k, v) ∷ m) = field k v (fields m)

abbrev pub params_of : Fields → Params
params_of end = []
params_of (field k v m) = (k, v) ∷ params_of m

abbrev pub map_value : Params → Value
map_value m = obj (fields m)

abbrev pub items : List Value → Items
items [] = nil
items (v ∷ vs) = cons v (items vs)

-- `s, _ := v.(string)` and its likes, on a value that may be missing.
abbrev pub as_string : Option Value → Option String
as_string (some (str s)) = some s
as_string _ = none

abbrev pub as_map : Option Value → Option Params
as_map (some (obj m)) = some (params_of m)
as_map _ = none

abbrev pub get : String → Params → Option Value
get k m = lookup k m
