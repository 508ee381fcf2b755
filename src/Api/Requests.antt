-- ===== src/Api/Requests.antt =====
-- Requests, responses and the reading of a request's body (backend/internal/api/server.go). A body
-- stands by the value that it is the JSON text of, in which no field of a struct is named twice.
-- `encoding/json` finds the field of a struct by its name in whatever case, and null leaves it at
-- its zero value; a value of another type is an error.
use proxmaster.Prelude.{
  ℕ, String, ◌==◌, Bool, false, not, Option, none, some, [], ◌∷◌, if◌then◌else◌,
}
use proxmaster.Prelude.Int.{ℤ, pos}
use proxmaster.Prelude.Text.{equal_fold, trim_space, show_nat}
use proxmaster.Models.{Params, Value, null, bool, str, float64, obj, params_of, map_value}

pub data Body : Type 0 where
  empty malformed : Body
  value : Value → Body

pub record Request : Type 0 where
  pub method : String
  pub path : String
  pub authorization : String  -- the header of that name
  pub idempotency_key : String  -- the header Idempotency-Key
  pub body : Body

pub data Response : Type 0 where
  json : ℕ → Value → Response  -- a status code and a body
  page not_found moved aborted : Response  -- the page, a plain 404, a redirect, a panic

abbrev pub reply : ℕ → Params → Response
reply code fields = json code (map_value fields)

abbrev pub error : ℕ → String → Response
error code why = reply code (("error", str why) ∷ [])

abbrev pub method_not_allowed : Response
method_not_allowed = error 405 "method not allowed"

abbrev pub invalid_json : Response
invalid_json = error 400 "invalid json"

-- The fields of a body that is decoded into a struct, none on an error.
abbrev pub struct_of : Body → Option Params
struct_of (value (obj m)) = some (params_of m)
struct_of (value null) = some []
struct_of _ = none

-- The same where the error of an empty body is passed over.
abbrev pub struct_or_empty : Body → Option Params
struct_or_empty empty = some []
struct_or_empty b = struct_of b

-- A body that is decoded into a map: null is the nil map.
abbrev pub map_of : Body → Option Params
map_of b = struct_of b

unfoldable pub field_of : String → Params → Value
field_of name [] = null
field_of name ((k, v) ∷ m) = if equal_fold k name then v else field_of name m

abbrev as_text : Value → Option String
as_text null = some ""
as_text (str s) = some s
as_text _ = none

abbrev as_flag : Value → Option Bool
as_flag null = some false
as_flag (bool b) = some b
as_flag _ = none

abbrev as_number : Value → Option ℤ
as_number null = some (pos 0)
as_number (float64 n) = some n
as_number _ = none

abbrev as_fields : Value → Option Params
as_fields null = some []
as_fields (obj m) = some (params_of m)
as_fields _ = none

abbrev pub text : String → Params → Option String
text name m = as_text (field_of name m)

abbrev pub flag : String → Params → Option Bool
flag name m = as_flag (field_of name m)

abbrev pub number : String → Params → Option ℤ
number name m = as_number (field_of name m)

abbrev pub fields_at : String → Params → Option Params
fields_at name m = as_fields (field_of name m)

-- What is read of a body is read in order, up to an error.
infixl 5 ◌>>=◌
abbrev pub ◌>>=◌ {ℓ κ} : {A : Type ℓ} {B : Type κ} → Option A → (A → Option B) → Option B
none >>= f = none
some a >>= f = f a

-- firstNonEmpty(a, b); `now` is the clock in nanoseconds.
abbrev pub first_non_empty : ℕ → String → String → String
first_non_empty now a b =
    if not (trim_space a == "")
    then trim_space a
    else if not (trim_space b == "")
    then trim_space b
    else show_nat now
