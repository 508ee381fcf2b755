-- ===== src/Models/Sprint.antt =====
-- fmt.Sprint of a value: texts bare, lists in brackets, maps in the order of their keys.
use Prim.Native.String.{compare}
use Prim.Native.Nat.{Ordering}
use proxmaster.Prelude.{suc, String, ◌<>◌, true, false, List, [], ◌∷◌}
use proxmaster.Prelude.Int.{ℤ, pos, negsuc}
use proxmaster.Prelude.Text.{show_nat}
use proxmaster.Models.Any.{
  Value, Items, Fields, null, bool, float64, int, str, time, arr, obj, nil, cons, end, field,
}

abbrev pub show_int : ℤ → String
unfolding show_nat
show_int (pos n) = show_nat n
show_int (negsuc n) = "-" <> show_nat (suc n)

abbrev insert_sorted : String × String → List (String × String) → List (String × String)
insert_sorted (k, v) [] = (k, v) ∷ []
insert_sorted (k, v) ((j, w) ∷ m) =
    let rest = insert_sorted (k, v) m in
    elim (compare j k) [ Ordering.lt ↦ (j, w) ∷ rest | _ ↦ (k, v) ∷ (j, w) ∷ m ]

abbrev join_fields : List (String × String) → String
join_fields [] = ""
join_fields ((k, v) ∷ []) = k <> ":" <> v
join_fields ((k, v) ∷ w ∷ m) = k <> ":" <> v <> " " <> join_fields (w ∷ m)

abbrev join : List String → String
join [] = ""
join (s ∷ []) = s
join (s ∷ t ∷ l) = s <> " " <> join (t ∷ l)

mutual
  print : Value → String
  print null = "<nil>"
  print (bool true) = "true"
  print (bool false) = "false"
  print (float64 n) = show_int n
  print (int n) = show_int n
  print (str s) = s
  print (time n) = show_nat n
  print (arr vs) = "[" <> join (print_items vs) <> "]"
  print (obj m) = "map[" <> join_fields (print_fields m) <> "]"

  print_items : Items → List String
  print_items nil = []
  print_items (cons v vs) = print v ∷ print_items vs

  print_fields : Fields → List (String × String)
  print_fields end = []
  print_fields (field k v m) = insert_sorted (k, print v) (print_fields m)

unfoldable pub sprint : Value → String
unfolding print print_items print_fields show_nat
sprint v = print v
