-- ===== src/Schema/Json/Tests.antt =====
-- Runs of the structure limits, and their theorem at one.
use verglos_cli.Prelude.{◌≡◌, refl, ◌≢◌, ◌↔◌, true}
use verglos_cli.Schema.Json.{Json, json_null, json_bool, json_array, no_items, item, default_limits}
use verglos_cli.Schema.Json.Limits.{
  LimitError, max_depth_exceeded, max_array_items_exceeded, open_value, visit, within, exceeded,
  out_of_fuel, enforce, enforce_structure_limits,
}
use verglos_cli.Schema.Json.LimitLaws.{IsWithin, IsExceeded, enforce_structure_limits-within_iff}

abbrev three_items : Json
three_items =
    json_array (
      item json_null (item (json_bool true) (item (json_array (item json_null no_items)) no_items)))

walking : Unit {0}
unfolding open_value visit enforce enforce_structure_limits
walking = tt

within_test : enforce_structure_limits default_limits three_items ≡ within
unfolding walking
within_test = refl

depth_test :
    enforce_structure_limits (record default_limits { max_depth = 1 }) three_items
    ≡ exceeded max_depth_exceeded
unfolding walking
depth_test = refl

items_test :
    enforce_structure_limits (record default_limits { max_array_items = 3 }) three_items
    ≡ exceeded max_array_items_exceeded
unfolding walking
items_test = refl

enforce_structure_limits-within_iff_example :
    ((enforce_structure_limits default_limits three_items ≡ within)
      ↔ IsWithin default_limits three_items)
    × ((x : LimitError)
        → enforce_structure_limits default_limits three_items ≡ exceeded x
        → IsExceeded default_limits three_items x)
    × (enforce_structure_limits default_limits three_items ≢ out_of_fuel)
enforce_structure_limits-within_iff_example =
    enforce_structure_limits-within_iff default_limits three_items
