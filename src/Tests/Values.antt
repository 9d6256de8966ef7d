-- ===== src/Tests/Values.antt =====
-- A JSON value for the tests, with the accessors of `serde_json::Value`.
use bsrs.Prelude.{
  ℕ, Bool, true, false, String, Option, none, some, List, [], ◌∷◌, if◌then◌else◌, str_eq,
}
use bsrs.Prelude.Int.{ℤ, pos}
use bsrs.Qs.Json.{Json}
use bsrs.Qs.Queue.{QueuedItem, PlanQueue}
use bsrs.Qs.Permissions.{RegexApi}

mutual
  pub data Value : Type 0 where
    null : Value
    text : String → Value
    flag : Bool → Value
    number : ℤ → Value
    array : Values → Value
    object : Entries → Value

  pub data Values : Type 0 where
    stop : Values
    item : Value → Values → Values

  pub data Entries : Type 0 where
    end : Entries
    entry : String → Value → Entries → Entries

abbrev find_entry : Entries → String → Option Value
find_entry end k = none
find_entry (entry j v es) k = if str_eq j k then some v else find_entry es k

abbrev get : Value → String → Option Value
get (object es) k = find_entry es k
get _ k = none

abbrev as_str : Value → Option String
as_str (text s) = some s
as_str _ = none

abbrev as_bool : Value → Option Bool
as_bool (flag b) = some b
as_bool _ = none

abbrev to_list : Values → List Value
to_list stop = []
to_list (item v vs) = v ∷ to_list vs

abbrev as_array : Value → Option (List Value)
as_array (array vs) = some (to_list vs)
as_array _ = none

abbrev is_number : Value → Bool
is_number (number i) = true
is_number _ = false

abbrev is_null : Value → Bool
is_null null = true
is_null _ = false

abbrev as_i64 : Value → Option ℤ
as_i64 (number i) = some i
as_i64 _ = none

abbrev as_u64 : Value → Option ℕ
as_u64 (number (pos n)) = some n
as_u64 _ = none

abbrev pub J : Json
J = record {
  Value = Value;
  null = null;
  empty_array = array stop;
  empty_object = object end;
  get = get;
  as_str = as_str;
  as_bool = as_bool;
  as_array = as_array;
  is_number = is_number;
  is_null = is_null;
  as_i64 = as_i64;
  as_u64 = as_u64;
}

abbrev pub single : String → Value → Value
single k v = object (entry k v end)

abbrev pub plan_of : String → QueuedItem Value
plan_of uid = record {
  item_uid = uid;
  item_type = "plan";
  name = "count";
  args = array stop;
  kwargs = object end;
  meta = null;
  user = none;
  user_group = none;
  result = none;
}

abbrev pub queue_of : List (QueuedItem Value) → PlanQueue Value
queue_of items = record { items = items; history = []; queue_uid = "u0"; history_uid = "h0" }

abbrev pub abc : PlanQueue Value
abc = queue_of (plan_of "a" ∷ plan_of "b" ∷ plan_of "c" ∷ [])

-- A regex of the tests is a literal text.
abbrev pub literals : RegexApi
literals = record {
  Regex = String;
  compile = λ s. if str_eq s "(" then none else some s;
  is_match = str_eq;
}
