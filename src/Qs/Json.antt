-- ===== src/Qs/Json.antt =====
-- What the queue server uses of `serde_json::Value`, a library of its own: the accessors, by
-- their documented names. A number that is no `i64` or no `u64` has no `as_i64` or `as_u64`.
use bsrs.Prelude.{ℕ, Bool, false, String, Option, none, some, List}
use bsrs.Prelude.Int.{ℤ}

pub record Json : Type 1 where
  pub Value : Type 0
  pub null : Value
  pub empty_array : Value
  pub empty_object : Value
  pub get : Value → String → Option Value
  pub as_str : Value → Option String
  pub as_bool : Value → Option Bool
  pub as_array : Value → Option (List Value)
  pub is_number : Value → Bool
  pub is_null : Value → Bool
  pub as_i64 : Value → Option ℤ
  pub as_u64 : Value → Option ℕ

module _ (J : Json) where
  -- `params.get(key).and_then(|v| v.as_str())`, and the like.
  abbrev pub str_param : J.Value → String → Option String
  str_param params key = elim (J.get params key) [ none ↦ none | some v ↦ J.as_str v ]

  -- `….and_then(|v| v.as_bool()).unwrap_or(false)`
  abbrev pub flag_param : J.Value → String → Bool
  flag_param params key = elim (J.get params key) [
    | none ↦ false
    | some v ↦ elim (J.as_bool v) [ none ↦ false | some b ↦ b ]
  ]

  abbrev pub array_param : J.Value → String → Option (List J.Value)
  array_param params key = elim (J.get params key) [ none ↦ none | some v ↦ J.as_array v ]
