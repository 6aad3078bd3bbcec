-- ===== src/Js/Language.antt =====
-- What the checks of untrusted input ask of numbers and texts, and access to unknown values.
use doxajs.Base.{
  suc, ℕ, String, Bool, true, false, not, none, some, List, str_eq, has, if◌then◌else◌,
}
use doxajs.Js.Values.{
  Value, undefined, null, bool, number, string, array, object, Items, nil, cons, Fields, end, field,
  property,
}

-- Numbers are floats: `natural` gives a literal, `is_zero` holds of 0, -0 and NaN, which are falsy.
pub record Numbers (N : Type 0) : Type 0 where
  pub is_finite : N → Bool
  pub is_safe_integer : N → Bool
  pub is_zero : N → Bool
  pub at_most : N → N → Bool
  pub natural : ℕ → N
  pub minus : N → N → N

-- `String(value)`, `text.length` in code units, and `JSON.stringify(value).length`.
pub record Texts (N : Type 0) : Type 0 where
  pub to_string : Value N ⊥ → String
  pub units : String → ℕ
  pub json_length : Value N ⊥ → ℕ

module _ {N : Type 0} where
  -- `value[key]`, where a missing property is undefined; used of values that are not nullish.
  abbrev pub get : String → Value N ⊥ → Value N ⊥
  get k (object fs) = elim (property k fs) [ none ↦ undefined | some v ↦ v ]
  get k v = undefined

  abbrev pub is_undefined : Value N ⊥ → Bool
  is_undefined undefined = true
  is_undefined v = false

  abbrev pub is_record : Value N ⊥ → Bool
  is_record (object fs) = true
  is_record v = false

  abbrev pub is_boolean : Value N ⊥ → Bool
  is_boolean (bool b) = true
  is_boolean v = false

  -- `Boolean(value)`
  abbrev pub truthy : Numbers N → Value N ⊥ → Bool
  truthy ns undefined = false
  truthy ns null = false
  truthy ns (bool b) = b
  truthy ns (number n) = not (ns.is_zero n)
  truthy ns (string s) = not (str_eq s "")
  truthy ns v = true

  -- The elements of an array, of which other values have none.
  abbrev pub elements : Value N ⊥ → Items N ⊥
  elements (array xs) = xs
  elements v = nil

  abbrev pub is_array : Value N ⊥ → Bool
  is_array (array xs) = true
  is_array v = false

  unfoldable pub count : Items N ⊥ → ℕ
  count nil = 0
  count (cons v xs) = suc (count xs)

  -- `array.every(test)`
  unfoldable pub every : (Value N ⊥ → Bool) → Items N ⊥ → Bool
  every p nil = true
  every p (cons v xs) = let rest = every p xs in if p v then rest else false

  unfoldable pub keys_within : List String → Fields N ⊥ → Bool
  keys_within allowed end = true
  keys_within allowed (field k v fs) =
      let rest = keys_within allowed fs in if has k allowed then rest else false

  -- `Object.keys(value).every((key) => allowed.has(key))`, for sets without numerals.
  abbrev pub only_keys : Value N ⊥ → List String → Bool
  only_keys (object fs) allowed = keys_within allowed fs
  only_keys (array nil) allowed = true
  only_keys (array (cons v xs)) allowed = false
  only_keys (string s) allowed = str_eq s ""
  only_keys v allowed = true

  -- `{ ...record, [key]: value }`
  unfoldable pub assign : String → Value N ⊥ → Fields N ⊥ → Fields N ⊥
  assign k w end = field k w end
  assign k w (field j v fs) =
      let rest = assign k w fs in if str_eq j k then field j w fs else field j v rest
