-- ===== src/Js/Values.antt =====
-- `N` is the type of numbers, which are floats, and `D` that of class instances.
use doxajs.Base.{ℕ, suc, String, Bool, true, false, Option, none, some, str_eq, if◌then◌else◌}

mutual
  pub data Value (N D : Type 0) : Type 0 where
    undefined null : Value N D
    bool : Bool → Value N D
    number : N → Value N D
    string : String → Value N D
    array : Items N D → Value N D
    object : Fields N D → Value N D
    instance_of : D → Value N D

  pub data Items (N D : Type 0) : Type 0 where
    nil : Items N D
    cons : Value N D → Items N D → Items N D

  -- The own enumerable properties, in order.
  pub data Fields (N D : Type 0) : Type 0 where
    end : Fields N D
    field : String → Value N D → Fields N D → Fields N D

module _ {N D : Type 0} where
  -- `value[key]`, where a missing property is `none`; a key stands in an object once.
  unfoldable pub property : String → Fields N D → Option (Value N D)
  property k end = none
  property k (field j v fs) = if str_eq j k then some v else property k fs

  -- `Object.hasOwn(value, key)`
  unfoldable pub has_own : String → Fields N D → Bool
  has_own k end = false
  has_own k (field j v fs) = if str_eq j k then true else has_own k fs

  -- `Object.keys(value).length`
  unfoldable pub key_count : Fields N D → ℕ
  key_count end = 0
  key_count (field j v fs) = suc (key_count fs)
