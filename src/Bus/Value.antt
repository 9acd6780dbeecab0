-- ===== src/Bus/Value.antt =====
-- JSON values as Python reads them: the bodies that reach the bus.
use islands_kernel.Base.{
  ℕ, String, Bool, true, false, not, Option, none, some, ◌==◌, string_eq, if◌then◌else◌, ltb,
}

-- Of a number only its truth is read, so a natural number stands for it.
mutual
  pub data Value : Type 0 where
    null : Value
    flag : Bool → Value
    num : ℕ → Value
    text : String → Value
    arr : Items → Value
    obj : Fields → Value

  pub data Fields : Type 0 where
    end : Fields
    field : String → Value → Fields → Fields

  pub data Items : Type 0 where
    no_items : Items
    item : Value → Items → Items

-- `d.get(name)`
unfoldable pub get : String → Fields → Option Value
get name end = none
get name (field k v fs) = if k == name then some v else get name fs

-- `d.get(name, default)`
abbrev pub get_or : String → Value → Fields → Value
get_or name default fs = elim (get name fs) [ none ↦ default | some v ↦ v ]

-- Python's truth of a value.
unfoldable pub is_true : Value → Bool
is_true null = false
is_true (flag b) = b
is_true (num n) = ltb 0 n
is_true (text s) = not (s == "")
is_true (arr no_items) = false
is_true (arr (item x xs)) = true
is_true (obj end) = false
is_true (obj (field k v fs)) = true

-- `a or b`
abbrev pub or_value : Value → Value → Value
or_value a b = if is_true a then a else b
