-- ===== src/Value.antt =====
-- The values of a dynamic Python payload (`dict[str, Any]`), and the operations on dictionaries
-- that app/ uses. A `float` is carried as its 64-bit pattern and an `int` as a sign and a size;
-- no arithmetic is done on either here. A `datetime` is a number of microseconds.
pub mod Laws
use fast_api_layers.Prelude.{
  ℕ, zero, suc, ◌^◌, String, Bool, true, false, not, ◌||◌, Option, none, some, List, [], ◌∷◌, ◌==◌,
  nat_eq, if◌then◌else◌,
}

mutual
  pub data Value : Type 0 where
    null : Value
    bool : Bool → Value
    int : ℕ → Value
    minus_int : ℕ → Value
    float : ℕ → Value
    text : String → Value
    datetime : ℕ → Value
    arr : Items → Value
    tup : Items → Value
    obj : Fields → Value

  pub data Items : Type 0 where
    nil : Items
    cons : Value → Items → Items

  -- a dictionary, in insertion order
  pub data Fields : Type 0 where
    end : Fields
    field : String → Value → Fields → Fields

-- A dict display; the source never repeats a key in one.
abbrev pub dict : List (String × Value) → Fields
dict [] = end
dict ((k, v) ∷ r) = field k v (dict r)

-- `d.get(k)`, with `none` where the key is missing
unfoldable pub get : String → Fields → Option Value
get k end = none
get k (field j v d) = if j == k then some v else get k d

-- `d[k] = v`
unfoldable pub set : String → Value → Fields → Fields
set k v end = field k v end
set k v (field j w d) = if j == k then field j v d else field j w (set k v d)

-- `{key: value for key, value in d.items() if key != k}`, also the rest after `d.pop(k)`
unfoldable pub without : String → Fields → Fields
without k end = end
without k (field j v d) = if j == k then without k d else field j v (without k d)

-- `d.get(k, default)`
abbrev pub get_or : String → Value → Fields → Value
get_or k default d = elim (get k d) [ none ↦ default | some v ↦ v ]

-- Python's truth value
unfoldable pub truthy : Value → Bool
truthy null = false
truthy (bool b) = b
truthy (int n) = not (nat_eq n 0)
truthy (minus_int n) = not (nat_eq n 0)
truthy (float bits) = not (nat_eq bits 0 || nat_eq bits (2 ^ 63))
truthy (text s) = not (s == "")
truthy (datetime t) = true
truthy (arr nil) = false
truthy (arr (cons v vs)) = true
truthy (tup nil) = false
truthy (tup (cons v vs)) = true
truthy (obj end) = false
truthy (obj (field k v d)) = true

-- an optional text field of a request
abbrev pub optional : Option String → Value
optional none = null
optional (some s) = text s
