-- ===== src/Json/Values.antt =====
-- `JsonValue` of src/laige-core/include/laige/json.h and json.cpp, over any type of numbers. A value is
-- its kind with the payload of that kind.
pub mod Joins
use laige_cpp.Prelude.{
  ℕ, suc, Bool, true, false, not, ◌&&◌, ◌==◌, if◌then◌else◌, Option, none, some, List, [], ◌∷◌,
}

mutual
  pub data Value (N : Type 0) : Type 0 where
    null : Value N
    bool : Bool → Value N
    number : N → Value N
    string : List ℕ → Value N
    array : Items N → Value N
    object : Members N → Value N

  pub data Items (N : Type 0) : Type 0 where
    no_items : Items N
    item : Value N → Items N → Items N

  pub data Members (N : Type 0) : Type 0 where
    no_members : Members N
    member : List ℕ → Value N → Members N → Members N

-- `operator==` of strings.
unfoldable pub same_text : List ℕ → List ℕ → Bool
same_text [] [] = true
same_text [] (y ∷ ys) = false
same_text (x ∷ xs) [] = false
same_text (x ∷ xs) (y ∷ ys) = x == y && same_text xs ys

module _ {N : Type 0} where
  -- The member of a name, in the loop of `findMember`.
  unfoldable pub find_in : List ℕ → Members N → Option (Value N)
  find_in name no_members = none
  find_in name (member key value ms) = if same_text key name then some value else find_in name ms

  unfoldable pub find_member : List ℕ → Value N → Option (Value N)
  find_member name (object ms) = find_in name ms
  find_member name _ = none

  -- The loop of `setMember`: in place if the name is there, at the end if not.
  unfoldable pub set_in : List ℕ → Value N → Members N → Members N
  set_in name value no_members = member name value no_members
  set_in name value (member key old ms) =
      if same_text key name then member key value ms else member key old (set_in name value ms)

  unfoldable pub append_item : Items N → Value N → Items N
  append_item no_items v = item v no_items
  append_item (item w ws) v = item w (append_item ws v)

  unfoldable pub count_members : Members N → ℕ
  count_members no_members = 0
  count_members (member key value ms) = suc (count_members ms)

  -- Whether some value is equal to another, by a test of values.
  abbrev holds : (Value N → Bool) → Option (Value N) → Bool
  holds p none = false
  holds p (some v) = p v

  -- `operator==`, given that of the numbers.
  unfoldable mutual
    pub equal : (N → N → Bool) → Value N → Value N → Bool
    equal same null null = true
    equal same (bool b) (bool c) = if b then c else not c
    equal same (number x) (number y) = same x y
    equal same (string s) (string t) = same_text s t
    equal same (array xs) (array ys) = equal_items same xs ys
    equal same (object ms) (object ns) =
        count_members ms == count_members ns && equal_members same ms ns
    equal same _ _ = false

    pub equal_items : (N → N → Bool) → Items N → Items N → Bool
    equal_items same no_items no_items = true
    equal_items same (item x xs) (item y ys) = equal same x y && equal_items same xs ys
    equal_items same _ _ = false

    -- Every member of the first is one of the second.
    pub equal_members : (N → N → Bool) → Members N → Members N → Bool
    equal_members same no_members ns = true
    equal_members same (member key value ms) ns =
        holds (equal same value) (find_in key ns) && equal_members same ms ns
