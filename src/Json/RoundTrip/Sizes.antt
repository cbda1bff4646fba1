-- ===== src/Json/RoundTrip/Sizes.antt =====
-- What the value of a text that src/laige-core/json.cpp writes reads as, and its sizes.
use laige_cpp.Prelude.{ℕ, suc, ◌+◌, max}
use laige_cpp.Json.Values.{
  Items, Members, null, bool, number, string, array, object, no_items, item, no_members, member,
}
use laige_cpp.Json.Doubles.{Doubles}
use laige_cpp.Json.Parser.{Json}
use laige_cpp.Json.Printer.{append_number}

module _ (d : Doubles) where
  -- A value with each number replaced by what its text reads as.
  unfoldable mutual
    pub reread : Json d → Json d
    reread (number v) = number (d.strtod (append_number d v))
    reread (array xs) = array (reread_items xs)
    reread (object ms) = object (reread_members ms)
    reread null = null
    reread (bool b) = bool b
    reread (string s) = string s

    pub reread_items : Items d.Number → Items d.Number
    reread_items no_items = no_items
    reread_items (item x xs) = item (reread x) (reread_items xs)

    pub reread_members : Members d.Number → Members d.Number
    reread_members no_members = no_members
    reread_members (member key value ms) = member key (reread value) (reread_members ms)

  -- How many containers stand in one another.
  unfoldable mutual
    pub nesting : Json d → ℕ
    nesting (array xs) = suc (nesting_items xs)
    nesting (object ms) = suc (nesting_members ms)
    nesting _ = 0

    pub nesting_items : Items d.Number → ℕ
    nesting_items no_items = 0
    nesting_items (item x xs) = max (nesting x) (nesting_items xs)

    pub nesting_members : Members d.Number → ℕ
    nesting_members no_members = 0
    nesting_members (member key value ms) = max (nesting value) (nesting_members ms)

  -- The fuel that the parser needs for what is written.
  unfoldable mutual
    pub rounds : Json d → ℕ
    rounds (array xs) = suc (rounds_items xs)
    rounds (object ms) = suc (rounds_members ms)
    rounds _ = 1

    pub rounds_items : Items d.Number → ℕ
    rounds_items no_items = 1
    rounds_items (item x xs) = suc (rounds x + rounds_items xs)

    pub rounds_members : Members d.Number → ℕ
    rounds_members no_members = 1
    rounds_members (member key value ms) = suc (rounds value + rounds_members ms)
