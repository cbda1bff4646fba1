-- ===== src/Json/Plain.antt =====
-- The values that the serializer of src/laige-core/json.cpp may be given: finite numbers, UTF-8 text, and
-- members of different names.
use laige_cpp.Prelude.{ℕ, ◌≡◌, none, List}
use laige_cpp.Json.Strings.Texts.{AreScalars, encode}
use laige_cpp.Json.Values.{
  Items, Members, null, bool, number, string, array, object, no_items, item, no_members, member,
  find_in,
}
use laige_cpp.Json.Doubles.{Doubles}
use laige_cpp.Json.Parser.{Json}

-- The text of code points that are not surrogates.
pub record IsText (s : List ℕ) : Type 0 where
  pub points : List ℕ
  pub scalars : AreScalars points
  pub encoded : s ≡ encode points

module _ (d : Doubles) (Finite : d.Number → Type 0) where
  unfoldable mutual
    pub IsPlain : Json d → Type 0
    IsPlain null = Unit
    IsPlain (bool b) = Unit
    IsPlain (number v) = Finite v
    IsPlain (string s) = IsText s
    IsPlain (array xs) = ArePlain xs
    IsPlain (object ms) = HavePlain ms

    pub ArePlain : Items d.Number → Type 0
    ArePlain no_items = Unit
    ArePlain (item x xs) = IsPlain x × ArePlain xs

    pub HavePlain : Members d.Number → Type 0
    HavePlain no_members = Unit
    HavePlain (member key value ms) =
        IsText key × (IsPlain value × ((find_in key ms ≡ none) × HavePlain ms))
