-- ===== src/Json/Doubles.antt =====
-- What src/laige-core/json.cpp takes from the C library and the hardware: `std::strtod`, `std::snprintf`
-- with "%.*g", and the comparison of doubles.
use laige_cpp.Prelude.{ℕ, ◌≤◌, ◌<◌, ◌≡◌, Bool, true, List, [], ◌∷◌, length}
use laige_cpp.Json.Numbers.Grammar.{IsToken}

pub record Doubles : Type 1 where
  pub Number : Type 0
  pub strtod : List ℕ → Number
  -- The bytes that "%.*g" writes at a precision.
  pub print : ℕ → Number → List ℕ
  -- `operator==`.
  pub same : Number → Number → Bool
  -- 0.0.
  pub zero_value : Number

-- Documented behaviour of these on finite doubles: at a precision up to 17, "%g" writes a decimal
-- number of fewer than 32 characters; 17 significant digits read back as the same double; and "0"
-- reads as zero.
pub record AreStandard (d : Doubles) (Finite : d.Number → Type 0) : Type 0 where
  pub prints : (p : ℕ) (v : d.Number) → Finite v → 1 ≤ p → p ≤ 17 → IsToken (d.print p v)
  pub short : (p : ℕ) (v : d.Number) → Finite v → 1 ≤ p → p ≤ 17 → length (d.print p v) < 32
  pub exact : (v : d.Number) → Finite v → d.same (d.strtod (d.print 17 v)) v ≡ true
  pub zero_read :
      (v : d.Number) → d.same v d.zero_value ≡ true → d.same (d.strtod (48 ∷ [])) v ≡ true
