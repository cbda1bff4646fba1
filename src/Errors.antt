-- ===== src/Errors.antt =====
-- src/laige-core/errors.cpp: the registry of the error codes and its lookups. A code that arrives from
-- outside is its number, which need not be that of a code.
pub mod Registry
use Prim.Native.String.{String, ◌++◌}
use text.Mathlib.Text.{◌==◌}
use laige_cpp.Prelude.{
  ℕ, zero, suc, ◌+◌, ◌≤◌, ◌<◌, ◌≡◌, ◌⊎◌, inl, inr, refl, ap, sym, ◌∙◌, arith, leb, true, false,
  if◌then◌else◌, List, [], ◌∷◌, get_elem?, Option, some, none, lt→leb,
}
use laige_cpp.Result.{
  ErrorCode, unknown, invalid_argument, malformed_input, budget_exhausted, io_error, gl_unavailable,
  gl_version_unsupported,
}
use laige_cpp.Errors.Registry.{ErrorEntry, slot0, codes}

-- The enumerators' values.
pub value : ErrorCode → ℕ
value unknown = 1
value invalid_argument = 2
value malformed_input = 3
value budget_exhausted = 4
value io_error = 5
value gl_unavailable = 6
value gl_version_unsupported = 7

-- `kLastCode`.
abbrev pub last_code : ℕ
last_code = 7

pub registry : ℕ → ErrorEntry
registry v = elim (get_elem? (slot0 ∷ codes) v) [ none ↦ slot0 | some e ↦ e ]

pub error_info : ℕ → ErrorEntry
error_info v = if leb v last_code then registry v else registry 0

pub error_name : ℕ → String
error_name v = (error_info v).code_id

pub error_text : ℕ → String
error_text v = (error_info v).text

-- The five fields, with bars between them.
abbrev pub rendered : ErrorEntry → String
rendered e =
    e.code_id
    ++ (" | "
        ++ (e.what_failed ++ (" | " ++ (e.why ++ (" | " ++ (e.fix ++ (" | " ++ e.doc_anchor)))))))

registry-rendered : (v : ℕ) → (registry v).text ≡ rendered (registry v)
unfolding registry
registry-rendered zero = refl
registry-rendered (suc zero) = refl
registry-rendered (suc (suc zero)) = refl
registry-rendered (suc (suc (suc zero))) = refl
registry-rendered (suc (suc (suc (suc zero)))) = refl
registry-rendered (suc (suc (suc (suc (suc zero))))) = refl
registry-rendered (suc (suc (suc (suc (suc (suc zero)))))) = refl
registry-rendered (suc (suc (suc (suc (suc (suc (suc zero))))))) = refl
registry-rendered (suc (suc (suc (suc (suc (suc (suc (suc v)))))))) = refl

-- Whatever the value, the text that is handed out is the five fields of its entry, with bars
-- between them.
pub error_text-rendered : (v : ℕ) → error_text v ≡ rendered (error_info v)
unfolding error_text error_info
error_text-rendered v =
    elim (leb v last_code)
      as (λ b. let e = (if b then registry v else registry 0) in e.text ≡ rendered e) [
        | true ↦ registry-rendered v
        | false ↦ registry-rendered 0
      ]

-- The code that a name is for.
named : String → ErrorCode
named s =
    if s == "invalid_argument"
    then invalid_argument
    else if s == "malformed_input"
    then malformed_input
    else if s == "budget_exhausted"
    then budget_exhausted
    else if s == "io_error"
    then io_error
    else if s == "gl_unavailable"
    then gl_unavailable
    else if s == "gl_version_unsupported"
    then gl_version_unsupported
    else unknown

named-error_name : (c : ErrorCode) → named (error_name (value c)) ≡ c
unfolding named error_name error_info registry value
named-error_name unknown = refl
named-error_name invalid_argument = refl
named-error_name malformed_input = refl
named-error_name budget_exhausted = refl
named-error_name io_error = refl
named-error_name gl_unavailable = refl
named-error_name gl_version_unsupported = refl

entry_code : (c : ErrorCode) → (error_info (value c)).code ≡ c
unfolding error_info registry value
entry_code unknown = refl
entry_code invalid_argument = refl
entry_code malformed_input = refl
entry_code budget_exhausted = refl
entry_code io_error = refl
entry_code gl_unavailable = refl
entry_code gl_version_unsupported = refl

-- The entry found under a code's value is for that code, and two codes with one name are equal.
pub error_name-injective :
    (c d : ErrorCode)
    → ((error_info (value c)).code ≡ c) × (error_name (value c) ≡ error_name (value d) → c ≡ d)
error_name-injective c d =
    (entry_code c, λ e. sym (named-error_name c) ∙ ap named e ∙ named-error_name d)

-- A value that no code has is looked up as `unknown`.
pub error_info_unregistered :
    (v : ℕ) → v ≡ 0 ⊎ last_code < v → error_info v ≡ error_info (value unknown)
unfolding error_info registry value
error_info_unregistered v (inl e) = rw e refl
error_info_unregistered v (inr l) = rw (lt→leb v 7 l) refl
