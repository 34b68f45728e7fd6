-- ===== src/Json.antt =====
-- JSON. The jansson library is not part of the repository: a section takes its value type with the
-- functions that the code calls, `Jansson`, and what their documentation says of them,
-- `IsJansson`. Values are modelled without sharing. `JSONParser` (common/jsonparser.cpp) is below.
use softwarecontainer.Common.{
  ◌≡◌, Bool, true, false, Option, none, some, List, [], ◌∷◌, ◌++◌, if◌then◌else◌, is_some,
}
use softwarecontainer.Common.Bytes.{Bytes}
use softwarecontainer.Common.Int.{ℤ, to_int32}

pub record Jansson (Json : Type 0) : Type 0 where
  -- json_object_get: no value stands for NULL, the answer for what is no object too.
  pub object_get : Json → Bytes → Option Json
  pub is_object : Json → Bool
  pub is_array : Json → Bool
  pub is_string : Json → Bool
  pub is_boolean : Json → Bool
  pub is_integer : Json → Bool
  pub is_true : Json → Bool
  pub string_value : Json → Bytes
  pub integer_value : Json → ℤ
  -- json_array_get at 0, 1, … below json_array_size, which json_array_foreach walks too.
  pub elements : Json → List Json
  pub deep_copy : Json → Json
  -- json_array_append: no value stands for -1.
  pub array_append : Json → Json → Option Json
  -- json_loads: no value stands for a parse error.
  pub loads : Bytes → Option Json

-- A deep copy is an equal value, and json_array_append adds at the end of an array.
pub record IsJansson {Json : Type 0} (j : Jansson Json) : Type 0 where
  pub deep_copy-eq : (v : Json) → j.deep_copy v ≡ v
  pub elements-array_append :
      (a v b : Json) → j.array_append a v ≡ some b → j.elements b ≡ j.elements a ++ v ∷ []

-- The out parameter of a `read` keeps its value where the key cannot be read, so each `read`
-- returns whether it succeeded, and the parameter.
abbrev pub read_as : {Json A : Type 0} → (Json → Bool) → (Json → A) → Option Json → A → Bool × A
read_as is value none result = (false, result)
read_as is value (some v) result = if is v then (true, value v) else (false, result)

module _ {Json : Type 0} ⦃j : Jansson Json⦄ where
  unfoldable pub read_string : Json → Bytes → Bytes → Bool × Bytes
  read_string element key = read_as j.is_string j.string_value (j.object_get element key)

  unfoldable pub read_bool : Json → Bytes → Bool → Bool × Bool
  read_bool element key = read_as j.is_boolean j.is_true (j.object_get element key)

  unfoldable pub read_int : Json → Bytes → ℤ → Bool × ℤ
  read_int element key =
      read_as j.is_integer (λ v. to_int32 (j.integer_value v)) (j.object_get element key)

  unfoldable pub has_key : Json → Bytes → Bool
  has_key element key = is_some (j.object_get element key)

  unfoldable pub read_optional_string : Json → Bytes → Bytes → Bool × Bytes
  unfolding has_key read_string
  read_optional_string element key result =
      if has_key element key then read_string element key result else (true, result)

  unfoldable pub read_optional_bool : Json → Bytes → Bool → Bool × Bool
  unfolding has_key read_bool
  read_optional_bool element key result =
      if has_key element key then read_bool element key result else (true, result)

  unfoldable pub read_optional_int : Json → Bytes → ℤ → Bool × ℤ
  unfolding has_key read_int
  read_optional_int element key result =
      if has_key element key then read_int element key result else (true, result)
