-- ===== src/Tests/Values.antt =====
-- A small JSON, a container and gateways to run the theorems on.
use softwarecontainer.Common.{
  ℕ, suc, ◌≡◌, refl, Bool, true, false, Option, none, some, List, [], ◌∷◌, ◌++◌, if◌then◌else◌, ap,
  arith,
}
use softwarecontainer.Common.Bytes.{Bytes, bytes, ◌==◌}
use softwarecontainer.Common.Int.{ℤ, pos}
use softwarecontainer.Common.Throwing.{M, ok, pure}
use softwarecontainer.Json.{Jansson, IsJansson}
use softwarecontainer.ContainerInterface.{ContainerInterface}
use softwarecontainer.Agent.{SoftwareContainerInterface}

-- An array is `nil` or `item`s before it; an object is `empty` or `field`s before it.
pub data Value : Type 0 where
  text : Bytes → Value
  number : ℤ → Value
  flag : Bool → Value
  nil : Value
  item : Value → Value → Value
  empty : Value
  field : Bytes → Value → Value → Value

abbrev get : Value → Bytes → Option Value
get (field name value rest) key =
    let found = get rest key in if name == key then some value else found
get _ key = none

abbrev is_object : Value → Bool
is_object empty = true
is_object (field name value rest) = true
is_object _ = false

abbrev is_array : Value → Bool
is_array nil = true
is_array (item v rest) = true
is_array _ = false

abbrev is_string : Value → Bool
is_string (text s) = true
is_string _ = false

abbrev is_boolean : Value → Bool
is_boolean (flag b) = true
is_boolean _ = false

abbrev is_integer : Value → Bool
is_integer (number n) = true
is_integer _ = false

abbrev is_true : Value → Bool
is_true (flag b) = b
is_true _ = false

abbrev string_value : Value → Bytes
string_value (text s) = s
string_value _ = []

abbrev integer_value : Value → ℤ
integer_value (number n) = n
integer_value _ = pos 0

abbrev elements : Value → List Value
elements (item v rest) = v ∷ elements rest
elements _ = []

abbrev put : Value → Option Value → Option Value
put v none = none
put v (some rest) = some (item v rest)

abbrev array_append : Value → Value → Option Value
array_append nil w = some (item w nil)
array_append (item v rest) w = put v (array_append rest w)
array_append _ w = none

-- The options of the tests: a JSON array that enables the write buffer.
abbrev pub option_json : Value
option_json = item (field (bytes "writeBufferEnabled") (flag true) empty) nil

instance abbrev pub value_jansson : Jansson Value
value_jansson = record {
  object_get = get;
  is_object = is_object;
  is_array = is_array;
  is_string = is_string;
  is_boolean = is_boolean;
  is_integer = is_integer;
  is_true = is_true;
  string_value = string_value;
  integer_value = integer_value;
  elements = elements;
  deep_copy = λ v. v;
  array_append = array_append;
  loads = λ s. some option_json;
}

put-some :
    (v : Value) (o : Option Value) (b : Value)
    → put v o ≡ some b
    → (rest : Value) × (o ≡ some rest) × (b ≡ item v rest)
put-some v none b h = absurd (ground arith)
put-some v (some rest) b h = (rest, refl, ground arith)

elements-append : (a v b : Value) → array_append a v ≡ some b → elements b ≡ elements a ++ v ∷ []
elements-append (text s) v b h = absurd (ground arith)
elements-append (number n) v b h = absurd (ground arith)
elements-append (flag c) v b h = absurd (ground arith)
elements-append nil v b h = ground arith
elements-append (item w rest) v b h =
    let (rest', e, f) = put-some w (array_append rest v) b h in
    rw f (ap (λ l. w ∷ l) (elements-append rest v rest' e))
elements-append empty v b h = absurd (ground arith)
elements-append (field n w rest) v b h = absurd (ground arith)

pub value_IsJansson : IsJansson value_jansson
value_IsJansson = record { deep_copy-eq = λ v. refl; elements-array_append = elements-append }

-- A container that does whatever it is asked to, and counts the calls.
abbrev count : {A : Type 0} → A → M ℕ A
count a n = (ok a, suc n)

abbrev pub counting : ContainerInterface ℕ
counting = record {
  initialize = count true;
  create = count true;
  start = count true;
  suspend = count true;
  resume = count true;
  destroy = λ timeout. count true;
  mount_device = λ name. count true;
  bind_mount_in_container = λ host target read_only. count true;
  set_environment_variable = λ name value. count true;
  set_cgroup_item = λ name value. count true;
  run_job = λ job. count (pos 0);
}

-- A container as the agent sees it: whether it has been configured.
abbrev pub simple : SoftwareContainerInterface Value Bool
simple = record {
  start_gateways = λ conf c. (ok true, true);
  create_command_job = λ cmd. pure tt;
  start_job = λ cmd directory output env. pure (some 42);
  shutdown = λ timeout. pure tt;
  suspend = pure tt;
  resume = pure tt;
  bind_mount = λ host target read_only. pure true;
  previously_configured = λ c. c;
}
