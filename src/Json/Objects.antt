-- ===== src/Json/Objects.antt =====
-- JsonBuilder.h and JsonBuilder.cpp: the fields of `JsonObject`, in their order. A moved-from
-- value is null. The fields of numbers go through `to_integer_safe` and `to_double` and are left
-- out.
use pxc_core.Prelude.{
  ℕ, suc, ◌==◌, ◌≡◌, ◌≢◌, ◌⊎◌, refl, ap, sym, ◌∙◌, if◌then◌else◌, Bool, true, false, not, ◌&&◌,
  Option, none, some, List, [], ◌∷◌, Result, error, ok, arith, Bool-cases, inl, inr,
}
use pxc_core.Json.Values.{Value, null, number, boolean, string, array, object, Fields, end, field}

-- `Slice` equality.
abbrev pub same : List ℕ → List ℕ → Bool
same [] [] = true
same [] (y ∷ ys) = false
same (x ∷ xs) [] = false
same (x ∷ xs) (y ∷ ys) = x == y && same xs ys

pub data ValueType : Type 0 where
  null_type number_type boolean_type string_type array_type object_type : ValueType

abbrev pub type : Value → ValueType
type null = null_type
type (number n) = number_type
type (boolean b) = boolean_type
type (string s) = string_type
type (array xs) = array_type
type (object fs) = object_type

-- The place of a type in `JsonValueType`.
abbrev pub type_code : ValueType → ℕ
type_code null_type = 0
type_code number_type = 1
type_code boolean_type = 2
type_code string_type = 3
type_code array_type = 4
type_code object_type = 5

pub data FieldError : Type 0 where
  wrong_type missing : FieldError

abbrev pub field_count : Fields → ℕ
field_count end = 0
field_count (field name v fs) = suc (field_count fs)

-- `get_field`: `none` is a null pointer.
unfoldable pub get_field : List ℕ → Fields → Option Value
get_field name end = none
get_field name (field n v fs) = if same n name then some v else get_field name fs

unfoldable pub has_field : List ℕ → Fields → Bool
unfolding get_field
has_field name fs = elim (get_field name fs) [ none ↦ false | some v ↦ true ]

-- The object after the first field of the name was moved from.
unfoldable pub clear_field : List ℕ → Fields → Fields
clear_field name end = end
clear_field name (field n v fs) =
    if same n name then field n null fs else field n v (clear_field name fs)

unfoldable pub extract_field : List ℕ → Fields → Value × Fields
unfolding get_field clear_field
extract_field name fs = elim (get_field name fs) [
  | none ↦ (null, fs)
  | some v ↦ (v, clear_field name fs)
]

-- The value of a field that is there, and the object behind it.
unfoldable pub extract_typed :
    ValueType → List ℕ → Fields → Value → Result FieldError Value × Fields
unfolding clear_field
extract_typed t name fs v =
    if not (type_code t == 0) && not (type_code (type v) == type_code t)
    then (error wrong_type, fs)
    else (ok v, clear_field name fs)

unfoldable pub extract_optional_field :
    List ℕ → ValueType → Fields → Result FieldError Value × Fields
unfolding get_field extract_typed
extract_optional_field name t fs = elim (get_field name fs) [
  | none ↦ (ok null, fs)
  | some v ↦ extract_typed t name fs v
]

unfoldable pub extract_required_field :
    List ℕ → ValueType → Fields → Result FieldError Value × Fields
unfolding get_field extract_typed
extract_required_field name t fs = elim (get_field name fs) [
  | none ↦ (error missing, fs)
  | some v ↦ extract_typed t name fs v
]

abbrev pub bool_value : Value → Result FieldError Bool
bool_value (boolean b) = ok b
bool_value null = error wrong_type
bool_value (number n) = error wrong_type
bool_value (string s) = error wrong_type
bool_value (array xs) = error wrong_type
bool_value (object fs) = error wrong_type

unfoldable pub get_optional_bool_field : List ℕ → Bool → Fields → Result FieldError Bool
unfolding get_field
get_optional_bool_field name default fs = elim (get_field name fs) [
  | none ↦ ok default
  | some v ↦ bool_value v
]

unfoldable pub get_required_bool_field : List ℕ → Fields → Result FieldError Bool
unfolding get_field
get_required_bool_field name fs = elim (get_field name fs) [
  | none ↦ error missing
  | some v ↦ bool_value v
]

abbrev pub string_value : Value → Result FieldError (List ℕ)
string_value (string s) = ok s
string_value (number n) = ok n
string_value null = error wrong_type
string_value (boolean b) = error wrong_type
string_value (array xs) = error wrong_type
string_value (object fs) = error wrong_type

unfoldable pub get_optional_string_field : List ℕ → List ℕ → Fields → Result FieldError (List ℕ)
unfolding get_field
get_optional_string_field name default fs = elim (get_field name fs) [
  | none ↦ ok default
  | some v ↦ string_value v
]

unfoldable pub get_required_string_field : List ℕ → Fields → Result FieldError (List ℕ)
unfolding get_field
get_required_string_field name fs = elim (get_field name fs) [
  | none ↦ error missing
  | some v ↦ string_value v
]

pub same_refl : (xs : List ℕ) → same xs xs ≡ true
same_refl [] = refl
same_refl (x ∷ xs) = ground (arith, same_refl xs)

pub same-eq : (xs ys : List ℕ) → same xs ys ≡ true → xs ≡ ys
same-eq [] [] h = refl
same-eq [] (y ∷ ys) h = cc
same-eq (x ∷ xs) [] h = cc
same-eq (x ∷ xs) (y ∷ ys) h = ground (arith, same-eq xs ys)

get_field-clear_field :
    (name other : List ℕ) (fs : Fields)
    → get_field other (clear_field name fs) ≡ (
        if same name other
        then (if has_field name fs then some null else none)
        else get_field other fs)
unfolding get_field clear_field has_field
get_field-clear_field name other end = ground arith
get_field-clear_field name other (field n v fs) = elim (Bool-cases (same n name)) [
  | inl e ↦
      let eq : n ≡ name = same-eq n name e in
      let there : has_field name (field name v fs) ≡ true =
        rw (has_field, get_field, same_refl name) refl in
      rw (eq, same_refl name)
        (elim (Bool-cases (same name other)) [ inl h ↦ rw (h, there) refl | inr h ↦ rw h refl ])
  | inr e ↦ rw e (elim (Bool-cases (same n other)) [
    | inr h ↦
        let kept : has_field name (field n v fs) ≡ has_field name fs = rw (has_field, e) refl in
        rw (h, kept) (get_field-clear_field name other fs)
    | inl h ↦
        let eq : n ≡ other = same-eq n other h in
        let apart : same name other ≡ false = elim (Bool-cases (same name other)) [
          | inr k ↦ k
          | inl k ↦
              let eq' : n ≡ name = eq ∙ sym (same-eq name other k) in
              absurd (cc (e, ap (λ l. same l name) eq', same_refl name))
        ] in
        rw (h, apart) refl
  ])
]

-- In an object that has a field of a name, and whose first one is of the type or the type asked
-- for is null, extracting that required field gives its value. It leaves null there, so that the
-- next extraction for a type other than null is an error, and it leaves the fields of every other
-- name as they are.
pub extract_required_field_twice :
    (name other : List ℕ) (t t' : ValueType) (fs : Fields) (v : Value)
    → get_field name fs ≡ some v
    → (type_code t ≡ 0) ⊎ (type_code (type v) ≡ type_code t)
    → type_code t' ≢ 0
    → ((extract_required_field name t fs).0 ≡ ok v)
      × (get_field other (extract_required_field name t fs).1
          ≡ (if same name other then some null else get_field other fs))
      × ((extract_required_field name t' (extract_required_field name t fs).1).0 ≡ error wrong_type)
unfolding extract_required_field extract_typed has_field
extract_required_field_twice name other t t' fs v h k apart =
    let test : (not (type_code t == 0) && not (type_code (type v) == type_code t)) ≡ false =
      ground (arith, k) in
    let there : has_field name fs ≡ true = rw (has_field, h) refl in
    let others : (o : List ℕ)
        → get_field o (clear_field name fs) ≡ (if same name o then some null else get_field o fs) =
      λ o.
        get_field-clear_field name o fs
        ∙ ap (λ b. if same name o then (if b then some null else none) else get_field o fs) there in
    let again : get_field name (clear_field name fs) ≡ some null =
      others name ∙ (rw (same_refl name) refl) in
    let test' : (not (type_code t' == 0) && not (0 == type_code t')) ≡ true = ground arith in
    let first : extract_required_field name t fs ≡ (ok v, clear_field name fs) =
      rw (h, extract_required_field, extract_typed, test) refl in
    rw first (refl, others other, rw (again, extract_required_field, extract_typed, test') refl)
