-- ===== src/Descriptors.antt =====
-- What a consumer declares of its content tables, and the values of their columns: ColumnType to
-- `affinity_holds`, `is_identifier`, `column_to_field` and `field_to_column` of
-- agent-ledger/src/store/descriptors.rs.
--
-- A double is what `Doubles` says of it. The serializer and the parser of JSON text are parameters.
pub mod Columns
pub mod Validate
use ronna_core.Prelude.{
  ℕ, ◌<◌, String, Bool, true, false, not, ◌&&◌, ◌||◌, Option, none, some, List, [], ◌∷◌, leb, ltb,
  if◌then◌else◌, str_eq,
}
use ronna_core.Block.{Value, i64_max}

pub data ColumnType : Type 0 where
  text integer real boolean json : ColumnType

pub record Column : Type 0 where
  pub name : String
  pub ty : ColumnType

pub record ColumnRef : Type 0 where
  pub table : String
  pub column : String

pub record ContentDescriptor : Type 0 where
  pub table : String
  pub domain : String
  pub kinds : List String
  pub columns : List Column
  pub reference_columns : List ColumnRef
  pub ephemeral : Bool
  pub quoted_text_column : Option String

pub data Affinity : Type 0 where
  text integer real numeric blob : Affinity

-- `contains` is the search in a text, after `to_ascii_uppercase`: functions of the library.
unfoldable pub affinity_of : (String → String → Bool) → (String → String) → String → Affinity
affinity_of contains upper declared =
    let has : String → Bool = contains (upper declared) in
    if has "INT"
    then Affinity.integer
    else if has "CHAR" || (has "CLOB" || has "TEXT")
    then Affinity.text
    else if is_empty (upper declared) || has "BLOB"
    then Affinity.blob
    else if has "REAL" || (has "FLOA" || has "DOUB")
    then Affinity.real
    else Affinity.numeric
  where
    is_empty : String → Bool
    is_empty s = str_eq s ""

unfoldable pub affinity_holds : ColumnType → Affinity → Bool
affinity_holds ColumnType.text Affinity.text = true
affinity_holds ColumnType.json Affinity.text = true
affinity_holds ColumnType.integer Affinity.integer = true
affinity_holds ColumnType.integer Affinity.numeric = true
affinity_holds ColumnType.boolean Affinity.integer = true
affinity_holds ColumnType.boolean Affinity.numeric = true
affinity_holds ColumnType.real Affinity.real = true
affinity_holds ColumnType.real Affinity.numeric = true
affinity_holds _ _ = false

-- A value of the database; `natural n` is the integer n and `negative n` is -(n + 1). The doubles
-- `F` are a parameter.
pub data SqlValue (F : Type 0) : Type 0 where
  null : SqlValue F
  natural : ℕ → SqlValue F
  negative : ℕ → SqlValue F
  real : F → SqlValue F
  text : String → SqlValue F
  blob : SqlValue F

-- Doubles as the code uses them, with the reading of an integer, and JSON as text.
pub record Doubles (F : Type 0) : Type 0 where
  pub as_f64 : Value → Option F
  pub from_f64 : F → Option Value
  pub of_natural : ℕ → F
  pub of_negative : ℕ → F

pub record Json : Type 0 where
  pub to_string : Value → Option String
  pub from_slice : String → Option Value

-- What a column gives: no field, a field, or a refusal of the value.
pub data Mapped {ℓ} (A : Type ℓ) : Type ℓ where
  fits : A → Mapped A
  mismatch : Mapped A

abbrev pub fitting {ℓ} : {A : Type ℓ} → Option A → Mapped A
fitting none = mismatch
fitting (some a) = fits a

abbrev pub present : Mapped Value → Mapped (Option Value)
present (fits v) = fits (some v)
present mismatch = mismatch

module _ {F : Type 0} (doubles : Doubles F) (serde : Json) where
  open doubles use {as_f64, from_f64, of_natural, of_negative}

  unfoldable pub integer_column : Value → Mapped (SqlValue F)
  integer_column (Value.uint n) = if leb n i64_max then fits (natural n) else mismatch
  integer_column (Value.nint n) = if leb n i64_max then fits (negative n) else mismatch
  integer_column _ = mismatch

  unfoldable pub is_number : Value → Bool
  is_number (Value.uint n) = true
  is_number (Value.nint n) = true
  is_number (Value.float f) = true
  is_number _ = false

  unfoldable pub typed_column : ColumnType → Value → Mapped (SqlValue F)
  typed_column ColumnType.text (Value.str s) = fits (SqlValue.text s)
  typed_column ColumnType.integer v = integer_column v
  typed_column ColumnType.real v =
      if is_number v
      then fitting (elim (as_f64 v) [ none ↦ none | some f ↦ some (SqlValue.real f) ])
      else mismatch
  typed_column ColumnType.boolean (Value.bool b) = fits (natural (if b then 1 else 0))
  typed_column ColumnType.json v =
      fitting (elim (serde.to_string v) [ none ↦ none | some s ↦ some (SqlValue.text s) ])
  typed_column _ _ = mismatch

  unfoldable pub field_to_column : ColumnType → Value → Mapped (SqlValue F)
  unfolding integer_column is_number typed_column
  field_to_column ty Value.null = fits SqlValue.null
  field_to_column ty v = typed_column ty v

  unfoldable pub column_to_field : ColumnType → SqlValue F → Mapped (Option Value)
  column_to_field ty SqlValue.null = fits none
  column_to_field ColumnType.text (SqlValue.text s) = fits (some (Value.str s))
  column_to_field ColumnType.integer (natural n) = fits (some (Value.uint n))
  column_to_field ColumnType.integer (negative n) = fits (some (Value.nint n))
  column_to_field ColumnType.boolean (natural n) = fits (some (Value.bool (ltb 0 n)))
  column_to_field ColumnType.boolean (negative n) = fits (some (Value.bool true))
  column_to_field ColumnType.real (natural n) = present (fitting (from_f64 (of_natural n)))
  column_to_field ColumnType.real (negative n) = present (fitting (from_f64 (of_negative n)))
  column_to_field ColumnType.real (SqlValue.real f) = present (fitting (from_f64 f))
  column_to_field ColumnType.json (SqlValue.text s) = present (fitting (serde.from_slice s))
  column_to_field _ _ = mismatch
