-- ===== src/Tests/Declared.antt =====
-- A consumer's content table, at concrete columns.
use ronna_core.Prelude.{
  ℕ, String, true, false, Option, none, some, [], ◌∷◌, ◌≡◌, refl, str_eq, arith, here, there,
}
use ronna_core.Block.{Value}
use ronna_core.Agency.Kinds.{contains_kind}
use ronna_core.Descriptors.{
  ColumnType, ContentDescriptor, Doubles, Json, fits, column_to_field, negative,
}
use ronna_core.Descriptors.Columns.{column_to_field-field_to_column}
use ronna_core.Descriptors.Validate.{
  Schema, TableColumn, validate, descriptor_for_kind, core_kinds, kind_taken,
}
use ronna_core.Descriptors.Validate.Owners.{validate-descriptor_for_kind}
use ronna_core.Tests.Evaluated.{evaluated}

abbrev doubles : Doubles String
doubles = record {
  as_f64 = λ v. none;
  from_f64 = λ f. some (Value.float f);
  of_natural = λ n. "";
  of_negative = λ n. "";
}

-- A serializer of texts alone.
abbrev serde : Json
serde = record { to_string = written; from_slice = λ s. some (Value.str s) }
  where
    written : Value → Option String
    written (Value.str s) = some s
    written _ = none

column_to_field-field_to_column_example :
    column_to_field doubles serde ColumnType.integer (negative 4) ≡ fits (some (Value.nint 4))
unfolding evaluated
column_to_field-field_to_column_example =
    column_to_field-field_to_column doubles serde ColumnType.integer (Value.nint 4) (negative 4)
      (λ e. ground arith) (λ e. ground arith) refl

abbrev column : String → String → ℕ → TableColumn
column name type pk = record { name = name; declared_type = type; pk_position = pk }

abbrev schema : Schema
schema = record {
  table_exists = λ t. true;
  table_shape = λ t. column "block_id" "INTEGER" 1 ∷ column "body" "TEXT" 0 ∷ [];
  is_without_rowid = λ t. false;
  block_id_cascades = λ t. true;
  core_tables = "block_text" ∷ [];
  is_identifier = λ t. true;
  contains = λ t part. str_eq t part;
  to_uppercase = λ t. t;
}

abbrev note : String → String → ContentDescriptor
note table kind = record {
  table = table;
  domain = "notes";
  kinds = kind ∷ [];
  columns = record { name = "body"; ty = ColumnType.text } ∷ [];
  reference_columns = record { table = "notes"; column = "body" } ∷ [];
  ephemeral = false;
  quoted_text_column = some "body";
}

-- A kind that two descriptors claim is refused.
two_owners :
    validate schema (note "notes" "note" ∷ note "remarks" "note" ∷ []) []
    ≡ some ("remarks", kind_taken)
unfolding evaluated
two_owners = refl

accepted : validate schema (note "notes" "note" ∷ note "remarks" "remark" ∷ []) ("old" ∷ []) ≡ none
unfolding evaluated
accepted = refl

validate-descriptor_for_kind_example :
    (descriptor_for_kind (note "notes" "note" ∷ note "remarks" "remark" ∷ []) "remark"
      ≡ some (note "remarks" "remark"))
    × (contains_kind core_kinds "remark" ≡ false)
unfolding evaluated
validate-descriptor_for_kind_example =
    validate-descriptor_for_kind schema (note "notes" "note" ∷ note "remarks" "remark" ∷ [])
      ("old" ∷ []) (note "remarks" "remark") "remark" accepted (there here) refl
