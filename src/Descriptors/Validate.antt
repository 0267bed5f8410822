-- ===== src/Descriptors/Validate.antt =====
-- The checks of the descriptors at open: `validate`, `validate_columns`, `validate_quotable_column`,
-- `validate_references`, `validate_key` and `descriptor_for_kind` of
-- agent-ledger/src/store/descriptors.rs.
--
-- A check gives the first reason to refuse, if there is one, in place of its words. The schema is a
-- parameter, and its reads succeed.
pub mod Owners
use ronna_core.Prelude.{
  ℕ, String, Bool, true, false, not, ◌&&◌, ◌||◌, Option, none, some, List, [], ◌∷◌, ◌++◌, map,
  str_eq, ltb, ◌==◌, if◌then◌else◌, or_else, ◌⊎◌, inl, inr, find, filter, any, length,
}
use ronna_core.Agency.Kinds.{contains_kind}
use ronna_core.Descriptors.{
  ColumnType, Column, ColumnRef, ContentDescriptor, Affinity, affinity_of, affinity_holds,
}

pub record TableColumn : Type 0 where
  pub name : String
  pub declared_type : String
  pub pk_position : ℕ

-- The pragmas of the schema, and the functions on text that the checks use.
pub record Schema : Type 0 where
  pub table_exists : String → Bool
  pub table_shape : String → List TableColumn
  pub is_without_rowid : String → Bool
  pub block_id_cascades : String → Bool
  pub core_tables : List String
  pub is_identifier : String → Bool
  pub contains : String → String → Bool
  pub to_uppercase : String → String

pub data Reason : Type 0 where
  withdrawn_and_declared not_identifier core_domain library_table table_taken no_table : Reason
  no_block_id not_rowid_alias without_rowid no_cascade : Reason
  reserved_column no_column role_not_text blob_affinity lossy_affinity : Reason
  quotable_undeclared quotable_role quotable_not_text quotable_ephemeral : Reason
  library_kind kind_taken unowned_reference reference_without_table reference_without_column :
      Reason

abbrev pub refuse_if : Bool → Reason → Option Reason
refuse_if b reason = if b then some reason else none

-- The first reason that a list of checks gives.
unfoldable pub first_of : List (Option Reason) → Option Reason
first_of [] = none
first_of (check ∷ checks) = or_else check (first_of checks)

abbrev pub reserved_columns : List String
reserved_columns = "id" ∷ "type" ∷ "created_at" ∷ "dispatch_anchor" ∷ "block_id" ∷ []

abbrev pub core_kinds : List String
core_kinds =
    "text" ∷ "streaming" ∷ "system_prompt" ∷ "quote" ∷ "code" ∷ "thinking" ∷ "streaming_thinking"
    ∷ "tool_call" ∷ "streaming_tool_call" ∷ "tool_result" ∷ "tool_error" ∷ "status"
    ∷ "approval_request" ∷ "approval_decision" ∷ "date_marker" ∷ "title_request" ∷ "title_response"
    ∷ "ancestor_reference" ∷ "harness_message" ∷ "tool_choice" ∷ []

unfoldable pub is_text_type : ColumnType → Bool
is_text_type ColumnType.text = true
is_text_type _ = false

unfoldable pub is_blob : Affinity → Bool
is_blob Affinity.blob = true
is_blob _ = false

-- `descriptor_for_kind`
unfoldable pub descriptor_for_kind : List ContentDescriptor → String → Option ContentDescriptor
descriptor_for_kind descriptors kind = find (λ d. contains_kind d.kinds kind) descriptors

-- The kinds of one descriptor: the kinds claimed with them, or a reason.
unfoldable pub claim_kinds : List String → List String → Reason ⊎ List String
claim_kinds [] claimed = inr claimed
claim_kinds (kind ∷ kinds) claimed =
    let rest = claim_kinds kinds (kind ∷ claimed) in
    if contains_kind core_kinds kind
    then inl library_kind
    else if contains_kind claimed kind
    then inl kind_taken
    else rest

module _ (schema : Schema) where
  open schema use {table_exists, table_shape, is_identifier, core_tables}

  unfoldable pub column_shape : Column → Option TableColumn → Option Reason
  column_shape column none = some no_column
  column_shape column (some existing) =
      let affinity = affinity_of schema.contains schema.to_uppercase existing.declared_type in
      first_of (
        refuse_if (str_eq column.name "role" && not (is_text_type column.ty)) role_not_text
        ∷ refuse_if (is_blob affinity) blob_affinity
        ∷ refuse_if (not (affinity_holds column.ty affinity)) lossy_affinity
        ∷ [])

  unfoldable pub quotable_column : ContentDescriptor → String → Option Column → Option Reason
  quotable_column d quotable none = some quotable_undeclared
  quotable_column d quotable (some column) = first_of (
      refuse_if (str_eq quotable "role") quotable_role
      ∷ refuse_if (not (is_text_type column.ty)) quotable_not_text
      ∷ refuse_if d.ephemeral quotable_ephemeral
      ∷ [])

  unfoldable pub validate_quotable_column : ContentDescriptor → Option String → Option Reason
  validate_quotable_column d none = none
  validate_quotable_column d (some quotable) =
      quotable_column d quotable (find (λ c. str_eq c.name quotable) d.columns)

  unfoldable pub validate_columns : ContentDescriptor → List TableColumn → Option Reason
  validate_columns d shape =
      or_else
        (first_of (
          map
            (λ column.
              or_else (refuse_if (contains_kind reserved_columns column.name) reserved_column)
                (column_shape column (find (λ c. str_eq c.name column.name) shape)))
            d.columns))
        (validate_quotable_column d d.quoted_text_column)

  unfoldable pub key_column :
      ContentDescriptor → List TableColumn → Option TableColumn → Option Reason
  key_column d shape none = some no_block_id
  key_column d shape (some block_id) =
      let pk_count = length (filter (λ c. ltb 0 c.pk_position) shape) in
      first_of (
        refuse_if
          (not (pk_count == 1)
            || (not (block_id.pk_position == 1)
                || not (str_eq (schema.to_uppercase block_id.declared_type) "INTEGER")))
          not_rowid_alias
        ∷ refuse_if (schema.is_without_rowid d.table) without_rowid
        ∷ refuse_if (not (schema.block_id_cascades d.table)) no_cascade
        ∷ [])

  unfoldable pub validate_key : ContentDescriptor → List TableColumn → Option Reason
  validate_key d shape = key_column d shape (find (λ c. str_eq c.name "block_id") shape)

  unfoldable pub validate_references : List String → ContentDescriptor → Option Reason
  validate_references descriptor_tables d = first_of (
      map
        (λ r. first_of (
          refuse_if (not (contains_kind descriptor_tables r.table)) unowned_reference
          ∷ refuse_if (not (table_exists r.table)) reference_without_table
          ∷ refuse_if (not (any (λ c. str_eq c.name r.column) (table_shape r.table)))
              reference_without_column
          ∷ []))
        d.reference_columns)

  -- Every name that a descriptor declares.
  unfoldable pub declared_names : ContentDescriptor → List String
  declared_names d =
      d.table ∷ d.domain ∷ map (λ c. c.name) d.columns
      ++ d.kinds
      ++ reference_names d.reference_columns
    where
      reference_names : List ColumnRef → List String
      reference_names [] = []
      reference_names (r ∷ rs) = r.table ∷ r.column ∷ reference_names rs

  -- The checks before the kinds.
  unfoldable pub validate_table : List String → ContentDescriptor → Option Reason
  validate_table claimed_tables d = first_of (
      refuse_if (any (λ name. not (is_identifier name)) (declared_names d)) not_identifier
      ∷ refuse_if (str_eq d.domain "core") core_domain
      ∷ refuse_if (contains_kind core_tables d.table) library_table
      ∷ refuse_if (contains_kind claimed_tables d.table) table_taken
      ∷ refuse_if (not (table_exists d.table)) no_table
      ∷ validate_key d (table_shape d.table)
      ∷ validate_columns d (table_shape d.table)
      ∷ [])

  -- The loop over the descriptors: the table that is refused, and the reason.
  unfoldable pub validate_each :
      List String → List ContentDescriptor → List String → List String → Option (String × Reason)
  validate_each descriptor_tables [] claimed_tables claimed_kinds = none
  validate_each descriptor_tables (d ∷ ds) claimed_tables claimed_kinds =
      elim (validate_table claimed_tables d) [
        | some reason ↦ some (d.table, reason)
        | none ↦ elim (claim_kinds d.kinds claimed_kinds) [
          | inl reason ↦ some (d.table, reason)
          | inr claimed ↦ elim (validate_references descriptor_tables d) [
            | some reason ↦ some (d.table, reason)
            | none ↦ validate_each descriptor_tables ds (d.table ∷ claimed_tables) claimed
          ]
        ]
      ]

  unfoldable pub validate : List ContentDescriptor → List String → Option (String × Reason)
  validate descriptors withdrawn =
      let descriptor_tables = map (λ d. d.table) descriptors in
      elim (find (λ table. contains_kind descriptor_tables table) withdrawn) [
        | some table ↦ some (table, withdrawn_and_declared)
        | none ↦ validate_each descriptor_tables descriptors [] []
      ]
