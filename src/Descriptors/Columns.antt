-- ===== src/Descriptors/Columns.antt =====
-- What goes into a column comes out of it.
use ronna_core.Prelude.{
  ◌≡◌, ◌≢◌, refl, true, false, Option, none, some, Bool-cases, inl, inr, leb, subst,
}
use ronna_core.Block.{Value, i64_max}
use ronna_core.Descriptors.{
  ColumnType, SqlValue, Doubles, Json, Mapped, fits, mismatch, typed_column, integer_column,
  natural, negative, field_to_column, column_to_field,
}

-- A field, or none for a null.
abbrev pub kept : Value → Option Value
kept Value.null = none
kept v = some v

module _ {F : Type 0} (doubles : Doubles F) (serde : Json) where
  fits_from :
      (ty : ColumnType) (o : Option Value) (c d : SqlValue F)
      → column_to_field doubles serde ty d ≡ fits o
      → Path (Mapped (SqlValue F)) (fits d) (fits c)
      → column_to_field doubles serde ty c ≡ fits o
  fits_from ty o c d back fit =
      subst (λ x. column_to_field doubles serde ty x ≡ fits o) (inj fit) back
    where
      inj : Path (Mapped (SqlValue F)) (fits d) (fits c) → d ≡ c
      inj e = cc

  integer_back :
      (v : Value) (c : SqlValue F)
      → integer_column doubles serde v ≡ fits c
      → column_to_field doubles serde ColumnType.integer c ≡ fits (some v)
  unfolding integer_column column_to_field
  integer_back (Value.uint n) c fit = elim (Bool-cases (leb n i64_max)) [
    | inl small ↦
        fits_from ColumnType.integer (some (Value.uint n)) c (natural n) refl (rw small at fit)
    | inr large ↦ let no : Path (Mapped (SqlValue F)) mismatch (fits c) = rw large at fit in cc
  ]
  integer_back (Value.nint n) c fit = elim (Bool-cases (leb n i64_max)) [
    | inl small ↦
        fits_from ColumnType.integer (some (Value.nint n)) c (negative n) refl (rw small at fit)
    | inr large ↦ let no : Path (Mapped (SqlValue F)) mismatch (fits c) = rw large at fit in cc
  ]
  integer_back v c fit = cc

  typed_back :
      (ty : ColumnType) (v : Value) (c : SqlValue F)
      → ty ≢ ColumnType.real
      → ty ≢ ColumnType.json
      → typed_column doubles serde ty v ≡ fits c
      → column_to_field doubles serde ty c ≡ fits (some v)
  unfolding typed_column column_to_field
  typed_back ColumnType.text (Value.str s) c exact plain fit =
      fits_from ColumnType.text (some (Value.str s)) c (SqlValue.text s) refl fit
  typed_back ColumnType.integer v c exact plain fit = integer_back v c fit
  typed_back ColumnType.boolean (Value.bool true) c exact plain fit =
      fits_from ColumnType.boolean (some (Value.bool true)) c (natural 1) refl fit
  typed_back ColumnType.boolean (Value.bool false) c exact plain fit =
      fits_from ColumnType.boolean (some (Value.bool false)) c (natural 0) refl fit
  typed_back ColumnType.real v c exact plain fit = absurd (exact refl)
  typed_back ColumnType.json v c exact plain fit = absurd (plain refl)
  typed_back ty v c exact plain fit = cc

  -- A field of a text, integer or boolean column that the column takes is the field that is read
  -- back, and a null is read back as no field.
  pub column_to_field-field_to_column :
      (ty : ColumnType) (v : Value) (c : SqlValue F)
      → ty ≢ ColumnType.real
      → ty ≢ ColumnType.json
      → field_to_column doubles serde ty v ≡ fits c
      → column_to_field doubles serde ty c ≡ fits (kept v)
  unfolding field_to_column column_to_field
  column_to_field-field_to_column ty Value.null c exact plain fit =
      fits_from ty none c SqlValue.null refl fit
  column_to_field-field_to_column ty v c exact plain fit = typed_back ty v c exact plain fit
