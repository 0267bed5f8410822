-- ===== src/Agency/Fields.antt =====
-- How a kind reads a payload field: the ends of crates/agent-ledger/src/agency/mod.rs.
use ronna_core.Prelude.{ℕ, String, Bool, false, Option, ltb, bind, get_or, then_some}
use ronna_core.Block.{Block, get, as_str, as_bool, as_natural_i64}

unfoldable pub string_field : Block → String → String
string_field block key = get_or (bind (get block.fields key) as_str) ""

unfoldable pub optional_string_field : Block → String → Option String
optional_string_field block key = bind (get block.fields key) as_str

-- A flag that is read as `and_then(Value::as_bool).unwrap_or(false)`.
unfoldable pub bool_field : Block → String → Bool
bool_field block key = get_or (bind (get block.fields key) as_bool) false

unfoldable pub id_field : Block → String → Option ℕ
id_field block key =
    bind (bind (get block.fields key) as_natural_i64) (λ id. then_some (ltb 0 id) id)
