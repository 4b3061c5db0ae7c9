-- ===== src/Sql/Executor/Examples.antt =====
-- An engine that fails, and one that makes a table, fills it and reads it.
use nutdb.Prelude.{◌≡◌, refl, true, none, some, [], ◌∷◌}
use nutdb.Prelude.Int.{pos}
use nutdb.Prelude.Io.{ok, err, Error, ErrorKind}
use nutdb.Prelude.TreeMap
use nutdb.Bytes.{to_le_bytes, from_le_bytes}
use nutdb.Wal
use nutdb.Txn.Codec
use nutdb.Sql.Executor
use nutdb.Sql.Executor.Engine
use nutdb.Sql.Executor.Rows
use nutdb.Sql.Filter
use nutdb.Catalog
use nutdb.Catalog.Strings
use nutdb.Catalog.Values
use nutdb.Txn.Ops
use nutdb.Txn.Scan
use nutdb.Txn.Versions
use nutdb.Sql.Plan
use nutdb.Prelude.Int
use nutdb.Sql.Ast.{DataType, Expr, Projection, SqlResult, Statement, Value, BinaryOp}
use nutdb.Sql.Filter.{Eval}
use nutdb.Txn.Ops.{Inner}
use nutdb.Sql.Executor.Engine.{SqlEngine, execute_statement, execute_all}
use nutdb.Sql.Executor.Failed.{execute_statement_failed}

abbrev fresh : SqlEngine
fresh = record {
  store = record {
    wal = record { file = []; synced = 0 };
    versions = [];
    active = [];
    next_txn = 1;
    commit_ts = 0;
  };
  active = none;
}

-- `INSERT INTO T (A) VALUES (1)` without a table
abbrev insert_one : Statement
insert_one = Statement.insert (84 ∷ []) ((65 ∷ []) ∷ []) (Value.integer (pos 1) ∷ [])

abbrev unknown_table : Error
unknown_table = record { kind = ErrorKind.invalid_input; message = "sql: unknown table" }

insert_fails :
    execute_statement insert_one fresh
    ≡ (some (err unknown_table), (execute_statement insert_one fresh).1)
unfolding Executor.pure Executor.lift Executor.get_key Executor.set_key Executor.delete_key
    Executor.save Executor.load Executor.scan Executor.create_table Executor.checked
    Executor.unassigned Executor.insert_values Executor.insert Executor.assign_all Executor.move_key
    Executor.update_row Executor.delete_row Executor.on_matching Executor.update Executor.delete
    Engine.select_data Engine.explain_data Engine.execute_data Engine.answer Engine.end_own
    Engine.keep_active Engine.run_own Engine.with_transaction Engine.begun Engine.execute_statement
    Engine.execute_all Engine.execute Rows.decode_pair Rows.all_rows Rows.row_of Rows.access_rows
    Rows.rank Rows.compare_for_sort Rows.stays_before Rows.insert_sorted Rows.sort_keyed Rows.pick
    Rows.pick_all Rows.keyed Rows.sort_rows Rows.truncate Rows.column_indexes Rows.indexes_from
    Rows.projection Rows.project Rows.planned Rows.select_rows Filter.compare_bool Filter.order_of
    Filter.holds Filter.compare Filter.truth Filter.and_value Filter.or_value Filter.logic_and
    Filter.logic_or Filter.column_value Filter.apply Filter.eval Filter.is_true
    Filter.matches_filter Filter.filter_rows Catalog.primary_keys Catalog.has_duplicate
    Catalog.validate Catalog.primary_index Catalog.column_index Catalog.catalog_key
    Catalog.row_prefix Catalog.encode_row Catalog.check_types Catalog.decode_row Catalog.kind_letter
    Catalog.encode_column Catalog.encode_schema Catalog.decode_kind Catalog.decode_flag
    Catalog.decode_fields Catalog.decode_schema Catalog.row_key_for_primary Catalog.row_key
    Catalog.txn_error Catalog.map_err Catalog.load_schema Catalog.save_schema Strings.join
    Strings.onto_first Strings.split Strings.strip_return Strings.lines_of Strings.lines
    Values.hex_digit Values.hex Values.digit Values.unhex_pairs Values.unhex Values.encode_value
    Values.decode_boolean Values.decode_tagged Values.decode_value Values.is_null Values.has_type
    Values.check_type Ops.exhausted Ops.log_record Ops.begin Ops.get_at Ops.get Ops.write Ops.set
    Ops.delete Ops.find_conflict Ops.finish Ops.drop_txn Ops.ended Ops.commit Ops.abort
    Scan.starts_with Scan.collect_row Scan.collect_rows Scan.is_before Scan.range_from
    Scan.write_row Scan.merge_writes Scan.scan_prefix Versions.visible_at Versions.last_modified
    Versions.find_visible Versions.chain_of Versions.visible_value Versions.chain_change
    Versions.latest_change Versions.close_last Versions.push_version Versions.write_chain
    Versions.apply_versions TreeMap.get TreeMap.insert TreeMap.remove Codec.put_u64 Codec.put_string
    Codec.encode to_le_bytes Wal.append Wal.sync Wal.frame
insert_fails = refl

execute_statement_failed_example :
    ((execute_statement insert_one fresh).1.store.versions ≡ fresh.store.versions)
    × ((execute_statement insert_one fresh).1.store.commit_ts ≡ fresh.store.commit_ts)
    × (fresh.active ≡ none → (execute_statement insert_one fresh).1.active ≡ none)
execute_statement_failed_example =
    execute_statement_failed insert_one fresh (execute_statement insert_one fresh).1 unknown_table
      insert_fails

abbrev make_table : Statement
make_table =
    Statement.create_table (84 ∷ [])
      (record { name = 65 ∷ []; data_type = DataType.integer; primary_key = true } ∷ [])

-- `SELECT * FROM T WHERE A = 1`
abbrev select_one : Statement
select_one = Statement.select (record {
  table = 84 ∷ [];
  projection = Projection.all;
  filter =
      some (Expr.binary BinaryOp.eq (Expr.column (65 ∷ [])) (Expr.literal (Value.integer (pos 1))));
  order_by = none;
  limit = none;
})

-- The row is made by one transaction and looked up by another.
table_runs :
    (execute_all (make_table ∷ insert_one ∷ select_one ∷ []) fresh).0
    ≡ some (
        ok (
          SqlResult.affected 0
          ∷ SqlResult.affected 1
          ∷ SqlResult.rows ((65 ∷ []) ∷ []) ((Value.integer (pos 1) ∷ []) ∷ [])
          ∷ []))
unfolding Executor.pure Executor.lift Executor.get_key Executor.set_key Executor.delete_key
    Executor.save Executor.load Executor.scan Executor.create_table Executor.checked
    Executor.unassigned Executor.insert_values Executor.insert Executor.assign_all Executor.move_key
    Executor.update_row Executor.delete_row Executor.on_matching Executor.update Executor.delete
    Engine.select_data Engine.explain_data Engine.execute_data Engine.answer Engine.end_own
    Engine.keep_active Engine.run_own Engine.with_transaction Engine.begun Engine.execute_statement
    Engine.execute_all Engine.execute Rows.decode_pair Rows.all_rows Rows.row_of Rows.access_rows
    Rows.rank Rows.compare_for_sort Rows.stays_before Rows.insert_sorted Rows.sort_keyed Rows.pick
    Rows.pick_all Rows.keyed Rows.sort_rows Rows.truncate Rows.column_indexes Rows.indexes_from
    Rows.projection Rows.project Rows.planned Rows.select_rows Filter.compare_bool Filter.order_of
    Filter.holds Filter.compare Filter.truth Filter.and_value Filter.or_value Filter.logic_and
    Filter.logic_or Filter.column_value Filter.apply Filter.eval Filter.is_true
    Filter.matches_filter Filter.filter_rows Catalog.primary_keys Catalog.has_duplicate
    Catalog.validate Catalog.primary_index Catalog.column_index Catalog.catalog_key
    Catalog.row_prefix Catalog.encode_row Catalog.check_types Catalog.decode_row Catalog.kind_letter
    Catalog.encode_column Catalog.encode_schema Catalog.decode_kind Catalog.decode_flag
    Catalog.decode_fields Catalog.decode_schema Catalog.row_key_for_primary Catalog.row_key
    Catalog.txn_error Catalog.map_err Catalog.load_schema Catalog.save_schema Strings.join
    Strings.onto_first Strings.split Strings.strip_return Strings.lines_of Strings.lines
    Values.hex_digit Values.hex Values.digit Values.unhex_pairs Values.unhex Values.encode_value
    Values.decode_boolean Values.decode_tagged Values.decode_value Values.is_null Values.has_type
    Values.check_type Ops.exhausted Ops.log_record Ops.begin Ops.get_at Ops.get Ops.write Ops.set
    Ops.delete Ops.find_conflict Ops.finish Ops.drop_txn Ops.ended Ops.commit Ops.abort
    Scan.starts_with Scan.collect_row Scan.collect_rows Scan.is_before Scan.range_from
    Scan.write_row Scan.merge_writes Scan.scan_prefix Versions.visible_at Versions.last_modified
    Versions.find_visible Versions.chain_of Versions.visible_value Versions.chain_change
    Versions.latest_change Versions.close_last Versions.push_version Versions.write_chain
    Versions.apply_versions TreeMap.get TreeMap.insert TreeMap.remove Codec.put_u64 Codec.put_string
    Codec.encode to_le_bytes Wal.append Wal.sync Wal.frame Plan.plan_select Plan.access_of
    Plan.primary_equality Plan.equated Int.to_bits Int.from_bits from_le_bytes
table_runs = refl
