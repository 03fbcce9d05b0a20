-- ===== src/Orders/Insert.antt =====
-- INSERT INTO orders, with the constraints of migrations/versions/0002_core_ledger.py that it may
-- break: the primary key, and `order_user_request_unique`.
use digital_services_platfor.Base.{
  ℕ, ◌+◌, Bool, ◌&&◌, ◌||◌, none, List, [], ◌∷◌, ◌==◌, eqb, exists, update_where,
}
use digital_services_platfor.Text.{Text-discrete}
use digital_services_platfor.Exec.{unique_violation, Exec, gets, ◌>>=◌, ◌>>◌, raise_if, modify}
use digital_services_platfor.Schema.{OrderRow, OrderStatus, RowId, Db, OrderFile, JobStatus}

abbrev pub order_conflicts : OrderRow → OrderRow → Bool
order_conflicts new r =
    r.id == new.id
    || (r.user_id == new.user_id && eqb Text-discrete r.client_request_key new.client_request_key)

unfoldable pub insert_order : OrderRow → Exec Db (Unit {0})
insert_order new = do
  conflict ← gets (λ db. exists (order_conflicts new) db.orders)
  raise_if conflict (unique_violation "orders")
  modify λ db. record db { orders = new ∷ db.orders }

abbrev status_set : OrderStatus → OrderRow → OrderRow
status_set status r = record r { status = status }

-- UPDATE orders SET status=… WHERE id=…
unfoldable pub set_order_status : RowId → OrderStatus → Exec Db (Unit {0})
set_order_status o status =
    modify λ db. record db { orders = update_where (λ r. r.id == o) (status_set status) db.orders }

-- A job or an order is inserted with its inputs in order, `enumerate(file_ids)`.
abbrev input_rows : RowId → ℕ → List RowId → List OrderFile → List OrderFile
input_rows o position [] rows = rows
input_rows o position (f ∷ fs) rows =
    input_rows o (position + 1) fs
      (record { order_id = o; position = position; file_id = f } ∷ rows)

unfoldable pub insert_order_files : RowId → List RowId → Exec Db (Unit {0})
insert_order_files o fs = modify λ db. record db { order_files = input_rows o 0 fs db.order_files }

-- INSERT INTO jobs (id,order_id,status) VALUES (…,'PENDING'), with the defaults of the table.
unfoldable pub insert_job : RowId → RowId → Exec Db (Unit {0})
insert_job job o = modify λ db. record db {
  jobs =
      record {
        id = job;
        order_id = o;
        status = JobStatus.pending;
        attempt_count = 0;
        max_attempts = 3;
        error_code = none;
        started_at = none;
        result_file_id = none;
      }
      ∷ db.jobs;
}
