-- ===== src/Crud/Calls.antt =====
-- The handlers of framework/crud.py that write, as calls, and runs of them.
use json_api_forge.Prelude.{nat_eq, Bool, List, [], ◌∷◌, string_eq}
use json_api_forge.Prelude.Text.{text_eq}
use json_api_forge.Security.Permissions.{Principal}
use json_api_forge.Crud.Model.{Value, Row, Columns, Resource}
use json_api_forge.Crud.Fields.{Payload}
use json_api_forge.Crud.Engine.{Engine}
use json_api_forge.Crud.Writes.{create_row, batch_create_rows, update_row, delete_row}

-- A call of a handler that writes. The ones that read leave the rows as they are.
pub data Call : Type 0 where
  creates : Payload → Call
  creates_batch : List Payload → Call
  updates : Value → Payload → Bool → Call
  deletes : Value → Value → Call

-- The rows that are left by a call, and by calls one after the other.
unfoldable pub handle : Engine → Columns → Resource → Principal → Call → List Row → List Row
handle engine table resource principal (creates payload) rows =
    (create_row engine table resource principal payload rows).0
handle engine table resource principal (creates_batch payloads) rows =
    (batch_create_rows engine table resource principal payloads rows).0
handle engine table resource principal (updates item_id payload replaces) rows =
    (update_row engine table resource principal item_id payload replaces rows).0
handle engine table resource principal (deletes item_id now) rows =
    (delete_row engine table resource principal item_id now rows).0

unfoldable pub run : Engine → Columns → Resource → List (Principal × Call) → List Row → List Row
unfolding handle
run engine table resource [] rows = rows
run engine table resource ((principal, call) ∷ calls) rows =
    run engine table resource calls (handle engine table resource principal call rows)
