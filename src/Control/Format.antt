-- ===== src/Control/Format.antt =====
-- `format_socket`, `format_target`, `format_service` and the search by name of src/control/control.rs.
use Prim.Native.String.{String}
use text.Mathlib.Text.{starts_with}
use rustysd.Prelude.{ℕ, List, [], ◌∷◌, Option, none, some, if◌then◌else◌}
use rustysd.Units.Id.{UnitId}
use rustysd.Units.Config.{SpecializedSocketConfig, SingleSocketConfig}
use rustysd.Units.Status.{UnitStatus}
use rustysd.Units.Unit.{UnitEntry, Specific, service, socket, target}
use rustysd.Units.Runtime.{UnitTable}
use rustysd.Control.Json.{string, array, Object, empty, Items, nil, cons, insert_field}

-- The texts that `{:?}` makes of a status, a time since, a number and a socket.
pub record DebugTexts : Type 0 where
  pub of_status : UnitStatus → String
  pub of_elapsed : ℕ → String
  pub of_count : ℕ → String
  pub of_socket : SpecializedSocketConfig → String

unfoldable pub id_names : List UnitId → Items
id_names [] = nil
id_names (id ∷ ids) = cons (string id.name) (id_names ids)

module _ (texts : DebugTexts) where
  unfoldable pub format_target : UnitEntry → UnitStatus → Object
  unfolding insert_field
  format_target unit status =
      insert_field "Status" (string (texts.of_status status))
        (insert_field "Name" (string unit.id.name) empty)

  unfoldable pub socket_texts : List SingleSocketConfig → Items
  socket_texts [] = nil
  socket_texts (conf ∷ confs) =
      cons (string (texts.of_socket conf.specialized)) (socket_texts confs)

  unfoldable pub socket_fields : UnitEntry → Specific → Object → Object
  unfolding insert_field socket_texts
  socket_fields unit (socket sock) m =
      insert_field "FileDescriptors" (array (socket_texts sock.conf.sockets))
        (insert_field "FileDescriptorname" (string unit.id.name) m)
  socket_fields unit (service srvc) m = m
  socket_fields unit (target common) m = m

  -- The first two fields are those of a target.
  unfoldable pub format_socket : UnitEntry → UnitStatus → Object
  unfolding socket_fields format_target
  format_socket unit status = socket_fields unit unit.specific (format_target unit status)

  unfoldable pub up_since_field : Option ℕ → Object → Object
  unfolding insert_field
  up_since_field none m = m
  up_since_field (some instant) m = insert_field "UpSince" (string (texts.of_elapsed instant)) m

  unfoldable pub service_fields : Specific → Object → Object
  unfolding insert_field id_names up_since_field
  service_fields (service srvc) m =
      insert_field "Restarted" (string (texts.of_count srvc.state.common.restart_count)) (
        up_since_field srvc.state.common.up_since
          (insert_field "Sockets" (array (id_names srvc.conf.sockets)) m))
  service_fields (socket sock) m = m
  service_fields (target common) m = m

  unfoldable pub format_service : UnitEntry → UnitStatus → Object
  unfolding service_fields format_target
  format_service unit status = service_fields unit.specific (format_target unit status)

-- `find_units_with_name`, and `find_units_with_pattern`, which is the same: a name is matched by its beginning.
unfoldable pub find_units_with_name : String → UnitTable → List UnitEntry
find_units_with_name unit_name [] = []
find_units_with_name unit_name ((_, unit) ∷ units) =
    let rest = find_units_with_name unit_name units in
    if starts_with unit.id.name unit_name then unit ∷ rest else rest
