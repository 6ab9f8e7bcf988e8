-- ===== src/Notifications.antt =====
-- The messages of services: `handle_notification_message` and `handle_notifications_from_buffer` of
-- src/notification_handler.rs. The reading from the sockets is not part of it.
pub mod Lines
pub mod Chunks
use Prim.Native.String.{String}
use text.Mathlib.Text.{◌==◌ as str_eq}
use rustysd.Prelude.{ℕ, zero, suc, true, List, [], ◌∷◌, ◌++◌, Option, none, some, if◌then◌else◌}
use rustysd.Prelude.Text.{split, split_at_char}
use rustysd.Units.Unit.{Service}

-- `split[1]` panics where there is no second part.
unfoldable pub push_status : List String → Service → Option Service
push_status (_ ∷ value ∷ _) srvc =
    some (record srvc { status_msgs = srvc.status_msgs ++ value ∷ [] })
push_status _ srvc = none

unfoldable pub handle_parts : List String → Service → Option Service
unfolding push_status
handle_parts [] srvc = none
handle_parts (key ∷ parts) srvc =
    if str_eq key "STATUS"
    then push_status (key ∷ parts) srvc
    else if str_eq key "READY"
    then some (record srvc { signaled_ready = true })
    else some srvc

-- `none` is a panic.
unfoldable pub handle_notification_message : String → Service → Option Service
unfolding handle_parts split
handle_notification_message msg srvc = handle_parts (split b'=' msg) srvc

-- `rest[1..]`, where the rest begins with the end of the line.
unfoldable pub drop_first : String → String
drop_first String.[] = ""
drop_first (String.◌∷◌ c s) = s

-- The outer option is the fuel of the loop, the inner one a panic.
unfoldable pub handle_notifications_from_buffer : ℕ → Service → Option (Option Service)
unfolding handle_notification_message split_at_char drop_first
handle_notifications_from_buffer zero srvc = none
handle_notifications_from_buffer (suc fuel) srvc =
    elim (split_at_char b'\n' srvc.notifications_buffer) [
      | none ↦ some (some srvc)
      | some (line, rest) ↦
          elim (handle_notification_message line
            (record srvc { notifications_buffer = drop_first rest })) [
              | none ↦ some none
              | some next ↦ handle_notifications_from_buffer fuel next
            ]
    ]
