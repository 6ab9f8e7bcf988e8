-- ===== src/Tests/Messages.antt =====
-- Messages in two pieces.
use rustysd.Prelude.{◌≤◌, ◌≡◌, refl, [], ◌∷◌, some, arith, length}
use rustysd.Prelude.Text.{split}
use rustysd.Units.Unit.{Service}
use rustysd.Notifications.{handle_notifications_from_buffer}
use rustysd.Notifications.Lines.{with_buffer}
use rustysd.Notifications.Chunks.{handle_notifications_from_buffer-append}
use rustysd.Tests.Samples.{srvc}

abbrev half_read : Service
half_read = record srvc { status_msgs = "up" ∷ []; notifications_buffer = "REA" }

half_read-handled :
    handle_notifications_from_buffer 2 (with_buffer "STATUS=up\nREA" srvc) ≡ some (some half_read)
unfolding handle_notifications_from_buffer
half_read-handled = refl

three_parts : length (split b'\n' "STATUS=up\nREADY=1\n") ≤ 3
unfolding split
three_parts = omega arith

two_parts : length (split b'\n' "STATUS=up\nREA") ≤ 2
unfolding split
two_parts = omega arith

two_more : length (split b'\n' "READY=1\n") ≤ 2
unfolding split
two_more = omega arith

handle_notifications_from_buffer-append_example :
    handle_notifications_from_buffer 2 (with_buffer "READY=1\n" half_read)
    ≡ handle_notifications_from_buffer 3 (with_buffer "STATUS=up\nREADY=1\n" srvc)
handle_notifications_from_buffer-append_example =
    handle_notifications_from_buffer-append 2 2 3 "STATUS=up\nREA" "DY=1\n" srvc half_read two_parts
      two_more three_parts half_read-handled
