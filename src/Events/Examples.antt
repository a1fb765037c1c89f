-- ===== src/Events/Examples.antt =====
-- A first event, and an event after a line that a crash left unfinished.
use range42_backend_api.Prelude.{◌≡◌, refl, none, some, [], ◌∷◌, ◌==◌, if◌then◌else◌, string_eq}
use range42_backend_api.Prelude.Result.{ok}
use range42_backend_api.Models.{ℤ}
use range42_backend_api.Json.{Json, Fields, get_field}
use range42_backend_api.Events.{
  Text, Writer, lines, write_line, seq_of, parsed, recover, recover_seq, set_field, stamped,
  open_writer, append, read_range, read_lines, read_value,
}
use range42_backend_api.Events.Numbering.{IsFaithful, IsInSync, append-recovers}

abbrev stored : Fields
stored = Fields.field "event_seq" (Json.number (ℤ.pos 1)) (
    Fields.field "attempt_id" (Json.string "a1") (Fields.field "ts" (Json.string "now") Fields.end))

-- A codec that knows one line.
abbrev text : Text
text = record {
  strip = λ s. s;
  loads = λ s. if s == "EVENT" then some (Json.object stored) else none;
  dumps = λ v. "EVENT";
}

abbrev empty_writer : Writer
empty_writer = record { seq = 0; file = record { complete = []; unfinished = "" } }

stamps : stamped "now" Fields.end "a1" none 1 ≡ stored
unfolding stamped set_field get_field string_eq
stamps = refl

text-IsFaithful : IsFaithful text (stamped "now" Fields.end "a1" none 1)
unfolding string_eq
text-IsFaithful = record {
  strip_sentinel = refl;
  strip_dumps = refl;
  dumps_not_empty = cc;
  dumps_not_sentinel = cc;
  loads_dumps = rw stamps refl;
}

in_sync : IsInSync text empty_writer
unfolding recover_seq recover lines string_eq
in_sync = record { whole = refl; recovered = refl }

append-recovers_example :
    ((append text "now" empty_writer Fields.end "a1" none).0 ≡ 1)
    × IsInSync text (append text "now" empty_writer Fields.end "a1" none).1
    × (open_writer text (append text "now" empty_writer Fields.end "a1" none).1.file
        ≡ (append text "now" empty_writer Fields.end "a1" none).1)
append-recovers_example =
    append-recovers text "now" empty_writer Fields.end "a1" none text-IsFaithful in_sync

-- After a torn write the next event is glued to the unfinished line, and no reader finds it.
loses_event :
    read_range text
      (append text "now"
        (record { seq = 0; file = record { complete = []; unfinished = "{\"event_" } })
        Fields.end
        "a1"
        none).1.file
      0
      none
    ≡ ok []
unfolding append write_line read_range lines read_lines read_value parsed string_eq
loses_event = refl

reads_back :
    read_range text (record { complete = "EVENT" ∷ "\"\"" ∷ []; unfinished = "" }) 0 (some 5)
    ≡ ok (Json.object stored ∷ [])
unfolding read_range lines read_lines read_value parsed seq_of get_field string_eq
reads_back = refl
