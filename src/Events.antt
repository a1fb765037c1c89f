-- ===== src/Events.antt =====
-- core/events.py: the numbered event file of a deployment. A file is its complete lines and the
-- unfinished line at its end, which a crash can leave behind.
pub mod Numbering
mod Ranges
mod Examples
use range42_backend_api.Prelude.{
  ℕ, ◌+◌, ◌<>◌, String, Bool, true, false, not, ◌&&◌, ◌||◌, Option, none, some, List, [], ◌∷◌, ◌++◌,
  ltb, leb, ◌==◌, ◌!=◌, nat_eq, string_eq, if◌then◌else◌,
}
use range42_backend_api.Prelude.Result.{Result, ok, raise, error, ◌>>=◌}
use range42_backend_api.Models.{ℤ}
use range42_backend_api.Json.{Json, Fields, get_field}

pub record File : Type 0 where
  pub complete : List String
  pub unfinished : String

-- `raw.strip()`, `json.loads` and `json.dumps` of Python, and the present time as a text.
pub record Text : Type 0 where
  pub strip : String → String
  pub loads : String → Option Json
  pub dumps : Json → String

-- The lines that iteration over the file yields.
unfoldable pub lines : File → List String
lines f = f.complete ++ (if f.unfinished == "" then [] else f.unfinished ∷ [])

-- A write of a text that ends its line.
unfoldable pub write_line : File → String → File
write_line f text = record { complete = f.complete ++ (f.unfinished <> text) ∷ []; unfinished = "" }

-- `isinstance(seq, int)`, which a Boolean is too, as 1 or 0; numbers below 0 count as absent, since
-- none is written
unfoldable pub seq_of : Json → Option ℕ
seq_of (Json.object fields) = elim (get_field "event_seq" fields) [
  | some (Json.number (ℤ.pos n)) ↦ some n
  | some (Json.boolean b) ↦ some (if b then 1 else 0)
  | _ ↦ none
]
seq_of _ = none

-- A line that is not empty and not the sentinel `""`, as a value.
unfoldable pub parsed : Text → String → Option Json
parsed t raw = let s = t.strip raw in if s == "" || s == "\"\"" then none else t.loads s

abbrev pub highest : Option ℕ → ℕ → ℕ
highest none last = last
highest (some n) last = if ltb last n then n else last

abbrev seq_at : Option Json → Option ℕ
seq_at none = none
seq_at (some v) = seq_of v

-- The number of a line, if it has one.
unfoldable pub line_seq : Text → String → Option ℕ
line_seq t raw = seq_at (parsed t raw)

-- `_recover_seq`, from a first value on
unfoldable pub recover : Text → List String → ℕ → ℕ
recover t [] last = last
recover t (raw ∷ rest) last = recover t rest (highest (line_seq t raw) last)

unfoldable pub recover_seq : Text → File → ℕ
recover_seq t f = recover t (lines f) 0

-- `d[k] = v` and `d.setdefault(k, v)`
unfoldable pub set_field : String → Json → Fields → Fields
set_field k v Fields.end = Fields.field k v Fields.end
set_field k v (Fields.field j w rest) =
    let later = set_field k v rest in
    if j == k then Fields.field j v rest else Fields.field j w later

abbrev pub set_default : String → Json → Fields → Fields
set_default k v fields = elim (get_field k fields) [ none ↦ set_field k v fields | some _ ↦ fields ]

abbrev set_optional : String → Option String → Fields → Fields
set_optional k none fields = fields
set_optional k (some s) fields = set_field k (Json.string s) fields

-- The stamps of `append`
unfoldable pub stamped : String → Fields → String → Option String → ℕ → Fields
stamped now event attempt_id deployment_id seq = set_default "ts" (Json.string now) (
    set_optional "deployment_id" deployment_id (
      set_field "attempt_id" (Json.string attempt_id)
        (set_field "event_seq" (Json.number (ℤ.pos seq)) event)))

-- A writer: its number and its file. `append` returns the number of the event.
pub record Writer : Type 0 where
  pub seq : ℕ
  pub file : File

unfoldable pub open_writer : Text → File → Writer
open_writer t f = record { seq = recover_seq t f; file = f }

unfoldable pub append : Text → String → Writer → Fields → String → Option String → ℕ × Writer
append t now w event attempt_id deployment_id =
    let seq = w.seq + 1 in
    let line = t.dumps (Json.object (stamped now event attempt_id deployment_id seq)) in
    (seq, record { seq = seq; file = write_line (write_line w.file line) "\"\"" })

abbrev beyond : Option ℕ → ℕ → Bool
beyond none n = false
beyond (some last) n = ltb last n

-- One value of `read_range`, before the values of the later lines. A value that is no object fails.
unfoldable pub read_value : ℕ → Option ℕ → Json → Result (List Json) → Result (List Json)
read_value from_seq to_seq (Json.object fields) later = elim (seq_of (Json.object fields)) [
  | none ↦ later
  | some n ↦
      if ltb n from_seq
      then later
      else if beyond to_seq n
      then ok []
      else later >>= λ vs. ok (Json.object fields ∷ vs)
]
read_value from_seq to_seq v later = raise (error 500 "INTERNAL")

unfoldable pub read_lines : Text → ℕ → Option ℕ → List String → Result (List Json)
read_lines t from_seq to_seq [] = ok []
read_lines t from_seq to_seq (raw ∷ rest) =
    let later = read_lines t from_seq to_seq rest in
    elim (parsed t raw) [ none ↦ later | some v ↦ read_value from_seq to_seq v later ]

unfoldable pub read_range : Text → File → ℕ → Option ℕ → Result (List Json)
read_range t f from_seq to_seq = read_lines t from_seq to_seq (lines f)
