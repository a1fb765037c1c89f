-- ===== src/Events/Numbering.antt =====
-- A writer that is opened again goes on with the next number.
use text.Mathlib.TextLemmas.{nil-append}
use mathlib.Core.List.{append_assoc, append-nil}
use range42_backend_api.Prelude.{
  ℕ, ◌+◌, ◌<◌, String, ◌≡◌, ◌≢◌, refl, sym, ap, ◌∙◌, inl, inr, Bool, false, Option, none, some,
  List, [], ◌∷◌, ◌++◌, ◌==◌, nat_eq, string_eq, if◌then◌else◌, Option-cases, arith,
}
use range42_backend_api.Models.{ℤ}
use range42_backend_api.Json.{Json, Fields, get_field}
use range42_backend_api.Events.{
  File, Text, Writer, lines, write_line, seq_of, parsed, highest, line_seq, recover, recover_seq,
  set_field, set_default, set_optional, stamped, open_writer, append,
}

pub get-set_field :
    (k j : String) (v : Json) (fs : Fields)
    → get_field j (set_field k v fs) ≡ (if k == j then some v else get_field j fs)
unfolding get_field set_field
get-set_field k j v Fields.end = ground arith
get-set_field k j v (Fields.field i w rest) = ground (arith, get-set_field k j v rest)

module _ (j : String) (fs : Fields) where
  get-set_default :
      (k : String) (v : Json) → (k == j) ≡ false → get_field j (set_default k v fs) ≡ get_field j fs
  get-set_default k v e = elim (Option-cases (get_field k fs)) [
    | inl n ↦ ground (arith, get-set_field k j v fs)
    | inr (w, n) ↦ ground arith
  ]

  get-set_optional :
      (k : String) (v : Option String)
      → (k == j) ≡ false
      → get_field j (set_optional k v fs) ≡ get_field j fs
  get-set_optional k none e = refl
  get-set_optional k (some v) e = ground (arith, get-set_field k j (Json.string v) fs)

abbrev is_seq : String → Bool
is_seq k = k == "event_seq"

distinct_keys :
    (is_seq "ts" ≡ false) × (is_seq "deployment_id" ≡ false) × (is_seq "attempt_id" ≡ false)
unfolding string_eq
distinct_keys = (refl, refl, refl)

seq-stamped :
    (now : String) (event : Fields) (attempt_id : String) (deployment_id : Option String) (seq : ℕ)
    → seq_of (Json.object (stamped now event attempt_id deployment_id seq)) ≡ some seq
unfolding seq_of stamped
seq-stamped now event attempt_id deployment_id seq =
    let numbered = set_field "event_seq" (Json.number (ℤ.pos seq)) event in
    let owned = set_field "attempt_id" (Json.string attempt_id) numbered in
    let placed = set_optional "deployment_id" deployment_id owned in
    let (a, b, c) = distinct_keys in
    ground (
      arith,
      get-set_default "event_seq" placed "ts" (Json.string now) a,
      get-set_optional "event_seq" owned "deployment_id" deployment_id b,
      get-set_field "attempt_id" "event_seq" (Json.string attempt_id) numbered,
      get-set_field "event_seq" "event_seq" (Json.number (ℤ.pos seq)) event,
    )

recover-append :
    (t : Text) (xs ys : List String) (last : ℕ)
    → recover t (xs ++ ys) last ≡ recover t ys (recover t xs last)
unfolding recover
recover-append t [] ys last = refl
recover-append t (x ∷ xs) ys last = recover-append t xs ys (highest (line_seq t x) last)

-- What the writer relies on of Python for an object: it is written as one line that reads back as
-- it was, and `strip` does not change the sentinel.
pub record IsFaithful (t : Text) (fs : Fields) : Type 0 where
  pub strip_sentinel : t.strip "\"\"" ≡ "\"\""
  pub strip_dumps : t.strip (t.dumps (Json.object fs)) ≡ t.dumps (Json.object fs)
  pub dumps_not_empty : t.dumps (Json.object fs) ≢ ""
  pub dumps_not_sentinel : t.dumps (Json.object fs) ≢ "\"\""
  pub loads_dumps : t.loads (t.dumps (Json.object fs)) ≡ some (Json.object fs)

-- A writer whose number is the highest of its file, which ends with a complete line.
pub record IsInSync (t : Text) (w : Writer) : Type 0 where
  pub whole : w.file.unfinished ≡ ""
  pub recovered : recover_seq t w.file ≡ w.seq

module _ (t : Text) (fs : Fields) (faithful : IsFaithful t fs) where
  line_seq-dumps : line_seq t (t.dumps (Json.object fs)) ≡ seq_of (Json.object fs)
  unfolding line_seq parsed
  line_seq-dumps = ground (
    arith, faithful.strip_dumps, faithful.dumps_not_empty, faithful.dumps_not_sentinel,
    faithful.loads_dumps,
  )

  line_seq-sentinel : line_seq t "\"\"" ≡ none
  unfolding line_seq parsed
  line_seq-sentinel = ground (arith, faithful.strip_sentinel)

  recover-appended :
      (xs : List String) (seq : ℕ)
      → seq_of (Json.object fs) ≡ some seq
      → recover t xs 0 < seq
      → recover t (xs ++ t.dumps (Json.object fs) ∷ "\"\"" ∷ []) 0 ≡ seq
  unfolding recover
  recover-appended xs seq e h = ground (
    arith,
    recover-append t xs (t.dumps (Json.object fs) ∷ "\"\"" ∷ []) 0,
    line_seq-dumps,
    line_seq-sentinel,
  )

lines-whole : (f : File) → f.unfinished ≡ "" → lines f ≡ f.complete
unfolding lines
lines-whole f e = ground (arith, append-nil f.complete)

lines-written :
    (f : File) (text : String)
    → f.unfinished ≡ ""
    → lines (write_line (write_line f text) "\"\"") ≡ f.complete ++ text ∷ "\"\"" ∷ []
unfolding lines write_line
lines-written f text e = ground (
  arith,
  nil-append text,
  nil-append "\"\"",
  append_assoc f.complete (text ∷ []) ("\"\"" ∷ []),
  append-nil (f.complete ++ text ∷ "\"\"" ∷ []),
)

unfinished-written : (f : File) (text : String) → (write_line f text).unfinished ≡ ""
unfolding write_line
unfinished-written f text = refl

-- If the number of a writer is the highest of its file and the file ends with a complete line, an
-- append takes the next number, leaves the writer so, and a writer that is opened on the file then,
-- after a restart, is the same writer. The written event must read back as it was.
pub append-recovers :
    (t : Text) (now : String) (w : Writer) (event : Fields) (attempt_id : String)
    (deployment_id : Option String)
    → IsFaithful t (stamped now event attempt_id deployment_id (w.seq + 1))
    → IsInSync t w
    → ((append t now w event attempt_id deployment_id).0 ≡ w.seq + 1)
      × IsInSync t (append t now w event attempt_id deployment_id).1
      × (open_writer t (append t now w event attempt_id deployment_id).1.file
          ≡ (append t now w event attempt_id deployment_id).1)
unfolding append open_writer recover_seq
append-recovers t now w event attempt_id deployment_id faithful s =
    let fs = stamped now event attempt_id deployment_id (w.seq + 1) in
    let line = t.dumps (Json.object fs) in
    let before : recover t w.file.complete 0 ≡ w.seq =
      ap (λ xs. recover t xs 0) (sym (lines-whole w.file s.whole)) ∙ s.recovered in
    let after =
      recover-appended t fs faithful w.file.complete (w.seq + 1)
        (seq-stamped now event attempt_id deployment_id (w.seq + 1)) (ground arith) in
    let number : recover t (lines (write_line (write_line w.file line) "\"\"")) 0 ≡ w.seq + 1 =
      ap (λ xs. recover t xs 0) (lines-written w.file line s.whole) ∙ after in
    (
      refl,
      record { whole = unfinished-written (write_line w.file line) "\"\""; recovered = number },
      ap (λ n. record { seq = n; file = write_line (write_line w.file line) "\"\"" }) number,
    )
