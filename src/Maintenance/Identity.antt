-- ===== src/Maintenance/Identity.antt =====
-- The identity files of a runner's artifact directory, as the audit reads them.
use range42_backend_api.Prelude.{
  ℕ, ◌+◌, String, ◌<>◌, Bool, true, false, not, ◌&&◌, ◌||◌, Option, none, some, List, [], ◌∷◌, ltb,
  contains, ◌==◌, ◌!=◌, if◌then◌else◌, string_eq, nat_eq,
}
use range42_backend_api.Models.{ℤ}
use range42_backend_api.Processes.{Machine}
use range42_backend_api.Json.{Json, Fields, end, field, get_field}

-- What `os.fstat` tells of a file that `os.open` opened without following a link.
pub record FileInfo : Type 0 where
  pub is_regular : Bool
  pub size : ℕ

-- The file system and the parsers beside the machine's. A `none` is a raise of `OSError` or
-- `ValueError`.
pub record Disk : Type 0 where
  pub file_name : String → String
  -- the full paths that `iterdir` yields
  pub entries : String → List String
  pub exists : String → Bool
  pub is_dir : String → Bool
  pub open_file : String → Option FileInfo
  pub read : String → ℕ → Option String
  -- `int(text.strip())`
  pub parse_int : String → Option ℤ
  pub parse_json : String → Option Json
  pub is_digit : String → Bool

same_pid : ℤ → ℤ → Bool
same_pid (ℤ.pos p) (ℤ.pos q) = p == q
same_pid (ℤ.pos p) (ℤ.negsuc q) = false
same_pid (ℤ.negsuc p) (ℤ.pos q) = false
same_pid (ℤ.negsuc p) (ℤ.negsuc q) = p == q

-- `not (pid is not None and pid != other)`
unfoldable pub agrees : Option ℤ → ℤ → Bool
unfolding same_pid
agrees none other = true
agrees (some pid) other = same_pid pid other

-- `not pid`
unfoldable pub is_unset : Option ℤ → Bool
is_unset none = true
is_unset (some (ℤ.pos p)) = p == 0
is_unset (some (ℤ.negsuc p)) = false

-- A positive PID in a document
unfoldable pub positive : Option Json → Option ℕ
positive (some (Json.number (ℤ.pos p))) = if p == 0 then none else some p
positive (some (Json.number (ℤ.negsuc p))) = none
positive none = none
positive (some Json.null) = none
positive (some (Json.boolean b)) = none
positive (some (Json.float t)) = none
positive (some (Json.string t)) = none
positive (some (Json.array xs)) = none
positive (some (Json.object fs)) = none

-- A text in a document that passes a test
text_with : (String → Bool) → Option Json → Bool
text_with ok (some (Json.string t)) = ok t
text_with ok none = false
text_with ok (some Json.null) = false
text_with ok (some (Json.boolean b)) = false
text_with ok (some (Json.float t)) = false
text_with ok (some (Json.number n)) = false
text_with ok (some (Json.array xs)) = false
text_with ok (some (Json.object fs)) = false

identity_keys : List String
identity_keys = "pid" ∷ "start_time" ∷ "boot_id" ∷ []

-- No key but those of an identity
only_identity : Fields → Bool
unfolding identity_keys
only_identity end = true
only_identity (field k v rest) = contains identity_keys k && only_identity rest

-- The PID of an identity document that is well formed and agrees with the PID known so far.
unfoldable pub identity_pid : Disk → Option ℤ → Json → Option ℕ
unfolding only_identity text_with
identity_pid disk known (Json.object fs) = elim (positive (get_field "pid" fs)) [
  | none ↦ none
  | some p ↦
      if only_identity fs
        && text_with disk.is_digit (get_field "start_time" fs)
        && text_with (λ t. t != "") (get_field "boot_id" fs)
        && agrees known (ℤ.pos p)
      then some p
      else none
]
identity_pid disk known Json.null = none
identity_pid disk known (Json.boolean b) = none
identity_pid disk known (Json.number n) = none
identity_pid disk known (Json.float t) = none
identity_pid disk known (Json.string t) = none
identity_pid disk known (Json.array xs) = none

module _ (m : Machine) (disk : Disk) where
  -- `_read_artifact`
  unfoldable pub read_artifact : String → ℕ → Option String
  read_artifact path limit =
      let text = disk.read path (limit + 1) in
      if m.is_symlink path then none else elim (disk.open_file path) [
        | none ↦ none
        | some info ↦ if not info.is_regular || ltb limit info.size then none else text
      ]

  -- `process.json` of a directory
  unfoldable pub read_identity : String → Option ℤ → Option ℕ
  read_identity dir known = elim (read_artifact (dir <> "/process.json") 1024) [
    | none ↦ none
    | some text ↦ elim (disk.parse_json text) [
      | none ↦ none
      | some doc ↦ identity_pid disk known doc
    ]
  ]

  -- The PID of an attempt after its `pid` file is read
  unfoldable pub known_pid : String → Option ℤ → Option (Option ℤ)
  known_pid dir pid =
      if disk.exists (dir <> "/pid") || m.is_symlink (dir <> "/pid")
      then elim (read_artifact (dir <> "/pid") 64) [
        | none ↦ none
        | some text ↦ elim (disk.parse_int text) [
          | none ↦ none
          | some p ↦ if agrees pid p then some (some p) else none
        ]
      ]
      else some pid
