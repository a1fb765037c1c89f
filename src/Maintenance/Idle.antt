-- ===== src/Maintenance/Idle.antt =====
-- What an audit that returns has found: no attempt, lock or runner is left.
use range42_backend_api.Prelude.{
  ℕ, String, ◌<>◌, ◌≡◌, ◌⊎◌, inl, inr, true, false, Option, none, some, [], ◌∷◌, all, contains,
  arith, string_eq, nat_eq, Option-cases, Bool-cases,
}
use range42_backend_api.Prelude.Dict.{keys}
use range42_backend_api.Models.{ℤ}
use range42_backend_api.Processes.{Machine, process_matches}
use range42_backend_api.Json.{Json, get_field}
use range42_backend_api.Maintenance.{
  Disk, read_artifact, Entry, Artifacts, put_entry, agrees, positive, identity_pid, read_identity,
  known_pid, is_quiet,
}

abbrev pub Has : Artifacts → String → Type 0
Has d dir = contains (keys d) dir ≡ true

pub put_entry-Has : (k : String) (v : Entry) (d : Artifacts) → Has (put_entry k v d) k
unfolding put_entry
put_entry-Has k v [] = ground arith
put_entry-Has k v ((j, w) ∷ rest) = ground (arith, put_entry-Has k v rest)

pub put_entry-keeps :
    (k : String) (v : Entry) (d : Artifacts) (dir : String) → Has d dir → Has (put_entry k v d) dir
unfolding put_entry
put_entry-keeps k v [] dir h = absurd (ground arith)
put_entry-keeps k v ((j, w) ∷ rest) dir h = ground (arith, put_entry-keeps k v rest dir)

identity_pid-none :
    (disk : Disk) (known : Option ℤ) (doc : Json) (p : ℕ)
    → identity_pid disk known doc ≡ some p
    → identity_pid disk none doc ≡ some p
unfolding identity_pid agrees
identity_pid-none disk known (Json.object fs) p h =
    elim (Option-cases (positive (get_field "pid" fs))) [
      | inl e ↦ absurd (ground arith)
      | inr (q, e) ↦ ground arith
    ]
identity_pid-none disk known Json.null p h = absurd (ground arith)
identity_pid-none disk known (Json.boolean b) p h = absurd (ground arith)
identity_pid-none disk known (Json.number n) p h = absurd (ground arith)
identity_pid-none disk known (Json.float t) p h = absurd (ground arith)
identity_pid-none disk known (Json.string t) p h = absurd (ground arith)
identity_pid-none disk known (Json.array xs) p h = absurd (ground arith)

module _ (m : Machine) (disk : Disk) where
  read_identity-none :
      (dir : String) (known : Option ℤ) (p : ℕ)
      → read_identity m disk dir known ≡ some p
      → read_identity m disk dir none ≡ some p
  unfolding read_identity
  read_identity-none dir known p h =
      elim (Option-cases (read_artifact m disk (dir <> "/process.json") 1024)) [
        | inl e ↦ absurd (ground arith)
        | inr (text, e) ↦ elim (Option-cases (disk.parse_json text)) [
          | inl e' ↦ absurd (ground arith)
          | inr (doc, e') ↦ ground (arith, identity_pid-none disk known doc p)
        ]
      ]

  -- A directory has no identity file, or the process that its identity file names is gone.
  abbrev pub IsStopped : String → Type 0
  IsStopped dir =
      (disk.exists (dir <> "/process.json") ≡ false)
      ⊎ ((p : ℕ) × (read_identity m disk dir none ≡ some p) × (process_matches m dir p ≡ false))

  module _ (root : String) where
    is_quiet-IsStopped :
        (dir : String) (e : Entry) → is_quiet m disk root (dir, e) ≡ true → IsStopped dir
    unfolding is_quiet
    is_quiet-IsStopped dir (pid, recorded) h = elim (Option-cases (m.resolve dir)) [
      | inl e ↦ absurd (ground arith)
      | inr (resolved, e) ↦ elim (Option-cases (known_pid m disk dir pid)) [
        | inl e' ↦ absurd (ground arith)
        | inr (known, e') ↦ elim (Option-cases (read_identity m disk dir known)) [
          | inl e'' ↦ inl (ground arith)
          | inr (p, e'') ↦ elim (Bool-cases (disk.exists (dir <> "/process.json"))) [
            | inl there ↦ inr (p, read_identity-none dir known p e'', ground arith)
            | inr free ↦ inl free
          ]
        ]
      ]
    ]

    pub all_quiet-IsStopped :
        (d : Artifacts) (dir : String)
        → all (is_quiet m disk root) d ≡ true
        → Has d dir
        → IsStopped dir
    all_quiet-IsStopped [] dir h found = absurd (ground arith)
    all_quiet-IsStopped ((j, e) ∷ rest) dir h found = elim (string_eq.dec dir j) [
      | yes p ↦ ground (arith, is_quiet-IsStopped j e)
      | no n ↦ ground (arith, all_quiet-IsStopped rest dir)
    ]
