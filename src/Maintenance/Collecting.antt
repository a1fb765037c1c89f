-- ===== src/Maintenance/Collecting.antt =====
-- Every artifact directory that the tables or the workspaces name is audited.
use range42_backend_api.Prelude.{
  ℕ, ◌+◌, String, ◌<>◌, ◌≡◌, inl, inr, true, false, none, some, List, [], ◌∷◌, All, all, arith,
  string_eq, nat_eq, Option-cases, Bool-cases,
}
use range42_backend_api.Models.{Db, Attempt}
use range42_backend_api.Processes.{Machine}
use range42_backend_api.Maintenance.{
  Disk, Entry, Artifacts, put_entry, row_directory, add_rows, add_directory, add_directories,
  has_runner, add_workspace, add_workspaces, pid_of,
}
use range42_backend_api.Maintenance.Idle.{Has, put_entry-Has, put_entry-keeps}

module _ (m : Machine) (disk : Disk) where
  abbrev Keeps : Artifacts → Artifacts → Type 0
  Keeps d d' = (dir : String) → Has d dir → Has d' dir

  -- The directory of an attempt is known and audited.
  abbrev pub RowIn : String → Db → Artifacts → Attempt → Type 0
  RowIn root db d a = (dir : String) × (row_directory m disk root db a ≡ some dir) × Has d dir

  abbrev AllHas : List String → Artifacts → Type 0
  AllHas dirs d = All (Has d) dirs

  abbrev pub WorkspaceIn : Artifacts → String → Type 0
  WorkspaceIn d workspace =
      has_runner m disk workspace ≡ true → All (Has d) (disk.entries (workspace <> "/runner"))

  All-Has :
      (d d' : Artifacts) (dirs : List String) → Keeps d d' → All (Has d) dirs → All (Has d') dirs
  All-Has d d' [] k all = tt
  All-Has d d' (dir ∷ rest) k (h, all) = (k dir h, All-Has d d' rest k all)

  All-WorkspaceIn :
      (d d' : Artifacts) (ws : List String)
      → Keeps d d'
      → All (WorkspaceIn d) ws
      → All (WorkspaceIn d') ws
  All-WorkspaceIn d d' [] k all = tt
  All-WorkspaceIn d d' (w ∷ rest) k (h, all) = (
    λ there. All-Has d d' (disk.entries (w <> "/runner")) k (h there),
    All-WorkspaceIn d d' rest k all,
  )

  add_directory-Has :
      (dir : String) (d d' : Artifacts)
      → add_directory m disk dir d ≡ some d'
      → Has d' dir × Keeps d d'
  unfolding add_directory
  add_directory-Has dir d d' h = (
    ground (arith, put_entry-Has dir (none, false) d),
    λ k had. ground (arith, put_entry-keeps dir (none, false) d k),
  )

  add_directories-Has :
      (dirs : List String) (d d' : Artifacts)
      → add_directories m disk dirs d ≡ some d'
      → AllHas dirs d' × Keeps d d'
  unfolding add_directories
  add_directories-Has [] d d' h = (tt, λ k had. ground arith)
  add_directories-Has (dir ∷ rest) d d' h = elim (Option-cases (add_directory m disk dir d)) [
    | inl e ↦ absurd (ground arith)
    | inr (added, e) ↦
        let (here, kept) = add_directory-Has dir d added e in
        let (there, kept') = add_directories-Has rest added d' (ground arith) in
        ((kept' dir here, there), λ k had. kept' k (kept k had))
  ]

  add_workspace-Has :
      (count : ℕ) (w : String) (d d' : Artifacts)
      → add_workspace m disk count w d ≡ some d'
      → WorkspaceIn d' w × Keeps d d'
  unfolding add_workspace
  add_workspace-Has count w d d' h = elim (Bool-cases (has_runner m disk w)) [
    | inl e ↦
        let (there, kept) =
          add_directories-Has (disk.entries (w <> "/runner")) d d' (ground arith) in
        (λ _. there, kept)
    | inr e ↦ (λ there. absurd (ground arith), λ k had. ground arith)
  ]

  pub add_workspaces-Has :
      (count : ℕ) (ws : List String) (d d' : Artifacts)
      → add_workspaces m disk count ws d ≡ some d'
      → All (WorkspaceIn d') ws × Keeps d d'
  unfolding add_workspaces
  add_workspaces-Has count [] d d' h = (tt, λ k had. ground arith)
  add_workspaces-Has count (w ∷ rest) d d' h =
      elim (Option-cases (add_workspace m disk count w d)) [
        | inl e ↦ absurd (ground arith)
        | inr (added, e) ↦
            let (here, kept) = add_workspace-Has count w d added e in
            let (there, kept') = add_workspaces-Has (count + 1) rest added d' (ground arith) in
            (
              (λ has. All-Has added d' (disk.entries (w <> "/runner")) kept' (here has), there),
              λ k had. kept' k (kept k had),
            )
      ]

  module _ (root : String) (db : Db) where
    pub All-RowIn :
        (d d' : Artifacts) (rows : List Attempt)
        → Keeps d d'
        → All (RowIn root db d) rows
        → All (RowIn root db d') rows
    All-RowIn d d' [] k all = tt
    All-RowIn d d' (a ∷ rest) k ((dir, e, h), all) = ((dir, e, k dir h), All-RowIn d d' rest k all)

    pub add_rows-RowIn :
        (rows : List Attempt) (d d' : Artifacts)
        → add_rows m disk root db rows d ≡ some d'
        → All (RowIn root db d') rows × Keeps d d'
    unfolding add_rows
    add_rows-RowIn [] d d' h = (tt, λ k had. ground arith)
    add_rows-RowIn (a ∷ rest) d d' h = elim (Option-cases (row_directory m disk root db a)) [
      | inl e ↦ absurd (ground arith)
      | inr (dir, e) ↦
          let v : Entry = (pid_of a.pid, true) in
          let added = put_entry dir v d in
          let (there, kept) = add_rows-RowIn rest added d' (ground arith) in
          (
            ((dir, e, kept dir (put_entry-Has dir v d)), there),
            λ k had. kept k (put_entry-keeps dir v d k had),
          )
    ]
