-- ===== src/Orphans/Ending.antt =====
-- A pass ends every attempt whose process is gone.
use range42_backend_api.Prelude.{String, ◌≡◌, Bool, true, some, List, ◌==◌, string_eq, option_eq}
use range42_backend_api.Models.{Db, Attempt, Deployment, attempt?}
use range42_backend_api.Lifecycle.{terminal}

-- The attempt is stored and has ended.
abbrev pub HasEnded : Db → String → Type 0
HasEnded db k = (b : Attempt) × (attempt? db k ≡ some b) × (terminal b.state ≡ true)

abbrev Stored : Db → String → Type 0
Stored db k = (b : Attempt) × (attempt? db k ≡ some b)

abbrev Rows : Type 0
Rows = List (Attempt × Deployment)

has_id : String → Attempt × Deployment → Bool
has_id k row = row.0.id == k
