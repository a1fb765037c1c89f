-- ===== src/Models/Ownership.antt =====
-- `WorkspaceLock.owner`. The text `"attempt-" + id` is `attempt id`; a text without that prefix is
-- `other text`. So `startswith("attempt-")` and `removeprefix("attempt-")` are a match.
use range42_backend_api.Prelude.{String, Eq, string_eq}

pub data Owner : Type 0 where
  attempt : String → Owner
  other : String → Owner

Owner-discrete : Discrete Owner
Owner-discrete = hlevel (string_eq.dec)

instance unfoldable pub owner_eq : Eq Owner
unfolding Owner-discrete string_eq
owner_eq = record { dec = Owner-discrete }
