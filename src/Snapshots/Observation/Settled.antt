-- ===== src/Snapshots/Observation/Settled.antt =====
-- What the two checks of a guest amount to: the one of its row and the one of its configuration.
use range42_backend_api.Prelude.{
  String, ◌≡◌, true, false, ◌≢◌, All, any, contains, ◌<>◌, ◌||◌, Option, none, some, List, [], ◌∷◌,
  string_eq, nat_eq, option_eq, arith,
}
use range42_backend_api.Json.{Fields, get_field}
use range42_backend_api.Snapshots.Observation.{
  Reader, has_key, is_renamed, is_truthy, text_of, is_placed, is_settled_guest,
}

-- A row of a QEMU guest of the node that is no template.
pub record IsPlaced (node : String) (row : Fields) : Type 0 where
  pub on_node : text_of (get_field "node" row) ≡ some node
  pub is_qemu : text_of (get_field "type" row) ≡ some "qemu"
  pub no_template : is_truthy (get_field "template" row) ≡ false

-- Neither a change nor a deletion
abbrev pub IsQuiet : Fields → Type 0
IsQuiet p = (get_field "pending" p ≡ none) × (is_truthy (get_field "delete" p) ≡ false)

-- A configuration of a guest of the deployment, with nothing under way.
pub record IsSettled (r : Reader) (deployment_id : String) (expected : Option String)
    (row config : Fields) (pending : List Fields) : Type 0 where
  pub no_template : is_truthy (get_field "template" config) ≡ false
  pub no_lock : is_truthy (get_field "lock" config) ≡ false
  pub marked :
      contains (r.lines (get_field "description" config)) ("range42-deployment:" <> deployment_id)
      ≡ true
  pub same_name : text_of (get_field "name" config) ≡ text_of (get_field "name" row)
  pub as_expected :
      (name : String)
      → expected ≡ some name
      → name ≢ ""
      → text_of (get_field "name" config) ≡ some name
  pub quiet : All IsQuiet pending

pub is_placed-IsPlaced :
    (node : String) (row : Fields) → is_placed node row ≡ true → IsPlaced node row
unfolding is_placed
is_placed-IsPlaced node row h = record {
  on_node = ground arith;
  is_qemu = ground arith;
  no_template = ground arith;
}

has_key-none : (k : String) (fields : Fields) → has_key k fields ≡ false → get_field k fields ≡ none
unfolding has_key
has_key-none k fields h = ground arith

any-IsQuiet :
    (pending : List Fields)
    → any (λ p. has_key "pending" p || is_truthy (get_field "delete" p)) pending ≡ false
    → All IsQuiet pending
any-IsQuiet [] h = tt
any-IsQuiet (p ∷ ps) h =
    ((has_key-none "pending" p (ground arith), ground arith), any-IsQuiet ps (ground arith))

not-renamed :
    (expected name : Option String) (wanted : String)
    → is_renamed expected name ≡ false
    → expected ≡ some wanted
    → wanted ≢ ""
    → name ≡ some wanted
not-renamed none name wanted h e differ = absurd (ground arith)
not-renamed (some w) name wanted h e differ = ground arith

pub is_settled_guest-IsSettled :
    (r : Reader) (deployment_id : String) (expected : Option String) (row config : Fields)
    (pending : List Fields)
    → is_settled_guest r deployment_id expected row config pending ≡ true
    → IsSettled r deployment_id expected row config pending
unfolding is_settled_guest
is_settled_guest-IsSettled r deployment_id expected row config pending h = record {
  no_template = ground arith;
  no_lock = ground arith;
  marked = ground arith;
  same_name = ground arith;
  as_expected =
      λ wanted. not-renamed expected (text_of (get_field "name" config)) wanted (ground arith);
  quiet = any-IsQuiet pending (ground arith);
}
