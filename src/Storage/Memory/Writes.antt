-- ===== src/Storage/Memory/Writes.antt =====
-- Reads before and after a staged write of storage/memory_storage.cpp.
use artifact_system.Base.{
  ℕ, ◌≡◌, refl, ◌∙◌, ◌&&◌, none, some, if◌then◌else◌, Text, text_eq, text_eq_iff, text_key, lookup,
  insert, lookup-insert, arith, insert-Ordered, Option-cases, inl, inr,
}
use artifact_system.Storage.Status.{StatusCode, ok, failed}
use artifact_system.Storage.State.{StagedChange, BranchData, MemoryStorage}
use artifact_system.Storage.Memory.{stage, put_object, delete_object, get_object}
use artifact_system.Storage.Memory.Reads.{read, view, get_object-view}
use artifact_system.Storage.Invariant.{WellFormed}
use artifact_system.Storage.Invariant.Preserved.{insert-WellFormed}

pub stage-WellFormed :
    (decimal : ℕ → Text) (s : MemoryStorage) (branch path : Text) (change : StagedChange)
    → WellFormed decimal s
    → WellFormed decimal (stage branch path change s).1
unfolding stage
stage-WellFormed decimal s branch path change w = elim (Option-cases (lookup branch s.branches)) [
  | inl missing ↦ rw (missing, stage) w
  | inr (b, found) ↦
      rw (found, stage)
        (insert-WellFormed decimal s branch (record b { staging = insert path change b.staging }) w
          (w.head branch b found) (insert-Ordered path change b.staging (w.staged branch b found))
          (w.unreserved branch b found))
]

stage-view :
    (s : MemoryStorage) (branch path r q : Text) (change : StagedChange) (b : BranchData)
    → lookup branch s.branches ≡ some b
    → ((c : _) × (lookup b.head_commit_id s.commits ≡ some c))
    → view (stage branch path change s).1 r q
      ≡ (if text_eq branch r && text_eq path q then read change.data_of else view s r q)
unfolding stage
stage-view s branch path r q change b found (c, ec) = ground (
  arith,
  found,
  ec,
  text_eq_iff branch r,
  lookup-insert branch r (record b { staging = insert path change b.staging }) s.branches,
  lookup-insert path q change b.staging,
)

pub stage-read :
    (decimal : ℕ → Text) (s : MemoryStorage) (branch path r q : Text) (change : StagedChange)
    (b : BranchData)
    → WellFormed decimal s
    → lookup branch s.branches ≡ some b
    → get_object r q (stage branch path change s).1
      ≡ (if text_eq branch r && text_eq path q then read change.data_of else get_object r q s)
stage-read decimal s branch path r q change b w found =
    get_object-view decimal (stage branch path change s).1
      (stage-WellFormed decimal s branch path change w) r q
    ∙ stage-view s branch path r q change b found (w.head branch b found)
    ∙ rw (get_object-view decimal s w r q) refl

-- In a well-formed storage, after an object is put on a branch that exists, a read of any ref at any
-- path gives the object at this branch and path, and what it gave before everywhere else.
pub get_object-put_object :
    (decimal : ℕ → Text) (s : MemoryStorage) (branch path content r q : Text) (b : BranchData)
    → WellFormed decimal s
    → lookup branch s.branches ≡ some b
    → get_object r q (put_object branch path content s).1
      ≡ (if text_eq branch r && text_eq path q then ok content else get_object r q s)
unfolding put_object
get_object-put_object decimal s branch path content r q b w found =
    stage-read decimal s branch path r q (record { data_of = some content }) b w found

-- In a well-formed storage, after an object is deleted on a branch that exists, a read of any ref at
-- any path finds nothing at this branch and path, and gives what it gave before everywhere else.
pub get_object-delete_object :
    (decimal : ℕ → Text) (s : MemoryStorage) (branch path r q : Text) (b : BranchData)
    → WellFormed decimal s
    → lookup branch s.branches ≡ some b
    → get_object r q (delete_object branch path s).1 ≡ (
        if text_eq branch r && text_eq path q
        then failed StatusCode.not_found
        else get_object r q s)
unfolding delete_object
get_object-delete_object decimal s branch path r q b w found =
    stage-read decimal s branch path r q (record { data_of = none }) b w found
