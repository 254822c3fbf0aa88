-- ===== src/Storage/Memory/Reads.antt =====
-- What is read at each ref and path, before and after a write.
use artifact_system.Base.{
  ℕ, ◌≡◌, refl, ◌∙◌, ap, Option, none, some, inl, inr, Text, text_key, Dict, lookup, Option-cases,
  Ordered, contains-eq-true_of_some,
}
use artifact_system.Storage.Status.{StatusCode, StatusOr, ok, failed}
use artifact_system.Storage.State.{
  CommitData, BranchData, MemoryStorage, committed_objects, resolve_state, resolve_ref_state,
}
use artifact_system.Storage.Views.{seen, lookup-apply_staged}
use artifact_system.Storage.Memory.{get_object}
use artifact_system.Storage.Invariant.{WellFormed}

-- What `get_object` makes of a lookup.
abbrev pub read : Option Text → StatusOr Text
read none = failed StatusCode.not_found
read (some content) = ok content

get_object-resolved :
    (s : MemoryStorage) (ref path : Text) (state : Dict Text Text)
    → resolve_ref_state s ref ≡ ok state
    → get_object ref path s ≡ read (lookup path state)
unfolding get_object
get_object-resolved s ref path state e = elim (Option-cases (lookup path state)) [
  | inl missing ↦ rw (e, missing, get_object) refl
  | inr (content, found) ↦ rw (e, found, get_object) refl
]

pub get_object-branch :
    (s : MemoryStorage) (ref path : Text) (b : BranchData) (c : CommitData)
    → lookup ref s.branches ≡ some b
    → lookup b.head_commit_id s.commits ≡ some c
    → Ordered b.staging
    → get_object ref path s ≡ read (seen (lookup path b.staging) (lookup path c.objects))
unfolding resolve_ref_state resolve_state committed_objects
get_object-branch s ref path b c eb ec h =
    let objects : committed_objects s b.head_commit_id ≡ c.objects =
      rw (ec, committed_objects) refl in
    get_object-resolved s ref path (resolve_state s b)
      (rw (eb, contains-eq-true_of_some b.head_commit_id s.commits c ec, resolve_ref_state) refl)
    ∙ ap read (
        lookup-apply_staged b.staging (committed_objects s b.head_commit_id) path h
        ∙ ap (λ o. seen (lookup path b.staging) (lookup path o)) objects)

pub get_object-commit :
    (s : MemoryStorage) (ref path : Text) (c : CommitData)
    → lookup ref s.branches ≡ none
    → lookup ref s.commits ≡ some c
    → get_object ref path s ≡ read (lookup path c.objects)
unfolding resolve_ref_state
get_object-commit s ref path c eb ec =
    get_object-resolved s ref path c.objects (rw (eb, ec, resolve_ref_state) refl)

-- A ref that is neither a branch nor a commit.
pub get_object-unknown :
    (s : MemoryStorage) (ref path : Text)
    → lookup ref s.branches ≡ none
    → lookup ref s.commits ≡ none
    → get_object ref path s ≡ failed StatusCode.not_found
unfolding resolve_ref_state get_object
get_object-unknown s ref path eb ec =
    let unknown : resolve_ref_state s ref ≡ failed StatusCode.not_found =
      rw (eb, ec, resolve_ref_state) refl in
    rw (unknown, get_object) refl

-- What every ref shows is fixed by the branches and the commits that it is looked up in.
abbrev pub view : MemoryStorage → Text → Text → StatusOr Text
view s ref path = elim (lookup ref s.branches) [
  | some b ↦ elim (lookup b.head_commit_id s.commits) [
    | some c ↦ read (seen (lookup path b.staging) (lookup path c.objects))
    | none ↦ failed StatusCode.internal
  ]
  | none ↦ elim (lookup ref s.commits) [
    | some c ↦ read (lookup path c.objects)
    | none ↦ failed StatusCode.not_found
  ]
]

pub get_object-view :
    (decimal : ℕ → Text) (s : MemoryStorage)
    → WellFormed decimal s
    → (ref path : Text) → get_object ref path s ≡ view s ref path
get_object-view decimal s w ref path = elim (Option-cases (lookup ref s.branches)) [
  | inr (b, eb) ↦
      let (c, ec) = w.head ref b eb in
      rw (eb, ec, view) (get_object-branch s ref path b c eb ec (w.staged ref b eb))
  | inl eb ↦ elim (Option-cases (lookup ref s.commits)) [
    | inr (c, ec) ↦ rw (eb, ec, view) (get_object-commit s ref path c eb ec)
    | inl ec ↦ rw (eb, ec, view) (get_object-unknown s ref path eb ec)
  ]
]
