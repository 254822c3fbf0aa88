-- ===== src/Storage/Memory/Commits.antt =====
-- Reads before and after a commit of storage/memory_storage.cpp.
use artifact_system.Base.{
  ℕ, ◌+◌, ◌^◌, ◌<◌, ◌≤◌, ◌≡◌, refl, sym, ap, ◌∙◌, ◌||◌, some, if◌then◌else◌, [], ◌∷◌, List, Text,
  text_eq, text_eq_iff, text_key, Dict, lookup, lookup-insert, arith, Option-cases, inl, inr,
  Ordered, All, length,
}
use artifact_system.Storage.Status.{ok}
use artifact_system.Storage.State.{
  CommitData, BranchData, MemoryStorage, committed_objects, resolve_state,
}
use artifact_system.Storage.Views.{seen, lookup-apply_staged, apply_staged-Ordered}
use artifact_system.Storage.Memory.{commit_id_of, next_commit_id, advance, commit, get_object}
use artifact_system.Storage.Memory.Reads.{read, view, get_object-view}
use artifact_system.Storage.Invariant.{DecimalLaws, IsCommit, WellFormed, next_is_fresh}
use artifact_system.Storage.Invariant.Preserved.{
  insert-WellFormed, with_commit-WellFormed, with_commit,
}

module _ (decimal : ℕ → Text) (laws : DecimalLaws decimal) (s : MemoryStorage)
    (w : WellFormed decimal s) (fits : s.next_commit_seq + 1 < 2 ^ 64) where
  abbrev new_id : Text
  new_id = commit_id_of decimal s.next_commit_seq

  pub advance-WellFormed :
      (branch message : Text) (b before : BranchData) (parents : List Text)
      (objects : Dict Text Text)
      → lookup branch s.branches ≡ some before
      → Ordered b.staging
      → Ordered objects
      → All (IsCommit s) parents
      → length parents ≤ 2
      → WellFormed decimal (advance decimal branch b message parents objects s).1
  unfolding advance next_commit_id
  advance-WellFormed branch message b before parents objects found hb ho hp few =
      let c : CommitData = record {
        id = new_id;
        message = message;
        parent_ids = parents;
        objects = objects;
      } in
      insert-WellFormed decimal (with_commit decimal laws s c w) branch
        (record b { head_commit_id = new_id })
        (with_commit-WellFormed decimal laws s c w fits ho hp few)
        (c, ground (arith, text_eq_iff new_id new_id, lookup-insert new_id new_id c s.commits)) hb
        (w.unreserved branch before found)

  pub advance-view :
      (branch message : Text) (b before : BranchData) (parents : List Text)
      (objects : Dict Text Text) (r q : Text)
      → lookup branch s.branches ≡ some before
      → b.staging ≡ []
      → view (advance decimal branch b message parents objects s).1 r q
        ≡ (if text_eq new_id r || text_eq branch r then read (lookup q objects) else view s r q)
  unfolding advance next_commit_id lookup
  advance-view branch message b before parents objects r q found empty =
      let c : CommitData = record {
        id = new_id;
        message = message;
        parent_ids = parents;
        objects = objects;
      } in
      let (no_commit, no_branch) = next_is_fresh decimal laws s w in
      elim (Option-cases (lookup r s.branches)) [
        | inl missing ↦ ground (
          arith,
          missing,
          found,
          empty,
          no_commit,
          text_eq_iff branch r,
          text_eq_iff new_id r,
          text_eq_iff new_id new_id,
          lookup-insert branch r (record b { head_commit_id = new_id }) s.branches,
          lookup-insert new_id r c s.commits,
          lookup-insert new_id new_id c s.commits,
        )
        | inr (d, present) ↦
            let (e, head) = w.head r d present in
            ground (
              arith,
              present,
              head,
              empty,
              no_commit,
              no_branch,
              text_eq_iff branch r,
              text_eq_iff new_id r,
              text_eq_iff new_id new_id,
              text_eq_iff new_id d.head_commit_id,
              lookup-insert branch r (record b { head_commit_id = new_id }) s.branches,
              lookup-insert new_id d.head_commit_id c s.commits,
              lookup-insert new_id new_id c s.commits,
            )
      ]

resolve_state-view :
    (decimal : ℕ → Text) (s : MemoryStorage) (branch q : Text) (b : BranchData)
    → WellFormed decimal s
    → lookup branch s.branches ≡ some b
    → read (lookup q (resolve_state s b)) ≡ view s branch q
unfolding resolve_state committed_objects
resolve_state-view decimal s branch q b w found =
    let (c, head) = w.head branch b found in
    let objects : committed_objects s b.head_commit_id ≡ c.objects =
      rw (head, committed_objects) refl in
    ap read (
      lookup-apply_staged b.staging (committed_objects s b.head_commit_id) q
        (w.staged branch b found)
      ∙ ap (λ o. seen (lookup q b.staging) (lookup q o)) objects)
    ∙ sym (rw (found, head, view) refl)

pub resolve_state-Ordered :
    (decimal : ℕ → Text) (s : MemoryStorage) (b : BranchData)
    → WellFormed decimal s
    → IsCommit s b.head_commit_id
    → Ordered (resolve_state s b)
unfolding resolve_state committed_objects
resolve_state-Ordered decimal s b w (c, head) =
    let objects : committed_objects s b.head_commit_id ≡ c.objects =
      rw (head, committed_objects) refl in
    apply_staged-Ordered b.staging (committed_objects s b.head_commit_id)
      (rw objects (w.snapshot b.head_commit_id c head))

pub commit-WellFormed :
    (decimal : ℕ → Text) (laws : DecimalLaws decimal) (s : MemoryStorage) (w : WellFormed decimal s)
    (fits : s.next_commit_seq + 1 < 2 ^ 64) (branch message : Text)
    → WellFormed decimal (commit decimal branch message s).1
unfolding commit
commit-WellFormed decimal laws s w fits branch message =
    elim (Option-cases (lookup branch s.branches)) [
      | inl missing ↦ rw (missing, commit) w
      | inr (b, found) ↦
          rw (found, commit)
            (advance-WellFormed decimal laws s w fits branch message (record b { staging = [] }) b
              (b.head_commit_id ∷ []) (resolve_state s b) found tt
              (resolve_state-Ordered decimal s b w (w.head branch b found))
              (w.head branch b found, tt) (omega arith))
    ]

-- Where decimal numerals have their laws, a commit on a branch of a well-formed storage, whose commit
-- number has not reached the bound of 64 bits, returns the next commit id. A read of this id then
-- gives what the branch showed before the commit, with its staged changes, and a read of any other
-- ref, the branch among them, gives what it gave before.
pub get_object-commit_made :
    (decimal : ℕ → Text) (laws : DecimalLaws decimal) (s : MemoryStorage) (w : WellFormed decimal s)
    (fits : s.next_commit_seq + 1 < 2 ^ 64) (branch message : Text) (b : BranchData)
    (found : lookup branch s.branches ≡ some b)
    → ((commit decimal branch message s).0 ≡ ok (commit_id_of decimal s.next_commit_seq))
      × ((r q : Text)
          → get_object r q (commit decimal branch message s).1 ≡ (
              if text_eq (commit_id_of decimal s.next_commit_seq) r
              then get_object branch q s
              else get_object r q s))
unfolding commit
get_object-commit_made decimal laws s w fits branch message b found = (
  rw (found, commit, advance, next_commit_id) refl,
  λ r q.
      let made =
        advance decimal branch (record b { staging = [] }) message (b.head_commit_id ∷ [])
          (resolve_state s b) s in
      let after : (commit decimal branch message s).1 ≡ made.1 = rw (found, commit) refl in
      get_object-view decimal (commit decimal branch message s).1
        (commit-WellFormed decimal laws s w fits branch message) r q
      ∙ ap (λ t. view t r q) after
      ∙ advance-view decimal laws s w fits branch message (record b { staging = [] }) b
          (b.head_commit_id ∷ []) (resolve_state s b) r q found refl
      ∙ ground (
        arith,
        text_eq_iff branch r,
        resolve_state-view decimal s branch q b w found,
        get_object-view decimal s w r q,
        get_object-view decimal s w branch q,
      ),
)
