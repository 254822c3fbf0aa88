-- ===== src/Storage/Merge/Outcome.antt =====
-- What Merge returns and what it makes readable.
use artifact_system.Base.{
  ℕ, ◌+◌, ◌^◌, ◌<◌, ◌≡◌, refl, sym, ap, ◌∙◌, ◌⊎◌, inl, inr, true, false, Bool, ◌||◌, some,
  if◌then◌else◌, [], ◌∷◌, List, Text, text_eq, text_eq_refl, text_key, Dict, lookup, arith,
  Bool-cases,
}
use artifact_system.Storage.Status.{StatusOr, ok}
use artifact_system.Storage.State.{CommitData, BranchData, MemoryStorage}
use artifact_system.Storage.Memory.{commit_id_of, next_commit_id, advance, get_object}
use artifact_system.Storage.Memory.Reads.{read, view, get_object-view}
use artifact_system.Storage.Memory.Commits.{advance-view}
use artifact_system.Storage.Invariant.{DecimalLaws, WellFormed}
use artifact_system.Storage.MergeBase.{find_merge_base}
use artifact_system.Storage.ThreeWay.{three_way, sorted}
use artifact_system.Storage.ThreeWay.Outcome.{
  diverges, outcome, mem_text, mem_text-sorted, three_way-outcome,
}
use artifact_system.Storage.Merge.{
  Conflict, success, conflict, merge, merge_snapshots, finish, merge_message, has_no_entry,
}
use artifact_system.Storage.History.Merged.{merge-Kept}

-- What a merge of two branches starts from.
pub record Ready (s : MemoryStorage) (source target : Text) : Type 0 where
  pub src : BranchData
  pub tgt : BranchData
  pub base_id : Text
  pub base : CommitData
  pub source_commit : CommitData
  pub target_commit : CommitData
  pub differ : text_eq source target ≡ false
  pub src_found : lookup source s.branches ≡ some src
  pub tgt_found : lookup target s.branches ≡ some tgt
  pub src_clean : src.staging ≡ []
  pub tgt_clean : tgt.staging ≡ []
  pub base_chosen : find_merge_base s src.head_commit_id tgt.head_commit_id ≡ ok base_id
  pub base_found : lookup base_id s.commits ≡ some base
  pub source_found : lookup src.head_commit_id s.commits ≡ some source_commit
  pub target_found : lookup tgt.head_commit_id s.commits ≡ some target_commit

-- Whether the snapshots diverge at a path, and else what is there.
abbrev pub diverges_in :
    {s : MemoryStorage} {source target : Text} → Ready s source target → Text → Bool
diverges_in r q =
    diverges (lookup q r.base.objects) (lookup q r.source_commit.objects)
      (lookup q r.target_commit.objects)

abbrev pub read_merged :
    {s : MemoryStorage} {source target : Text} → Ready s source target → Text → StatusOr Text
read_merged r q = read (
    outcome (lookup q r.base.objects) (lookup q r.source_commit.objects)
      (lookup q r.target_commit.objects))

module _ (s : MemoryStorage) (source target : Text) (r : Ready s source target) where
  abbrev merged : Dict Text Text × List Text
  merged = three_way r.base.objects r.source_commit.objects r.target_commit.objects

  abbrev found : Conflict
  found = record {
    conflicting_paths = merged.1;
    base_commit_id = r.base_id;
    source_commit_id = r.src.head_commit_id;
    target_commit_id = r.tgt.head_commit_id;
  }

  merge_opened :
      (decimal : ℕ → Text)
      → merge decimal source target s ≡ finish decimal source target r.tgt found merged.0 s
  unfolding merge merge_snapshots has_no_entry
  merge_opened decimal =
      let src_empty : has_no_entry r.src.staging ≡ true = rw r.src_clean refl in
      let tgt_empty : has_no_entry r.tgt.staging ≡ true = rw r.tgt_clean refl in
      rw (r.differ, r.src_found, r.tgt_found, src_empty, tgt_empty, r.base_chosen, merge)
        (rw (r.base_found, r.source_found, r.target_found, merge_snapshots) refl)

  merged_path : (q : Text) → read (lookup q merged.0) ≡ read_merged r q
  merged_path q =
      ap read (three_way-outcome r.base.objects r.source_commit.objects r.target_commit.objects q).0

  clash_path : (q : Text) → mem_text q merged.1 ≡ diverges_in r q
  clash_path q =
      (three_way-outcome r.base.objects r.source_commit.objects r.target_commit.objects q).1

first_of : (xs : List Text) → has_no_entry xs ≡ false → (q : Text) × (mem_text q xs ≡ true)
unfolding has_no_entry
first_of [] h = absurd (ground (arith, h))
first_of (x ∷ xs) h = (x, rw (text_eq_refl x) refl)

none_of : (xs : List Text) (q : Text) → has_no_entry xs ≡ true → mem_text q xs ≡ false
unfolding has_no_entry
none_of [] q h = refl
none_of (x ∷ xs) q h = absurd (ground (arith, h))

-- Where decimal numerals have their laws and the commit number has not reached the bound of 64 bits,
-- a merge of two different branches of a well-formed storage, which have no staged changes and a
-- merge base, has one of two results. Where the snapshots diverge at no path, it succeeds with the
-- next commit id; a read of this id or of the target then gives the three-way merge of the two heads
-- at each path, and a read of any other ref what it gave before. Else there is a path at which they
-- diverge, the storage stays as it is, and the conflict lists exactly the paths at which they do.
pub merge_outcome :
    (decimal : ℕ → Text) (laws : DecimalLaws decimal) (s : MemoryStorage) (w : WellFormed decimal s)
    (fits : s.next_commit_seq + 1 < 2 ^ 64) (source target : Text) (ready : Ready s source target)
    → (((q : Text) → diverges_in ready q ≡ false)
        × ((merge decimal source target s).0
            ≡ ok (success (commit_id_of decimal s.next_commit_seq)))
        × ((r q : Text)
            → get_object r q (merge decimal source target s).1 ≡ (
                if text_eq (commit_id_of decimal s.next_commit_seq) r || text_eq target r
                then read_merged ready q
                else get_object r q s)))
      ⊎ ((k : Conflict) × (merge decimal source target s ≡ (ok (conflict k), s))
          × ((q : Text) → mem_text q k.conflicting_paths ≡ diverges_in ready q)
          × ((q : Text) × (diverges_in ready q ≡ true)))
unfolding finish advance next_commit_id
merge_outcome decimal laws s w fits source target ready =
    let found' = found s source target ready in
    let paths = found'.conflicting_paths in
    let opened = merge_opened s source target ready decimal in
    let made =
      advance decimal target ready.tgt (merge_message source target)
        (found'.target_commit_id ∷ found'.source_commit_id ∷ []) (merged s source target ready).0
        s in
    elim (Bool-cases (has_no_entry paths)) [
      | inl clean ↦
          let after : merge decimal source target s ≡ (ok (success made.0), made.1) =
            opened ∙ rw (clean, finish) refl in
          inl (
            λ q. sym (clash_path s source target ready q) ∙ none_of paths q clean,
            ap (λ o. o.0) after,
            λ r q.
                get_object-view decimal (merge decimal source target s).1
                  (merge-Kept decimal laws s w fits source target).0 r q
                ∙ ap (λ o. view o.1 r q) after
                ∙ advance-view decimal laws s w fits target (merge_message source target) ready.tgt
                    ready.tgt (found'.target_commit_id ∷ found'.source_commit_id ∷ [])
                    (merged s source target ready).0 r q ready.tgt_found ready.tgt_clean
                ∙ rw (merged_path s source target ready q, get_object-view decimal s w r q) refl,
          )
      | inr clash ↦
          let (q, listed) = first_of paths clash in
          inr (
            record found' { conflicting_paths = sorted paths },
            opened ∙ rw (clash, finish) refl,
            λ p. mem_text-sorted p paths ∙ clash_path s source target ready p,
            (q, sym (clash_path s source target ready q) ∙ listed),
          )
    ]
