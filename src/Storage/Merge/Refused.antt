-- ===== src/Storage/Merge/Refused.antt =====
-- A merge of storage/memory_storage.cpp that reports a conflict, and the storage that it leaves.
use artifact_system.Base.{
  ℕ, ◌≡◌, refl, ◌⊎◌, inl, inr, Text, text_eq, text_key, Dict, lookup, Bool-cases, Option-cases,
}
use artifact_system.Storage.Status.{StatusOr, ok, StatusOr-cases}
use artifact_system.Storage.State.{BranchData, MemoryStorage}
use artifact_system.Storage.MergeBase.{find_merge_base}
use artifact_system.Storage.ThreeWay.{three_way}
use artifact_system.Storage.Merge.{
  Conflict, MergeResult, success, merge, merge_snapshots, finish, has_no_entry,
}

-- Only a success changes the storage.
abbrev pub Untouched : MemoryStorage → StatusOr MergeResult × MemoryStorage → Type 0
Untouched s r = ((id : Text) × (r.0 ≡ ok (success id))) ⊎ (r.1 ≡ s)

module _ (decimal : ℕ → Text) (s : MemoryStorage) where
  finish-Untouched :
      (source target : Text) (b : BranchData) (found : Conflict) (merged : Dict Text Text)
      → Untouched s (finish decimal source target b found merged s)
  unfolding finish
  finish-Untouched source target b found merged =
      elim (Bool-cases (has_no_entry found.conflicting_paths)) [
        | inl clean ↦ rw (clean, finish) (inl (_, refl))
        | inr clash ↦ rw (clash, finish) (inr refl)
      ]

  merge_snapshots-Untouched :
      (source target : Text) (b : BranchData) (base_id source_head target_head : Text)
      → Untouched s (merge_snapshots decimal source target b base_id source_head target_head s)
  unfolding merge_snapshots
  merge_snapshots-Untouched source target b base_id source_head target_head =
      elim (Option-cases (lookup base_id s.commits)) [
        | inl e ↦ rw (e, merge_snapshots) (inr refl)
        | inr (cb, eb) ↦ elim (Option-cases (lookup source_head s.commits)) [
          | inl e ↦ rw (eb, e, merge_snapshots) (inr refl)
          | inr (cs, es) ↦ elim (Option-cases (lookup target_head s.commits)) [
            | inl e ↦ rw (eb, es, e, merge_snapshots) (inr refl)
            | inr (ct, et) ↦
                let result = three_way cb.objects cs.objects ct.objects in
                rw (eb, es, et, merge_snapshots)
                  (finish-Untouched source target b
                    (record {
                      conflicting_paths = result.1;
                      base_commit_id = base_id;
                      source_commit_id = source_head;
                      target_commit_id = target_head;
                    })
                    result.0)
          ]
        ]
      ]

  pub merge-Untouched : (source target : Text) → Untouched s (merge decimal source target s)
  unfolding merge
  merge-Untouched source target = elim (Bool-cases (text_eq source target)) [
    | inl e ↦ rw (e, merge) (inr refl)
    | inr e1 ↦ elim (Option-cases (lookup source s.branches)) [
      | inl e ↦ rw (e1, e, merge) (inr refl)
      | inr (src, e2) ↦ elim (Option-cases (lookup target s.branches)) [
        | inl e ↦ rw (e1, e2, e, merge) (inr refl)
        | inr (tgt, e3) ↦ elim (Bool-cases (has_no_entry src.staging)) [
          | inr e ↦ rw (e1, e2, e3, e, merge) (inr refl)
          | inl e4 ↦ elim (Bool-cases (has_no_entry tgt.staging)) [
            | inr e ↦ rw (e1, e2, e3, e4, e, merge) (inr refl)
            | inl e5 ↦
                elim (StatusOr-cases (find_merge_base s src.head_commit_id tgt.head_commit_id)) [
                  | inr (c, e) ↦ rw (e1, e2, e3, e4, e5, e, merge) (inr refl)
                  | inl (base_id, e6) ↦
                      rw (e1, e2, e3, e4, e5, e6, merge)
                        (merge_snapshots-Untouched source target tgt base_id src.head_commit_id
                          tgt.head_commit_id)
                ]
          ]
        ]
      ]
    ]
  ]
