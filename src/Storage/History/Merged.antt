-- ===== src/Storage/History/Merged.antt =====
-- The invariant and the commits over a merge.
use artifact_system.Base.{
  ℕ, ◌+◌, ◌^◌, ◌<◌, ◌≡◌, not, none, some, [], ◌∷◌, List, Text, text_eq, text_key, Dict, lookup,
  arith, Option-cases, Bool-cases, inl, inr, Ordered, insert-Ordered,
}
use artifact_system.Storage.Status.{StatusOr-cases}
use artifact_system.Storage.State.{BranchData, MemoryStorage}
use artifact_system.Storage.Invariant.{DecimalLaws, IsCommit, WellFormed}
use artifact_system.Storage.ThreeWay.{
  same_value, three_way, merge_paths, merge_path, put_value, all_paths,
}
use artifact_system.Storage.MergeBase.{find_merge_base}
use artifact_system.Storage.Merge.{
  Conflict, merge, merge_snapshots, finish, merge_message, has_no_entry,
}
use artifact_system.Storage.History.Kept.{Kept, same_storage, advance-Kept}

put_value-Ordered : (p : Text) (v : _) (m : Dict Text Text) → Ordered m → Ordered (put_value p v m)
unfolding put_value
put_value-Ordered p none m h = h
put_value-Ordered p (some t) m h = insert-Ordered p t m h

module _ (b s t : Dict Text Text) where
  merge_path-Ordered :
      (p : Text) (m : Dict Text Text) (c : List Text)
      → Ordered m
      → Ordered (merge_path b s t p (m, c)).0
  unfolding merge_path
  merge_path-Ordered p m c h =
      let source_changed = not (same_value (lookup p s) (lookup p b)) in
      let target_changed = not (same_value (lookup p t) (lookup p b)) in
      let of_source = put_value-Ordered p (lookup p s) m h in
      let of_target = put_value-Ordered p (lookup p t) m h in
      let of_base = put_value-Ordered p (lookup p b) m h in
      elim (Bool-cases source_changed) [
        | inl e ↦ elim (Bool-cases target_changed) [
          | inl e' ↦ elim (Bool-cases (same_value (lookup p s) (lookup p t))) [
            | inl e'' ↦ rw (e, e', e'', merge_path) of_source
            | inr e'' ↦ rw (e, e', e'', merge_path) h
          ]
          | inr e' ↦ rw (e, e', merge_path) of_source
        ]
        | inr e ↦ elim (Bool-cases target_changed) [
          | inl e' ↦ rw (e, e', merge_path) of_target
          | inr e' ↦ rw (e, e', merge_path) of_base
        ]
      ]

  merge_paths-Ordered :
      (ps : Dict Text (Unit {0})) (state : Dict Text Text × List Text)
      → Ordered state.0
      → Ordered (merge_paths b s t ps state).0
  unfolding merge_paths
  merge_paths-Ordered [] state h = h
  merge_paths-Ordered ((p, _) ∷ ps) (m, c) h =
      merge_paths-Ordered ps (merge_path b s t p (m, c)) (merge_path-Ordered p m c h)

  pub three_way-Ordered : Ordered (three_way b s t).0
  unfolding three_way
  three_way-Ordered = merge_paths-Ordered (all_paths b s t) ([], []) tt

module _ (decimal : ℕ → Text) (laws : DecimalLaws decimal) (s : MemoryStorage)
    (w : WellFormed decimal s) (fits : s.next_commit_seq + 1 < 2 ^ 64) where
  pub finish-Kept :
      (source target : Text) (b : BranchData) (found : Conflict) (merged : Dict Text Text)
      → lookup target s.branches ≡ some b
      → Ordered merged
      → IsCommit s found.target_commit_id
      → IsCommit s found.source_commit_id
      → Kept decimal s (finish decimal source target b found merged s).1
  unfolding finish
  finish-Kept source target b found merged present ordered ct cs =
      elim (Bool-cases (has_no_entry found.conflicting_paths)) [
        | inl clean ↦
            rw (clean, finish)
              (advance-Kept decimal laws s w fits target (merge_message source target) b b
                (found.target_commit_id ∷ found.source_commit_id ∷ []) merged present
                (w.staged target b present) ordered (ct, (cs, tt)) (omega arith))
        | inr clash ↦ rw (clash, finish) (same_storage decimal s w)
      ]

  merge_snapshots-Kept :
      (source target : Text) (b : BranchData) (base_id source_head target_head : Text)
      → lookup target s.branches ≡ some b
      → Kept decimal s (merge_snapshots decimal source target b base_id source_head target_head s).1
  unfolding merge_snapshots
  merge_snapshots-Kept source target b base_id source_head target_head present =
      elim (Option-cases (lookup base_id s.commits)) [
        | inl e ↦ rw (e, merge_snapshots) (same_storage decimal s w)
        | inr (cb, eb) ↦ elim (Option-cases (lookup source_head s.commits)) [
          | inl e ↦ rw (eb, e, merge_snapshots) (same_storage decimal s w)
          | inr (cs, es) ↦ elim (Option-cases (lookup target_head s.commits)) [
            | inl e ↦ rw (eb, es, e, merge_snapshots) (same_storage decimal s w)
            | inr (ct, et) ↦
                let result = three_way cb.objects cs.objects ct.objects in
                rw (eb, es, et, merge_snapshots)
                  (finish-Kept source target b
                    (record {
                      conflicting_paths = result.1;
                      base_commit_id = base_id;
                      source_commit_id = source_head;
                      target_commit_id = target_head;
                    })
                    result.0 present (three_way-Ordered cb.objects cs.objects ct.objects) (ct, et)
                    (cs, es))
          ]
        ]
      ]

  pub merge-Kept : (source target : Text) → Kept decimal s (merge decimal source target s).1
  unfolding merge
  merge-Kept source target = elim (Bool-cases (text_eq source target)) [
    | inl e ↦ rw (e, merge) (same_storage decimal s w)
    | inr e1 ↦ elim (Option-cases (lookup source s.branches)) [
      | inl e ↦ rw (e1, e, merge) (same_storage decimal s w)
      | inr (src, e2) ↦ elim (Option-cases (lookup target s.branches)) [
        | inl e ↦ rw (e1, e2, e, merge) (same_storage decimal s w)
        | inr (tgt, e3) ↦ elim (Bool-cases (has_no_entry src.staging)) [
          | inr e ↦ rw (e1, e2, e3, e, merge) (same_storage decimal s w)
          | inl e4 ↦ elim (Bool-cases (has_no_entry tgt.staging)) [
            | inr e ↦ rw (e1, e2, e3, e4, e, merge) (same_storage decimal s w)
            | inl e5 ↦
                elim (StatusOr-cases (find_merge_base s src.head_commit_id tgt.head_commit_id)) [
                  | inr (c, e) ↦ rw (e1, e2, e3, e4, e5, e, merge) (same_storage decimal s w)
                  | inl (base_id, e6) ↦
                      rw (e1, e2, e3, e4, e5, e6, merge)
                        (merge_snapshots-Kept source target tgt base_id src.head_commit_id
                          tgt.head_commit_id e3)
                ]
          ]
        ]
      ]
    ]
  ]
