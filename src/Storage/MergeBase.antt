-- ===== src/Storage/MergeBase.antt =====
-- storage/memory_storage.cpp: FindMergeBase, the search for the nearest common ancestor.
pub mod Depths
pub mod Found
use artifact_system.Base.{
  ℕ, zero, suc, ◌+◌, ◌*◌, ◌-◌, ◌%◌, ◌^◌, max, Bool, true, false, ◌&&◌, ◌||◌, Option, none, some,
  List, [], ◌∷◌, ◌++◌, ltb, ◌==◌, if◌then◌else◌, Text, text_eq, text_lt, text_key, Dict, lookup,
  contains, insert,
}
use artifact_system.Storage.Status.{StatusCode, StatusOr, ok, failed}
use artifact_system.Storage.State.{CommitData, MemoryStorage, is_empty}

-- `it == depths.end() || parent_depth < it->second`
unfoldable pub is_closer : ℕ → Option ℕ → Bool
is_closer parent_depth none = true
is_closer parent_depth (some known) = ltb parent_depth known

-- One round of the loop over the parents.
unfoldable pub visit_parent :
    ℕ → Text → Dict Text ℕ × List (Text × ℕ) → Dict Text ℕ × List (Text × ℕ)
visit_parent parent_depth parent (depths, queue) =
    if is_closer parent_depth (lookup parent depths)
    then (insert parent parent_depth depths, queue ++ ((parent, parent_depth) ∷ []))
    else (depths, queue)

unfoldable pub visit_parents :
    ℕ → List Text → Dict Text ℕ × List (Text × ℕ) → Dict Text ℕ × List (Text × ℕ)
visit_parents parent_depth [] state = state
visit_parents parent_depth (parent ∷ rest) state =
    visit_parents parent_depth rest (visit_parent parent_depth parent state)

-- The loop of `build_ancestor_depths`.
unfoldable pub ancestor_depths_loop :
    ℕ → Dict Text CommitData → Dict Text ℕ × List (Text × ℕ) → StatusOr (Dict Text ℕ)
ancestor_depths_loop fuel commits (depths, []) = ok depths
ancestor_depths_loop zero commits (depths, entry ∷ queue) = failed StatusCode.unfinished
ancestor_depths_loop (suc fuel) commits (depths, (current, depth) ∷ queue) =
    elim (lookup current commits) [
      | none ↦ failed StatusCode.internal
      | some c ↦
          ancestor_depths_loop fuel commits
            (visit_parents ((depth + 1) % 2 ^ 64) c.parent_ids (depths, queue))
    ]

-- A commit of number `n` takes at most so many rounds.
abbrev pub weight : ℕ → ℕ
weight zero = 1
weight (suc n) = 3 * weight n

unfoldable pub build_ancestor_depths : MemoryStorage → Text → StatusOr (Dict Text ℕ)
unfolding ancestor_depths_loop
build_ancestor_depths s start =
    ancestor_depths_loop (weight s.next_commit_seq) s.commits (insert start 0 [], (start, 0) ∷ [])

-- `best_base`, `best_max_depth` and `best_sum_depth`
pub record Best : Type 0 where
  pub base : Text
  pub max_depth : ℕ
  pub sum_depth : ℕ

unfoldable pub is_better : Text → ℕ → ℕ → Best → Bool
is_better ancestor max_depth sum_depth best =
    is_empty best.base
    || ltb max_depth best.max_depth
    || ((max_depth == best.max_depth) && ltb sum_depth best.sum_depth)
    || ((max_depth == best.max_depth)
        && (sum_depth == best.sum_depth)
        && text_lt ancestor best.base)

-- One round of the loop over `depths_a`.
unfoldable pub consider : Dict Text ℕ → Text → ℕ → Best → Best
unfolding is_better
consider depths_b ancestor depth_a best = elim (lookup ancestor depths_b) [
  | none ↦ best
  | some depth_b ↦
      (if is_better ancestor (max depth_a depth_b) ((depth_a + depth_b) % 2 ^ 64) best
        then record {
          base = ancestor;
          max_depth = max depth_a depth_b;
          sum_depth = (depth_a + depth_b) % 2 ^ 64;
        }
        else best)
]

unfoldable pub best_common : Dict Text ℕ → Dict Text ℕ → Best → Best
unfolding consider
best_common [] depths_b best = best
best_common ((ancestor, depth_a) ∷ depths_a) depths_b best =
    best_common depths_a depths_b (consider depths_b ancestor depth_a best)

unfoldable pub choose_base : Dict Text ℕ → Dict Text ℕ → StatusOr Text
unfolding best_common is_empty
choose_base depths_a depths_b =
    let best =
      best_common depths_a depths_b
        (record { base = []; max_depth = 2 ^ 64 - 1; sum_depth = 2 ^ 64 - 1 }) in
    if is_empty best.base then failed StatusCode.failed_precondition else ok best.base

unfoldable pub find_merge_base : MemoryStorage → Text → Text → StatusOr Text
unfolding build_ancestor_depths choose_base
find_merge_base s commit_a commit_b =
    if contains commit_a s.commits
    then (if contains commit_b s.commits
        then (if text_eq commit_a commit_b
            then ok commit_a
            else (elim (build_ancestor_depths s commit_a) [
              | failed e ↦ failed e
              | ok depths_a ↦ elim (build_ancestor_depths s commit_b) [
                | failed e ↦ failed e
                | ok depths_b ↦ choose_base depths_a depths_b
              ]
            ]))
        else failed StatusCode.internal)
    else failed StatusCode.internal
