-- ===== src/Storage/ThreeWay.antt =====
-- storage/memory_storage.cpp, Merge: the three-way merge of the snapshots.
pub mod Outcome
use artifact_system.Base.{
  Bool, true, false, ◌&&◌, not, Option, none, some, List, [], ◌∷◌, ◌++◌, if◌then◌else◌, Text,
  text_eq, text_lt, text_key, Dict, lookup, insert,
}

-- The loops that fill `all_paths`.
unfoldable pub insert_paths : Dict Text Text → Dict Text (Unit {0}) → Dict Text (Unit {0})
insert_paths [] paths = paths
insert_paths ((path, content) ∷ objects) paths = insert_paths objects (insert path tt paths)

-- `==` of two `std::optional<std::string>`
unfoldable pub same_value : Option Text → Option Text → Bool
same_value none none = true
same_value none (some b) = false
same_value (some a) none = false
same_value (some a) (some b) = text_eq a b

-- `if (val.has_value()) merged[path] = *val;`
unfoldable pub put_value : Text → Option Text → Dict Text Text → Dict Text Text
put_value path none merged = merged
put_value path (some content) merged = insert path content merged

module _ (base_objects source_objects target_objects : Dict Text Text) where
  -- One round of the loop over `all_paths`.
  unfoldable pub merge_path : Text → Dict Text Text × List Text → Dict Text Text × List Text
  unfolding same_value
  merge_path path (merged, conflicts) =
      let base_val = lookup path base_objects in
      let source_val = lookup path source_objects in
      let target_val = lookup path target_objects in
      let source_changed = not (same_value source_val base_val) in
      let target_changed = not (same_value target_val base_val) in
      if source_changed && target_changed
      then (if same_value source_val target_val
          then (put_value path source_val merged, conflicts)
          else (merged, conflicts ++ (path ∷ [])))
      else (if source_changed
          then (put_value path source_val merged, conflicts)
          else (if target_changed
              then (put_value path target_val merged, conflicts)
              else (put_value path base_val merged, conflicts)))

  unfoldable pub merge_paths :
      Dict Text (Unit {0}) → Dict Text Text × List Text → Dict Text Text × List Text
  unfolding merge_path
  merge_paths [] state = state
  merge_paths ((path, _) ∷ paths) state = merge_paths paths (merge_path path state)

  unfoldable pub all_paths : Dict Text (Unit {0})
  unfolding insert_paths
  all_paths =
      insert_paths target_objects (insert_paths source_objects (insert_paths base_objects []))

  unfoldable pub three_way : Dict Text Text × List Text
  unfolding merge_paths all_paths
  three_way = merge_paths all_paths ([], [])

-- `std::sort` of the conflicts
unfoldable pub insert_sorted : Text → List Text → List Text
insert_sorted x [] = x ∷ []
insert_sorted x (y ∷ ys) = if text_lt y x then y ∷ insert_sorted x ys else x ∷ y ∷ ys

unfoldable pub sorted : List Text → List Text
unfolding insert_sorted
sorted [] = []
sorted (x ∷ xs) = insert_sorted x (sorted xs)
