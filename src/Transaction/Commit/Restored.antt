-- ===== src/Transaction/Commit/Restored.antt =====
-- A commit of transaction/transaction_manager.cpp that ends in a conflict, over the storage in memory.
use artifact_system.Base.{
  ℕ, zero, suc, ◌+◌, ◌≡◌, refl, sym, subst, inl, inr, Bool, true, false, none, some, ◌∙◌,
  Option-cases, Text, text_key, contains, arith, Bool-cases,
}
use artifact_system.Storage.Status.{StatusCode, StatusOr, ok, failed, StatusOr-cases}
use artifact_system.Storage.State.{MemoryStorage}
use artifact_system.Storage.Memory.{branch_exists}
use artifact_system.Storage.Merge.{Conflict, MergeResult, success, conflict, merge}
use artifact_system.Storage.Merge.Refused.{merge-Untouched}
use artifact_system.Storage.Interface.{memory_storage}
use artifact_system.Transaction.Action.{TransactionRecord, World, Action}
use artifact_system.Transaction.Meta.{Formats, write_txn_meta}
use artifact_system.Transaction.Manager.{has_children, forget}
use artifact_system.Transaction.Conflict.{evaluate_retry_decision}
use artifact_system.Transaction.ConflictDetail.{CommitConflict, build_commit_conflict}
use artifact_system.Transaction.Commit.{
  Options, CommitResult, conflicted, CommitConflictResult, RetryResolutionContext, fail, give_up,
  pause, resolve_conflict, finish_commit, after_merge, commit_loop, restore_meta,
}

-- What runs between the attempts of a commit: pauses, and the resolver with its writes. The worlds
-- that they lead to from a world.
pub data Between (options : Options MemoryStorage) (w : World MemoryStorage)
    : World MemoryStorage → Type 0 where
  here : Between options w w
  slept :
      (v : World MemoryStorage) (n : ℕ)
      → Between options w v
      → Between options w (options.sleep_for n v)
  resolved :
      (v : World MemoryStorage)
      (resolver : RetryResolutionContext → MemoryStorage → StatusOr Bool × MemoryStorage)
      (context : RetryResolutionContext)
      → options.retry_conflict_resolver ≡ some resolver
      → Between options w v
      → Between options w (record v { storage = (resolver context v.storage).1 })

-- No resolver, no commit record, and nothing else runs during a pause.
pub record Quiet (options : Options MemoryStorage) : Type 0 where
  pub no_resolver : options.retry_conflict_resolver ≡ none
  pub no_record : options.create_commit_record ≡ none
  pub asleep : (n : ℕ) (w : World MemoryStorage) → options.sleep_for n w ≡ w

pub Between-Quiet :
    (options : Options MemoryStorage) (quiet : Quiet options) (w u : World MemoryStorage)
    → Between options w u
    → u ≡ w
Between-Quiet options quiet w _ here = refl
Between-Quiet options quiet w _ (slept v n b) = quiet.asleep n v ∙ Between-Quiet options quiet w v b
Between-Quiet options quiet w _ (resolved v resolver context there b) =
    absurd (ground (arith, there, quiet.no_resolver))

module _ (formats : Formats) (options : Options MemoryStorage) (id target : Text)
    (transaction : TransactionRecord) (c : CommitConflictResult) (start : World MemoryStorage) where
  -- Where the result is a conflict, the world is the one that comes of `start` by pauses and resolver,
  -- with the metadata restored.
  abbrev pub Restores : StatusOr CommitResult × World MemoryStorage → Type 0
  Restores r =
      r.0 ≡ ok (conflicted c)
      → (u : World MemoryStorage) × Between options start u
        × (r.1 ≡ (write_txn_meta formats (memory_storage formats.decimal) id transaction u).1)

  fail-Restores :
      (e : StatusCode) (w : World MemoryStorage)
      → Restores (fail formats (memory_storage formats.decimal) options id target transaction e w)
  unfolding fail restore_meta
  fail-Restores e w h = absurd (ground (arith, h))

  checked-Restores :
      (again : Action MemoryStorage CommitResult) (w : World MemoryStorage) (b : Bool)
      → Restores (again w)
      → Restores (elim b [
        | true ↦
            fail formats
              (memory_storage formats.decimal)
              options
              id
              target
              transaction
              StatusCode.invalid_argument
              w
        | false ↦ again w
      ])
  checked-Restores again w true h = fail-Restores StatusCode.invalid_argument w
  checked-Restores again w false h = h

  -- The rest of the loop, from any world between the attempts.
  abbrev Continues : Action MemoryStorage CommitResult → Type 0
  Continues again = (u : World MemoryStorage) → Between options start u → Restores (again u)

  pause-Restores :
      (again : Action MemoryStorage CommitResult) (n : ℕ) (w : World MemoryStorage)
      → Continues again
      → Between options start w
      → Restores
          (pause formats (memory_storage formats.decimal) options id target transaction again n w)
  unfolding pause branch_exists
  pause-Restores again n w next b =
      let u = options.sleep_for n w in
      elim (Bool-cases (contains id u.storage.branches)) [
        | inr absent ↦ rw (absent, pause) (fail-Restores StatusCode.not_found u)
        | inl present ↦
            rw (present, pause)
              (checked-Restores again u (has_children id u.transactions) (next u (slept w n b)))
      ]

  finish-Restores :
      (commit_id : Text) (w : World MemoryStorage)
      → Restores (
          finish_commit formats
            (memory_storage formats.decimal)
            options
            id
            target
            transaction
            commit_id
            w)
  unfolding finish_commit
  finish-Restores commit_id w =
      elim (StatusOr-cases (forget formats (memory_storage formats.decimal) id w).0) [
        | inl (u, forgotten) ↦ λ e. absurd (ground (arith, e, forgotten))
        | inr (code, kept) ↦ λ e. absurd (ground (arith, e, kept))
      ]

  give_up-Restores :
      (k : Conflict) (detail : CommitConflict) (w : World MemoryStorage)
      → Between options start w
      → Restores (
          give_up formats (memory_storage formats.decimal) options id target transaction k detail w)
  unfolding give_up restore_meta
  give_up-Restores k detail w b h = (w, b, refl)

  resolve_conflict-Restores :
      (again : Action MemoryStorage CommitResult) (n : ℕ) (k : Conflict) (detail : CommitConflict)
      (w : World MemoryStorage)
      → Continues again
      → Between options start w
      → Restores (
          resolve_conflict formats
            (memory_storage formats.decimal)
            options
            id
            target
            transaction
            again
            n
            k
            detail
            w)
  unfolding resolve_conflict
  resolve_conflict-Restores again n k detail w next b =
      let mem = memory_storage formats.decimal in
      let asked = resolve_conflict formats mem options id target transaction again n k detail w in
      elim (Option-cases options.retry_conflict_resolver) [
        | inl without ↦
            let e : asked ≡ pause formats mem options id target transaction again n w =
              ground (arith, without) in
            subst (λ r. Restores r) (sym e) (pause-Restores again n w next b)
        | inr (resolver, there) ↦
            let context : RetryResolutionContext = record {
              merge_conflict = k;
              source_branch = id;
              target_branch = target;
              attempts_performed = n;
            } in
            let u : World MemoryStorage = record w { storage = (resolver context w.storage).1 } in
            let b' : Between options start u = resolved w resolver context there b in
            elim (StatusOr-cases (resolver context w.storage).0) [
              | inr (code, fails) ↦
                  let e : asked ≡ fail formats mem options id target transaction code u =
                    ground (arith, there, fails) in
                  subst (λ r. Restores r) (sym e) (fail-Restores code u)
              | inl (false, declined) ↦
                  let detail' = record detail { retryable = false } in
                  let e : asked ≡ give_up formats mem options id target transaction k detail' u =
                    ground (arith, there, declined) in
                  subst (λ r. Restores r) (sym e) (give_up-Restores k detail' u b')
              | inl (true, settled) ↦
                  let e : asked ≡ pause formats mem options id target transaction again n u =
                    ground (arith, there, settled) in
                  subst (λ r. Restores r) (sym e) (pause-Restores again n u next b')
            ]
      ]

  after_merge-Restores :
      (again : Action MemoryStorage CommitResult) (n : ℕ) (merged : StatusOr MergeResult)
      (w : World MemoryStorage)
      → Continues again
      → Between options start w
      → Restores (
          after_merge formats
            (memory_storage formats.decimal)
            options
            id
            target
            transaction
            again
            n
            merged
            w)
  unfolding after_merge
  after_merge-Restores again n (failed e) w next b = fail-Restores e w
  after_merge-Restores again n (ok (success commit_id)) w next b = finish-Restores commit_id w
  after_merge-Restores again n (ok (conflict k)) w next b =
      let decision =
        evaluate_retry_decision k n options.max_attempts options.path_conflict_classifier in
      let detail =
        build_commit_conflict k n options.max_attempts options.path_conflict_classifier in
      elim (Bool-cases decision.retryable) [
        | inr stop ↦ rw (stop, after_merge) (give_up-Restores k detail w b)
        | inl retry ↦ rw (retry, after_merge) (resolve_conflict-Restores again n k detail w next b)
      ]

  abbrev merged_world : World MemoryStorage → World MemoryStorage
  merged_world w = record w { storage = (merge formats.decimal id target w.storage).1 }

  pub loop-Restores :
      (e : StatusCode) (left n : ℕ) (w : World MemoryStorage)
      → Between options start w
      → Restores (
          commit_loop formats
            (memory_storage formats.decimal)
            options
            id
            target
            transaction
            e
            left
            n
            w)
  unfolding commit_loop
  loop-Restores e zero n w b = fail-Restores e w
  loop-Restores e (suc left) n w b =
      let mem = memory_storage formats.decimal in
      let again = commit_loop formats mem options id target transaction e left (n + 1) in
      let merged = merge formats.decimal id target w.storage in
      elim (merge-Untouched formats.decimal w.storage id target) [
        | inl (commit_id, done) ↦
            subst
              (λ m.
                Restores (
                  after_merge formats mem options id target transaction again n m (merged_world w)))
              (sym done) (finish-Restores commit_id (merged_world w))
        | inr same ↦
            subst
              (λ t. Restores (
                after_merge formats mem options id target transaction again n merged.0
                  (record w { storage = t })))
              (sym same)
              (after_merge-Restores again n merged.0 w (λ u b'. loop-Restores e left (n + 1) u b')
                b)
      ]
