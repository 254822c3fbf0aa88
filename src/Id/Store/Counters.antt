-- ===== src/Id/Store/Counters.antt =====
-- The counters of store/memory_store.cpp, against the interface.
use artifact_system.Base.{
  ℕ, ◌+◌, ◌%◌, ◌^◌, ◌≤◌, ◌<◌, ◌≡◌, refl, ◌&&◌, none, some, ◌==◌, inl, inr, if◌then◌else◌, Text,
  text_eq, text_eq_iff, nat_key, text_key, lookup, insert, lookup-insert, arith, Option-cases,
}
use artifact_system.Id.Expected.{value, unexpected, StoreError}
use artifact_system.Id.Store.{
  MemoryStore, PartitionData, allocate, or_zero, CounterLaws, memory_store,
}

-- The counter of a bucket; a missing partition or counter counts 0.
abbrev pub counter : MemoryStore → Text → ℕ → ℕ
counter s p b = elim (lookup p s) [ none ↦ 0 | some d ↦ or_zero (lookup b d.bucket_counters) ]

-- The counters after one entry of one partition is written.
counter-insert :
    (s : MemoryStore) (p q : Text) (b j n : ℕ) (d : PartitionData)
    → lookup p s ≡ some d
    → counter (insert p (record d { bucket_counters = insert b n d.bucket_counters }) s) q j
      ≡ (if text_eq p q && (b == j) then n else counter s q j)
counter-insert s p q b j n d h = ground (
  arith,
  text_eq_iff p q,
  lookup-insert p q (record d { bucket_counters = insert b n d.bucket_counters }) s,
  lookup-insert b j n d.bucket_counters,
)

-- A grant: the partition exists, and the sum is within the limit.
granted_lem :
    (p : Text) (b inc limit : ℕ) (s : MemoryStore) (prev : ℕ)
    → counter s p b + inc < 2 ^ 64
    → (allocate p b inc limit s).0 ≡ value prev
    → (prev ≡ counter s p b)
      × (prev + inc ≤ limit)
      × ((q : Text) (j : ℕ)
          → counter (allocate p b inc limit s).1 q j
            ≡ (if text_eq p q && (b == j) then prev + inc else counter s q j))
unfolding allocate
granted_lem p b inc limit s prev fits h = elim (Option-cases (lookup p s)) [
  | inl missing ↦ absurd (ground (arith, missing))
  | inr (d, found) ↦ (
    ground (arith, found),
    ground (arith, found),
    λ q j. ground (
      arith,
      found,
      text_eq_iff p q,
      counter-insert s p q b j ((or_zero (lookup b d.bucket_counters) + inc) % 2 ^ 64) d found,
    ),
  )
]

refused_lem :
    (p : Text) (b inc limit : ℕ) (s : MemoryStore) (e : StoreError)
    → (allocate p b inc limit s).0 ≡ unexpected e
    → (q : Text) (j : ℕ) → counter (allocate p b inc limit s).1 q j ≡ counter s q j
unfolding allocate
refused_lem p b inc limit s e h q j = elim (Option-cases (lookup p s)) [
  | inl missing ↦ rw (missing, allocate) refl
  | inr (d, found) ↦ ground (
    arith,
    found,
    text_eq_iff p q,
    counter-insert s p q b j (or_zero (lookup b d.bucket_counters)) d found,
    counter-insert s p q b j ((or_zero (lookup b d.bucket_counters) + inc) % 2 ^ 64) d found,
  )
]

pub memory_store-CounterLaws : CounterLaws memory_store counter
memory_store-CounterLaws = record { granted = granted_lem; refused = refused_lem }
