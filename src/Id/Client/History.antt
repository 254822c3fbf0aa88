-- ===== src/Id/Client/History.antt =====
-- Histories of one buffer: calls of `allocate_id`, and workers whose fetch ends.
use mathlib.Core.List.{append_assoc, append-nil}
use artifact_system.Base.{ℕ, ◌≡◌, sym, ap, ◌∙◌, inl, inr, List, [], ◌∷◌, ◌++◌, All}
use artifact_system.Id.Expected.{Expected, value, unexpected}
use artifact_system.Id.Client.Block.{Thrown}
use artifact_system.Id.Client.Buffer.{Buffer, allocate_id, prefetch_worker}
use artifact_system.Id.Client.Queue.{
  Inv, pending_ids, allocate_id-Takes, arrived, IsRange, pending_ids-prefetch_worker,
}

pub data Event : Type 0 where
  take : Event
  arrive : Expected Thrown (ℕ × ℕ) → Event

abbrev pub IsEvent : Event → Type 0
IsEvent take = Unit
IsEvent (arrive f) = IsRange f

abbrev got : Expected Thrown ℕ → List ℕ
got (value id) = id ∷ []
got (unexpected e) = []

-- The IDs that the calls return, in order, and the buffer at the end.
unfoldable pub run : List Event → Buffer → List ℕ × Buffer
run [] b = ([], b)
run (take ∷ es) b = let rest = run es (allocate_id b).1 in (got (allocate_id b).0 ++ rest.0, rest.1)
run (arrive f ∷ es) b = run es (prefetch_worker f b)

-- The IDs that the workers bring, in order.
unfoldable pub brought : List Event → Buffer → List ℕ
brought [] b = []
brought (take ∷ es) b = brought es (allocate_id b).1
brought (arrive f ∷ es) b = arrived b.prefetch_thread f ++ brought es (prefetch_worker f b)

-- Nothing is lost, made up, repeated or reordered: the IDs that the calls have returned, followed by
-- those still in the buffer, are those that were in it, followed by those that the workers brought.
pub run_fifo :
    (es : List Event) (b : Buffer)
    → Inv b
    → All IsEvent es
    → (run es b).0 ++ pending_ids (run es b).1 ≡ pending_ids b ++ brought es b
unfolding run brought
run_fifo [] b i h = sym (append-nil (pending_ids b))
run_fifo (take ∷ es) b i h = elim (allocate_id-Takes b i) [
  | inl (id, e, ids, i') ↦ rw (e, ids) (ap (◌∷◌ id) (run_fifo es (allocate_id b).1 i' h.1))
  | inr (vacant, e) ↦ rw e (run_fifo es b i h.1)
]
run_fifo (arrive f ∷ es) b i h =
    let (ids, i') = pending_ids-prefetch_worker f b i h.0 in
    let rest = run_fifo es (prefetch_worker f b) i' h.1 in
    rest
    ∙ ap (λ (l : List ℕ). l ++ brought es (prefetch_worker f b)) ids
    ∙ append_assoc (pending_ids b) (arrived b.prefetch_thread f) (brought es (prefetch_worker f b))
