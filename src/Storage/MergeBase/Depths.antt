-- ===== src/Storage/MergeBase/Depths.antt =====
-- The walk of FindMergeBase over the ancestors, and its fuel.
use artifact_system.Base.{
  ℕ, zero, suc, ◌+◌, ◌*◌, ◌%◌, ◌^◌, ◌≤◌, ◌<◌, ◌≡◌, refl, sym, subst, ◌∙◌, inl, inr, some, List, [],
  ◌∷◌, ◌++◌, if◌then◌else◌, if_both, Text, text_eq, text_eq_iff, text_key, Dict, lookup, insert,
  arith, Bool-cases, All, All-append, length,
}
use artifact_system.Storage.Status.{ok}
use artifact_system.Storage.State.{CommitData, MemoryStorage}
use artifact_system.Storage.Memory.{commit_id_of}
use artifact_system.Storage.Invariant.{
  DecimalLaws, IsCommit, Older, WellFormed, commit_id_of_injective,
}
use artifact_system.Storage.MergeBase.{
  weight, is_closer, visit_parent, visit_parents, ancestor_depths_loop, build_ancestor_depths,
}

weight_positive : (n : ℕ) → 1 ≤ weight n
weight_positive zero = omega arith
weight_positive (suc n) = omega (arith, weight_positive n)

weight_mono : (m n : ℕ) → m ≤ n → weight m ≤ weight n
weight_mono zero n h = weight_positive n
weight_mono (suc m) zero h = absurd (omega arith)
weight_mono (suc m) (suc n) h = omega (arith, weight_mono m n (omega arith))

weight_below : (m n : ℕ) → m < n → 3 * weight m ≤ weight n
weight_below m zero h = absurd (omega arith)
weight_below m (suc n) h = omega (arith, weight_mono m n (omega arith))

insert-All {ℓ} :
    (P : Text → Type ℓ) (p : Text) (n : ℕ) (m : Dict Text ℕ)
    → P p
    → All (λ e. P e.0) m
    → All (λ e. P e.0) (insert p n m)
unfolding insert
insert-All P p n [] h a = (h, tt)
insert-All P p n ((q, v) ∷ m) h (a, rest) =
    if_both (All (λ e. P e.0)) (text_eq q p) ((p, n) ∷ m)
      (if text_key.blt p q then (p, n) ∷ (q, v) ∷ m else ((q, v) ∷ insert p n m)) (h, rest)
      (if_both (All (λ e. P e.0)) (text_key.blt p q) ((p, n) ∷ (q, v) ∷ m) ((q, v) ∷ insert p n m)
        (h, (a, rest)) (a, insert-All P p n m h rest))

pub contains-All {ℓ} :
    (P : Text → Type ℓ) (p : Text) (n : ℕ) (m : Dict Text ℕ)
    → lookup p m ≡ some n
    → All (λ e. P e.0) m
    → P p
unfolding lookup
contains-All P p n [] h a = absurd (ground (arith, h))
contains-All P p n ((q, v) ∷ m) h (a, rest) = elim (Bool-cases (text_eq q p)) [
  | inl same ↦ rw (sym ((text_eq_iff q p).0 same)) a
  | inr other ↦ contains-All P p n m (ground (arith, h, other)) rest
]

module _ (decimal : ℕ → Text) (s : MemoryStorage) where
  -- Each entry of the queue is a commit; the rounds that they take stay within `w`.
  abbrev Queued : List (Text × ℕ) → ℕ → Type 0
  Queued [] w = Unit {0}
  Queued ((i, d) ∷ queue) w =
      (n : ℕ) × (v : ℕ) × (weight n + v ≤ w)
      × (i ≡ commit_id_of decimal n)
      × IsCommit s i
      × Queued queue v

  Queued-append :
      (queue : List (Text × ℕ)) (w e m : ℕ) (i : Text) (d : ℕ)
      → Queued queue w
      → i ≡ commit_id_of decimal m
      → IsCommit s i
      → weight m ≤ e
      → Queued (queue ++ ((i, d) ∷ [])) (w + e)
  Queued-append [] w e m i d h eq found le = (m, 0, omega arith, eq, found, tt)
  Queued-append ((j, c) ∷ queue) w e m i d (n, v, fits, eq', found', rest) eq found le =
      (n, v + e, omega arith, eq', found', Queued-append queue v e m i d rest eq found le)

  -- What the two containers of the search hold: texts that satisfy `P`.
  abbrev Holds : (Text → Type 0) → Dict Text ℕ × List (Text × ℕ) → Type 0
  Holds P (depths, queue) = All (λ e. P e.0) depths × All (λ e. P e.0) queue

  -- One parent adds at most a third of what its child took.
  visit_parent-Queued :
      (P : Text → Type 0) (n pd : ℕ) (p : Text) (state : Dict Text ℕ × List (Text × ℕ)) (w : ℕ)
      → Older decimal s n p
      → P p
      → Queued state.1 w
      → Holds P state
      → (e : ℕ) × (3 * e ≤ weight n)
        × Queued (visit_parent pd p state).1 (w + e)
        × Holds P (visit_parent pd p state)
  unfolding visit_parent
  visit_parent-Queued P n pd p (depths, queue) w (m, below, eq, found) hp hq (hd, hl) =
      elim (Bool-cases (is_closer pd (lookup p depths))) [
        | inl closer ↦ rw closer (
          weight m,
          weight_below m n below,
          Queued-append queue w (weight m) m p pd hq eq found (omega arith),
          (
            insert-All P p pd depths hp hd,
            All-append (λ e. P e.0) queue ((p, pd) ∷ []) hl (hp, tt),
          ),
        )
        | inr further ↦ rw further (0, omega arith, subst (Queued queue) (omega arith) hq, (hd, hl))
      ]

  -- A commit has at most two parents, so they add less than it took.
  visit_parents-Queued :
      (P : Text → Type 0) (n pd : ℕ) (ps : List Text) (state : Dict Text ℕ × List (Text × ℕ))
      (w : ℕ)
      → length ps ≤ 2
      → All (Older decimal s n) ps
      → All P ps
      → Queued state.1 w
      → Holds P state
      → (v : ℕ) × (v < weight n + w)
        × Queued (visit_parents pd ps state).1 v
        × Holds P (visit_parents pd ps state)
  unfolding visit_parents
  visit_parents-Queued P n pd [] state w few older hp hq h =
      (w, omega (arith, weight_positive n), hq, h)
  visit_parents-Queued P n pd (p ∷ []) state w few (o, _) (hp, _) hq h =
      let (e, le, hq', h') = visit_parent-Queued P n pd p state w o hp hq h in
      (w + e, omega (arith, weight_positive n), hq', h')
  visit_parents-Queued P n pd (p ∷ q ∷ []) state w few (o, (o', _)) (hp, (hp', _)) hq h =
      let (e, le, hq', h') = visit_parent-Queued P n pd p state w o hp hq h in
      let (f, le', hq'', h'') =
        visit_parent-Queued P n pd q (visit_parent pd p state) (w + e) o' hp' hq' h' in
      (w + e + f, omega (arith, weight_positive n), hq'', h'')
  visit_parents-Queued P n pd (p ∷ q ∷ r ∷ ps) state w few older hp hq h = absurd (omega arith)

  -- `P` is passed on from a commit to its parents.
  abbrev pub Inherited : (Text → Type 0) → Type 0
  Inherited P = (i : Text) (c : CommitData) → lookup i s.commits ≡ some c → P i → All P c.parent_ids

  ancestor_depths_loop-Holds :
      (P : Text → Type 0)
      → Inherited P
      → DecimalLaws decimal
      → WellFormed decimal s
      → (fuel : ℕ) (state : Dict Text ℕ × List (Text × ℕ)) (w : ℕ) → w ≤ fuel
      → Queued state.1 w
      → Holds P state
      → (depths : Dict Text ℕ) × (ancestor_depths_loop fuel s.commits state ≡ ok depths)
        × All (λ e. P e.0) depths
  unfolding ancestor_depths_loop
  ancestor_depths_loop-Holds P inherit laws wf zero (depths, []) w le hq h = (depths, refl, h.0)
  ancestor_depths_loop-Holds P inherit laws wf (suc fuel) (depths, []) w le hq h =
      (depths, refl, h.0)
  ancestor_depths_loop-Holds P inherit laws wf zero (depths, entry ∷ queue) w le
        (n, v, fits, _, _, _) h =
      absurd (omega (arith, weight_positive n))
  ancestor_depths_loop-Holds P inherit laws wf (suc fuel) (depths, (i, d) ∷ queue) w le
        (n, v, fits, eq, (c, found), rest) (hd, (hi, hl)) =
      let (n', _, eq', older, few) = wf.numbered i c found in
      let same : n' ≡ n = commit_id_of_injective decimal laws n' n (sym eq' ∙ eq) in
      let (u, less, hq', h') =
        visit_parents-Queued P n ((d + 1) % 2 ^ 64) c.parent_ids (depths, queue) v few
          (rw (sym same) older) (inherit i c found hi) rest (hd, hl) in
      rw (found, ancestor_depths_loop)
        (ancestor_depths_loop-Holds P inherit laws wf fuel
          (visit_parents ((d + 1) % 2 ^ 64) c.parent_ids (depths, queue)) u (omega arith) hq' h')

  pub build_ancestor_depths-Holds :
      (P : Text → Type 0)
      → Inherited P
      → DecimalLaws decimal
      → WellFormed decimal s
      → (start : Text) → IsCommit s start
      → P start
      → (depths : Dict Text ℕ) × (build_ancestor_depths s start ≡ ok depths)
        × All (λ e. P e.0) depths
  unfolding build_ancestor_depths
  build_ancestor_depths-Holds P inherit laws wf start (c, found) hp =
      let (n, below, eq, _, _) = wf.numbered start c found in
      ancestor_depths_loop-Holds P inherit laws wf (weight s.next_commit_seq)
        (insert start 0 [], (start, 0) ∷ []) (weight n)
        (weight_mono n s.next_commit_seq (omega arith)) (n, 0, omega arith, eq, (c, found), tt)
        (insert-All P start 0 [] hp tt, (hp, tt))
