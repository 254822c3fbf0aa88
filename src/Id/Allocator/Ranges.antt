-- ===== src/Id/Allocator/Ranges.antt =====
-- Half-open ranges of IDs, and lists of ranges that do not overlap.
use artifact_system.Base.{ℕ, ◌+◌, ◌≤◌, ◌⊎◌, inl, inr, List, [], ◌∷◌, All, arith}

abbrev pub Range : Type 0
Range = ℕ × ℕ

abbrev pub Apart : Range → Range → Type 0
Apart r t = (r.1 ≤ t.0) ⊎ (t.1 ≤ r.0)

abbrev pub Disjoint : List Range → Type 0
Disjoint [] = Unit
Disjoint (r ∷ rs) = All (Apart r) rs × Disjoint rs

abbrev pub nothing : Range
nothing = (0, 0)

pub Apart-symm : (r t : Range) → Apart r t → Apart t r
Apart-symm r t (inl h) = inr h
Apart-symm r t (inr h) = inl h

pub nothing-Apart : (rs : List Range) → All (Apart nothing) rs
nothing-Apart [] = tt
nothing-Apart (r ∷ rs) = (inl (omega arith), nothing-Apart rs)

pub Apart-nothing : (r : Range) → Apart r nothing
Apart-nothing r = inr (omega arith)

-- A part of a range is apart from all that the range is apart from.
part-Apart :
    (lo hi n e : ℕ) (rs : List Range)
    → n ≤ lo
    → hi ≤ e
    → All (Apart (n, e)) rs
    → All (Apart (lo, hi)) rs
part-Apart lo hi n e [] h k a = tt
part-Apart lo hi n e (r ∷ rs) h k a = (ground arith, part-Apart lo hi n e rs h k a.1)

-- The moves of an allocator over its active, its background and its pending range and the list of
-- those given away.
pub carve-Disjoint :
    (n e k : ℕ) (b p : Range) (g : List Range)
    → n + k ≤ e
    → Disjoint ((n, e) ∷ b ∷ p ∷ g)
    → Disjoint ((n + k, e) ∷ b ∷ p ∷ (n, n + k) ∷ g)
carve-Disjoint n e k b p g fits ((ab, (ap, ag)), ((bp, bg), (pg, gg))) = (
  (
    ground arith,
    (ground arith, (inr (omega arith), part-Apart (n + k) e n e g (omega arith) (omega arith) ag)),
  ),
  (
    (bp, (ground arith, bg)),
    ((ground arith, pg), (part-Apart n (n + k) n e g (omega arith) (omega arith) ag, gg)),
  ),
)

pub promote-Disjoint :
    (a b p : Range) (g : List Range) → Disjoint (a ∷ b ∷ p ∷ g) → Disjoint (b ∷ nothing ∷ p ∷ g)
promote-Disjoint a b p g (_, ((bp, bg), (pg, gg))) =
    ((Apart-nothing b, (bp, bg)), ((inl (omega arith), nothing-Apart g), (pg, gg)))

pub harvest-Disjoint :
    (a b p : Range) (g : List Range) → Disjoint (a ∷ b ∷ p ∷ g) → Disjoint (a ∷ p ∷ nothing ∷ g)
harvest-Disjoint a b p g ((ab, (ap, ag)), (_, (pg, gg))) =
    ((ap, (Apart-nothing a, ag)), ((Apart-nothing p, pg), (nothing-Apart g, gg)))

pub forget-Disjoint :
    (a b p : Range) (g : List Range) → Disjoint (a ∷ b ∷ p ∷ g) → Disjoint (a ∷ b ∷ nothing ∷ g)
forget-Disjoint a b p g ((ab, (ap, ag)), ((bp, bg), (pg, gg))) =
    ((ab, (Apart-nothing a, ag)), ((Apart-nothing b, bg), (nothing-Apart g, gg)))

pub take_pending-Disjoint :
    (a b p : Range) (g : List Range) → Disjoint (a ∷ b ∷ p ∷ g) → Disjoint (p ∷ b ∷ nothing ∷ g)
take_pending-Disjoint a b p g (_, ((bp, bg), (pg, gg))) =
    ((Apart-symm b p bp, (Apart-nothing p, pg)), ((Apart-nothing b, bg), (nothing-Apart g, gg)))

pub drop-Disjoint :
    (a b p r : Range) (g : List Range) → Disjoint (a ∷ b ∷ p ∷ r ∷ g) → Disjoint (a ∷ b ∷ p ∷ g)
drop-Disjoint a b p r g ((ab, (ap, (_, ag))), ((bp, (_, bg)), ((_, pg), (_, gg)))) =
    ((ab, (ap, ag)), ((bp, bg), (pg, gg)))

-- A range that is apart from all others takes the place of one of them.
pub active-Disjoint :
    (x a b p : Range) (g : List Range)
    → All (Apart x) (b ∷ p ∷ g)
    → Disjoint (a ∷ b ∷ p ∷ g)
    → Disjoint (x ∷ b ∷ p ∷ g)
active-Disjoint x a b p g new (_, others) = (new, others)

pub pending-Disjoint :
    (x a b p : Range) (g : List Range)
    → All (Apart x) (a ∷ b ∷ g)
    → Disjoint (a ∷ b ∷ p ∷ g)
    → Disjoint (a ∷ b ∷ x ∷ g)
pending-Disjoint x a b p g (xa, (xb, xg)) ((ab, (ap, ag)), ((bp, bg), (pg, gg))) =
    ((ab, (Apart-symm x a xa, ag)), ((Apart-symm x b xb, bg), (xg, gg)))
