-- ===== src/Storage/Views.antt =====
-- What a reader of a branch or a commit sees at each path.
use artifact_system.Base.{
  ◌≡◌, refl, none, some, inl, inr, [], ◌∷◌, if◌then◌else◌, Option, Text, text_eq, text_eq_iff,
  text_key, Dict, lookup, lookup-insert, lookup-erase, arith, Option-cases, Ordered, insert-Ordered,
  erase-Ordered, lookup-eq-none_of_Above,
}
use artifact_system.Storage.State.{StagedChange, apply_change, apply_staged}

-- A staged change hides what was committed.
abbrev pub seen : Option StagedChange → Option Text → Option Text
seen none committed = committed
seen (some change) committed = change.data_of

pub lookup-apply_change :
    (p q : Text) (c : StagedChange) (state : Dict Text Text)
    → lookup q (apply_change p c state) ≡ (if text_eq p q then c.data_of else lookup q state)
unfolding apply_change
lookup-apply_change p q c state = elim (Option-cases (c.data_of)) [
  | inl e ↦ rw (e, lookup-erase p q state) refl
  | inr (t, e) ↦ rw (e, lookup-insert p q t state) refl
]

apply_change-Ordered :
    (p : Text) (c : StagedChange) (state : Dict Text Text)
    → Ordered state
    → Ordered (apply_change p c state)
unfolding apply_change
apply_change-Ordered p c state h = elim (Option-cases (c.data_of)) [
  | inl e ↦ rw e (erase-Ordered p state h)
  | inr (t, e) ↦ rw e (insert-Ordered p t state h)
]

pub lookup-apply_staged :
    (staging : Dict Text StagedChange) (state : Dict Text Text) (q : Text)
    → Ordered staging
    → lookup q (apply_staged staging state) ≡ seen (lookup q staging) (lookup q state)
unfolding apply_staged lookup
lookup-apply_staged [] state q h = refl
lookup-apply_staged ((p, c) ∷ staging) state q (above, h) = ground (
  arith,
  lookup-apply_staged staging (apply_change p c state) q h,
  lookup-apply_change p q c state,
  lookup-eq-none_of_Above p staging above,
  text_eq_iff p q,
)

pub apply_staged-Ordered :
    (staging : Dict Text StagedChange) (state : Dict Text Text)
    → Ordered state
    → Ordered (apply_staged staging state)
unfolding apply_staged
apply_staged-Ordered [] state h = h
apply_staged-Ordered ((p, c) ∷ staging) state h =
    apply_staged-Ordered staging (apply_change p c state) (apply_change-Ordered p c state h)
