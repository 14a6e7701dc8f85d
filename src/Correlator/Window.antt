-- ===== src/Correlator/Window.antt =====
-- The sliding window of apps/control_plane/cross_site_correlator.py against the history of all
-- predictions: `_purge_old` only looks at the left end of the deque.
use dcops.Base.{
  ℕ, ◌+◌, ◌≤◌, ◌≡◌, refl, sym, ap, inl, inr, Bool-cases, List, [], ◌∷◌, ◌++◌, All, arith, ltb,
  if◌then◌else◌,
}
use dcops.Correlator.Hits.{Hit, purge_old}

-- The hits that are at most the window old.
unfoldable pub within : ℕ → ℕ → List Hit → List Hit
within window now [] = []
within window now (x ∷ xs) =
    if ltb (x.ts + window) now then within window now xs else x ∷ within window now xs

abbrev pub Ordered : List Hit → Type 0
Ordered [] = Unit
Ordered (x ∷ xs) = All (λ (y : Hit). x.ts ≤ y.ts) xs × Ordered xs

within-All :
    (window now : ℕ) (xs : List Hit)
    → All (λ (y : Hit). now ≤ y.ts + window) xs
    → within window now xs ≡ xs
unfolding within
within-All window now [] h = refl
within-All window now (x ∷ xs) (h, hs) = ground (arith, within-All window now xs hs)

pub All-later :
    (window now t : ℕ) (xs : List Hit)
    → now ≤ t + window
    → All (λ (y : Hit). t ≤ y.ts) xs
    → All (λ (y : Hit). now ≤ y.ts + window) xs
All-later window now t [] h hs = tt
All-later window now t (x ∷ xs) h (hx, hs) = (omega arith, All-later window now t xs h hs)

-- On a bucket in the order of time, taking from the left is filtering.
pub purge_old-eq-within :
    (window now : ℕ) (xs : List Hit) → Ordered xs → purge_old window now xs ≡ within window now xs
unfolding purge_old within
purge_old-eq-within window now [] o = refl
purge_old-eq-within window now (x ∷ xs) (h, o) = elim (Bool-cases (ltb (x.ts + window) now)) [
  | inl old ↦ rw old (purge_old-eq-within window now xs o)
  | inr recent ↦ rw recent (
      ap (λ (r : List Hit). x ∷ r)
        (sym (within-All window now xs (All-later window now x.ts xs (ground arith) h))))
]

pub within-append :
    (window now : ℕ) (xs ys : List Hit)
    → within window now (xs ++ ys) ≡ within window now xs ++ within window now ys
unfolding within
within-append window now [] ys = refl
within-append window now (x ∷ xs) ys = ground (arith, within-append window now xs ys)

-- A later window takes nothing that an earlier one refused.
pub within-within :
    (window a b : ℕ) (xs : List Hit)
    → a ≤ b
    → within window b (within window a xs) ≡ within window b xs
unfolding within
within-within window a b [] h = refl
within-within window a b (x ∷ xs) h = ground (arith, within-within window a b xs h)

pub All-within :
    (window now t : ℕ) (xs : List Hit)
    → All (λ (y : Hit). t ≤ y.ts) xs
    → All (λ (y : Hit). t ≤ y.ts) (within window now xs)
unfolding within
All-within window now t [] h = tt
All-within window now t (x ∷ xs) (h, hs) = ground (arith, All-within window now t xs hs)

pub Ordered-within : (window now : ℕ) (xs : List Hit) → Ordered xs → Ordered (within window now xs)
unfolding within
Ordered-within window now [] o = tt
Ordered-within window now (x ∷ xs) (h, o) = elim (Bool-cases (ltb (x.ts + window) now)) [
  | inl old ↦ rw old (Ordered-within window now xs o)
  | inr recent ↦ rw recent (All-within window now x.ts xs h, Ordered-within window now xs o)
]

pub All-snoc :
    (t : ℕ) (xs : List Hit) (x : Hit)
    → All (λ (y : Hit). t ≤ y.ts) xs
    → t ≤ x.ts
    → All (λ (y : Hit). t ≤ y.ts) (xs ++ x ∷ [])
All-snoc t [] x h l = (l, tt)
All-snoc t (y ∷ xs) x (h, hs) l = (h, All-snoc t xs x hs l)

pub Ordered-snoc :
    (xs : List Hit) (x : Hit)
    → Ordered xs
    → All (λ (y : Hit). y.ts ≤ x.ts) xs
    → Ordered (xs ++ x ∷ [])
Ordered-snoc [] x o l = (tt, tt)
Ordered-snoc (y ∷ xs) x (h, o) (l, ls) = (All-snoc y.ts xs x h l, Ordered-snoc xs x o ls)
