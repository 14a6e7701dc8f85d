-- ===== src/Correlator/Record.antt =====
-- `CrossSiteCorrelator._hits` of apps/control_plane/cross_site_correlator.py against the history of
-- all predictions.
use dcops.Base.{
  ◌⊎◌, ℕ, ◌≤◌, ◌≡◌, refl, sym, subst, ap, ◌∙◌, inl, inr, String, Bool, Bool-cases, true, false,
  ◌&&◌, Option, none, some, List, [], ◌∷◌, ◌++◌, All, append_assoc, append-nil, arith, str_eq, ltb,
  length, if◌then◌else◌,
}
use dcops.Value.{Value, Dict, lookup, get_or}
use dcops.Correlator.Hits.{
  Config, Hit, Correlator, fresh_correlator, as_text, reaches_floor, purge_old, device_of,
  record_hit, record_fields, record_prediction,
}
use dcops.Correlator.Publisher.{Candidate, round, run}
use dcops.Correlator.Times.{both_eq}
use dcops.Correlator.Window.{
  within, Ordered, purge_old-eq-within, within-append, within-within, Ordered-within, Ordered-snoc,
}

abbrev names : Option String → String → Bool
names none s = false
names (some a) s = str_eq a s

-- The hit of one site and kind that a prediction is, if it is one.
unfoldable pub hit_of : Config → String → String → ℕ → Dict → List Hit
hit_of c site kind now event =
    if names (as_text (lookup "site_id" event)) site
      && (names (as_text (lookup "failure_kind" event)) kind
          && reaches_floor c (lookup "probability" event))
    then record {
      ts = now;
      confidence = get_or "probability" Value.null event;
      device_id = device_of event;
    }
      ∷ []
    else []

unfoldable pub accepted : Config → String → String → List (ℕ × Dict) → List Hit
accepted c site kind [] = []
accepted c site kind ((now, event) ∷ events) =
    hit_of c site kind now event ++ accepted c site kind events

abbrev pub last_ts : ℕ → List Hit → ℕ
last_ts t [] = t
last_ts t (x ∷ xs) = last_ts x.ts xs

-- A clock that does not run backwards.
abbrev pub Clocked : ℕ → List (ℕ × Dict) → Type 0
Clocked t [] = Unit
Clocked t ((now, event) ∷ events) = (t ≤ now) × Clocked now events

last_ts-snoc : (t : ℕ) (xs : List Hit) (x : Hit) → last_ts t (xs ++ x ∷ []) ≡ x.ts
last_ts-snoc t [] x = refl
last_ts-snoc t (y ∷ xs) x = last_ts-snoc y.ts xs x

module _ (c : Config) (site kind : String) where
  record_hit-hits :
      (now : ℕ) (a k : String) (v : Value) (d : String) (s : Correlator)
      → (record_hit c now a k v d s).0.hits site kind ≡ (
          if str_eq a site && str_eq k kind
          then purge_old c.window now
              (s.hits a k ++ record { ts = now; confidence = v; device_id = d } ∷ [])
          else s.hits site kind)
  unfolding record_hit
  record_hit-hits now a k v d s =
      let bucket =
        purge_old c.window now
          (s.hits a k ++ record { ts = now; confidence = v; device_id = d } ∷ []) in
      elim (Bool-cases (ltb (length bucket) c.propagation_threshold)) [
        | inl few ↦ rw (few, record_hit) refl
        | inr enough ↦ rw (enough, record_hit) refl
      ]

  record_prediction-hits :
      (now : ℕ) (event : Dict) (s : Correlator)
      → ((hit_of c site kind now event ≡ [])
          × ((record_prediction c now event s).0.hits site kind ≡ s.hits site kind))
        ⊎ ((x : Hit) × (x.ts ≡ now)
            × (hit_of c site kind now event ≡ x ∷ [])
            × ((record_prediction c now event s).0.hits site kind
                ≡ purge_old c.window now (s.hits site kind ++ x ∷ [])))
  unfolding record_prediction record_fields hit_of
  record_prediction-hits now event s =
      go (as_text (lookup "site_id" event)) (as_text (lookup "failure_kind" event))
        (reaches_floor c (lookup "probability" event)) refl
    where
      x : Hit
      x = record {
        ts = now;
        confidence = get_or "probability" Value.null event;
        device_id = device_of event;
      }

      go :
          (a k : Option String) (high : Bool)
          → reaches_floor c (lookup "probability" event) ≡ high
          → (((if names a site && (names k kind && high) then x ∷ [] else []) ≡ [])
              × ((record_fields c now event a k s).0.hits site kind ≡ s.hits site kind))
            ⊎ ((y : Hit) × (y.ts ≡ now)
                × ((if names a site && (names k kind && high) then x ∷ [] else []) ≡ y ∷ [])
                × ((record_fields c now event a k s).0.hits site kind
                    ≡ purge_old c.window now (s.hits site kind ++ y ∷ [])))
      go none k high e = inl (refl, refl)
      go (some a) none high e = inl (ground arith, refl)
      go (some a) (some k) false e = inl (ground arith, rw (e, record_fields) refl)
      go (some a) (some k) true e = elim (Bool-cases (str_eq a site && str_eq k kind)) [
        | inl same ↦ inr (
          x,
          refl,
          ground arith,
          let (ea, ek) = both_eq a site k kind same in
              rw (e, record_fields) (record_hit-hits now a k _ _ s ∙ rw (same, ea, ek) refl),
        )
        | inr other ↦
            inl
              (ground arith, rw (e, record_fields) (record_hit-hits now a k _ _ s ∙ rw other refl))
      ]

  -- The bucket after the hits `xs` of this site and kind, which are no later than `now`.
  record Tracks (s : Correlator) (xs : List Hit) (now : ℕ) : Type 0 where
    bucket : s.hits site kind ≡ within c.window (last_ts 0 xs) xs
    ordered : Ordered xs
    past : All (λ (y : Hit). y.ts ≤ now) xs
    latest : last_ts 0 xs ≤ now

  All-past :
      (t now : ℕ) (xs : List Hit)
      → t ≤ now
      → All (λ (y : Hit). y.ts ≤ t) xs
      → All (λ (y : Hit). y.ts ≤ now) xs
  All-past t now [] h l = tt
  All-past t now (x ∷ xs) h (l, ls) = (omega arith, All-past t now xs h ls)

  All-past-snoc :
      (now : ℕ) (xs : List Hit) (x : Hit)
      → All (λ (y : Hit). y.ts ≤ now) xs
      → x.ts ≤ now
      → All (λ (y : Hit). y.ts ≤ now) (xs ++ x ∷ [])
  All-past-snoc now [] x h l = (l, tt)
  All-past-snoc now (y ∷ xs) x (h, hs) l = (h, All-past-snoc now xs x hs l)

  All-within-past :
      (w t now : ℕ) (xs : List Hit)
      → All (λ (y : Hit). y.ts ≤ now) xs
      → All (λ (y : Hit). y.ts ≤ now) (within w t xs)
  unfolding within
  All-within-past w t now [] h = tt
  All-within-past w t now (x ∷ xs) (h, hs) = ground (arith, All-within-past w t now xs hs)

  Tracks-hit :
      (s s' : Correlator) (xs : List Hit) (t : ℕ) (x : Hit)
      → t ≤ x.ts
      → s'.hits site kind ≡ purge_old c.window x.ts (s.hits site kind ++ x ∷ [])
      → Tracks s xs t
      → Tracks s' (xs ++ x ∷ []) x.ts
  Tracks-hit s s' xs t x h e k =
      let past = All-past t x.ts xs h k.past in
      let old = within c.window (last_ts 0 xs) xs in
      record {
        bucket =
            e
            ∙ (rw k.bucket (
                purge_old-eq-within c.window x.ts (old ++ x ∷ []) (
                  Ordered-snoc old x (Ordered-within c.window _ xs k.ordered)
                    (All-within-past c.window _ x.ts xs past))
                ∙ within-append c.window x.ts old (x ∷ [])
                ∙ ap (λ (r : List Hit). r ++ within c.window x.ts (x ∷ []))
                    (within-within c.window (last_ts 0 xs) x.ts xs (omega (arith, k.latest)))
                ∙ sym (within-append c.window x.ts xs (x ∷ []))
                ∙ ap (λ (n : ℕ). within c.window n (xs ++ x ∷ [])) (sym (last_ts-snoc 0 xs x))));
        ordered = Ordered-snoc xs x k.ordered past;
        past = All-past-snoc x.ts xs x past (omega arith);
        latest = omega (arith, last_ts-snoc 0 xs x);
      }

  Tracks-run :
      (events : List (ℕ × Dict)) (s : Correlator × List Candidate) (xs : List Hit) (t : ℕ)
      → Clocked t events
      → Tracks s.0 xs t
      → (run c events s).0.hits site kind
        ≡ within c.window
            (last_ts 0 (xs ++ accepted c site kind events))
            (xs ++ accepted c site kind events)
  unfolding run round accepted
  Tracks-run [] s xs t clock k = rw (append-nil xs) k.bucket
  Tracks-run ((now, event) ∷ events) (s, sent) xs t (later, clock) k =
      elim (record_prediction-hits now event s) [
        | inl (nothing, same) ↦ rw nothing (
            Tracks-run events (round c now event (s, sent)) xs now clock record {
              bucket = same ∙ k.bucket;
              ordered = k.ordered;
              past = All-past t now xs later k.past;
              latest = omega (arith, k.latest, later);
            })
        | inr (x, e, hit, added) ↦
            rw (hit, sym (append_assoc xs (x ∷ []) (accepted c site kind events)))
              (Tracks-run events (round c now event (s, sent)) (xs ++ x ∷ []) now clock (
                subst (λ (n : ℕ). Tracks (record_prediction c now event s).0 (xs ++ x ∷ []) n) e
                  (Tracks-hit s (record_prediction c now event s).0 xs t x (omega (arith, e, later))
                    (added
                      ∙ ap (λ (n : ℕ). purge_old c.window n (s.hits site kind ++ x ∷ [])) (sym e))
                    k)))
      ]

  -- Let the clock not run backwards. After any predictions, the deque of a site and a kind holds
  -- exactly the accepted predictions of that site and kind (their confidence reaches the floor)
  -- that lie in the window that ends at the last of them, in their order.
  pub run-hits :
      (events : List (ℕ × Dict))
      → Clocked 0 events
      → (run c events (fresh_correlator, [])).0.hits site kind
        ≡ within c.window (last_ts 0 (accepted c site kind events)) (accepted c site kind events)
  run-hits events clock =
      Tracks-run events (fresh_correlator, []) [] 0 clock
        record { bucket = unfold within in refl; ordered = tt; past = tt; latest = omega arith }
