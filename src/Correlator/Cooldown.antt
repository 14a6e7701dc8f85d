-- ===== src/Correlator/Cooldown.antt =====
-- `_REPROPAGATE_COOLDOWN_S` of apps/control_plane/cross_site_correlator.py. The correlator answers
-- with one tuple as soon as one target is ready, and the publisher then sends to every target; this
-- file shows that the targets of a site and kind are always ready together.
use mathlib.Core.List.{Memᴰ}
use dcops.Base.{
  ℕ, ◌+◌, ◌≤◌, ◌≡◌, ◌≢◌, refl, ap, ◌⊎◌, inl, inr, String, Bool-cases, true, false, Option, List, [],
  ◌∷◌, arith, str_eq, str_eq_refl, str_mem,
}
use dcops.Value.{Value, Dict}
use dcops.Correlator.Hits.{Config, Correlator, Ready, fresh_correlator, ready_targets}
use dcops.Correlator.Publisher.{Candidate, build_candidate, fan_out, propagate, round, run}
use dcops.Correlator.Times.{
  Uniform, Outcome, kept, moved, moved_times, Uniform-moved, moved_times_mono, moved_times_ready,
  record_prediction-Outcome,
}

-- The sites of the federation, without repetitions.
abbrev pub Distinct : List String → Type 0
Distinct [] = Unit
Distinct (t ∷ ts) = (str_mem t ts ≡ false) × Distinct ts

-- Of two candidates for one origin, kind and target, the later comes a cooldown after the earlier.
abbrev pub Spaced : Config → List Candidate → Type 0
Spaced c [] = Unit
Spaced c (x ∷ xs) =
    ((y : Candidate)
      → Memᴰ y xs
      → y.origin ≡ x.origin
      → y.failure_kind ≡ x.failure_kind
      → y.target ≡ x.target
      → y.at + c.cooldown ≤ x.at)
    × Spaced c xs

-- No candidate is later than the last time of its target.
Bounded : (String → String → String → ℕ) → List Candidate → Type 0
Bounded last sent = (y : Candidate) → Memᴰ y sent → y.at ≤ last y.origin y.failure_kind y.target

module _ (c : Config) (now : ℕ) (ready : Ready) where
  -- What is known of the candidates sent before, for the targets still to come.
  Free : List String → List Candidate → Type 0
  Free ts sent =
      (y : Candidate)
      → Memᴰ y sent
      → y.origin ≡ ready.0
      → y.failure_kind ≡ ready.1
      → str_mem y.target ts ≡ true
      → str_eq y.target ready.0 ≡ false
      → y.at + c.cooldown ≤ now

module _ (c : Config) (now : ℕ) (ready : Ready) (v : Value) (count : ℕ) where
  Spaced-fan_out :
      (ts : List String) (sent : List Candidate)
      → Distinct ts
      → Free c now ready ts sent
      → Spaced c sent
      → Spaced c (fan_out c now ready v count ts sent)
  unfolding fan_out Free build_candidate
  Spaced-fan_out [] sent d free spaced = spaced
  Spaced-fan_out (t ∷ ts) sent (new, d) free spaced = elim (Bool-cases (str_eq t ready.0)) [
    | inl origin ↦
        rw origin
          (Spaced-fan_out ts sent d (λ y m o k i n. free y m o k (rw i (ground arith)) n) spaced)
    | inr other ↦ rw other (
        Spaced-fan_out ts _ d
          (λ y m o k i n. elim m [
            | Memᴰ.head e ↦ ground (arith, ap (λ (z : Candidate). z.target) e, i, new)
            | Memᴰ.tail m' ↦ free y m' o k (ground (arith, i)) n
          ])
          ((λ y m o k e. free y m o k (rw e (ground (arith, str_eq_refl t))) (rw e other)), spaced))
  ]

  pub Memᴰ-fan_out :
      (ts : List String) (sent : List Candidate) (y : Candidate)
      → Memᴰ y (fan_out c now ready v count ts sent)
      → Memᴰ y sent
        ⊎ ((y.at ≡ now)
            × (y.origin ≡ ready.0)
            × (y.failure_kind ≡ ready.1)
            × (str_mem y.target ts ≡ true)
            × (str_eq y.target ready.0 ≡ false)
            × (y.occurrence_count ≡ count))
  unfolding fan_out build_candidate
  Memᴰ-fan_out [] sent y m = inl m
  Memᴰ-fan_out (t ∷ ts) sent y m = elim (Bool-cases (str_eq t ready.0)) [
    | inl origin ↦ elim (Memᴰ-fan_out ts sent y (rw origin at m)) [
      | inl old ↦ inl old
      | inr (a, o, k, i, n, q) ↦ inr (a, o, k, ground (arith, i), n, q)
    ]
    | inr other ↦ elim (Memᴰ-fan_out ts _ y (rw other at m)) [
      | inl (Memᴰ.head e) ↦ inr (
        ap (λ (z : Candidate). z.at) e,
        ap (λ (z : Candidate). z.origin) e,
        ap (λ (z : Candidate). z.failure_kind) e,
        ground (arith, ap (λ (z : Candidate). z.target) e, str_eq_refl t),
        ground (arith, ap (λ (z : Candidate). z.target) e, other),
        ap (λ (z : Candidate). z.occurrence_count) e,
      )
      | inl (Memᴰ.tail old) ↦ inl old
      | inr (a, o, k, i, n, q) ↦ inr (a, o, k, ground (arith, i), n, q)
    ]
  ]

-- The last times in step with what was sent.
record Good (c : Config) (s : Correlator × List Candidate) : Type 0 where
  uniform : Uniform c s.0.last_propagated
  bounded : Bounded s.0.last_propagated s.1
  spaced : Spaced c s.1
  known : (y : Candidate) → Memᴰ y s.1 → str_mem y.target c.federation_sites ≡ true

module _ (c : Config) (now : ℕ) (event : Dict) where
  Good-kept :
      (s s' : Correlator) (sent : List Candidate)
      → s'.last_propagated ≡ s.last_propagated
      → Good c (s, sent)
      → Good c (s', sent)
  Good-kept s s' sent e g = record {
    uniform = rw e g.uniform;
    bounded = rw e g.bounded;
    spaced = g.spaced;
    known = g.known;
  }

  Bounded-moved :
      (site kind : String) (last : String → String → String → ℕ) (sent : List Candidate)
      → Bounded last sent
      → Bounded (moved_times c now site kind last) sent
  unfolding Bounded
  Bounded-moved site kind last sent h y m =
      omega (arith, h y m, moved_times_mono c now site kind last y.origin y.failure_kind y.target)

  Free-Good :
      (s : Correlator) (ready : Ready) (sent : List Candidate)
      → Good c (s, sent)
      → (ready_targets c now ready.0 c.federation_sites (s.last_propagated ready.0 ready.1)).1 ≢ 0
      → Free c now ready c.federation_sites sent
  unfolding Free Bounded
  Free-Good s ready sent g h y m o k i n =
      let (at_most, e) =
        moved_times_ready c now ready.0 ready.1 s.last_propagated g.uniform h y.target i n in
      let earlier = g.bounded y m in omega (arith, at_most, (rw (o, k) at earlier))

  Bounded-fan_out :
      (s : Correlator) (ready : Ready) (v : Value) (count : ℕ) (sent : List Candidate)
      → Good c (s, sent)
      → (ready_targets c now ready.0 c.federation_sites (s.last_propagated ready.0 ready.1)).1 ≢ 0
      → Bounded
          (moved_times c now ready.0 ready.1 s.last_propagated)
          (fan_out c now ready v count c.federation_sites sent)
  unfolding Bounded
  Bounded-fan_out s ready v count sent g h y m =
      elim (Memᴰ-fan_out c now ready v count c.federation_sites sent y m) [
        | inl old ↦ Bounded-moved ready.0 ready.1 s.last_propagated sent g.bounded y old
        | inr (a, o, k, i, n, q) ↦
            let due =
              moved_times_ready c now ready.0 ready.1 s.last_propagated g.uniform h y.target i n in
            rw (o, k) (omega (arith, due.1, a))
      ]

  known-fan_out :
      (ready : Ready) (v : Value) (count : ℕ) (sent : List Candidate)
      → ((y : Candidate) → Memᴰ y sent → str_mem y.target c.federation_sites ≡ true)
      → (y : Candidate) → Memᴰ y (fan_out c now ready v count c.federation_sites sent)
      → str_mem y.target c.federation_sites ≡ true
  known-fan_out ready v count sent h y m =
      elim (Memᴰ-fan_out c now ready v count c.federation_sites sent y m) [
        | inl old ↦ h y old
        | inr (a, o, k, i, n, q) ↦ i
      ]

  Good-propagate :
      (s s' : Correlator) (sent : List Candidate) (r : Option Ready)
      → Distinct c.federation_sites
      → Good c (s, sent)
      → Outcome c now s s' r
      → Good c (s', propagate c now event s' r sent)
  unfolding propagate moved_times
  Good-propagate s s' sent r d g (kept e silent) = rw silent (Good-kept s s' sent e g)
  Good-propagate s s' sent r d g (moved site kind e (inl silent)) =
      rw (silent, e)
        (record {
          uniform = Uniform-moved c now site kind s.last_propagated g.uniform;
          bounded = Bounded-moved site kind s.last_propagated sent g.bounded;
          spaced = g.spaced;
          known = g.known;
        })
  Good-propagate s s' sent r d g (moved site kind e (inr (sample, answer, h))) =
      let ready : Ready = (site, kind, sample) in
      rw (answer, e)
        (record {
          uniform = Uniform-moved c now site kind s.last_propagated g.uniform;
          bounded = Bounded-fan_out s ready _ _ sent g h;
          spaced =
              Spaced-fan_out c now ready _ _ c.federation_sites sent d (Free-Good s ready sent g h)
                g.spaced;
          known = known-fan_out ready _ _ sent g.known;
        })

module _ (c : Config) where
  Good-run :
      (events : List (ℕ × Dict)) (s : Correlator × List Candidate)
      → Distinct c.federation_sites
      → Good c s
      → Good c (run c events s)
  unfolding run round
  Good-run [] s d g = g
  Good-run ((now, event) ∷ events) (s, sent) d g =
      Good-run events (round c now event (s, sent)) d
        (Good-propagate c now event s _ sent _ d g (record_prediction-Outcome c now event s))

  -- Let no site stand twice in the federation. Whatever predictions arrive, at whatever times the
  -- clock shows, the candidates that a new correlator sends for one origin, failure kind and target
  -- are at least the cooldown apart, although it keeps a cooldown for each target and sends to all
  -- of them as soon as one is ready.
  pub run-Spaced :
      (events : List (ℕ × Dict))
      → Distinct c.federation_sites
      → Spaced c (run c events (fresh_correlator, [])).1
  unfolding Bounded
  run-Spaced events d =
      (Good-run events (fresh_correlator, []) d
        record {
          uniform = λ s k t u mt mu nt nu. refl;
          bounded = λ y m. elim m [ ];
          spaced = tt;
          known = λ y m. elim m [ ];
        }).spaced
