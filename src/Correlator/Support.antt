-- ===== src/Correlator/Support.antt =====
-- What stands behind each candidate of apps/control_plane/cross_site_correlator.py.
use mathlib.Core.List.{Memᴰ}
use mathlib.Core.Option.{some-injective}
use dcops.Base.{
  subst, ℕ, ◌≤◌, ◌≡◌, refl, inl, inr, String, Bool-cases, true, false, Option, none, some, List, [],
  ◌∷◌, ◌++◌, arith, str_eq, str_eq_refl, str_mem, ltb, length, ◌==◌,
}
use dcops.Value.{Value, Dict, lookup}
use dcops.Correlator.Hits.{
  Config, Correlator, Ready, fresh_correlator, as_text, reaches_floor, purge_old, ready_targets,
  record_hit, record_fields, record_prediction, hit_count,
}
use dcops.Correlator.Publisher.{Candidate, propagate, round, run}
use dcops.Correlator.Cooldown.{Memᴰ-fan_out}

-- Another site of the federation gets it, and enough hits stand behind it.
pub record Supported (c : Config) (y : Candidate) : Type 0 where
  pub federated : str_mem y.target c.federation_sites ≡ true
  pub elsewhere : str_eq y.target y.origin ≡ false
  pub enough : c.propagation_threshold ≤ y.occurrence_count

module _ (c : Config) (now : ℕ) where
  record_hit-count :
      (site kind : String) (v : Value) (d : String) (s : Correlator) (ready : Ready)
      → (record_hit c now site kind v d s).1 ≡ some ready
      → c.propagation_threshold ≤ hit_count (record_hit c now site kind v d s).0 ready.0 ready.1
  unfolding record_hit
  record_hit-count site kind v d s ready h =
      let bucket =
        purge_old c.window now
          (s.hits site kind ++ record { ts = now; confidence = v; device_id = d } ∷ []) in
      let count = (ready_targets c now site c.federation_sites (s.last_propagated site kind)).1 in
      elim (Bool-cases (ltb (length bucket) c.propagation_threshold)) [
        | inl few ↦ absurd (ground (arith, (rw (few, record_hit) at h)))
        | inr enough ↦ elim (Bool-cases (count == 0)) [
          | inl nobody ↦ absurd (ground (arith, (rw (enough, nobody, record_hit) at h)))
          | inr somebody ↦
              let e = some-injective _ _ (rw (enough, somebody, record_hit) at h) in
              subst
                (λ (r : Ready).
                  c.propagation_threshold ≤ hit_count (record_hit c now site kind v d s).0 r.0 r.1)
                e
                (rw (enough, record_hit, str_eq_refl site, str_eq_refl kind)
                  (ground (arith, enough)))
        ]
      ]

  record_prediction-count :
      (event : Dict) (s : Correlator) (ready : Ready)
      → (record_prediction c now event s).1 ≡ some ready
      → c.propagation_threshold ≤ hit_count (record_prediction c now event s).0 ready.0 ready.1
  unfolding record_prediction record_fields
  record_prediction-count event s ready =
      go (as_text (lookup "site_id" event)) (as_text (lookup "failure_kind" event))
    where
      go :
          (site kind : Option String)
          → (record_fields c now event site kind s).1 ≡ some ready
          → c.propagation_threshold
            ≤ hit_count (record_fields c now event site kind s).0 ready.0 ready.1
      go none kind h = absurd (ground (arith, h))
      go (some site) none h = absurd (ground (arith, h))
      go (some site) (some kind) h =
          elim (Bool-cases (reaches_floor c (lookup "probability" event))) [
            | inl high ↦
                rw (high, record_fields)
                  (record_hit-count site kind _ _ s ready (rw (high, record_fields) at h))
            | inr low ↦ absurd (ground (arith, (rw (low, record_fields) at h)))
          ]

  propagate-Supported :
      (event : Dict) (s : Correlator) (r : Option Ready) (sent : List Candidate)
      → ((ready : Ready) → r ≡ some ready → c.propagation_threshold ≤ hit_count s ready.0 ready.1)
      → ((y : Candidate) → Memᴰ y sent → Supported c y)
      → (y : Candidate) → Memᴰ y (propagate c now event s r sent)
      → Supported c y
  unfolding propagate
  propagate-Supported event s none sent h k y m = k y m
  propagate-Supported event s (some ready) sent h k y m =
      elim (Memᴰ-fan_out c now ready _ _ c.federation_sites sent y m) [
        | inl old ↦ k y old
        | inr (a, o, q, i, n, e) ↦ record {
          federated = i;
          elsewhere = rw o n;
          enough = rw e (h ready refl);
        }
      ]

module _ (c : Config) where
  run-all :
      (events : List (ℕ × Dict)) (s : Correlator × List Candidate)
      → ((y : Candidate) → Memᴰ y s.1 → Supported c y)
      → (y : Candidate) → Memᴰ y (run c events s).1
      → Supported c y
  unfolding run round
  run-all [] s k = k
  run-all ((now, event) ∷ events) (s, sent) k =
      let (s', r) = record_prediction c now event s in
      run-all events (s', propagate c now event s' r sent)
        (propagate-Supported c now event s' r sent (record_prediction-count c now event s) k)

  -- Each candidate that a new correlator sends, whatever predictions arrive and whenever, goes to a
  -- site of the federation other than its origin, and the occurrence count that it states is at
  -- least the propagation threshold.
  pub run-Supported :
      (events : List (ℕ × Dict)) (y : Candidate)
      → Memᴰ y (run c events (fresh_correlator, [])).1
      → Supported c y
  run-Supported events = run-all events (fresh_correlator, []) λ y m. elim m [ ]
