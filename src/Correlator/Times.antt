-- ===== src/Correlator/Times.antt =====
-- The cooldown of one target, and why the targets of an origin and kind are ready together:
-- the last times of apps/control_plane/cross_site_correlator.py under one prediction.
use dcops.Base.{
  ℕ, ◌+◌, ◌≤◌, ◌≡◌, ◌≢◌, refl, ◌⊎◌, inl, inr, String, Bool, Bool-cases, true, false, not, ◌&&◌,
  Option, none, some, List, [], ◌∷◌, ◌++◌, arith, str_eq, str_eq_refl, str_mem, eq_iff, ltb, length,
  ◌==◌, if◌then◌else◌,
}
use dcops.Value.{Value, Dict, lookup}
use dcops.Correlator.Hits.{
  Config, Correlator, purge_old, Ready, as_text, reaches_floor, update₂, ready_targets, record_hit,
  record_fields, record_prediction,
}

pub both_eq : (a b x y : String) → str_eq a b && str_eq x y ≡ true → (a ≡ b) × (x ≡ y)
both_eq a b x y h = ((eq_iff a b).0 (ground arith), (eq_iff x y).0 (ground arith))

module _ (c : Config) (now : ℕ) (site : String) where
  -- A target that is not the origin and whose last candidate is a cooldown ago.
  abbrev due : (String → ℕ) → String → Bool
  due last t = not (str_eq t site) && not (ltb now (last t + c.cooldown))

  ready_targets-at :
      (ts : List String) (last : String → ℕ) (t : String)
      → (ready_targets c now site ts last).0 t
        ≡ (if str_mem t ts && due last t then now else last t)
  unfolding ready_targets
  ready_targets-at [] last t = refl
  ready_targets-at (x ∷ ts) last t = ground (
    arith,
    eq_iff x t,
    eq_iff t x,
    ready_targets-at ts last t,
    ready_targets-at ts (λ j. if str_eq x j then now else last j) t,
  )

  ready_targets-due :
      (ts : List String) (last : String → ℕ)
      → (ready_targets c now site ts last).1 ≢ 0
      → (t : String) × (str_mem t ts ≡ true) × (due last t ≡ true)
  unfolding ready_targets
  ready_targets-due [] last h = absurd (h refl)
  ready_targets-due (x ∷ ts) last h = elim (Bool-cases (due last x)) [
    | inl d ↦ (x, rw (str_eq_refl x) refl, d)
    | inr skipped ↦
        let (t, m, d) = ready_targets-due ts last (ground (arith, h)) in (t, ground arith, d)
  ]

-- The targets of one origin and kind share the time of their last candidate.
abbrev pub Uniform : Config → (String → String → String → ℕ) → Type 0
Uniform c last =
    (s k t u : String)
    → str_mem t c.federation_sites ≡ true
    → str_mem u c.federation_sites ≡ true
    → str_eq t s ≡ false
    → str_eq u s ≡ false
    → last s k t ≡ last s k u

-- What one prediction does to the last times, and what it answers.
pub data Outcome (c : Config) (now : ℕ) (s s' : Correlator) (r : Option Ready) : Type 0 where
  kept : s'.last_propagated ≡ s.last_propagated → r ≡ none → Outcome c now s s' r
  moved :
      (site kind : String)
      → s'.last_propagated
        ≡ update₂ s.last_propagated site kind
            (ready_targets c now site c.federation_sites (s.last_propagated site kind)).0
      → (r ≡ none)
        ⊎ ((sample : List String) × (r ≡ some (site, kind, sample))
            × ((ready_targets c now site c.federation_sites (s.last_propagated site kind)).1 ≢ 0))
      → Outcome c now s s' r

module _ (c : Config) (now : ℕ) where
  record_hit-Outcome :
      (site kind : String) (v : Value) (d : String) (s : Correlator)
      → Outcome c now s (record_hit c now site kind v d s).0 (record_hit c now site kind v d s).1
  unfolding record_hit
  record_hit-Outcome site kind v d s =
      let bucket =
        purge_old c.window now
          (s.hits site kind ++ record { ts = now; confidence = v; device_id = d } ∷ []) in
      let ready = (ready_targets c now site c.federation_sites (s.last_propagated site kind)).1 in
      elim (Bool-cases (ltb (length bucket) c.propagation_threshold)) [
        | inl few ↦ rw (few, record_hit) (kept refl refl)
        | inr enough ↦ elim (Bool-cases (ready == 0)) [
          | inl nobody ↦ rw (enough, record_hit, nobody) (moved site kind refl (inl refl))
          | inr somebody ↦
              rw (enough, record_hit, somebody)
                (moved site kind refl (inr (_, refl, λ z. ground (arith, z, somebody))))
        ]
      ]

  pub record_prediction-Outcome :
      (event : Dict) (s : Correlator)
      → Outcome c now s (record_prediction c now event s).0 (record_prediction c now event s).1
  unfolding record_prediction record_fields
  record_prediction-Outcome event s =
      go (as_text (lookup "site_id" event)) (as_text (lookup "failure_kind" event))
    where
      go :
          (site kind : Option String)
          → Outcome c now s
              (record_fields c now event site kind s).0
              (record_fields c now event site kind s).1
      go none kind = kept refl refl
      go (some site) none = kept refl refl
      go (some site) (some kind) =
          elim (Bool-cases (reaches_floor c (lookup "probability" event))) [
            | inl high ↦ rw (high, record_fields) (record_hit-Outcome site kind _ _ s)
            | inr low ↦ rw (low, record_fields) (kept refl refl)
          ]

module _ (c : Config) (now : ℕ) where
  -- The last times after the targets of one origin and kind were looked at.
  unfoldable pub moved_times :
      String → String → (String → String → String → ℕ) → String → String → String → ℕ
  moved_times site kind last =
      update₂ last site kind (ready_targets c now site c.federation_sites (last site kind)).0

  moved_times-at :
      (site kind : String) (last : String → String → String → ℕ) (s k t : String)
      → moved_times site kind last s k t ≡ (
          if str_eq site s
            && str_eq kind k
            && (str_mem t c.federation_sites && due c now s (last s k) t)
          then now
          else last s k t)
  unfolding moved_times
  moved_times-at site kind last s k t = elim (Bool-cases (str_eq site s && str_eq kind k)) [
    | inl same ↦
        let (es, ek) = both_eq site s kind k same in
        rw (same, es, ek) (ready_targets-at c now s c.federation_sites (last s k) t)
    | inr other ↦ rw other refl
  ]

  pub Uniform-moved :
      (site kind : String) (last : String → String → String → ℕ)
      → Uniform c last
      → Uniform c (moved_times site kind last)
  Uniform-moved site kind last h s k t u mt mu nt nu =
      let same = h s k t u mt mu nt nu in
      ground (arith, moved_times-at site kind last s k t, moved_times-at site kind last s k u)

  pub moved_times_mono :
      (site kind : String) (last : String → String → String → ℕ) (s k t : String)
      → last s k t ≤ moved_times site kind last s k t
  moved_times_mono site kind last s k t = ground (arith, moved_times-at site kind last s k t)

  -- Where one target was ready, all were.
  pub moved_times_ready :
      (site kind : String) (last : String → String → String → ℕ)
      → Uniform c last
      → (ready_targets c now site c.federation_sites (last site kind)).1 ≢ 0
      → (t : String) → str_mem t c.federation_sites ≡ true
      → str_eq t site ≡ false
      → (last site kind t + c.cooldown ≤ now) × (moved_times site kind last site kind t ≡ now)
  moved_times_ready site kind last h ready t m other =
      let (u, mu, d) = ready_targets-due c now site c.federation_sites (last site kind) ready in
      ground (
        arith,
        h site kind u t mu m,
        str_eq_refl site,
        str_eq_refl kind,
        moved_times-at site kind last site kind t,
      )
