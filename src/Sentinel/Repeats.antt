-- ===== src/Sentinel/Repeats.antt =====
-- No prediction is repeated too soon: the de-duplication of apps/agents/sentinel/main.py.
use dcops.Base.{
  ℕ, ◌+◌, ◌≤◌, ◌≡◌, refl, sym, ap, subst, ◌∙◌, inl, inr, String, Bool, Bool-cases, true, false,
  Option, none, some, List, [], ◌∷◌, ltb, str_eq_refl, eq_iff, if_both, if◌then◌else◌, arith,
}
use dcops.Base.Result.{Result, ok, err}
use dcops.Value.{Dict}
use dcops.Sentinel.Window.{recent}
use dcops.Sentinel.Decision.{Decision, PredictedFailure, Setting, decide}
use dcops.Sentinel.Cycle.{
  Moment, Entry, Marks, State, same_key, last_mark, set_mark, is_duplicate, prediction, publish,
  act, score_events, infer_device, infer_batch, cycle, receive, Step, receives, infers, run,
  fresh_state,
}

-- The time of the latest publication of a kind for a device.
abbrev pub last_published : String × String → List Entry → Option ℕ
last_published key [] = none
last_published key (e ∷ es) =
    if same_key key (e.device, e.kind) then some e.marked else last_published key es

-- Every publication was checked so long after the one before it of the same kind and device.
abbrev pub Apart : ℕ → List Entry → Type 0
Apart window [] = Unit
Apart window (e ∷ es) =
    ((t : ℕ) → last_published (e.device, e.kind) es ≡ some t → t + window ≤ e.checked)
    × Apart window es

-- `same_key` is equality.
same_key-eq : (a b : String × String) → same_key a b ≡ true → a ≡ b
same_key-eq (d, k) (e, j) h =
    λ i. ((eq_iff d e).0 (ground (arith, h)) i, (eq_iff k j).0 (ground (arith, h)) i)

same_key_refl : (a : String × String) → same_key a a ≡ true
same_key_refl (d, k) = ground (arith, str_eq_refl d, str_eq_refl k)

-- Two keys that are the same as a third one.
same_key_third :
    (key k j : String × String)
    → same_key key j ≡ true
    → same_key k j ≡ false
    → same_key key k ≡ false
same_key_third key k j here other = elim (Bool-cases (same_key key k)) [
  | inl h ↦ absurd (
      ground (
        arith,
        other,
        subst (λ (a : String × String). same_key a j ≡ true) (same_key-eq key k h) here,
      ))
  | inr h ↦ h
]

last_mark-set_mark :
    (key k : String × String) (t : ℕ) (marks : Marks)
    → last_mark key (set_mark k t marks) ≡ (if same_key key k then some t else last_mark key marks)
unfolding last_mark set_mark
last_mark-set_mark key k t [] = refl
last_mark-set_mark key k t ((j, u) ∷ marks) = elim (Bool-cases (same_key k j)) [
  | inl same ↦
      let moved : same_key key k ≡ same_key key j = ap (same_key key) (same_key-eq k j same) in
      elim (Bool-cases (same_key key j)) [
        | inl h ↦ rw (same, moved, h) refl
        | inr h ↦ rw (same, moved, h) refl
      ]
  | inr differ ↦ elim (Bool-cases (same_key key j)) [
    | inl h ↦ rw (differ, h, same_key_third key k j h differ) refl
    | inr h ↦ rw (differ, h) (last_mark-set_mark key k t marks)
  ]
]

-- What is no duplicate comes the window after the mark, or later.
later_than :
    (window now : ℕ) (key : String × String) (marks : Marks) (t : ℕ)
    → is_duplicate window now key marks ≡ false
    → last_mark key marks ≡ some t
    → t + window ≤ now
unfolding is_duplicate
later_than window now key marks t fresh e = ground (
  arith,
  subst
      (λ (o : Option ℕ).
        elim o as (λ o. Bool) [ none ↦ false | some ts ↦ ltb now (ts + window) ] ≡ false)
      e fresh,
)

module _ {F : Type 0} (set : Setting F) where
  -- The marks are the times of the latest publications, which are spaced.
  record Marked (s : State F) : Type 0 where
    marks :
        (key : String × String) → last_mark key s.recent_publishes ≡ last_published key s.entries
    spaced : Apart set.dedupe_window s.entries

  publish-Marked :
      (m : Moment) (device : String) (p : PredictedFailure F) (s : State F)
      → is_duplicate set.dedupe_window m.checked (device, p.failure_kind) s.recent_publishes ≡ false
      → Marked s
      → Marked (publish set m device p s)
  unfolding publish
  publish-Marked m device p s fresh k =
      let key : String × String = (device, p.failure_kind) in
      record {
        marks = λ other.
            last_mark-set_mark other key m.marked s.recent_publishes
            ∙ ap (λ (o : Option ℕ). if same_key other key then some m.marked else o)
                (k.marks other);
        spaced = (
          λ t latest.
              later_than set.dedupe_window m.checked key s.recent_publishes t fresh
                (subst (λ (o : Option ℕ). o ≡ some t) (sym (k.marks key)) latest),
          k.spaced,
        );
      }

  act-Marked :
      (m : Moment) (device : String) (events : List Dict) (d : Result (Option (Decision F)))
      (s : State F)
      → Marked s
      → Marked (act set m device events d s).1
  unfolding act prediction
  act-Marked m device events (err e) s k = k
  act-Marked m device events (ok none) s k = k
  act-Marked m device events (ok (some d)) s k =
      let again =
        is_duplicate set.dedupe_window m.checked (device, d.failure_kind) s.recent_publishes in
      elim (Bool-cases again) [
        | inl soon ↦ simp soon k
        | inr late ↦ simp late (
            if_both (λ (r : Bool × State F). Marked r.1) (set.is_valid (prediction set d events))
              (λ valid. publish-Marked m device (prediction set d events) s late k) (λ invalid. k))
      ]

  score_events-Marked :
      (m : Moment) (device : String) (events : List Dict) (s : State F)
      → Marked s
      → Marked (score_events set m device events s).1
  unfolding score_events
  score_events-Marked m device [] s k = k
  score_events-Marked m device (e ∷ es) s k = act-Marked m device (e ∷ es) (decide set (e ∷ es)) s k

  infer_device-Marked :
      (m : Moment) (device : String) (s : State F)
      → Marked s
      → Marked (infer_device set m device s).1
  unfolding infer_device
  infer_device-Marked m device s k =
      let seen = recent set.parse set.max_age m.now device s.windows in
      score_events-Marked m device seen.0 (record s { windows = seen.1 })
        (record { marks = k.marks; spaced = k.spaced })

  infer_batch-Marked :
      (batch : List (Moment × String)) (s : State F) → Marked s → Marked (infer_batch set batch s)
  unfolding infer_batch
  infer_batch-Marked [] s k = k
  infer_batch-Marked ((m, device) ∷ batch) s k =
      let step = infer_device set m device s in
      let done = infer_device-Marked m device s k in
      if_both Marked step.0 (λ raised. done) (λ on. infer_batch-Marked batch step.1 done)

  run-Marked :
      (maxlen : ℕ) (steps : List Step) (s : State F) → Marked s → Marked (run set maxlen steps s)
  unfolding run cycle receive
  run-Marked maxlen [] s k = k
  run-Marked maxlen (receives event ∷ steps) s k =
      run-Marked maxlen steps (receive set maxlen event s)
        (record { marks = k.marks; spaced = k.spaced })
  run-Marked maxlen (infers batch ∷ steps) s k = run-Marked maxlen steps (cycle set batch s) (
      infer_batch-Marked batch (record s { dirty = [] })
        (record { marks = k.marks; spaced = k.spaced }))

  -- Whatever events the agent receives from its start on, and whatever rounds of the inference loop
  -- come between them, with errors too: each publication of a kind of failure for a device is
  -- checked at least the de-duplication window after the one before it was marked.
  pub run-Apart :
      (maxlen : ℕ) (steps : List Step)
      → Apart set.dedupe_window (run set maxlen steps fresh_state).entries
  unfolding last_mark
  run-Apart maxlen steps =
      (run-Marked maxlen steps fresh_state (record { marks = λ key. refl; spaced = tt })).spaced
