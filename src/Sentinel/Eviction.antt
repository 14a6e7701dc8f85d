-- ===== src/Sentinel/Eviction.antt =====
-- `_evict_stale` of apps/agents/sentinel/window.py.
use mathlib.Core.List.{Memᴰ}
use dcops.Base.{
  ℕ, ◌+◌, ◌≤◌, ◌≡◌, ap, ◌∙◌, sym, inl, inr, Bool-cases, Option-cases, true, Option, some, List, [],
  ◌∷◌, arith, leb,
}
use dcops.Value.{Value, Dict, lookup}
use dcops.Sentinel.Window.{evict_stale}

module _ (parse : Option Value → Option ℕ) (age now : ℕ) where
  -- The event's time can be read, and is at most `age` ago.
  abbrev Fresh : Dict → Type 0
  Fresh e = (t : ℕ) × (parse (lookup "timestamp" e) ≡ some t) × (now ≤ t + age)

  abbrev Starts : List Dict → Type 0
  Starts [] = Unit
  Starts (e ∷ es) = Fresh e

  evict_stale-Starts : (buf : List Dict) → Starts (evict_stale parse age now buf)
  unfolding evict_stale
  evict_stale-Starts [] = tt
  evict_stale-Starts (e ∷ buf) = elim (Option-cases (parse (lookup "timestamp" e))) [
    | inl unread ↦ rw (unread, evict_stale) (evict_stale-Starts buf)
    | inr (t, read) ↦ elim (Bool-cases (leb now (t + age))) [
      | inl recent ↦ rw (read, evict_stale, recent) (t, read, ground (arith, recent))
      | inr old ↦ rw (read, evict_stale, old) (evict_stale-Starts buf)
    ]
  ]

  evict_stale-keeps :
      (buf : List Dict) (e : Dict) → Fresh e → Memᴰ e buf → Memᴰ e (evict_stale parse age now buf)
  unfolding evict_stale
  evict_stale-keeps [] e f m = elim m [ ]
  evict_stale-keeps (x ∷ buf) e (t, read, recent) (Memᴰ.head same) =
      let here : parse (lookup "timestamp" x) ≡ some t =
        sym (ap (λ (z : Dict). parse (lookup "timestamp" z)) same) ∙ read in
      let yes_recent : leb now (t + age) ≡ true = ground (arith, recent) in
      rw (here, evict_stale, yes_recent) (Memᴰ.head same)
  evict_stale-keeps (x ∷ buf) e f (Memᴰ.tail m) =
      elim (Option-cases (parse (lookup "timestamp" x))) [
        | inl unread ↦ rw (unread, evict_stale) (evict_stale-keeps buf e f m)
        | inr (t, read) ↦ elim (Bool-cases (leb now (t + age))) [
          | inl recent ↦ rw (read, evict_stale, recent) (Memᴰ.tail m)
          | inr old ↦ rw (read, evict_stale, old) (evict_stale-keeps buf e f m)
        ]
      ]

  -- Eviction loses no event whose time can be read and is at most `age` ago, and what it leaves is
  -- empty or starts with such an event; in whatever order the events came.
  evict_stale-Fresh :
      (buf : List Dict)
      → Starts (evict_stale parse age now buf)
        × ((e : Dict) → Fresh e → Memᴰ e buf → Memᴰ e (evict_stale parse age now buf))
  evict_stale-Fresh buf = (evict_stale-Starts buf, evict_stale-keeps buf)
