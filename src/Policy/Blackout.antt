-- ===== src/Policy/Blackout.antt =====
-- The blackout window of apps/control_plane/policy_engine.py as a stretch of the 24-hour circle.
use dcops.Base.{
  ℕ, ◌+◌, ◌-◌, ◌%◌, ◌<◌, ◌≡◌, refl, ◌∙◌, inl, inr, Bool-cases, not, ◌&&◌, none, some, List, arith,
  ltb, if◌then◌else◌,
}
use dcops.Base.Int.{ℤ, pos, negsuc, ◌+ℤ◌, mod24}
use dcops.Base.Result.{ok, ◌>>=◌, >>=-step}
use dcops.Value.{Value, nil, to_int, to_set, excludes}
use dcops.Events.{Recommendation}
use dcops.Policy.Rules.{
  approved, denied, Policy, in_blackout, parameter, in_window, eval_blackout_window,
}

-- How many hours after `start` the hour `h` comes round.
abbrev pub hours_after : ℕ → ℕ → ℕ
hours_after start h = (h + 24 - start) % 24

in_window-eq-hours_after :
    (s e h : ℕ)
    → s < 24
    → e < 24
    → h < 24
    → in_window (pos s) (pos e) h ≡ ltb (hours_after s h) (hours_after s e)
unfolding in_window
in_window-eq-hours_after s e h hs he hh = ground arith

mod24-lt : (n : ℤ) → mod24 n < 24
mod24-lt (pos n) = omega arith
mod24-lt (negsuc n) = omega arith

-- With hours of the day as bounds, the policy denies a kind that it does not leave out exactly
-- while fewer hours have passed since the start than lie between start and end round the clock.
-- A window that ends where it starts is empty.
pub eval_blackout_window-eq :
    (p : Policy) (rec : Recommendation) (utc_hour s e : ℕ) (offset : ℤ) (kinds : List Value)
    → s < 24
    → e < 24
    → (parameter "applies_to_kinds" (Value.seq nil) p >>= to_set) ≡ ok kinds
    → (parameter "local_start_hour" (Value.int (pos 22)) p >>= to_int) ≡ ok (pos s)
    → (parameter "local_end_hour" (Value.int (pos 6)) p >>= to_int) ≡ ok (pos e)
    → (parameter "tz_offset_hours" (Value.int (pos 0)) p >>= to_int) ≡ ok offset
    → let local = mod24 (pos utc_hour +ℤ offset) in
      eval_blackout_window p rec utc_hour
      ≡ ok (
          if not (excludes rec.kind kinds) && ltb (hours_after s local) (hours_after s e)
          then (denied, some (in_blackout (pos s) (pos e) local))
          else (approved, none))
unfolding eval_blackout_window
eval_blackout_window-eq p rec utc_hour s e offset kinds hs he hk h₁ h₂ h₃ =
    >>=-step (parameter "applies_to_kinds" (Value.seq nil) p) to_set _ hk
    ∙ elim (Bool-cases (excludes rec.kind kinds)) [
      | inl out ↦ rw out refl
      | inr here ↦ rw here (
          >>=-step (parameter "local_start_hour" (Value.int (pos 22)) p) to_int _ h₁
          ∙ >>=-step (parameter "local_end_hour" (Value.int (pos 6)) p) to_int _ h₂
          ∙ >>=-step (parameter "tz_offset_hours" (Value.int (pos 0)) p) to_int _ h₃
          ∙ rw (in_window-eq-hours_after s e _ hs he (mod24-lt (pos utc_hour +ℤ offset)))
              (ground arith))
    ]
