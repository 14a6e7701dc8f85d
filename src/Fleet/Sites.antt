-- ===== src/Fleet/Sites.antt =====
-- The entries that `build_snapshot` of apps/control_plane/fleet_view.py keeps while it reads.
use dcops.Base.{
  ◌||◌, ℕ, ◌+◌, String, Bool, false, ◌&&◌, ◌≡◌, refl, sym, ap, ◌∙◌, subst, inl, inr, Bool-cases,
  Option, none, some, List, [], ◌∷◌, ◌++◌, append-nil, append_assoc, length, any, str_eq, str_mem,
  str_eq_refl, eq_iff, if◌then◌else◌, arith,
}
use dcops.Base.Result.{Result, ok, err, ◌>>=◌}
use dcops.Fleet.Heartbeats.{Beat, Surroundings, heartbeat}
use dcops.Fleet.View.{Site, add_beat, collect, fresh, names}

str_eq_sym : (s t : String) → str_eq s t ≡ false → str_eq t s ≡ false
str_eq_sym s t apart = elim (Bool-cases (str_eq t s)) [
  | inl same ↦ cc (apart, str_eq_refl s, (eq_iff t s).0 same)
  | inr other ↦ other
]

module _ {F : Type 0} where
  -- The agents that are kept under a site.
  abbrev pub agents_of : String → List (Site F) → List (Beat F)
  agents_of id [] = []
  agents_of id (s ∷ sites) = if str_eq s.site_id id then s.live_agents else agents_of id sites

  -- Whether there is an entry of a site.
  abbrev pub is_kept : String → List (Site F) → Bool
  is_kept id [] = false
  is_kept id (s ∷ sites) = str_eq s.site_id id || is_kept id sites

  -- The heartbeats of a site.
  abbrev pub of_site : String → List (Beat F) → List (Beat F)
  of_site id [] = []
  of_site id (b ∷ beats) = if str_eq b.site_id id then b ∷ of_site id beats else of_site id beats

  -- How many heartbeats pass a test.
  abbrev pub count : (Beat F → Bool) → List (Beat F) → ℕ
  count p [] = 0
  count p (b ∷ beats) = (if p b then 1 else 0) + count p beats

  abbrev pub total : (Beat F → Bool) → List (Site F) → ℕ
  total p [] = 0
  total p (s ∷ sites) = count p s.live_agents + total p sites

  count-snoc :
      (p : Beat F → Bool) (beats : List (Beat F)) (b : Beat F)
      → count p (beats ++ b ∷ []) ≡ count p beats + (if p b then 1 else 0)
  count-snoc p [] b = omega arith
  count-snoc p (x ∷ beats) b = omega (arith, count-snoc p beats b)

  pub any-of_site :
      (q : Beat F → Bool) (id : String) (beats : List (Beat F))
      → any q (of_site id beats) ≡ any (λ b. str_eq b.site_id id && q b) beats
  any-of_site q id [] = refl
  any-of_site q id (b ∷ beats) = ground (arith, any-of_site q id beats)

module _ {F : Type 0} (world : Surroundings F) where
  agents_of-add_beat :
      (id : String) (b : Beat F) (sites : List (Site F))
      → agents_of id (add_beat world b sites)
        ≡ agents_of id sites ++ (if str_eq b.site_id id then b ∷ [] else [])
  unfolding add_beat
  agents_of-add_beat id b [] = refl
  agents_of-add_beat id b (s ∷ sites) = elim (Bool-cases (str_eq s.site_id b.site_id)) [
    | inl same ↦
        let one : str_eq s.site_id id ≡ str_eq b.site_id id =
          ap (λ (t : String). str_eq t id) ((eq_iff s.site_id b.site_id).0 same) in
        elim (Bool-cases (str_eq b.site_id id)) [
          | inl here ↦ simp (same, one, here) refl
          | inr other ↦ simp (same, one, other) (sym (append-nil (agents_of id sites)))
        ]
    | inr apart ↦ elim (Bool-cases (str_eq s.site_id id)) [
      | inl here ↦
          let other : str_eq b.site_id id ≡ false =
            subst (λ (t : String). str_eq b.site_id t ≡ false) ((eq_iff s.site_id id).0 here)
              (str_eq_sym s.site_id b.site_id apart) in
          simp (apart, here, other) (sym (append-nil s.live_agents))
      | inr there ↦ simp (apart, there) (agents_of-add_beat id b sites)
    ]
  ]

  is_kept-add_beat :
      (id : String) (b : Beat F) (sites : List (Site F))
      → is_kept id (add_beat world b sites) ≡ (is_kept id sites || str_eq b.site_id id)
  unfolding add_beat
  is_kept-add_beat id b [] = ground arith
  is_kept-add_beat id b (s ∷ sites) = elim (Bool-cases (str_eq s.site_id b.site_id)) [
    | inl same ↦
        let one : str_eq s.site_id id ≡ str_eq b.site_id id =
          ap (λ (t : String). str_eq t id) ((eq_iff s.site_id b.site_id).0 same) in
        rw same (ground (arith, one))
    | inr apart ↦ rw apart (ground (arith, is_kept-add_beat id b sites))
  ]

  total-add_beat :
      (p : Beat F → Bool) (b : Beat F) (sites : List (Site F))
      → total p (add_beat world b sites) ≡ total p sites + (if p b then 1 else 0)
  unfolding add_beat
  total-add_beat p b [] = omega arith
  total-add_beat p b (s ∷ sites) = elim (Bool-cases (str_eq s.site_id b.site_id)) [
    | inl same ↦ rw same (omega (arith, count-snoc p s.live_agents b))
    | inr other ↦ rw other (omega (arith, total-add_beat p b sites))
  ]

  pub str_mem-names :
      (a : String) (beats : List (Beat F))
      → str_mem a (names world (fresh world beats))
        ≡ any (λ b. str_eq a b.agent && world.is_fresh b.last_seen) beats
  unfolding fresh
  str_mem-names a [] = refl
  str_mem-names a (b ∷ beats) = ground (arith, str_mem-names a beats)

  pub length-fresh :
      (beats : List (Beat F))
      → length (fresh world beats) ≡ count (λ b. world.is_fresh b.last_seen) beats
  unfolding fresh
  length-fresh [] = refl
  length-fresh (b ∷ beats) = ground (arith, length-fresh beats)

  -- The heartbeats that the keys hold, in their order.
  abbrev pub with_beat : Option (Beat F) → List (Beat F) → List (Beat F)
  with_beat none beats = beats
  with_beat (some b) beats = b ∷ beats

  unfoldable pub heartbeats : List String → Result (List (Beat F))
  heartbeats [] = ok []
  heartbeats (key ∷ keys) = do
    b ← heartbeat world key
    beats ← heartbeats keys
    ok (with_beat b beats)

  abbrev pub add_all : List (Beat F) → List (Site F) → List (Site F)
  add_all [] sites = sites
  add_all (b ∷ beats) sites = add_all beats (add_beat world b sites)

  regroup :
      (r : Result (List (Beat F))) (o : Option (Beat F)) (sites : List (Site F))
      → ((r >>= λ beats. ok (with_beat o beats)) >>= λ beats. ok (add_all beats sites))
        ≡ (r >>= λ beats. ok (add_all (with_beat o beats) sites))
  regroup (ok beats) o sites = refl
  regroup (err e) o sites = refl

  pub collect-heartbeats :
      (keys : List String) (sites : List (Site F))
      → collect world keys sites ≡ (heartbeats keys >>= λ beats. ok (add_all beats sites))
  unfolding collect heartbeats
  collect-heartbeats [] sites = refl
  collect-heartbeats (key ∷ keys) sites = of_key (heartbeat world key) (collect-heartbeats keys)
    where
      of_key :
          (r : Result (Option (Beat F)))
          → ((sites : List (Site F))
              → collect world keys sites ≡ (heartbeats keys >>= λ beats. ok (add_all beats sites)))
          → elim r [
            | err e ↦ err e
            | ok none ↦ collect world keys sites
            | ok (some b) ↦ collect world keys (add_beat world b sites)
          ]
            ≡ ((r >>= λ b. heartbeats keys >>= λ beats. ok (with_beat b beats)) >>= λ beats.
                ok (add_all beats sites))
      of_key (err e) rest = refl
      of_key (ok none) rest = rest sites ∙ sym (regroup (heartbeats keys) none sites)
      of_key (ok (some b)) rest =
          rest (add_beat world b sites) ∙ sym (regroup (heartbeats keys) (some b) sites)

  pub agents_of-add_all :
      (id : String) (beats : List (Beat F)) (sites : List (Site F))
      → agents_of id (add_all beats sites) ≡ agents_of id sites ++ of_site id beats
  agents_of-add_all id [] sites = sym (append-nil (agents_of id sites))
  agents_of-add_all id (b ∷ beats) sites =
      agents_of-add_all id beats (add_beat world b sites)
      ∙ rw (agents_of-add_beat id b sites) (elim (Bool-cases (str_eq b.site_id id)) [
        | inl here ↦ rw here (append_assoc (agents_of id sites) (b ∷ []) (of_site id beats))
        | inr other ↦ rw (other, append-nil (agents_of id sites)) refl
      ])

  pub total-add_all :
      (p : Beat F → Bool) (beats : List (Beat F)) (sites : List (Site F))
      → total p (add_all beats sites) ≡ total p sites + count p beats
  total-add_all p [] sites = omega arith
  total-add_all p (b ∷ beats) sites =
      omega (arith, total-add_all p beats (add_beat world b sites), total-add_beat p b sites)

  pub is_kept-add_all :
      (id : String) (beats : List (Beat F)) (sites : List (Site F))
      → is_kept id (add_all beats sites)
        ≡ (is_kept id sites || any (λ b. str_eq b.site_id id) beats)
  is_kept-add_all id [] sites = ground arith
  is_kept-add_all id (b ∷ beats) sites =
      ground (arith, is_kept-add_all id beats (add_beat world b sites), is_kept-add_beat id b sites)
