-- ===== src/Audit/Acks.antt =====
-- What an acknowledgement of apps/audit/sink.py stands for, and how often an entry is tried.
use mathlib.Core.List.{Memᴰ}
use dcops.Base.{
  ℕ, ◌+◌, ◌≤◌, ◌≡◌, refl, inl, inr, ◌⊎◌, String, Bool, Bool-cases, true, Option, none, some, List,
  [], ◌∷◌, ◌++◌, arith, eq_iff, str_eq, ◌==◌, if◌then◌else◌,
}
use dcops.Base.Result.{Result, ok, err}
use dcops.Audit.Sink.{
  put, ack, History, Env, Entry, payload_of, object_key, acknowledge, process_entry, process_all,
  consume_loop,
}

-- The entries that the reads returned.
abbrev pub delivered : List (Option (List Entry)) → List Entry
delivered [] = []
delivered (none ∷ reads) = delivered reads
delivered (some entries ∷ reads) = entries ++ delivered reads

-- How often MinIO was asked to store the entry.
unfoldable tries : ℕ → History → ℕ
tries n [] = 0
tries n (put key body msg_id stored ∷ h) = (if msg_id == n then 1 else 0) + tries n h
tries n (ack msg_id ∷ h) = tries n h

abbrev deliveries : ℕ → List Entry → ℕ
deliveries n [] = 0
deliveries n ((msg_id, fields) ∷ es) = (if msg_id == n then 1 else 0) + deliveries n es

-- Each acknowledgement is for one of the entries `es`, which was stored before or has no payload.
abbrev pub Backed : List Entry → History → Type 0
Backed es [] = Unit
Backed es (put key body msg_id stored ∷ h) = Backed es h
Backed es (ack msg_id ∷ h) =
    ((e : Entry) × Memᴰ e es
      × (e.0 ≡ msg_id)
      × ((payload_of e ≡ "") ⊎ ((key : String) × Memᴰ (put key (payload_of e) msg_id true) h)))
    × Backed es h

Memᴰ-append_left : (xs ys : List Entry) (e : Entry) → Memᴰ e xs → Memᴰ e (xs ++ ys)
Memᴰ-append_left [] ys e m = elim m [ ]
Memᴰ-append_left (x ∷ xs) ys e (Memᴰ.head p) = Memᴰ.head p
Memᴰ-append_left (x ∷ xs) ys e (Memᴰ.tail m) = Memᴰ.tail (Memᴰ-append_left xs ys e m)

Memᴰ-append_right : (xs ys : List Entry) (e : Entry) → Memᴰ e ys → Memᴰ e (xs ++ ys)
Memᴰ-append_right [] ys e m = m
Memᴰ-append_right (x ∷ xs) ys e m = Memᴰ.tail (Memᴰ-append_right xs ys e m)

module _ (env : Env) where
  tries-process_entry :
      (n : ℕ) (e : Entry) (h : History)
      → tries n (process_entry env e h).1 ≤ tries n h + (if e.0 == n then 1 else 0)
  unfolding process_entry acknowledge tries
  tries-process_entry n e h = ground arith

  tries-process_all :
      (n : ℕ) (es : List Entry) (h : History)
      → tries n (process_all env es h).1 ≤ tries n h + deliveries n es
  unfolding process_all
  tries-process_all n [] h = omega arith
  tries-process_all n (e ∷ es) h =
      go (process_entry env e h).0 (tries-process_all n es (process_entry env e h).1)
        (tries-process_entry n e h)
    where
      go :
          (r : Result Bool)
          → tries n (process_all env es (process_entry env e h).1).1
            ≤ tries n (process_entry env e h).1 + deliveries n es
          → tries n (process_entry env e h).1 ≤ tries n h + (if e.0 == n then 1 else 0)
          → tries n
              (elim r as (λ x. Result (Unit {0}) × History) [
                | ok done ↦ process_all env es (process_entry env e h).1
                | err x ↦ (err x, (process_entry env e h).1)
              ]).1
            ≤ tries n h + ((if e.0 == n then 1 else 0) + deliveries n es)
      go (ok done) later now = omega (arith, later, now)
      go (err x) later now = omega (arith, now)

  deliveries-append :
      (n : ℕ) (es fs : List Entry) → deliveries n (es ++ fs) ≡ deliveries n es + deliveries n fs
  deliveries-append n [] fs = omega arith
  deliveries-append n (e ∷ es) fs = omega (arith, deliveries-append n es fs)

  tries-consume_loop :
      (n : ℕ) (reads : List (Option (List Entry))) (h : History)
      → tries n (consume_loop env reads h).1 ≤ tries n h + deliveries n (delivered reads)
  unfolding consume_loop
  tries-consume_loop n [] h = omega arith
  tries-consume_loop n (none ∷ reads) h = tries-consume_loop n reads h
  tries-consume_loop n (some es ∷ reads) h =
      go (process_all env es h).0 (tries-consume_loop n reads (process_all env es h).1)
        (tries-process_all n es h) (deliveries-append n es (delivered reads))
    where
      go :
          (r : Result (Unit {0}))
          → tries n (consume_loop env reads (process_all env es h).1).1
            ≤ tries n (process_all env es h).1 + deliveries n (delivered reads)
          → tries n (process_all env es h).1 ≤ tries n h + deliveries n es
          → deliveries n (es ++ delivered reads) ≡ deliveries n es + deliveries n (delivered reads)
          → tries n
              (elim r as (λ x. Result (Unit {0}) × History) [
                | ok done ↦ consume_loop env reads (process_all env es h).1
                | err x ↦ (err x, (process_all env es h).1)
              ]).1
            ≤ tries n h + deliveries n (es ++ delivered reads)
      go (ok done) later now split = omega (arith, later, now, split)
      go (err x) later now split = omega (arith, now, split)

  -- Whatever Redis and MinIO answer, MinIO is asked to store an entry at most as often as the reads
  -- return it; so an entry that failed is tried again only if a later read returns it again.
  consume_loop_once :
      (n : ℕ) (reads : List (Option (List Entry)))
      → tries n (consume_loop env reads []).1 ≤ deliveries n (delivered reads)
  unfolding tries
  consume_loop_once n reads = omega (arith, tries-consume_loop n reads [])

module _ (env : Env) (known : List Entry) where
  Backed-process_entry :
      (e : Entry) (h : History)
      → Memᴰ e known
      → Backed known h
      → Backed known (process_entry env e h).1
  unfolding process_entry acknowledge
  Backed-process_entry e h m b = elim (Bool-cases (str_eq (payload_of e) "")) [
    | inl empty ↦ elim (Bool-cases (env.xack h)) [
      | inl taken ↦ simp (empty, taken) ((e, m, refl, inl ((eq_iff (payload_of e) "").0 empty)), b)
      | inr raised ↦ simp (empty, raised) b
    ]
    | inr full ↦ elim (Bool-cases (env.put_bytes h)) [
      | inl stored ↦
          let key = object_key env (payload_of e) h in
          elim (Bool-cases (env.xack (put key (payload_of e) e.0 true ∷ h))) [
            | inl taken ↦ simp (full, stored, taken) ((e, m, refl, inr (key, Memᴰ.head refl)), b)
            | inr raised ↦ simp (full, stored, raised) b
          ]
      | inr failed ↦ simp (full, failed) b
    ]
  ]

  Backed-process_all :
      (es : List Entry) (h : History)
      → ((e : Entry) → Memᴰ e es → Memᴰ e known)
      → Backed known h
      → Backed known (process_all env es h).1
  unfolding process_all
  Backed-process_all [] h sub b = b
  Backed-process_all (e ∷ es) h sub b =
      let now = Backed-process_entry e h (sub e (Memᴰ.head refl)) b in
      go (process_entry env e h).0 now
        (Backed-process_all es (process_entry env e h).1 (λ f m. sub f (Memᴰ.tail m)) now)
    where
      go :
          (r : Result Bool)
          → Backed known (process_entry env e h).1
          → Backed known (process_all env es (process_entry env e h).1).1
          → Backed known
              (elim r as (λ x. Result (Unit {0}) × History) [
                | ok done ↦ process_all env es (process_entry env e h).1
                | err x ↦ (err x, (process_entry env e h).1)
              ]).1
      go (ok done) now later = later
      go (err x) now later = now

  Backed-consume_loop :
      (reads : List (Option (List Entry))) (h : History)
      → ((e : Entry) → Memᴰ e (delivered reads) → Memᴰ e known)
      → Backed known h
      → Backed known (consume_loop env reads h).1
  unfolding consume_loop
  Backed-consume_loop [] h sub b = b
  Backed-consume_loop (none ∷ reads) h sub b = Backed-consume_loop reads h sub b
  Backed-consume_loop (some es ∷ reads) h sub b =
      let now =
        Backed-process_all es h (λ e m. sub e (Memᴰ-append_left es (delivered reads) e m)) b in
      go (process_all env es h).0 now (
        Backed-consume_loop reads (process_all env es h).1
          (λ e m. sub e (Memᴰ-append_right es (delivered reads) e m)) now)
    where
      go :
          (r : Result (Unit {0}))
          → Backed known (process_all env es h).1
          → Backed known (consume_loop env reads (process_all env es h).1).1
          → Backed known
              (elim r as (λ x. Result (Unit {0}) × History) [
                | ok done ↦ consume_loop env reads (process_all env es h).1
                | err x ↦ (err x, (process_all env es h).1)
              ]).1
      go (ok done) now later = later
      go (err x) now later = now

module _ (env : Env) where
  -- Whatever Redis and MinIO answer, and wherever an exception ends the loop: every acknowledgement
  -- is for an entry that a read returned, and comes after its payload was stored, unless that is
  -- empty.
  pub consume_loop-Backed :
      (reads : List (Option (List Entry))) → Backed (delivered reads) (consume_loop env reads []).1
  consume_loop-Backed reads = Backed-consume_loop env (delivered reads) reads [] (λ e m. m) tt
