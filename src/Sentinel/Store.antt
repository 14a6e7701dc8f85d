-- ===== src/Sentinel/Store.antt =====
-- What the windows of apps/agents/sentinel/window.py hold.
use dcops.Base.{
  drop, ℕ, zero, suc, ◌+◌, ◌-◌, ◌≤◌, ◌≡◌, refl, sym, ap, ◌∙◌, inl, inr, String, Bool-cases, false,
  Option, none, some, List, [], ◌∷◌, ◌++◌, append_assoc, append-nil, length, length-append, arith,
  str_eq, str_eq_refl, eq_iff, if◌then◌else◌,
}
use dcops.Value.{Dict, lookup, insert}
use dcops.Sentinel.Window.{add, Windows, window_of, device_of, ingest_for, ingest, ingest_all}

-- The last events of a list, at most so many.
unfoldable last : ℕ → List Dict → List Dict
last n xs = drop (length xs - n) xs

names : Option String → String → List Dict → List Dict
names none d es = []
names (some a) d es = if str_eq a d then es else []

-- The events of a device.
unfoldable of_device : String → List Dict → List Dict
unfolding names
of_device d [] = []
of_device d (e ∷ es) = names (device_of e) d (e ∷ []) ++ of_device d es

module _ {A : Type 0} where
  length-drop : (n : ℕ) (xs : List A) → length (drop n xs) ≡ length xs - n
  length-drop zero xs = omega arith
  length-drop (suc n) [] = omega arith
  length-drop (suc n) (x ∷ xs) = omega (arith, length-drop n xs)

  drop-append : (n : ℕ) (xs ys : List A) → n ≤ length xs → drop n (xs ++ ys) ≡ drop n xs ++ ys
  drop-append zero xs ys h = refl
  drop-append (suc n) [] ys h = absurd (ground (arith, h))
  drop-append (suc n) (x ∷ xs) ys h = drop-append n xs ys (omega (arith, h))

  drop-nil : (n : ℕ) → drop {A = A} n [] ≡ []
  drop-nil zero = refl
  drop-nil (suc n) = refl

  drop-drop : (m n : ℕ) (xs : List A) → drop m (drop n xs) ≡ drop (n + m) xs
  drop-drop m zero xs = ap (λ (k : ℕ). drop k xs) (omega arith)
  drop-drop m (suc n) [] = drop-nil m ∙ sym (drop-nil (suc n + m))
  drop-drop m (suc n) (x ∷ xs) =
      let e : suc (n + m) ≡ suc n + m = omega arith in
      drop-drop m n xs ∙ ap (λ (k : ℕ). drop k (x ∷ xs)) e

add-last : (n : ℕ) (e : Dict) (xs : List Dict) → add n e (last n xs) ≡ last n (xs ++ e ∷ [])
unfolding add last
add-last n e xs =
    let k = length xs - n in
    let longer : List Dict = xs ++ e ∷ [] in
    ap (λ (ys : List Dict). drop (length ys - n) ys) (sym (drop-append k xs (e ∷ []) (omega arith)))
    ∙ drop-drop (length (drop k longer) - n) k longer
    ∙ ap (λ (j : ℕ). drop j longer) (omega (arith, length-drop k longer, length-append xs (e ∷ [])))

lookup-insert :
    {V : Type 0} (k j : String) (v : V) (d : List (String × V))
    → lookup k (insert j v d) ≡ (if str_eq k j then some v else lookup k d)
lookup-insert k j v [] = refl
lookup-insert k j v ((i, w) ∷ d) =
    ground (arith, eq_iff k j, eq_iff j i, eq_iff k i, lookup-insert k j v d)

window_of-insert :
    (d a : String) (buf : List Dict) (windows : Windows)
    → window_of d (insert a buf windows) ≡ (if str_eq d a then buf else window_of d windows)
unfolding window_of
window_of-insert d a buf windows =
    ap (λ (o : Option (List Dict)). elim o as (λ x. List Dict) [ none ↦ [] | some b ↦ b ])
      (lookup-insert d a buf windows)
    ∙ elim (Bool-cases (str_eq d a)) [ inl same ↦ rw same refl | inr other ↦ rw other refl ]

window_of-ingest_for :
    (n : ℕ) (d : String) (e : Dict) (o : Option String) (windows : Windows) (xs : List Dict)
    → window_of d windows ≡ last n xs
    → window_of d (ingest_for n e o windows).1 ≡ last n (xs ++ names o d (e ∷ []))
unfolding ingest_for names
window_of-ingest_for n d e none windows xs h = rw (append-nil xs) h
window_of-ingest_for n d e (some a) windows xs h =
    window_of-insert d a (add n e (window_of a windows)) windows ∙ elim (Bool-cases (str_eq a d)) [
      | inl same ↦
          let eq : a ≡ d = (eq_iff a d).0 same in rw (eq, str_eq_refl d, h) (add-last n e xs)
      | inr other ↦
          let back : str_eq d a ≡ false = ground (arith, eq_iff a d, eq_iff d a, other) in
          rw (other, back, append-nil xs) h
    ]

window_of-ingest_from :
    (n : ℕ) (d : String) (es : List Dict) (windows : Windows) (xs : List Dict)
    → window_of d windows ≡ last n xs
    → window_of d (ingest_all n es windows) ≡ last n (xs ++ of_device d es)
unfolding ingest_all ingest of_device
window_of-ingest_from n d [] windows xs h = rw (append-nil xs) h
window_of-ingest_from n d (e ∷ es) windows xs h =
    rw (sym (append_assoc xs (names (device_of e) d (e ∷ [])) (of_device d es))) (
      window_of-ingest_from n d es (ingest_for n e (device_of e) windows).1 _
        (window_of-ingest_for n d e (device_of e) windows xs h))

-- Whatever events arrive, of whatever devices, the window of each device holds exactly the last
-- `maxlen` events of that device, in their order.
window_of-ingest_all :
    (maxlen : ℕ) (d : String) (es : List Dict)
    → window_of d (ingest_all maxlen es []) ≡ last maxlen (of_device d es)
window_of-ingest_all maxlen d es =
    window_of-ingest_from maxlen d es [] [] (unfold window_of last in sym (drop-nil (0 - maxlen)))
