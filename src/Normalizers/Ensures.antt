-- ===== src/Normalizers/Ensures.antt =====
-- What a poll leaves in the history, whatever the surroundings answer: rules for the ways in which
-- apps/ingestion/normalizers builds its polls.
use dcops.Base.{◌≡◌, refl, String, Bool, true, false, Option, List, [], ◌∷◌, All, if◌then◌else◌}
use dcops.Base.Result.{Result, ok, err}
use dcops.Value.{Value, Dict, truthy, to_list, to_dict, nil, get_or}
use dcops.Normalizers.Telemetry.{
  Effect, get, History, Net, Poll, pure, lift, resume, ◌>>=◌, for_each, for_items, if_there,
  get_json, get_text,
}

-- What a call returns, if it does.
abbrev pub Holds : {A : Type 0} → (A → Type 0) → Result A → Type 0
Holds Q (ok a) = Q a
Holds Q (err e) = Unit

-- Nothing is said of the result.
abbrev pub Any : Unit {0} → Type 0
Any a = Unit

pub Holds-Any : {A : Type 0} (r : Result A) → Holds (λ (a : A). Unit) r
Holds-Any (ok a) = tt
Holds-Any (err e) = tt

module _ {F : Type 0} (P : Effect F → Type 0) where
  -- From a history all of whose effects satisfy `P`, the poll leads to one, and what it returns
  -- satisfies `Q`.
  pub record Ensures {A : Type 0} (Q : A → Type 0) (m : Poll F A) : Type 0 where
    pub from : (h : History F) → All P h → All P (m h).1 × Holds Q (m h).0

  -- The same of a poll without a result.
  abbrev pub Keeps : Poll F (Unit {0}) → Type 0
  Keeps m = Ensures Any m

  Ensures-next :
      {A B : Type 0} (Q : A → Type 0) (R : B → Type 0) (f : A → Poll F B)
      → ((a : A) → Q a → Ensures R (f a))
      → (r : Result A) (h : History F) → All P h
      → Holds Q r
      → All P (resume r f h).1 × Holds R (resume r f h).0
  Ensures-next Q R f next (ok a) h k q = (next a q).from h k
  Ensures-next Q R f next (err e) h k q = (k, tt)

  pub Ensures-bind :
      {A B : Type 0} (Q : A → Type 0) (R : B → Type 0) (m : Poll F A) (f : A → Poll F B)
      → Ensures Q m
      → ((a : A) → Q a → Ensures R (f a))
      → Ensures R (m >>= f)
  unfolding ◌>>=◌
  Ensures-bind Q R m f first next = record {
    from = λ h k. let (k', q) = first.from h k in Ensures-next Q R f next (m h).0 (m h).1 k' q;
  }

  pub Ensures-lift : {A : Type 0} (Q : A → Type 0) (r : Result A) → Holds Q r → Ensures Q (lift r)
  Ensures-lift Q r q = record { from = λ h k. (k, q) }

  pub Ensures-pure : {A : Type 0} (Q : A → Type 0) (a : A) → Q a → Ensures Q (pure a)
  Ensures-pure Q a q = record { from = λ h k. (k, q) }

  pub Keeps-pure : Keeps (pure tt)
  Keeps-pure = Ensures-pure Any tt tt

  -- The result of a call is used for nothing but what it is.
  pub Keeps-lift :
      {A : Type 0} (r : Result A) (f : A → Poll F (Unit {0}))
      → ((a : A) → Keeps (f a))
      → Keeps (lift r >>= f)
  Keeps-lift {A} r f next =
      Ensures-bind (λ (a : A). Unit) Any (lift r) f (Ensures-lift (λ (a : A). Unit) r (Holds-Any r))
        (λ a q. next a)

  pub Keeps-then :
      (m : Poll F (Unit {0})) (next : Poll F (Unit {0}))
      → Keeps m
      → Keeps next
      → Keeps (m >>= λ _. next)
  Keeps-then m next first second = Ensures-bind Any Any m (λ _. next) first (λ a q. second)

  pub Keeps-if :
      (b : Bool) (m : Poll F (Unit {0})) → (b ≡ true → Keeps m) → Keeps (if b then m else pure tt)
  Keeps-if true m kept = kept refl
  Keeps-if false m kept = Keeps-pure

  pub Keeps-if_not :
      (b : Bool) (m : Poll F (Unit {0})) → (b ≡ false → Keeps m) → Keeps (if b then pure tt else m)
  Keeps-if_not true m kept = Keeps-pure
  Keeps-if_not false m kept = kept refl

  pub Keeps-for_each :
      {A : Type 0} (xs : List A) (body : A → Poll F (Unit {0}))
      → ((x : A) → Keeps (body x))
      → Keeps (for_each xs body)
  unfolding for_each
  Keeps-for_each [] body kept = Keeps-pure
  Keeps-for_each (x ∷ xs) body kept =
      Keeps-then (body x) (for_each xs body) (kept x) (Keeps-for_each xs body kept)

  pub Keeps-for_items :
      (k : String) (d : Dict) (body : Dict → Poll F (Unit {0}))
      → ((x : Dict) → Keeps (body x))
      → Keeps (for_items k d body)
  unfolding for_items
  Keeps-for_items k d body kept =
      Keeps-lift (to_list (get_or k (Value.seq nil) d)) _
        λ xs. Keeps-for_each xs _ λ x. Keeps-lift (to_dict x) body kept

  pub Keeps-if_there :
      (answer : Value) (body : Dict → Poll F (Unit {0}))
      → ((d : Dict) → Keeps (body d))
      → Keeps (if_there answer body)
  unfolding if_there
  Keeps-if_there answer body kept =
      Keeps-if (truthy answer) _ λ _. Keeps-lift (to_dict answer) body kept

  module _ (net : Net F) (P-get : (url : String) → P (get url)) where
    pub Keeps-get_json :
        (url : String) (body : Value → Poll F (Unit {0}))
        → ((v : Value) → Keeps (body v))
        → Keeps (get_json net url >>= body)
    unfolding get_json
    Keeps-get_json url body kept =
        Ensures-bind (λ (v : Value). Unit) Any (get_json net url) body
          (record { from = λ h k. ((P-get url, k), tt) }) (λ v q. kept v)

    pub Keeps-get_text :
        (url : String) (body : Option String → Poll F (Unit {0}))
        → ((v : Option String) → Keeps (body v))
        → Keeps (get_text net url >>= body)
    unfolding get_text
    Keeps-get_text url body kept =
        Ensures-bind (λ (v : Option String). Unit) Any (get_text net url) body
          (record { from = λ h k. ((P-get url, k), tt) }) (λ v q. kept v)
