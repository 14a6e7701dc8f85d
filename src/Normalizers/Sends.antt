-- ===== src/Normalizers/Sends.antt =====
-- What a piece of a poll of apps/ingestion/normalizers publishes: the shapes that the polls share.
use dcops.Base.{◌≡◌, refl, true, Option, none, some, String, str_mem}
use dcops.Base.Result.{Result}
use dcops.Value.{Dict, str}
use dcops.Quality.Grounding.{canonical_metrics}
use dcops.Normalizers.Telemetry.{
  Reading, Net, Poll, pure, lift, ◌>>=◌, emit, get_json, if_there, for_items,
}
use dcops.Normalizers.Places.{hall_rack}
use dcops.Normalizers.Ensures.{
  Keeps, Keeps-pure, Ensures-lift, Holds, Any, Ensures-bind, Keeps-lift, Keeps-for_items,
  Keeps-if_there, Keeps-get_json,
}
use dcops.Normalizers.Sources.{Source, source_name}
use dcops.Normalizers.WellFormed.{IsSent, by_name, emit-IsSent}
use dcops.Normalizers.Catalogue.{Catalogued}

module _ {F : Type 0} (net : Net F) (passes : (s : String) → net.text_field (str s) ≡ some s) where
  module _ (source : Source) where
    abbrev pub Sends : Poll F (Unit {0}) → Type 0
    Sends m = Keeps (IsSent source) m

    -- The rest of a body that goes on only for what was found.
    pub Sends-if_some :
        {A : Type 0} (o : Option A) (f : A → Poll F (Unit {0}))
        → ((a : A) → o ≡ some a → Sends (f a))
        → Sends (elim o [ none ↦ pure tt | some a ↦ f a ])
    Sends-if_some none f sent = Keeps-pure (IsSent source)
    Sends-if_some (some a) f sent = sent a refl

    pub emit_named :
        (r : Reading F) (d : String)
        → str_mem r.metric canonical_metrics ≡ true
        → r.device_id ≡ str d
        → r.rack_id ≡ str (hall_rack d).1
        → Sends (emit net (source_name source) r)
    emit_named r d known device rack = emit-IsSent net source passes r known (by_name d device rack)

    -- A body that raises or goes on with a value that it reads.
    pub Sends-lift :
        {A : Type 0} (r : Result A) (f : A → Poll F (Unit {0}))
        → ((a : A) → Sends (f a))
        → Sends (lift r >>= f)
    Sends-lift = Keeps-lift (IsSent source)

    pub Sends-known :
        (r : Result (Option String)) (f : String → Poll F (Unit {0}))
        → Holds Catalogued r
        → ((m : String) → str_mem m canonical_metrics ≡ true → Sends (f m))
        → Sends (lift r >>= λ o. elim o [ none ↦ pure tt | some m ↦ f m ])
    Sends-known r f known sent =
        Ensures-bind (IsSent source) Catalogued Any (lift r) _
          (Ensures-lift (IsSent source) _ r known)
          λ o c. Sends-if_some o f (λ m e. sent m (rw e at c))

    -- A poll of one URL that goes through the items of its answer.
    pub from_url :
        (url : Option String) (k : String) (body : Dict → Poll F (Unit {0}))
        → ((d : Dict) → Sends (body d))
        → Sends (elim url [
          | none ↦ pure tt
          | some u ↦ get_json net u >>= λ payload. if_there payload (λ d. for_items k d body)
        ])
    from_url url k body sent = Sends-if_some url _ λ u e.
        Keeps-get_json (IsSent source) net (λ url. tt) u _
          λ payload.
            Keeps-if_there (IsSent source) payload _
              λ d. Keeps-for_items (IsSent source) k d body sent
