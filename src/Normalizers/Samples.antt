-- ===== src/Normalizers/Samples.antt =====
-- A sample as the exporter writes it, read by apps/ingestion/normalizers/dcgm.py.
use Prim.Native.Char.{Char, code}
use Prim.Native.String.{[], ◌∷◌}
use mathlib.Core.List.{List}
use text.Mathlib.TextLemmas.{nil-append, cons-append}
use dcops.Base.{
  ℕ, String, Bool, true, false, ◌≡◌, refl, ap, ◌∙◌, if◌then◌else◌, Option, some, str_append,
  is_space, arith, All,
}
use dcops.Value.{Dict}
use dcops.Quality.Words.{lstrip, rstrip, strip}
use dcops.Normalizers.Prometheus.{is_digit, is_inside, is_name_start, is_empty, Line, match_line}
use dcops.Normalizers.Exposition.{
  each, each-append, IsNumeral, IsName, IsLabel, is_key, print_sample, print_label, print_more,
  print_labels, insert_all, match_line-print_sample, parse_labels-print_labels,
}
use dcops.Normalizers.Dcgm.{
  canonical, gpu_id, sample, line_body, is_comment, of_line, of_metric, of_labels,
}
use dcops.Normalizers.Telemetry.{Net, History, pure}

-- A text with nothing to strip at its end.
record IsSolid (s : String) : Type 0 where
  kept : rstrip s ≡ s
  some_char : is_empty s ≡ false

IsSolid-cons : (c : Char) (s : String) → IsSolid s → IsSolid (c ∷ s)
unfolding rstrip
IsSolid-cons c [] solid = cc (solid.some_char)
IsSolid-cons c (d ∷ s) solid = record { kept = rw (solid.kept, rstrip) refl; some_char = refl }

IsSolid-append : (s t : String) → IsSolid t → IsSolid (str_append s t)
IsSolid-append [] t solid = rw nil-append solid
IsSolid-append (c ∷ s) t solid = rw cons-append (IsSolid-cons c _ (IsSolid-append s t solid))

IsSolid-digits : (s : String) → each is_digit s ≡ true → is_empty s ≡ false → IsSolid s
unfolding rstrip
IsSolid-digits [] digits some_digit = cc
IsSolid-digits (c ∷ []) digits some_digit =
    let solid : is_space (code c) ≡ false = ground (arith, digits) in
    record { kept = rw (solid, rstrip) refl; some_char = refl }
IsSolid-digits (c ∷ d ∷ s) digits some_digit =
    IsSolid-cons c (d ∷ s) (IsSolid-digits (d ∷ s) (ground (arith, digits)) refl)

strip-solid :
    (c : Char) (s : String) → is_space (code c) ≡ false → IsSolid (c ∷ s) → strip (c ∷ s) ≡ c ∷ s
unfolding strip lstrip
strip-solid c s black solid = rw (black, lstrip) solid.kept

each_mono :
    (p q : ℕ → Bool) (s : String)
    → ((c : ℕ) → p c ≡ true → q c ≡ true)
    → each p s ≡ true
    → each q s ≡ true
each_mono p q [] h k = refl
each_mono p q (c ∷ s) h k = ground (arith, h (code c), k, each_mono p q s h (ground (arith, k)))

key_inside : (c : ℕ) → is_key c ≡ true → is_inside c ≡ true
key_inside c h = ground (arith, h)

label_inside :
    (k v rest : String)
    → IsLabel (k, v)
    → each is_inside rest ≡ true
    → each is_inside (print_label k v rest) ≡ true
label_inside k v rest l h =
    each-append is_inside k _ (each_mono is_key is_inside k key_inside l.key_chars)
      (each-append is_inside v _ l.value_inside h)

more_inside : (ls : List (String × String)) → All IsLabel ls → each is_inside (print_more ls) ≡ true
more_inside List.[] good = refl
more_inside (List.◌∷◌ (k, v) ls) (l, good) = label_inside k v _ l (more_inside ls good)

labels_inside :
    (ls : List (String × String)) → All IsLabel ls → each is_inside (print_labels ls) ≡ true
labels_inside List.[] good = refl
labels_inside (List.◌∷◌ (k, v) ls) (l, good) = label_inside k v _ l (more_inside ls good)

sample-IsSolid :
    (labels value : String)
    → IsNumeral value
    → IsSolid ("{" ∷ str_append labels ("}" ∷ " " ∷ value))
sample-IsSolid labels value n = IsSolid-cons _ _ (
    IsSolid-append labels _
      (IsSolid-cons _ _ (IsSolid-cons _ _ (IsSolid-digits value n.digits n.some_digit))))

-- The line is neither changed by `strip` nor a comment.
print_sample-plain :
    (name labels value : String)
    → IsName name
    → IsNumeral value
    → (strip (print_sample name labels value) ≡ print_sample name labels value)
      × (is_comment (print_sample name labels value) ≡ false)
print_sample-plain [] labels value named n = cc (named.begins)
print_sample-plain (c ∷ name) labels value named n =
    let start : is_name_start (code c) ≡ true = named.begins in
    rw cons-append (
      strip-solid c _ (ground (arith, start))
          (IsSolid-cons c _ (IsSolid-append name _ (sample-IsSolid labels value n))),
      ground (arith, start),
    )

module _ {F : Type 0} (net : Net F) where
  -- Let a sample be written in the text format: a name, labels of which each can be written, and a
  -- whole number. If the name is one of the map and the labels name a device, the line is read as a
  -- sample of that device with that metric, number and labels, and nothing else is done.
  pub line_body-print_sample :
      (name value metric unit id : String) (ls : List (String × String)) (h : History F)
      → IsName name
      → IsNumeral value
      → All IsLabel ls
      → canonical name ≡ some (metric, unit)
      → gpu_id (insert_all List.[] ls) ≡ some id
      → line_body net (print_sample name (print_labels ls) value) h
        ≡ sample net id metric unit
            (record { name = name; labels = some (print_labels ls); value = value })
            (insert_all List.[] ls)
            h
  unfolding line_body
  line_body-print_sample name value metric unit id ls h named n good known of_gpu =
      let line : Line = record { name = name; labels = some (print_labels ls); value = value } in
      let (stripped, plain) = print_sample-plain name (print_labels ls) value named n in
      let found =
        match_line-print_sample name (print_labels ls) value named (labels_inside ls good) n in
      ap (λ (line : String). (if is_comment line then pure tt else of_line net (match_line line)) h)
        stripped
      ∙ rw plain (
          ap (λ (o : Option Line). of_line net o h) found
          ∙ ap (λ (o : Option (String × String)). of_metric net line o h) known
          ∙ ap (λ (d : Dict). of_labels net line (metric, unit) d h)
              (parse_labels-print_labels ls good)
          ∙ rw (of_gpu, of_labels) refl)
