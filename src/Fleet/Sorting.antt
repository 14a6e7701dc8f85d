-- ===== src/Fleet/Sorting.antt =====
-- The sorting of the sites of apps/control_plane/fleet_view.py: it keeps the entry of each site.
use text.Mathlib.TextPositions.{compare_refl}
use dcops.Base.{
  String, true, false, ◌≡◌, refl, ap, ◌∙◌, inl, inr, Bool-cases, Option, none, some, List, [], ◌∷◌,
  str_eq, eq_iff, if◌then◌else◌,
}
use dcops.Fleet.View.{SiteView, is_before, insert_site, sort_sites}

is_before_irrefl : (s : String) → is_before s s ≡ false
is_before_irrefl s = rw (compare_refl s, is_before) refl

module _ {F : Type 0} where
  -- The entry of a site among the views.
  abbrev pub view_of : String → List (SiteView F) → Option (SiteView F)
  view_of id [] = none
  view_of id (v ∷ views) = if str_eq v.site_id id then some v else view_of id views

  view_of-insert_site :
      (id : String) (v : SiteView F) (views : List (SiteView F))
      → view_of id (insert_site v views) ≡ view_of id (v ∷ views)
  unfolding insert_site
  view_of-insert_site id v [] = refl
  view_of-insert_site id v (w ∷ views) = elim (Bool-cases (is_before w.site_id v.site_id)) [
    | inl before ↦ simp before (
        ap (λ (o : Option (SiteView F)). if str_eq w.site_id id then some w else o)
          (view_of-insert_site id v views)
        ∙ swap_views (view_of id views) before)
    | inr not_before ↦ simp not_before refl
  ]
    where
      -- Of two entries in order, only one is of the site.
      swap_views :
          (o : Option (SiteView F))
          → is_before w.site_id v.site_id ≡ true
          → (if str_eq w.site_id id then some w else if str_eq v.site_id id then some v else o)
            ≡ (if str_eq v.site_id id then some v else if str_eq w.site_id id then some w else o)
      swap_views o before = elim (Bool-cases (str_eq w.site_id id)) [
        | inl of_w ↦ elim (Bool-cases (str_eq v.site_id id)) [
          | inl of_v ↦ cc (
            is_before_irrefl w.site_id,
            before,
            (eq_iff w.site_id id).0 of_w,
            (eq_iff v.site_id id).0 of_v,
          )
          | inr other ↦ rw (of_w, other) refl
        ]
        | inr other ↦ rw other refl
      ]

  pub view_of-sort_sites :
      (id : String) (views : List (SiteView F)) → view_of id (sort_sites views) ≡ view_of id views
  unfolding sort_sites
  view_of-sort_sites id [] = refl
  view_of-sort_sites id (v ∷ views) =
      view_of-insert_site id v (sort_sites views)
      ∙ ap (λ (o : Option (SiteView F)). if str_eq v.site_id id then some v else o)
          (view_of-sort_sites id views)
