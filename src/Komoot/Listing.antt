-- ===== src/Komoot/Listing.antt =====
-- The listings of src/server/komoot_sync.rs: every page until a short one. A run of the loop has
-- fuel; the numbers are `u32`.

pub mod Pages
use gps_trips.Prelude.{
  ℕ, zero, suc, ◌+◌, ◌%◌, ◌^◌, List, [], ◌∷◌, ◌++◌, map, ltb, if◌then◌else◌, length,
}
use gps_trips.Types.Kind.{TripKind}
use gps_trips.Komoot.World.{unfinished, Action, return, ◌>>=◌}
use gps_trips.Komoot.Service.{KomootTourSummary, KomootPhoto, Service, of_komoot}

abbrev pub page_size : ℕ
page_size = 200

abbrev pub u32 : ℕ → ℕ
u32 n = n % 2 ^ 32

-- The loop of both listings, at a page and with what the pages before it held.
unfoldable pub pages {ℓ κ} :
    {R : Type ℓ} {A : Type κ} → ℕ → (ℕ → Action R (List A)) → ℕ → List A → Action R (List A)
pages zero get page all = λ w. (unfinished, w)
pages (suc fuel) get page all =
    let rest = pages fuel get (u32 (page + 1)) in
    do
      batch ← get page
      if ltb (u32 (length batch)) page_size then return (all ++ batch) else rest (all ++ batch)

module _ {ℓ} {R : Type ℓ} (S : Service R) where
  abbrev pub get_page : List ℕ → TripKind → ℕ → Action R (List KomootTourSummary)
  get_page username TripKind.recorded page = of_komoot (S.list_tours username page_size page)
  get_page username TripKind.planned page = of_komoot (S.list_planned_tours username page_size page)

  unfoldable pub list_all_tours_of_kind : ℕ → List ℕ → TripKind → Action R (List KomootTourSummary)
  unfolding pages
  list_all_tours_of_kind fuel username kind = pages fuel (get_page username kind) 0 []

  unfoldable pub list_all_tour_photos : ℕ → List ℕ → Action R (List KomootPhoto)
  unfolding pages
  list_all_tour_photos fuel tour_id =
      pages fuel (λ page. of_komoot (S.get_tour_photos tour_id page_size page)) 0 []

-- Each recorded tour with its kind, and then each planned one.
unfoldable pub tag_by_kind :
    List KomootTourSummary → List KomootTourSummary → List (KomootTourSummary × TripKind)
tag_by_kind recorded planned =
    map (λ t. (t, TripKind.recorded)) recorded ++ map (λ t. (t, TripKind.planned)) planned
