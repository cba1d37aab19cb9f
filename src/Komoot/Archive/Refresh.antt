-- ===== src/Komoot/Archive/Refresh.antt =====
-- What a listing's privacy does to each link, src/server/repo/komoot.rs.
use gps_trips.Prelude.{
  ℕ, ◌≡◌, refl, sym, ap, ap₂, ◌∙◌, Bool, true, false, ◌||◌, List, [], ◌∷◌, map, Option, none, some,
  inl, inr, Bool-cases, Option-cases, if◌then◌else◌, text_eq,
}
use gps_trips.Types.Privacy.{KomootPrivacy}
use gps_trips.Komoot.Archive.{
  Archive, KomootLink, update, update_links, refreshable, with_privacy,
  refresh_privacy_from_listing,
}

-- The privacy that a listing has for a tour, the last one if there are several.
unfoldable pub latest : List (List ℕ × KomootPrivacy) → List ℕ → Option KomootPrivacy
latest [] tour = none
latest ((listed_tour, chosen) ∷ listed) tour = elim (latest listed tour) [
  | some later ↦ some later
  | none ↦ if text_eq tour listed_tour then some chosen else none
]

abbrev pub taken_over : Option KomootPrivacy → KomootLink → KomootLink
taken_over none link = link
taken_over (some chosen) link = with_privacy chosen link

-- A link with nothing pending takes the listing's privacy over.
unfoldable pub refreshed_by : List (List ℕ × KomootPrivacy) → KomootLink → KomootLink
unfolding latest
refreshed_by listed link =
    if link.edit_pending || link.delete_pending
    then link
    else taken_over (latest listed link.komoot_tour_id) link

abbrev row : Option ℕ → List ℕ → Bool → Bool → Option KomootPrivacy → KomootLink
row trip tour edit delete chosen = record {
  trip_id = trip;
  komoot_tour_id = tour;
  edit_pending = edit;
  delete_pending = delete;
  privacy_status = chosen;
}

abbrev if_refreshable : List ℕ → KomootPrivacy → KomootLink → KomootLink
if_refreshable tour chosen link = if refreshable tour link then with_privacy chosen link else link

abbrev OneByOne : List ℕ → KomootPrivacy → List (List ℕ × KomootPrivacy) → KomootLink → Type 0
OneByOne tour chosen listed link =
    refreshed_by listed (if_refreshable tour chosen link)
    ≡ refreshed_by ((tour, chosen) ∷ listed) link

-- The fields of the link one by one, so that its flags are variables.
one_row :
    (tour : List ℕ) (chosen : KomootPrivacy) (listed : List (List ℕ × KomootPrivacy))
    → (trip : Option ℕ) (own : List ℕ) (edit delete : Bool) (old : Option KomootPrivacy)
    → OneByOne tour chosen listed (row trip own edit delete old)
unfolding refreshed_by latest
one_row tour chosen listed trip own true delete old = elim (Bool-cases (text_eq own tour)) [
  | inl e ↦ rw e refl
  | inr e ↦ rw e refl
]
one_row tour chosen listed trip own false true old = elim (Bool-cases (text_eq own tour)) [
  | inl e ↦ rw e refl
  | inr e ↦ rw e refl
]
one_row tour chosen listed trip own false false old = elim (Option-cases (latest listed own)) [
  | inl unlisted ↦ elim (Bool-cases (text_eq own tour)) [
    | inl e ↦ rw (unlisted, e, unlisted) refl
    | inr e ↦ rw (unlisted, e, unlisted) refl
  ]
  | inr (later, found) ↦ elim (Bool-cases (text_eq own tour)) [
    | inl e ↦ rw (found, e, found) refl
    | inr e ↦ rw (found, e, found) refl
  ]
]

one_pass :
    (tour : List ℕ) (chosen : KomootPrivacy) (listed : List (List ℕ × KomootPrivacy))
    → (links : List KomootLink)
    → map (refreshed_by listed) (update (refreshable tour) (with_privacy chosen) links)
      ≡ map (refreshed_by ((tour, chosen) ∷ listed)) links
one_pass tour chosen listed [] = refl
one_pass tour chosen listed (link ∷ links) =
    ap₂ (λ l ls. l ∷ ls)
      (one_row tour chosen listed link.trip_id link.komoot_tour_id link.edit_pending
        link.delete_pending link.privacy_status)
      (one_pass tour chosen listed links)

unlisted_links : (links : List KomootLink) → map (refreshed_by []) links ≡ links
unfolding refreshed_by latest
unlisted_links [] = refl
unlisted_links (link ∷ links) =
    ap₂ (λ l ls. l ∷ ls) (same (link.edit_pending || link.delete_pending)) (unlisted_links links)
  where
    same : (b : Bool) → (if b then link else link) ≡ link
    same true = refl
    same false = refl

-- A listing changes the privacy of the links, and nothing else: a link with an edit or a deletion
-- pending keeps its own, as does one whose tour is not listed, and each other takes over the last
-- one that the listing has for its tour.
pub refresh_privacy-pointwise :
    (listed : List (List ℕ × KomootPrivacy)) (db : Archive)
    → refresh_privacy_from_listing listed db
      ≡ record db { links = map (refreshed_by listed) db.links }
unfolding refresh_privacy_from_listing update_links
refresh_privacy-pointwise [] db =
    ap (λ ls. record db { links = ls }) (sym (unlisted_links db.links))
refresh_privacy-pointwise ((tour, chosen) ∷ listed) db =
    refresh_privacy-pointwise listed (update_links (refreshable tour) (with_privacy chosen) db)
    ∙ ap (λ ls. record db { links = ls }) (one_pass tour chosen listed db.links)
