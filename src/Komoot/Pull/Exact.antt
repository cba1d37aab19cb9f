-- ===== src/Komoot/Pull/Exact.antt =====
-- What one tour's import and a listing's privacy, src/server/komoot_sync.rs, add to the archive: the
-- ids of the tours that are linked and those of the trips.
pub mod Loop
pub mod Run
pub mod Again
use gps_trips.Prelude.{
  ℕ, ◌≡◌, refl, sym, ap, subst, ◌∙◌, Bool, true, false, not, ◌||◌, List, [], ◌∷◌, ◌++◌, append-nil,
  append_assoc, Option, none, some, inl, inr, map, Bool-cases, any, some-injective, if◌then◌else◌,
}
use gps_trips.Types.Kind.{TripKind}
use gps_trips.Types.Privacy.{KomootPrivacy}
use gps_trips.Komoot.Archive.{
  Archive, Trip, NewTrip, KomootLink, of_tour, of_trip, has_trip, update, update_links, new_link,
  list_linked_tour_ids, insert_link_in_tx, set_privacy_in_tx, with_privacy, refreshable,
  refresh_privacy_from_listing,
}
use gps_trips.Komoot.Archive.Trips.{insert_trip_in_tx}
use gps_trips.Komoot.Service.{KomootTourSummary}
use gps_trips.Komoot.Tour.Atomic.{Imported}

unfoldable pub trip_ids : Archive → List ℕ
trip_ids db = map (λ (trip : Trip). trip.id) db.trips

-- The tours that are linked and the trips are those from before, and behind them the pairs'.
pub record Adds (before : Archive) (pairs : List (List ℕ × ℕ)) (after : Archive) : Type 0 where
  pub tours :
      list_linked_tour_ids after
      ≡ list_linked_tour_ids before ++ map (λ (p : List ℕ × ℕ). p.0) pairs
  pub trips : trip_ids after ≡ trip_ids before ++ map (λ (p : List ℕ × ℕ). p.1) pairs

pub map-append {ℓ κ} :
    {A : Type ℓ} {B : Type κ} (f : A → B) (xs ys : List A) → map f (xs ++ ys) ≡ map f xs ++ map f ys
map-append f [] ys = refl
map-append f (x ∷ xs) ys = ap (λ l. f x ∷ l) (map-append f xs ys)

pub Adds-nothing : (db : Archive) → Adds db [] db
Adds-nothing db = record { tours = sym (append-nil _); trips = sym (append-nil _) }

grown {ℓ κ} :
    {A : Type ℓ} {B : Type κ} (f : A → B) (ps qs : List A) (xs ys zs : List B)
    → ys ≡ xs ++ map f ps
    → zs ≡ ys ++ map f qs
    → zs ≡ xs ++ map f (ps ++ qs)
grown f ps qs xs ys zs h k =
    k
    ∙ ap (λ l. l ++ map f qs) h
    ∙ append_assoc xs (map f ps) (map f qs)
    ∙ ap (λ l. xs ++ l) (sym (map-append f ps qs))

pub Adds-trans :
    (a b c : Archive) (ps qs : List (List ℕ × ℕ)) → Adds a ps b → Adds b qs c → Adds a (ps ++ qs) c
Adds-trans a b c ps qs h k = record {
  tours = grown (λ p. p.0) ps qs _ _ _ h.tours k.tours;
  trips = grown (λ p. p.1) ps qs _ _ _ h.trips k.trips;
}

tours-update :
    (at : KomootLink → Bool) (change : KomootLink → KomootLink) (links : List KomootLink)
    → ((l : KomootLink) → (change l).komoot_tour_id ≡ l.komoot_tour_id)
    → map (λ (l : KomootLink). l.komoot_tour_id) (update at change links)
      ≡ map (λ (l : KomootLink). l.komoot_tour_id) links
tours-update at change [] h = refl
tours-update at change (l ∷ links) h = elim (Bool-cases (at l)) [
  | inl e ↦ rw (e, h l, tours-update at change links h) refl
  | inr e ↦ rw (e, tours-update at change links h) refl
]

pub update_links-Adds :
    (at : KomootLink → Bool) (change : KomootLink → KomootLink) (db : Archive)
    → ((l : KomootLink) → (change l).komoot_tour_id ≡ l.komoot_tour_id)
    → Adds db [] (update_links at change db)
unfolding update_links list_linked_tour_ids trip_ids
update_links-Adds at change db h = record {
  tours = tours-update at change db.links h ∙ sym (append-nil _);
  trips = sym (append-nil _);
}

pub refresh-Adds :
    (listed : List (List ℕ × KomootPrivacy)) (db : Archive)
    → Adds db [] (refresh_privacy_from_listing listed db)
unfolding refresh_privacy_from_listing
refresh-Adds [] db = Adds-nothing db
refresh-Adds ((tour, chosen) ∷ listed) db =
    let one = update_links-Adds (refreshable tour) (with_privacy chosen) db (λ l. refl) in
    Adds-trans db _ _ [] [] one (refresh-Adds listed _)

set_privacy-Adds :
    (trip : ℕ) (chosen : KomootPrivacy) (db : Archive)
    → Adds db [] (set_privacy_in_tx trip chosen db)
unfolding set_privacy_in_tx
set_privacy-Adds trip chosen db =
    update_links-Adds (of_trip trip) (with_privacy chosen) db (λ l. refl)

-- An insertion that is not refused puts the link behind the others.
insert_link-inv :
    (trip : ℕ) (tour : List ℕ) (db after : Archive)
    → insert_link_in_tx trip tour db ≡ some after
    → record db { links = db.links ++ new_link trip tour ∷ [] } ≡ after
unfolding insert_link_in_tx
insert_link-inv trip tour db after h = go _ h
  where
    go :
        (refused : Bool) {done : Archive}
        → (if refused then none else some done) ≡ some after
        → done ≡ after
    go true h = cc
    go false h = some-injective _ after h

pub Imported-Adds :
    (tour : KomootTourSummary) (kind : TripKind) (db : Archive) (id : ℕ) (after : Archive)
    → Imported tour kind db id after
    → Adds db ((tour.id, id) ∷ []) after
unfolding insert_trip_in_tx list_linked_tour_ids trip_ids
Imported-Adds tour kind db id after h =
    let linked : Adds db ((tour.id, id) ∷ []) h.inserted =
      subst (Adds db ((tour.id, id) ∷ []))
        (insert_link-inv id tour.id (insert_trip_in_tx h.trip db).1 h.inserted h.linked)
        (record {
          tours = map-append _ db.links _;
          trips = map-append _ db.trips _ ∙ ap (λ n. trip_ids db ++ n ∷ []) (sym h.fresh);
        }) in
    subst (Adds db ((tour.id, id) ∷ [])) (sym h.stored)
      (Adds-trans db h.inserted _ _ [] linked (set_privacy-Adds id _ h.inserted))
