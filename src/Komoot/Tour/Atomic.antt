-- ===== src/Komoot/Tour/Atomic.antt =====
-- That `sync_one_tour` of src/server/komoot_sync.rs imports a tour as a whole or not at all.
use gps_trips.Prelude.{
  ℕ, zero, suc, ◌+◌, ◌≡◌, refl, subst, ap, ◌∙◌, List, [], ◌∷◌, ◌++◌, some, inl, inr, ltb, length,
  Bool-cases,
}
use gps_trips.Types.Kind.{TripKind}
use gps_trips.Types.Privacy.{from_komoot_status}
use gps_trips.Komoot.Archive.{Archive, NewTrip, insert_link_in_tx, set_privacy_in_tx}
use gps_trips.Komoot.Archive.Trips.{insert_trip_in_tx}
use gps_trips.Komoot.Sport.{map_sport}
use gps_trips.Komoot.World.{
  database, komoot, Outcome, ok, err, unfinished, World, Action, lift, and_then,
}
use gps_trips.Komoot.World.Keeps.{Keeps, Keeps-bind, Ends, Ends-bind, call-db, call-Ends}
use gps_trips.Komoot.Service.{
  KomootTourSummary, KomootPhoto, Service, of_komoot, of_driver, of_archive,
}
use gps_trips.Komoot.Database.{in_transaction, write, insert_link}
use gps_trips.Komoot.Database.Ends.{
  Same, Same-trans, Settles, Settles-bind, write-Ends, insert_link-Ends, in_transaction-Settles,
}
use gps_trips.Komoot.Listing.{
  page_size, u32, pages, list_all_tours_of_kind, list_all_tour_photos, get_page,
}
use gps_trips.Komoot.Tour.{
  outcome_of, photo_url, prepare_photos, new_trip, insert_trip, sync_in_tx, sync_one_tour,
}

-- A tour's trip and its link stand in the archive, with the tour's name, activity and privacy.
pub record Imported (tour : KomootTourSummary) (kind : TripKind) (db : Archive) (id : ℕ)
    (after : Archive) : Type 0 where
  pub trip : NewTrip
  pub inserted : Archive
  pub named : trip.name ≡ tour.name
  pub active : trip.activity_type ≡ map_sport tour.sport
  pub of_kind : trip.trip_kind ≡ kind
  pub fresh : id ≡ db.next_trip
  pub linked : insert_link_in_tx id tour.id (insert_trip_in_tx trip db).1 ≡ some inserted
  pub stored : after ≡ set_privacy_in_tx id (from_komoot_status tour.status) inserted

pub pages-Same {ℓ κ} :
    {R : Type ℓ} {A : Type κ} (get : ℕ → Action R (List A))
    → ((page : ℕ) → Keeps Same (get page))
    → (fuel page : ℕ) (all : List A) → Keeps Same (pages fuel get page all)
unfolding pages
pages-Same get h zero page all w = refl
pages-Same get h (suc fuel) page all w =
    Keeps-bind Same Same-trans (get page) _ (h page)
      (λ batch v. elim (Bool-cases (ltb (u32 (length batch)) page_size)) [
        | inl last ↦ rw last refl
        | inr full ↦ rw full (pages-Same get h fuel (u32 (page + 1)) (all ++ batch) v)
      ])
      w

module _ {ℓ} {R : Type ℓ} (S : Service R) where
  pub list_all_tours-Same :
      (fuel : ℕ) (username : List ℕ) (kind : TripKind)
      → Keeps Same (list_all_tours_of_kind S fuel username kind)
  unfolding list_all_tours_of_kind
  list_all_tours-Same fuel username kind = pages-Same _ (one kind) fuel 0 []
    where
      one : (kind : TripKind) (page : ℕ) → Keeps Same (get_page S username kind page)
      one TripKind.recorded page = call-db komoot _
      one TripKind.planned page = call-db komoot _

  list_all_tour_photos-Same :
      (fuel : ℕ) (tour : List ℕ) → Keeps Same (list_all_tour_photos S fuel tour)
  unfolding list_all_tour_photos
  list_all_tour_photos-Same fuel tour = pages-Same _ (λ page. call-db komoot _) fuel 0 []

  prepare_photos-Same : (photos : List KomootPhoto) → Keeps Same (prepare_photos S photos)
  unfolding prepare_photos
  prepare_photos-Same [] w = refl
  prepare_photos-Same (photo ∷ photos) w =
      Keeps-bind Same Same-trans (of_komoot (S.fetch_photo_bytes (photo_url S photo))) _
        (call-db komoot _)
        (λ bytes.
          Keeps-bind Same Same-trans (prepare_photos S photos) _ (prepare_photos-Same photos)
            (λ rest v. refl))
        w

  insert_trip-Ends :
      (trip : NewTrip) (derived : S.DerivedTrack) (w : World R)
      → Ends
          (λ id db. (id ≡ w.db.next_trip) × (db ≡ (insert_trip_in_tx trip w.db).1))
          (insert_trip S trip derived w)
  unfolding insert_trip insert_trip_in_tx
  insert_trip-Ends trip derived w =
      Ends-bind (λ a db. db ≡ w.db) _ (of_driver S.execute) _ w (call-Ends database S.execute w)
        (λ a v h.
          Ends-bind (λ b db. db ≡ (insert_trip_in_tx trip v.db).1) _
            (of_driver (S.store_track v.db.next_trip derived trip.gpx)) _ _ (call-Ends database _ _)
            (λ b u k. (
              ap (λ (db : Archive). db.next_trip) h,
              k ∙ ap (λ db. (insert_trip_in_tx trip db).1) h,
            )))

  sync_in_tx-Ends :
      (tour : KomootTourSummary) (kind : TripKind) (derived : S.DerivedTrack) (gpx : List ℕ)
      → (photos : List S.PreparedPhoto) (w : World R)
      → Ends
          (λ id db. Imported tour kind w.db id db)
          (sync_in_tx S tour (new_trip S tour kind derived gpx) derived photos w)
  unfolding sync_in_tx
  sync_in_tx-Ends tour kind derived gpx photos w =
      let trip = new_trip S tour kind derived gpx in
      Ends-bind (λ id db. (id ≡ w.db.next_trip) × (db ≡ (insert_trip_in_tx trip w.db).1)) _
        (insert_trip S trip derived) _ w (insert_trip-Ends trip derived w)
        (λ id v h.
          Ends-bind (λ a db. insert_link_in_tx id tour.id v.db ≡ some db) _
            (insert_link S id tour.id) _ v (insert_link-Ends S id tour.id v)
            (λ a u k.
              Ends-bind (λ b db. db ≡ set_privacy_in_tx id (from_komoot_status tour.status) u.db) _
                (write S (set_privacy_in_tx id (from_komoot_status tour.status))) _ u
                (write-Ends S _ u)
                (λ b t stored.
                  Ends-bind (λ c db. db ≡ t.db) _ (of_archive (S.store_photos id derived photos)) _
                    t (call-Ends _ _ t)
                    (λ c s e. record {
                      trip = trip;
                      inserted = u.db;
                      named = refl;
                      active = refl;
                      of_kind = refl;
                      fresh = h.0;
                      linked = subst (λ db. insert_link_in_tx id tour.id db ≡ some u.db) h.1 k;
                      stored = e ∙ stored;
                    }))))

  entered-Settles :
      (db : Archive) (Q : ℕ → Archive → Type 0) (r : Outcome ℕ × World R)
      → Settles db Q r
      → Settles db Q
          (and_then r (λ id w. (ok id, record w { rest = S.after_trip_entered id w.rest })))
  entered-Settles db Q (ok id, w) h = h
  entered-Settles db Q (err e, w) h = h
  entered-Settles db Q (unfinished, w) h = h

  -- A tour is imported as a whole, or the archive is as it was.
  pub sync_one_tour-Settles :
      (fuel : ℕ) (tour : KomootTourSummary) (kind : TripKind) (w : World R)
      → Settles w.db (Imported tour kind w.db) (sync_one_tour S fuel tour kind w)
  unfolding sync_one_tour
  sync_one_tour-Settles fuel tour kind w =
      Settles-bind w.db _ (of_komoot (S.get_tour_gpx tour.id)) _ w (call-db komoot _) refl
        (λ gpx w₁ e₁.
          Settles-bind w.db _ (lift (outcome_of (S.derive_track gpx))) _ w₁ (λ v. refl) e₁
            (λ derived w₂ e₂.
              Settles-bind w.db _ (list_all_tour_photos S fuel tour.id) _ w₂
                (list_all_tour_photos-Same fuel tour.id) e₂
                (λ photos w₃ e₃.
                  Settles-bind w.db _ (prepare_photos S photos) _ w₃ (prepare_photos-Same photos) e₃
                    (λ prepared w₄ e₄.
                      entered-Settles w.db (Imported tour kind w.db)
                        (in_transaction S
                          (sync_in_tx S tour (new_trip S tour kind derived gpx) derived prepared)
                          w₄)
                        (stored w.db gpx derived prepared w₄ e₄)))))
    where
      stored :
          (db : Archive) (gpx : List ℕ) (derived : S.DerivedTrack) (prepared : List S.PreparedPhoto)
          → (v : World R) → v.db ≡ db
          → Settles db (Imported tour kind db) (
              in_transaction S
                (sync_in_tx S tour (new_trip S tour kind derived gpx) derived prepared)
                v)
      stored db gpx derived prepared v e =
          subst
            (λ db. Settles db (Imported tour kind db) (
              in_transaction S
                (sync_in_tx S tour (new_trip S tour kind derived gpx) derived prepared) v))
            e
            (in_transaction-Settles S _ _ v (λ u h.
              subst
                (λ db.
                  Ends (λ id after. Imported tour kind db id after)
                    (sync_in_tx S tour (new_trip S tour kind derived gpx) derived prepared u))
                h (sync_in_tx-Ends tour kind derived gpx prepared u)))
