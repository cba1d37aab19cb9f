-- ===== src/Komoot/Pull/Steps.antt =====
-- That whatever src/server/komoot_sync.rs pulls is a sequence of two steps on the archive: a listing's
-- privacy is taken over, or a tour is imported as a whole. Both keep the archive's invariant.
use gps_trips.Prelude.{
  ℕ, sym, subst, List, [], ◌∷◌, ◌++◌, Option, none, some, inl, inr, map, Bool-cases, any,
}
use gps_trips.Types.Kind.{TripKind}
use gps_trips.Types.Privacy.{KomootPrivacy}
use gps_trips.Komoot.Archive.{Archive, refresh_privacy_from_listing, list_linked_tour_ids}
use gps_trips.Komoot.Archive.Valid.{IsValid, refresh-IsValid, set_privacy-IsValid}
use gps_trips.Komoot.Archive.Valid.Trips.{insert_trip-IsValid, insert_link-IsValid}
use gps_trips.Komoot.World.{komoot, Outcome, ok, err, unfinished, World, Action}
use gps_trips.Komoot.World.Keeps.{Keeps, Keeps-bind, call-db}
use gps_trips.Komoot.Service.{KomootTourSummary, Service, of_komoot}
use gps_trips.Komoot.Database.{query, listed_privacy, refresh_privacy}
use gps_trips.Komoot.Database.Ends.{Same, Settles, query-Same, refresh_privacy-Settles}
use gps_trips.Komoot.Listing.{list_all_tours_of_kind}
use gps_trips.Komoot.Tour.{sync_one_tour}
use gps_trips.Komoot.Tour.Atomic.{Imported, list_all_tours-Same, sync_one_tour-Settles}
use gps_trips.Komoot.Pull.{
  SelectedTour, SyncSummary, contains, Tours, tours_by_id, get_tour_by_id, remove_tour, after_tour,
  import_found, import_each, import_selected_tours, listing_for, sync_selected_tours, backfill,
  list_sync_candidates, same_kind,
}

pub data Pulled : Archive → Archive → Type 0 where
  refreshed :
      {db : Archive} (listed : List (List ℕ × KomootPrivacy))
      → Pulled db (refresh_privacy_from_listing listed db)
  imported_tour :
      {db after : Archive} (tour : KomootTourSummary) (kind : TripKind) (id : ℕ)
      → Imported tour kind db id after
      → Pulled db after

pub data Pulls : Archive → Archive → Type 0 where
  stay : {db : Archive} → Pulls db db
  pull : {a b c : Archive} → Pulled a b → Pulls b c → Pulls a c

pub Pulls-trans : (a b c : Archive) → Pulls a b → Pulls b c → Pulls a c
Pulls-trans a b c stay k = k
Pulls-trans a b c (pull h rest) k = pull h (Pulls-trans _ b c rest k)

Imported-IsValid :
    (tour : KomootTourSummary) (kind : TripKind) (db : Archive) (id : ℕ) (after : Archive)
    → Imported tour kind db id after
    → IsValid db
    → IsValid after
Imported-IsValid tour kind db id after h v = subst IsValid (sym h.stored) (
    set_privacy-IsValid id _ h.inserted
      (insert_link-IsValid id tour.id _ h.inserted h.linked (insert_trip-IsValid h.trip db v)))

pub Pulls-IsValid : {db after : Archive} → Pulls db after → IsValid db → IsValid after
Pulls-IsValid stay v = v
Pulls-IsValid (pull (refreshed listed) rest) v = Pulls-IsValid rest (refresh-IsValid listed _ v)
Pulls-IsValid (pull (imported_tour tour kind id h) rest) v =
    Pulls-IsValid rest (Imported-IsValid tour kind _ id _ h v)

-- What settles as one step is at most that step.
settled {ℓ κ} :
    {R : Type ℓ} {A : Type κ} (db : Archive) (Q : A → Archive → Type 0) (r : Outcome A × World R)
    → ((a : A) (after : Archive) → Q a after → Pulled db after)
    → Settles db Q r
    → Pulls db r.1.db
settled db Q (ok a, w) f h = pull (f a w.db h) stay
settled db Q (err e, w) f h = subst (Pulls db) (sym h) stay
settled db Q (unfinished, w) f h = subst (Pulls db) (sym h) stay

unchanged {ℓ κ} : {R : Type ℓ} {A : Type κ} (m : Action R A) → Keeps Same m → Keeps Pulls m
unchanged m h w = subst (Pulls w.db) (sym (h w)) stay

module _ {ℓ} {R : Type ℓ} (S : Service R) (fuel : ℕ) where
  after_tour-Pulls :
      (id : List ℕ) (imported : List (List ℕ × ℕ)) (rest : List (List ℕ × ℕ) → Action R SyncSummary)
      → ((all : List (List ℕ × ℕ)) → Keeps Pulls (rest all))
      → (db : Archive) (r : Outcome ℕ × World R) → Pulls db r.1.db
      → Pulls db (after_tour id imported rest r).1.db
  after_tour-Pulls id imported rest h db (ok trip, w) k =
      Pulls-trans db w.db _ k (h (imported ++ (id, trip) ∷ []) w)
  after_tour-Pulls id imported rest h db (err e, w) k = k
  after_tour-Pulls id imported rest h db (unfinished, w) k = k

  import_found-Pulls :
      (id : List ℕ) (imported : List (List ℕ × ℕ)) (rest : List (List ℕ × ℕ) → Action R SyncSummary)
      → ((all : List (List ℕ × ℕ)) → Keeps Pulls (rest all))
      → (found : Option (KomootTourSummary × TripKind))
      → Keeps Pulls (import_found S fuel id imported rest found)
  unfolding import_found
  import_found-Pulls id imported rest h none w = stay
  import_found-Pulls id imported rest h (some (tour, kind)) w =
      after_tour-Pulls id imported rest h w.db (sync_one_tour S fuel tour kind w) (
        settled w.db (Imported tour kind w.db) _ (λ trip after k. imported_tour tour kind trip k)
          (sync_one_tour-Settles S fuel tour kind w))

  import_each-Pulls :
      (linked : List (List ℕ)) (by_id : Tours) (attempted : List (List ℕ))
      → (imported : List (List ℕ × ℕ)) (ids : List (List ℕ))
      → Keeps Pulls (import_each S fuel linked by_id attempted imported ids)
  unfolding import_each
  import_each-Pulls linked by_id attempted imported [] w = stay
  import_each-Pulls linked by_id attempted imported (id ∷ ids) w =
      elim (Bool-cases (contains attempted id)) [
        | inl again ↦ rw again (import_each-Pulls linked by_id attempted imported ids w)
        | inr new ↦ elim (Bool-cases (contains linked id)) [
          | inl there ↦
              rw (new, there) (import_each-Pulls linked by_id (id ∷ attempted) imported ids w)
          | inr missing ↦
              rw (new, missing)
                (import_found-Pulls id imported
                  (λ all. import_each S fuel linked (remove_tour id by_id) (id ∷ attempted) all ids)
                  (λ all. import_each-Pulls linked (remove_tour id by_id) (id ∷ attempted) all ids)
                  (get_tour_by_id id by_id) w)
        ]
      ]

  refresh-Pulls : (tours : List KomootTourSummary) → Keeps Pulls (refresh_privacy S tours)
  refresh-Pulls tours w =
      settled w.db _ (refresh_privacy S tours w)
        (λ a after h. subst (Pulled w.db) (sym h) (refreshed (listed_privacy S tours)))
        (refresh_privacy-Settles S tours w)

  pub import_selected_tours-Pulls :
      (tours : List (KomootTourSummary × TripKind)) (ids : List (List ℕ))
      → Keeps Pulls (import_selected_tours S fuel tours ids)
  unfolding import_selected_tours
  import_selected_tours-Pulls tours ids =
      Keeps-bind Pulls Pulls-trans (refresh_privacy S (map _ tours)) _ (refresh-Pulls _) (λ a.
        Keeps-bind Pulls Pulls-trans (query S list_linked_tour_ids) _
          (unchanged (query S list_linked_tour_ids) (query-Same S list_linked_tour_ids))
          (λ linked. import_each-Pulls linked (tours_by_id tours []) [] [] ids))

  tours-Pulls :
      (username : List ℕ) (kind : TripKind)
      → Keeps Pulls (list_all_tours_of_kind S fuel username kind)
  tours-Pulls username kind =
      unchanged (list_all_tours_of_kind S fuel username kind)
        (list_all_tours-Same S fuel username kind)

  listing_for-Pulls :
      (username : List ℕ) (selected : List SelectedTour) (kind : TripKind)
      → Keeps Pulls (listing_for S fuel username selected kind)
  unfolding listing_for
  listing_for-Pulls username selected kind w =
      elim (Bool-cases (any (λ (s : SelectedTour). same_kind s.kind kind) selected)) [
        | inl wanted ↦ rw wanted (tours-Pulls username kind w)
        | inr other ↦ rw other stay
      ]

  pub sync_selected_tours-Pulls :
      (selected : List SelectedTour) → Keeps Pulls (sync_selected_tours S fuel selected)
  unfolding sync_selected_tours
  sync_selected_tours-Pulls selected =
      Keeps-bind Pulls Pulls-trans (of_komoot S.login) _
        (unchanged (of_komoot S.login) (call-db komoot S.login))
        (λ username.
          Keeps-bind Pulls Pulls-trans (listing_for S fuel username selected TripKind.recorded) _
            (listing_for-Pulls username selected TripKind.recorded)
            (λ recorded.
              Keeps-bind Pulls Pulls-trans (listing_for S fuel username selected TripKind.planned) _
                (listing_for-Pulls username selected TripKind.planned)
                (λ planned. import_selected_tours-Pulls _ _)))

  pub backfill-Pulls :
      (limit : Option ℕ) (kind : TripKind) → Keeps Pulls (backfill S fuel limit kind)
  unfolding backfill
  backfill-Pulls limit kind =
      Keeps-bind Pulls Pulls-trans (of_komoot S.login) _
        (unchanged (of_komoot S.login) (call-db komoot S.login))
        (λ username.
          Keeps-bind Pulls Pulls-trans (list_all_tours_of_kind S fuel username kind) _
            (tours-Pulls username kind)
            (λ tours.
              Keeps-bind Pulls Pulls-trans (query S list_linked_tour_ids) _
                (unchanged (query S list_linked_tour_ids) (query-Same S list_linked_tour_ids))
                (λ linked. import_selected_tours-Pulls _ _)))

  list_sync_candidates-Pulls : Keeps Pulls (list_sync_candidates S fuel)
  unfolding list_sync_candidates
  list_sync_candidates-Pulls =
      Keeps-bind Pulls Pulls-trans (of_komoot S.login) _
        (unchanged (of_komoot S.login) (call-db komoot S.login))
        (λ username.
          Keeps-bind Pulls Pulls-trans (list_all_tours_of_kind S fuel username TripKind.recorded) _
            (tours-Pulls username TripKind.recorded)
            (λ recorded.
              Keeps-bind Pulls Pulls-trans (list_all_tours_of_kind S fuel username TripKind.planned)
                _ (tours-Pulls username TripKind.planned)
                (λ planned.
                  Keeps-bind Pulls Pulls-trans (refresh_privacy S (recorded ++ planned)) _
                    (refresh-Pulls (recorded ++ planned))
                    (λ a.
                      Keeps-bind Pulls Pulls-trans (query S list_linked_tour_ids) _
                        (unchanged (query S list_linked_tour_ids)
                          (query-Same S list_linked_tour_ids))
                        (λ linked v. stay)))))

  -- What a synchronisation, a backfill or a listing of candidates does to the archive is a
  -- sequence of whole steps, however it ends: the privacy of a listing is taken over, or a tour is
  -- imported with its trip, its link and its privacy. So the archive keeps its invariant. The
  -- condition: it had it.
  pub runs-Pulls :
      (selected : List SelectedTour) (limit : Option ℕ) (kind : TripKind) (w : World R)
      → IsValid w.db
      → let synced = (sync_selected_tours S fuel selected w).1.db in
        let filled = (backfill S fuel limit kind w).1.db in
        let listed = (list_sync_candidates S fuel w).1.db in
        (Pulls w.db synced × IsValid synced)
        × (Pulls w.db filled × IsValid filled)
        × (Pulls w.db listed × IsValid listed)
  runs-Pulls selected limit kind w v =
      let synced = sync_selected_tours-Pulls selected w in
      let filled = backfill-Pulls limit kind w in
      let listed = list_sync_candidates-Pulls w in
      (
        (synced, Pulls-IsValid synced v),
        (filled, Pulls-IsValid filled v),
        (listed, Pulls-IsValid listed v),
      )
