-- ===== src/Komoot/Archive/Valid.antt =====
-- The invariant of the archive's tables, and that what src/server/repo/ writes there keeps it.
pub mod Trips
pub mod Delete
pub mod Reach
use gps_trips.Prelude.{
  ℕ, ◌+◌, ◌<◌, ◌≡◌, ◌≢◌, refl, sym, ◌∙◌, Bool, true, false, not, ◌||◌, List, [], ◌∷◌, ◌++◌, map,
  Option, none, some, inl, inr, ◌==◌, ==_iff, if◌then◌else◌, text_eq, text_eq_refl, Bool-cases,
  arith, any, filter, All, All-weaken, Pairwise, any-false, any-append_left, any-append_right,
  any-filter, All-filter, All-map, All-snoc, Pairwise-map, Pairwise-filter, Pairwise-snoc,
  some-injective,
}
use gps_trips.Types.Activity.{ActivityType}
use gps_trips.Types.Privacy.{KomootPrivacy}
use gps_trips.Komoot.Archive.{
  Trip, NewTrip, KomootLink, Archive, id_is, of_trip, of_tour, has_trip, update, update_links,
  new_link, insert_link_in_tx, with_privacy, set_privacy_in_tx, refreshable,
  refresh_privacy_from_listing, edit_cleared, clear_edit_pending, delete_link,
}
use gps_trips.Komoot.Archive.Trips.{
  insert_trip_in_tx, TripEdit, edited, trip_is, edit_marked, mark_edit, set_privacy_if, update_trip,
  delete_marked, orphaned, remove_trip, delete_trip, set_each, set_activity_type, committed,
}

abbrev pub OtherTrip : Option ℕ → Option ℕ → Type 0
OtherTrip none b = Unit {0}
OtherTrip (some a) none = Unit {0}
OtherTrip (some a) (some b) = a ≢ b

-- Two links are of different tours and of different trips.
abbrev pub Apart : KomootLink → KomootLink → Type 0
Apart l m = (l.komoot_tour_id ≢ m.komoot_tour_id) × OtherTrip l.trip_id m.trip_id

-- A link is of a trip that is there and not to be deleted, or of none and to be deleted.
abbrev pub Owned : List Trip → Option ℕ → Bool → Type 0
Owned trips none marked = marked ≡ true
Owned trips (some id) marked = (marked ≡ false) × (has_trip id trips ≡ true)

abbrev pub IsOwned : List Trip → KomootLink → Type 0
IsOwned trips link = Owned trips link.trip_id link.delete_pending

pub record IsValid (db : Archive) : Type 0 where
  pub apart : Pairwise Apart db.links
  pub owned : All (IsOwned db.trips) db.links
  pub numbered : All (λ trip. trip.id < db.next_trip) db.trips
  pub distinct : Pairwise (λ (t u : Trip). t.id ≢ u.id) db.trips

-- A change of some rows that keeps what is said of a row keeps it of the table.
pub All-update {κ} :
    {A : Type κ} (P Q : A → Type 0) (at : A → Bool) (change : A → A) (rows : List A)
    → ((row : A) → at row ≡ true → P row → Q (change row))
    → ((row : A) → at row ≡ false → P row → Q row)
    → All P rows
    → All Q (update at change rows)
All-update P Q at change [] f g h = tt
All-update P Q at change (row ∷ rows) f g h = (
  elim (Bool-cases (at row)) [ inl e ↦ rw e (f row e h.0) | inr e ↦ rw e (g row e h.0) ],
  All-update P Q at change rows f g h.1,
)

-- What a change of a link's flags and privacy leaves as it is.
pub record Same (change : KomootLink → KomootLink) : Type 0 where
  pub same_tour : (l : KomootLink) → (change l).komoot_tour_id ≡ l.komoot_tour_id
  pub same_trip : (l : KomootLink) → (change l).trip_id ≡ l.trip_id
  pub same_mark : (l : KomootLink) → (change l).delete_pending ≡ l.delete_pending

pub Same-Apart :
    (at : KomootLink → Bool) (change : KomootLink → KomootLink)
    → Same change
    → (l m : KomootLink) → Apart l m
    → Apart (if at l then change l else l) (if at m then change m else m)
Same-Apart at change s l m h = elim (Bool-cases (at l)) [
  | inl a ↦ elim (Bool-cases (at m)) [
    | inl b ↦ rw (a, b, s.same_tour l, s.same_tour m, s.same_trip l, s.same_trip m) h
    | inr b ↦ rw (a, b, s.same_tour l, s.same_trip l) h
  ]
  | inr a ↦ elim (Bool-cases (at m)) [
    | inl b ↦ rw (a, b, s.same_tour m, s.same_trip m) h
    | inr b ↦ rw (a, b) h
  ]
]

pub Same-IsValid :
    (at : KomootLink → Bool) (change : KomootLink → KomootLink) (db : Archive)
    → Same change
    → IsValid db
    → IsValid (update_links at change db)
unfolding update_links
Same-IsValid at change db s v = record {
  apart = Pairwise-map Apart _ db.links (Same-Apart at change s) v.apart;
  owned =
      All-update (IsOwned db.trips) (IsOwned db.trips) at change db.links
        (λ l e h. rw (s.same_trip l, s.same_mark l) h) (λ l e h. h) v.owned;
  numbered = v.numbered;
  distinct = v.distinct;
}

pub marked_Same : Same edit_marked
marked_Same = record { same_tour = λ l. refl; same_trip = λ l. refl; same_mark = λ l. refl }

cleared_Same : Same edit_cleared
cleared_Same = record { same_tour = λ l. refl; same_trip = λ l. refl; same_mark = λ l. refl }

privacy_Same : (status : KomootPrivacy) → Same (with_privacy status)
privacy_Same status = record { same_tour = λ l. refl; same_trip = λ l. refl; same_mark = λ l. refl }

pub refresh-IsValid :
    (listed : List (List ℕ × KomootPrivacy)) (db : Archive)
    → IsValid db
    → IsValid (refresh_privacy_from_listing listed db)
unfolding refresh_privacy_from_listing
refresh-IsValid [] db v = v
refresh-IsValid ((tour, status) ∷ listed) db v =
    refresh-IsValid listed _
      (Same-IsValid (refreshable tour) (with_privacy status) db (privacy_Same status) v)

pub set_privacy-IsValid :
    (trip : ℕ) (status : KomootPrivacy) (db : Archive)
    → IsValid db
    → IsValid (set_privacy_in_tx trip status db)
unfolding set_privacy_in_tx
set_privacy-IsValid trip status db v = Same-IsValid _ _ db (privacy_Same status) v

pub clear_edit_pending-IsValid :
    (trip : ℕ) (db : Archive) → IsValid db → IsValid (clear_edit_pending trip db)
unfolding clear_edit_pending
clear_edit_pending-IsValid trip db v = Same-IsValid _ _ db cleared_Same v

pub delete_link-IsValid :
    (tour : List ℕ) (db : Archive) → IsValid db → IsValid (delete_link tour db)
unfolding delete_link
delete_link-IsValid tour db v = record {
  apart = Pairwise-filter Apart _ db.links v.apart;
  owned = All-filter (IsOwned db.trips) _ db.links v.owned;
  numbered = v.numbered;
  distinct = v.distinct;
}
