-- ===== src/Komoot/Archive/Valid/Trips.antt =====
-- That the writes to `trip` of src/server/repo/trip.rs and bulk_edit.rs, and the insertion of a
-- link, keep the invariant of the archive's tables.
use gps_trips.Prelude.{
  ℕ, ◌<◌, ◌≡◌, ◌≢◌, refl, subst, Bool, true, false, List, [], ◌∷◌, Option, none, some, inl, inr,
  ◌==◌, if◌then◌else◌, text_eq, text_eq_refl, Bool-cases, arith, any, All, All-weaken, any-false,
  any-none, any-append_left, All-snoc, Pairwise-map, Pairwise-snoc, some-injective,
}
use gps_trips.Types.Activity.{ActivityType}
use gps_trips.Types.Privacy.{KomootPrivacy}
use gps_trips.Komoot.Archive.{
  Trip, NewTrip, KomootLink, Archive, id_is, of_trip, of_tour, has_trip, update, new_link,
  insert_link_in_tx,
}
use gps_trips.Komoot.Archive.Trips.{
  insert_trip_in_tx, TripEdit, edited, trip_is, mark_edit, set_privacy_if, update_trip, set_each,
  set_activity_type, committed,
}
use gps_trips.Komoot.Archive.Valid.{
  OtherTrip, Apart, Owned, IsOwned, IsValid, All-update, Same-IsValid, marked_Same,
  set_privacy-IsValid,
}

-- A trip that is there stays there.
Owned-mono :
    (trips after : List Trip) (link : KomootLink)
    → ((id : ℕ) → has_trip id trips ≡ true → has_trip id after ≡ true)
    → IsOwned trips link
    → IsOwned after link
Owned-mono trips after link keeps h = go link.trip_id h
  where
    go : (o : Option ℕ) → Owned trips o link.delete_pending → Owned after o link.delete_pending
    go none h = h
    go (some id) h = (h.0, keeps id h.1)

pub insert_trip-IsValid :
    (trip : NewTrip) (db : Archive) → IsValid db → IsValid (insert_trip_in_tx trip db).1
unfolding insert_trip_in_tx
insert_trip-IsValid trip db v = record {
  apart = v.apart;
  owned =
      All-weaken (λ l h. Owned-mono db.trips _ l (λ id k. any-append_left _ db.trips _ k) h)
        db.links v.owned;
  numbered =
      All-snoc _ db.trips _
        (All-weaken (λ t h. let h' : t.id < db.next_trip = h in omega (arith, h')) db.trips
          v.numbered)
        (omega arith);
  distinct = Pairwise-snoc _ db.trips _ v.distinct (
      All-weaken (λ t h e. let h' : t.id < db.next_trip = h in omega (arith, h', e)) db.trips
        v.numbered);
}

-- The links that an insertion is not refused for are apart from the new one.
new_link-Apart :
    (trip : ℕ) (tour : List ℕ) (links : List KomootLink)
    → any (of_tour tour) links ≡ false
    → any (of_trip trip) links ≡ false
    → All (λ l. Apart l (new_link trip tour)) links
new_link-Apart trip tour [] h k = tt
new_link-Apart trip tour (l ∷ links) h k =
    let other_tours = any-false (of_tour tour) (l ∷ links) h in
    let other_trips = any-false (of_trip trip) (l ∷ links) k in
    (
      (
        λ e.
            let bad : text_eq tour tour ≡ false = rw e at other_tours.0 in
            cc (bad, text_eq_refl tour),
        other l.trip_id other_trips.0,
      ),
      new_link-Apart trip tour links (any-none _ links other_tours.1)
          (any-none _ links other_trips.1),
    )
  where
    other : (o : Option ℕ) → id_is trip o ≡ false → OtherTrip o (some trip)
    other none h = tt
    other (some t) h = λ e. ground (arith, h, e)

pub insert_link-IsValid :
    (trip : ℕ) (tour : List ℕ) (db after : Archive)
    → insert_link_in_tx trip tour db ≡ some after
    → IsValid db
    → IsValid after
unfolding insert_link_in_tx
insert_link-IsValid trip tour db after h v = elim (Bool-cases (any (of_tour tour) db.links)) [
  | inl e ↦ let bad : none ≡ some after = rw e at h in cc
  | inr tours ↦ elim (Bool-cases (any (of_trip trip) db.links)) [
    | inl e ↦ let bad : none ≡ some after = rw (tours, e) at h in cc
    | inr trips ↦ elim (Bool-cases (has_trip trip db.trips)) [
      | inr e ↦ let bad : none ≡ some after = rw (tours, trips, e) at h in cc
      | inl there ↦
          let e : some _ ≡ some after = rw (tours, trips, there) at h in
          subst IsValid (some-injective _ after e) (record {
            apart =
                Pairwise-snoc Apart db.links _ v.apart
                  (new_link-Apart trip tour db.links tours trips);
            owned = All-snoc (IsOwned db.trips) db.links _ v.owned (refl, there);
            numbered = v.numbered;
            distinct = v.distinct;
          })
    ]
  ]
]

has_trip-update :
    (at : Trip → Bool) (change : Trip → Trip)
    → ((trip : Trip) → (change trip).id ≡ trip.id)
    → (id : ℕ) (trips : List Trip) → has_trip id trips ≡ true
    → has_trip id (update at change trips) ≡ true
has_trip-update at change same id [] h = h
has_trip-update at change same id (trip ∷ trips) h = elim (Bool-cases (trip.id == id)) [
  | inl e ↦ elim (Bool-cases (at trip)) [
    | inl b ↦ rw (b, same trip, e) refl
    | inr b ↦ rw (b, e) refl
  ]
  | inr e ↦
      let rest : has_trip id (update at change trips) ≡ true =
        has_trip-update at change same id trips (rw e at h) in
      elim (Bool-cases (at trip)) [ inl b ↦ rw (b, same trip, e) rest | inr b ↦ rw (b, e) rest ]
]

-- A change of trips that leaves their ids as they are.
trips-IsValid :
    (at : Trip → Bool) (change : Trip → Trip) (db : Archive)
    → ((trip : Trip) → (change trip).id ≡ trip.id)
    → IsValid db
    → IsValid (record db { trips = update at change db.trips })
trips-IsValid at change db same v = record {
  apart = v.apart;
  owned =
      All-weaken
        (λ l h. Owned-mono db.trips _ l (λ id. has_trip-update at change same id db.trips) h)
        db.links v.owned;
  numbered = All-update _ _ at change db.trips (λ t e h. rw (same t) h) (λ t e h. h) v.numbered;
  distinct = Pairwise-map _ _ db.trips distinct_ids v.distinct;
}
  where
    same_id : (t : Trip) → (if at t then change t else t).id ≡ t.id
    same_id t = elim (Bool-cases (at t)) [ inl e ↦ rw e (same t) | inr e ↦ rw e refl ]

    distinct_ids :
        (t u : Trip)
        → t.id ≢ u.id
        → (if at t then change t else t).id ≢ (if at u then change u else u).id
    distinct_ids t u h = rw (same_id t, same_id u) h

mark_edit-IsValid : (id : ℕ) (db : Archive) → IsValid db → IsValid (mark_edit id db)
unfolding mark_edit
mark_edit-IsValid id db v = Same-IsValid _ _ db marked_Same v

set_privacy_if-IsValid :
    (id : ℕ) (status : Option KomootPrivacy) (db : Archive)
    → IsValid db
    → IsValid (set_privacy_if id status db)
set_privacy_if-IsValid id none db v = v
set_privacy_if-IsValid id (some status) db v = set_privacy-IsValid id status db v

pub update_trip-IsValid :
    (id : ℕ) (edit : TripEdit) (db : Archive) → IsValid db → IsValid (update_trip id edit db).1
unfolding update_trip
update_trip-IsValid id edit db v = elim (Bool-cases (has_trip id db.trips)) [
  | inl e ↦ rw e (
      mark_edit-IsValid id _ (
        set_privacy_if-IsValid id edit.privacy _
          (trips-IsValid (trip_is id) (edited edit) db (λ t. refl) v)))
  | inr e ↦ rw e v
]

set_each-IsValid :
    (ids : List ℕ) (activity : ActivityType) (db after : Archive)
    → set_each ids activity db ≡ some after
    → IsValid db
    → IsValid after
unfolding set_each
set_each-IsValid [] activity db after h v = subst IsValid (some-injective db after h) v
set_each-IsValid (id ∷ ids) activity db after h v = elim (Bool-cases (has_trip id db.trips)) [
  | inl e ↦
      set_each-IsValid ids activity _ after (rw e at h)
        (mark_edit-IsValid id _ (trips-IsValid (trip_is id) _ db (λ t. refl) v))
  | inr e ↦ let bad : none ≡ some after = rw e at h in cc
]

pub set_activity_type-IsValid :
    (ids : List ℕ) (activity : ActivityType) (db : Archive)
    → IsValid db
    → IsValid (set_activity_type ids activity db).1
unfolding set_activity_type
set_activity_type-IsValid ids activity db v =
    go (set_each ids activity db) (λ after h. set_each-IsValid ids activity db after h v)
  where
    go :
        (o : Option Archive)
        → ((after : Archive) → o ≡ some after → IsValid after)
        → IsValid (committed db o).1
    go none h = v
    go (some after) h = h after refl
