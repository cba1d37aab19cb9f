-- ===== src/Komoot/Archive/Valid/Delete.antt =====
-- That the deletion of a trip, src/server/repo/trip.rs, keeps the invariant of the archive's tables:
-- its link is left to the next push of the deletions.
use gps_trips.Prelude.{
  ℕ, ◌≡◌, refl, Bool, true, false, not, List, [], ◌∷◌, Option, none, some, inl, inr, ◌==◌, ==_iff,
  if◌then◌else◌, Bool-cases, arith, filter, All, All-weaken, any-filter, All-filter, Pairwise,
  Pairwise-map, Pairwise-filter,
}
use gps_trips.Komoot.Archive.{
  Trip, KomootLink, Archive, id_is, of_trip, has_trip, update, update_links,
}
use gps_trips.Komoot.Archive.Trips.{trip_is, delete_marked, orphaned, remove_trip, delete_trip}
use gps_trips.Komoot.Archive.Valid.{OtherTrip, Apart, Owned, IsOwned, IsValid, All-update}

-- A link while its trip is deleted: marked if it is the trip's, and otherwise as it was.
Marked : ℕ → List Trip → KomootLink → Type 0
Marked id trips l =
    (of_trip id l ≡ true → l.delete_pending ≡ true) × (of_trip id l ≡ false → IsOwned trips l)

links-Marked :
    (id : ℕ) (trips : List Trip) (links : List KomootLink)
    → All (IsOwned trips) links
    → All (Marked id trips) (update (of_trip id) delete_marked links)
unfolding Marked
links-Marked id trips links h =
    All-update _ (Marked id trips) (of_trip id) delete_marked links
      (λ l e k. (λ d. refl, λ d. let bad : true ≡ false = rw e at d in cc))
      (λ l e k. (λ d. let bad : false ≡ true = rw e at d in cc, λ d. k)) h

-- A trip other than the deleted one is still there.
other-Owned :
    (id : ℕ) (trips : List Trip) (o : Option ℕ) (marked : Bool)
    → id_is id o ≡ false
    → Owned trips o marked
    → Owned (filter (λ trip. not (trip_is id trip)) trips) o marked
other-Owned id trips none marked e h = h
other-Owned id trips (some t) marked e h =
    (h.0, any-filter (λ (trip : Trip). trip.id == t) _ trips (λ trip k. ground arith) h.1)

orphaned_links :
    (id : ℕ) (trips : List Trip) (links : List KomootLink)
    → All (Marked id trips) links
    → All
        (IsOwned (filter (λ trip. not (trip_is id trip)) trips))
        (update (of_trip id) orphaned links)
unfolding Marked
orphaned_links id trips links h =
    All-update (Marked id trips) _ (of_trip id) orphaned links (λ l e k. k.0 e)
      (λ l e k. other-Owned id trips l.trip_id l.delete_pending e (k.1 e)) h

orphans-Apart :
    (id : ℕ) (l m : KomootLink)
    → Apart l m
    → Apart (if of_trip id l then orphaned l else l) (if of_trip id m then orphaned m else m)
orphans-Apart id l m h = elim (Bool-cases (of_trip id l)) [
  | inl a ↦ elim (Bool-cases (of_trip id m)) [
    | inl b ↦ rw (a, b) (h.0, tt)
    | inr b ↦ rw (a, b) (h.0, tt)
  ]
  | inr a ↦ elim (Bool-cases (of_trip id m)) [
    | inl b ↦ rw (a, b) (h.0, no_trip l.trip_id)
    | inr b ↦ rw (a, b) h
  ]
]
  where
    no_trip : (o : Option ℕ) → OtherTrip o none
    no_trip none = tt
    no_trip (some t) = tt

remove-IsValid :
    (id : ℕ) (db : Archive)
    → Pairwise Apart db.links
    → All (Marked id db.trips) db.links
    → IsValid (record db { links = [] })
    → has_trip id db.trips ≡ true
    → IsValid (remove_trip id db).1
unfolding remove_trip update_links
remove-IsValid id db apart marked v there = rw there (record {
  apart = Pairwise-map Apart _ db.links (orphans-Apart id) apart;
  owned = orphaned_links id db.trips db.links marked;
  numbered = All-filter _ _ db.trips v.numbered;
  distinct = Pairwise-filter _ _ db.trips v.distinct;
})

-- No link is of a trip that is not there.
unlinked :
    (id : ℕ) (trips : List Trip) (o : Option ℕ) (marked : Bool)
    → has_trip id trips ≡ false
    → Owned trips o marked
    → id_is id o ≡ false
unlinked id trips none marked h k = refl
unlinked id trips (some t) marked h k = elim (Bool-cases (t == id)) [
  | inl e ↦
      let same : t ≡ id = (==_iff t id).0 e in
      let there : has_trip id trips ≡ true = rw same at k.1 in
      let bad : true ≡ false = rw there at h in cc
  | inr e ↦ e
]

update-none {ℓ} :
    {A : Type ℓ} (at : A → Bool) (change : A → A) (rows : List A)
    → All (λ row. at row ≡ false) rows
    → update at change rows ≡ rows
update-none at change [] h = refl
update-none at change (row ∷ rows) h = rw (h.0, update-none at change rows h.1) refl

marked-Apart :
    (id : ℕ) (l m : KomootLink)
    → Apart l m
    → Apart
        (if of_trip id l then delete_marked l else l)
        (if of_trip id m then delete_marked m else m)
marked-Apart id l m h = elim (Bool-cases (of_trip id l)) [
  | inl a ↦ elim (Bool-cases (of_trip id m)) [ inl b ↦ rw (a, b) h | inr b ↦ rw (a, b) h ]
  | inr a ↦ elim (Bool-cases (of_trip id m)) [ inl b ↦ rw (a, b) h | inr b ↦ rw (a, b) h ]
]

pub delete_trip-IsValid : (id : ℕ) (db : Archive) → IsValid db → IsValid (delete_trip id db).1
unfolding delete_trip update_links remove_trip
delete_trip-IsValid id db v = elim (Bool-cases (has_trip id db.trips)) [
  | inl there ↦
      remove-IsValid id _ (Pairwise-map Apart _ db.links (marked-Apart id) v.apart)
        (links-Marked id db.trips db.links v.owned)
        (record { apart = tt; owned = tt; numbered = v.numbered; distinct = v.distinct }) there
  | inr gone ↦
      let e : update (of_trip id) delete_marked db.links ≡ db.links =
        update-none _ delete_marked db.links (
          All-weaken (λ l k. unlinked id db.trips l.trip_id l.delete_pending gone k) db.links
            v.owned) in
      rw (gone, e) v
]
