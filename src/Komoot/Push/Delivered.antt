-- ===== src/Komoot/Push/Delivered.antt =====
-- What Komoot has accepted after a push of the pending edits, src/server/komoot_sync.rs.
pub mod Run
use gps_trips.Prelude.{
  ℕ, ◌≡◌, refl, sym, ap, subst, ◌∙◌, List, [], ◌∷◌, ◌++◌, append-nil, append_assoc, Option, none,
  some, ◌⊎◌, inl, inr, map,
}
use gps_trips.Types.Kind.{TripKind}
use gps_trips.Komoot.Archive.{Archive, EditPending, list_edit_pending, clear_edit_pending}
use gps_trips.Komoot.Sport.{sport_for}
use gps_trips.Komoot.World.{
  database, komoot, AppError, Outcome, ok, err, unfinished, World, Action, Call, and_then, called,
  call,
}
use gps_trips.Komoot.Service.{KomootTourSummary, TourUpdate, Service, of_komoot, of_driver}
use gps_trips.Komoot.Database.{query, write}
use gps_trips.Komoot.Push.{
  PushSummary, outgoing_status, outgoing_sport, push_one_edit, after_edit, push_each,
  push_pending_edits,
}
use gps_trips.Komoot.Push.Edits.{all_cleared, pushed_pairs, Stopped}

abbrev pub Accepted : Type 0
Accepted = List (List ℕ × TourUpdate)

-- An answer without an error accepts an update, and an error does not.
abbrev pub Answers {ℓ} :
    {R : Type ℓ}
    → (R → Accepted)
    → Accepted
    → List ℕ × TourUpdate
    → (List ℕ ⊎ Unit {0}) × R
    → Type 0
Answers accepted before update (inl e, after) = accepted after ≡ before
Answers accepted before update (inr done, after) = accepted after ≡ before ++ update ∷ []

-- The updates of tours that Komoot has answered without an error, in their order. Neither the
-- database nor a look at a tour adds one.
pub record Journal {ℓ} {R : Type ℓ} (S : Service R) : Type ℓ where
  pub accepted : R → Accepted
  pub executes : (r : R) → accepted (S.execute r).1 ≡ accepted r
  pub looks : (tour : List ℕ) (r : R) → accepted (S.get_tour tour r).1 ≡ accepted r
  pub updates :
      (tour : List ℕ) (update : TourUpdate) (r : R)
      → Answers accepted (accepted r) (tour, update) (S.update_tour tour update r)

-- The sport of a recorded trip's tour is that which its activity has next to the tour's own; that
-- of a planned one is left alone.
pub data SportOf (edit : EditPending) : Option (List ℕ) → Type 0 where
  left_alone : edit.trip_kind ≡ TripKind.planned → SportOf edit none
  chosen :
      (live : List ℕ)
      → edit.trip_kind ≡ TripKind.recorded
      → SportOf edit (some (sport_for edit.activity_type live))

abbrev pub update_of : EditPending → Option (List ℕ) → List ℕ × TourUpdate
update_of edit sport = (
  edit.komoot_tour_id,
  record { name = edit.name; sport = sport; status = outgoing_status edit.privacy },
)

-- One update for each edit, in their order.
pub data Updates : List EditPending → Accepted → Type 0 where
  no_update : Updates [] []
  one_update :
      {edits : List EditPending} {updates : Accepted} (edit : EditPending) (sport : Option (List ℕ))
      → SportOf edit sport
      → Updates edits updates
      → Updates (edit ∷ edits) (update_of edit sport ∷ updates)

module _ {ℓ} {R : Type ℓ} (S : Service R) (J : Journal S) where
  pub record Delivered (w : World R) (before : List (List ℕ × ℕ)) (pending : List EditPending)
      (s : PushSummary) (v : World R) : Type 0 where
    pub done : List EditPending
    pub left : List EditPending
    pub updates : Accepted
    pub split : pending ≡ done ++ left
    pub pushed : s.pushed ≡ before ++ pushed_pairs done
    pub stopped : Stopped left s.failed
    pub cleared : v.db ≡ all_cleared done w.db
    pub sent : Updates done updates
    pub answered : J.accepted v.rest ≡ J.accepted w.rest ++ updates

  -- If a call succeeds, so it ends.
  abbrev pub Finishes {κ} : {A : Type κ} → (A → World R → Type 0) → Outcome A × World R → Type 0
  Finishes Q (ok a, v) = Q a v
  Finishes Q (err e, v) = Unit {0}
  Finishes Q (unfinished, v) = Unit {0}
