-- ===== src/Komoot/Push/Edits.antt =====
-- What a push of the pending edits, src/server/komoot_sync.rs, comes to.
use gps_trips.Prelude.{
  ℕ, ◌≡◌, refl, sym, ap, subst, ◌∙◌, List, [], ◌∷◌, ◌++◌, append-nil, append_assoc, Option, none,
  some, map,
}
use gps_trips.Types.Kind.{TripKind}
use gps_trips.Komoot.Archive.{Archive, EditPending, list_edit_pending, clear_edit_pending}
use gps_trips.Komoot.World.{komoot, Outcome, ok, err, unfinished, World, Action}
use gps_trips.Komoot.World.Keeps.{Keeps, Keeps-bind, Ends, Ends-bind, Ends-weaken, call-db}
use gps_trips.Komoot.Service.{Service, of_komoot}
use gps_trips.Komoot.Database.{query, write}
use gps_trips.Komoot.Database.Ends.{Same, Same-trans, query-Ends, write-Ends}
use gps_trips.Komoot.Push.{
  PushSummary, outgoing_sport, push_one_edit, after_edit, push_each, push_pending_edits,
}

-- The flags of these edits' trips are cleared, one after the other.
abbrev pub all_cleared : List EditPending → Archive → Archive
all_cleared [] db = db
all_cleared (edit ∷ edits) db = all_cleared edits (clear_edit_pending edit.trip_id db)

abbrev pub pushed_pairs : List EditPending → List (List ℕ × ℕ)
pushed_pairs edits = map (λ (e : EditPending). (e.komoot_tour_id, e.trip_id)) edits

-- A run stops at the end of what is pending, or at the edit that it names.
abbrev pub Stopped : List EditPending → Option (List ℕ × List ℕ) → Type 0
Stopped left none = left ≡ []
Stopped [] (some (tour, message)) = ⊥
Stopped (edit ∷ left) (some (tour, message)) = tour ≡ edit.komoot_tour_id

pub record Pushed (db : Archive) (before : List (List ℕ × ℕ)) (pending : List EditPending)
    (s : PushSummary) (after : Archive) : Type 0 where
  pub done : List EditPending
  pub left : List EditPending
  pub split : pending ≡ done ++ left
  pub pushed : s.pushed ≡ before ++ pushed_pairs done
  pub stopped : Stopped left s.failed
  pub cleared : after ≡ all_cleared done db

module _ {ℓ} {R : Type ℓ} (S : Service R) where
  push_one_edit-Same : (edit : EditPending) → Keeps Same (push_one_edit S edit)
  unfolding push_one_edit outgoing_sport
  push_one_edit-Same edit =
      Keeps-bind Same Same-trans (outgoing_sport S edit.trip_kind edit) _ (sport edit.trip_kind)
        (λ s. call-db komoot _)
    where
      sport : (kind : TripKind) → Keeps Same (outgoing_sport S kind edit)
      sport TripKind.planned w = refl
      sport TripKind.recorded w =
          Keeps-bind Same Same-trans (of_komoot (S.get_tour edit.komoot_tour_id)) _
            (call-db komoot _) (λ live v. refl) w

  after_edit-Ends :
      (edit : EditPending) (edits : List EditPending) (before : List (List ℕ × ℕ))
      → (rest : List (List ℕ × ℕ) → Action R PushSummary)
      → ((all : List (List ℕ × ℕ)) (v : World R) → Ends (Pushed v.db all edits) (rest all v))
      → (db : Archive) (r : Outcome (Unit {0}) × World R) → r.1.db ≡ db
      → Ends (Pushed db before (edit ∷ edits)) (after_edit S edit before rest r)
  after_edit-Ends edit edits before rest h db (ok done, w) same =
      let all = before ++ (edit.komoot_tour_id, edit.trip_id) ∷ [] in
      Ends-bind (λ a after. after ≡ clear_edit_pending edit.trip_id w.db) _
        (write S (clear_edit_pending edit.trip_id)) (λ a. rest all) w
        (write-Ends S (clear_edit_pending edit.trip_id) w)
        (λ a v cleared.
          Ends-weaken (Pushed v.db all edits) (Pushed db before (edit ∷ edits)) (rest all v)
            (λ s after p. record {
              done = edit ∷ p.done;
              left = p.left;
              split = ap (λ l. edit ∷ l) p.split;
              pushed = p.pushed ∙ append_assoc before _ (pushed_pairs p.done);
              stopped = p.stopped;
              cleared =
                  p.cleared
                  ∙ ap (all_cleared p.done) (cleared ∙ ap (clear_edit_pending edit.trip_id) same);
            })
            (h all v))
  after_edit-Ends edit edits before rest h db (err e, w) same = record {
    done = [];
    left = edit ∷ edits;
    split = refl;
    pushed = sym (append-nil before);
    stopped = refl;
    cleared = same;
  }
  after_edit-Ends edit edits before rest h db (unfinished, w) same = tt

  push_each-Pushed :
      (before : List (List ℕ × ℕ)) (edits : List EditPending) (w : World R)
      → Ends (Pushed w.db before edits) (push_each S before edits w)
  unfolding push_each
  push_each-Pushed before [] w = record {
    done = [];
    left = [];
    split = refl;
    pushed = sym (append-nil before);
    stopped = refl;
    cleared = refl;
  }
  push_each-Pushed before (edit ∷ edits) w =
      after_edit-Ends edit edits before (λ all. push_each S all edits)
        (λ all v. push_each-Pushed all edits v) w.db (push_one_edit S edit w)
        (push_one_edit-Same edit w)

  -- A push that ends reports the first so many of the pending edits, in their order, and has
  -- cleared their flags and no others; it stopped at the end, or at the edit that it names.
  pub push_pending_edits-Pushed :
      (w : World R) → Ends (Pushed w.db [] (list_edit_pending w.db)) (push_pending_edits S w)
  unfolding push_pending_edits
  push_pending_edits-Pushed w =
      Ends-bind (λ pending db. (pending ≡ list_edit_pending w.db) × (db ≡ w.db)) _
        (query S list_edit_pending) (push_each S []) w (query-Ends S list_edit_pending w)
        (λ pending v known.
          subst (λ p. Ends (Pushed w.db [] p) (push_each S [] pending v)) known.0
            (subst (λ db. Ends (Pushed db [] pending) (push_each S [] pending v)) known.1
              (push_each-Pushed [] pending v)))
