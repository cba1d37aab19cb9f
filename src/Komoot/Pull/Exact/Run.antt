-- ===== src/Komoot/Pull/Exact/Run.antt =====
-- What a run of `import_selected_tours`, src/server/komoot_sync.rs, comes to, and what the next one
-- finds left to do.
use gps_trips.Prelude.{
  ℕ, ◌≡◌, refl, sym, ap, subst, ◌∙◌, false, List, [], ◌∷◌, ◌++◌, append-nil, append_assoc, Option,
  none, some, inl, inr, map, Bool-cases, any-append_left,
}
use gps_trips.Types.Kind.{TripKind}
use gps_trips.Komoot.Archive.{Archive, list_linked_tour_ids, refresh_privacy_from_listing}
use gps_trips.Komoot.World.{to_string, Outcome, ok, err, unfinished, World, Action}
use gps_trips.Komoot.World.Keeps.{Ends, Ends-bind, Ends-weaken}
use gps_trips.Komoot.Service.{KomootTourSummary, Service}
use gps_trips.Komoot.Database.{query, listed_privacy, refresh_privacy}
use gps_trips.Komoot.Database.Ends.{Settles, query-Ends, refresh_privacy-Settles}
use gps_trips.Komoot.Tour.{sync_one_tour}
use gps_trips.Komoot.Tour.Atomic.{Imported, sync_one_tour-Settles}
use gps_trips.Komoot.Pull.{
  SyncSummary, contains, Tours, tours_by_id, get_tour_by_id, remove_tour, not_listed, after_tour,
  import_found, import_each, import_selected_tours,
}
use gps_trips.Komoot.Pull.Exact.{Adds, Adds-nothing, Adds-trans, Imported-Adds, refresh-Adds}
use gps_trips.Komoot.Pull.Exact.Loop.{
  IsLinked, Report, Round, Keyed, IsLinked-Adds, Done-cons, contains-All, Round-cons,
  Round-imported, left_out_at, found-Keyed, remove-Keyed, by_id-Keyed,
}

pub Settles-Ends {ℓ κ} :
    {R : Type ℓ} {A : Type κ} (db : Archive) (Q : A → Archive → Type 0) (r : Outcome A × World R)
    → Settles db Q r
    → Ends Q r
Settles-Ends db Q (ok a, w) h = h
Settles-Ends db Q (err e, w) h = tt
Settles-Ends db Q (unfinished, w) h = tt

-- A tour that is passed over is linked before and after the rest of the run.
passed :
    (db : Archive) (imported : List (List ℕ × ℕ)) (id : List ℕ) (ids : List (List ℕ))
    → IsLinked db id
    → (s : SyncSummary) (after : Archive) → Report db imported ids s after
    → Report db imported (id ∷ ids) s after
passed db imported id ids h s after r = record {
  new = r.new;
  grown = r.grown;
  adds = r.adds;
  done = Done-cons id ids s.failed after (IsLinked-Adds db after r.new id r.adds h) r.done;
}

-- The run that halts at its first tour.
halted :
    (db : Archive) (imported : List (List ℕ × ℕ)) (id message : List ℕ) (ids : List (List ℕ))
    → contains (list_linked_tour_ids db) id ≡ false
    → Report db imported (id ∷ ids) (record { imported = imported; failed = some (id, message) }) db
halted db imported id message ids h = record {
  new = [];
  grown = sym (append-nil imported);
  adds = Adds-nothing db;
  done = record { before = []; behind = ids; split = refl; done = tt; left_out = h };
}

-- The rest of the run behind a tour that was imported.
went_on :
    (db mid after : Archive) (imported : List (List ℕ × ℕ)) (id : List ℕ) (trip : ℕ)
    → (ids : List (List ℕ)) (s : SyncSummary) → Adds db ((id, trip) ∷ []) mid
    → IsLinked mid id
    → Report mid (imported ++ (id, trip) ∷ []) ids s after
    → Report db imported (id ∷ ids) s after
went_on db mid after imported id trip ids s h k r = record {
  new = (id, trip) ∷ r.new;
  grown = r.grown ∙ append_assoc imported ((id, trip) ∷ []) r.new;
  adds = Adds-trans db mid after ((id, trip) ∷ []) r.new h r.adds;
  done = Done-cons id ids s.failed after (IsLinked-Adds mid after r.new id r.adds k) r.done;
}

module _ {ℓ} {R : Type ℓ} (S : Service R) (fuel : ℕ) where
  -- One round: the tour is found, and its import is a success or not.
  found-Ends :
      (linked attempted : List (List ℕ)) (imported : List (List ℕ × ℕ)) (id : List ℕ)
      → (ids : List (List ℕ)) (rest : List (List ℕ × ℕ) → Action R SyncSummary) → (db : Archive)
      → Round linked attempted imported db
      → contains (list_linked_tour_ids db) id ≡ false
      → ((trip : ℕ) (v : World R)
          → Round linked (id ∷ attempted) (imported ++ (id, trip) ∷ []) v.db
          → Ends
              (Report v.db (imported ++ (id, trip) ∷ []) ids)
              (rest (imported ++ (id, trip) ∷ []) v))
      → (tour : KomootTourSummary) (kind : TripKind) → tour.id ≡ id
      → (r : Outcome ℕ × World R) → Settles db (Imported tour kind db) r
      → Ends (Report db imported (id ∷ ids)) (after_tour id imported rest r)
  found-Ends linked attempted imported id ids rest db round missing k tour kind e (ok trip, v) h =
      let adds : Adds db ((id, trip) ∷ []) v.db =
        subst (λ i. Adds db ((i, trip) ∷ []) v.db) e (Imported-Adds tour kind db trip v.db h) in
      let next = Round-imported linked attempted imported db v.db id trip round adds in
      Ends-weaken _ _ _ (λ s after. went_on db v.db after imported id trip ids s adds next.tried.0)
        (k trip v next)
  found-Ends linked attempted imported id ids rest db round missing k tour kind e (err x, v) h =
      subst
        (λ after.
          Report db imported (id ∷ ids)
            (record { imported = imported; failed = some (id, to_string x) }) after)
        (sym h) (halted db imported id (to_string x) ids missing)
  found-Ends linked attempted imported id ids rest db round missing k tour kind e (unfinished, v)
        h =
      tt

  searched :
      (linked attempted : List (List ℕ)) (imported : List (List ℕ × ℕ)) (id : List ℕ)
      → (ids : List (List ℕ)) (by_id : Tours) (rest : List (List ℕ × ℕ) → Action R SyncSummary)
      → (w : World R) → Keyed by_id
      → Round linked attempted imported w.db
      → contains (list_linked_tour_ids w.db) id ≡ false
      → ((trip : ℕ) (v : World R)
          → Round linked (id ∷ attempted) (imported ++ (id, trip) ∷ []) v.db
          → Ends
              (Report v.db (imported ++ (id, trip) ∷ []) ids)
              (rest (imported ++ (id, trip) ∷ []) v))
      → (found : Option (KomootTourSummary × TripKind)) → get_tour_by_id id by_id ≡ found
      → Ends (Report w.db imported (id ∷ ids)) (import_found S fuel id imported rest found w)
  unfolding import_found
  searched linked attempted imported id ids by_id rest w keyed round out k none e =
      halted w.db imported id not_listed ids out
  searched linked attempted imported id ids by_id rest w keyed round out k (some (tour, kind)) e =
      found-Ends linked attempted imported id ids rest w.db round out k tour kind
        (found-Keyed by_id id (tour, kind) keyed e) (sync_one_tour S fuel tour kind w)
        (sync_one_tour-Settles S fuel tour kind w)

  import_each-Report :
      (linked : List (List ℕ)) (by_id : Tours) (attempted : List (List ℕ))
      → (imported : List (List ℕ × ℕ)) (ids : List (List ℕ)) (w : World R) → Keyed by_id
      → Round linked attempted imported w.db
      → Ends (Report w.db imported ids) (import_each S fuel linked by_id attempted imported ids w)
  unfolding import_each
  import_each-Report linked by_id attempted imported [] w keyed round = record {
    new = [];
    grown = sym (append-nil imported);
    adds = Adds-nothing w.db;
    done = tt;
  }
  import_each-Report linked by_id attempted imported (id ∷ ids) w keyed round =
      elim (Bool-cases (contains attempted id)) [
        | inl again ↦ rw again (
            Ends-weaken _ _ _
              (passed w.db imported id ids
                (contains-All (IsLinked w.db) attempted id again round.tried))
              (import_each-Report linked by_id attempted imported ids w keyed round))
        | inr new ↦ elim (Bool-cases (contains linked id)) [
          | inl there ↦
              let known : IsLinked w.db id = rw round.tours (any-append_left _ linked _ there) in
              rw (new, there)
                (Ends-weaken _ _ _ (passed w.db imported id ids known) (
                  import_each-Report linked by_id (id ∷ attempted) imported ids w keyed
                    (Round-cons linked attempted imported w.db id round known)))
          | inr missing ↦
              rw (new, missing)
                (searched linked attempted imported id ids by_id
                  (λ all. import_each S fuel linked (remove_tour id by_id) (id ∷ attempted) all ids)
                  w keyed round (left_out_at linked attempted imported w.db id round new missing)
                  (λ trip v next.
                    import_each-Report linked (remove_tour id by_id) (id ∷ attempted)
                      (imported ++ (id, trip) ∷ []) ids v (remove-Keyed by_id id keyed) next)
                  (get_tour_by_id id by_id) refl)
        ]
      ]

  refreshed-Adds :
      (tours : List KomootTourSummary) (w : World R)
      → Ends (λ a db. Adds w.db [] db) (refresh_privacy S tours w)
  refreshed-Adds tours w =
      Ends-weaken (λ a db. db ≡ refresh_privacy_from_listing (listed_privacy S tours) w.db)
        (λ a db. Adds w.db [] db) (refresh_privacy S tours w)
        (λ a db e. subst (Adds w.db []) (sym e) (refresh-Adds (listed_privacy S tours) w.db))
        (Settles-Ends w.db (λ a db. db ≡ refresh_privacy_from_listing (listed_privacy S tours) w.db)
          (refresh_privacy S tours w) (refresh_privacy-Settles S tours w))

  -- What a run that ends has imported is what it has added: behind the links and the trips from
  -- before stand those of the tours that it reports, and no others. Every tour that it was asked
  -- for is linked, or, if it halted, those before the tour that it names, which is not.
  pub import_selected_tours-Report :
      (tours : List (KomootTourSummary × TripKind)) (ids : List (List ℕ)) (w : World R)
      → Ends (Report w.db [] ids) (import_selected_tours S fuel tours ids w)
  unfolding import_selected_tours
  import_selected_tours-Report tours ids w =
      let listed = map (λ (t : KomootTourSummary × TripKind). t.0) tours in
      Ends-bind (λ a db. Adds w.db [] db) _ (refresh_privacy S listed) _ w (refreshed-Adds listed w)
        (λ a v adds.
          Ends-bind (λ linked db. (linked ≡ list_linked_tour_ids v.db) × (db ≡ v.db)) _
            (query S list_linked_tour_ids) _ v (query-Ends S list_linked_tour_ids v)
            (λ linked u known.
              let start : Round linked [] [] u.db = record {
                tours = ap list_linked_tour_ids known.1 ∙ sym known.0 ∙ sym (append-nil linked);
                tried = tt;
                counted = tt;
              } in
              let before : Adds w.db [] u.db = subst (Adds w.db []) (sym known.1) adds in
              Ends-weaken (Report u.db [] ids) (Report w.db [] ids)
                (import_each S fuel linked (tours_by_id tours []) [] [] ids u)
                (λ s after r. record {
                  new = r.new;
                  grown = r.grown;
                  adds = Adds-trans w.db u.db after [] r.new before r.adds;
                  done = r.done;
                })
                (import_each-Report linked (tours_by_id tours []) [] [] ids u
                  (by_id-Keyed tours [] tt) start)))
