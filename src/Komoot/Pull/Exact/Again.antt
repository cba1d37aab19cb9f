-- ===== src/Komoot/Pull/Exact/Again.antt =====
-- That src/server/komoot_sync.rs may be run again after a run: what is linked is passed over.
use gps_trips.Prelude.{
  ℕ, ◌≡◌, refl, sym, ap, ap₂, Option, ◌||◌, if_true, if_false, subst, ◌∙◌, true, List, [], ◌∷◌,
  none, some, inl, inr, map, Bool-cases, All,
}
use gps_trips.Types.Kind.{TripKind}
use gps_trips.Komoot.Archive.{
  Archive, KomootLink, list_linked_tour_ids, refresh_privacy_from_listing,
}
use gps_trips.Komoot.Archive.Refresh.{latest, taken_over, refreshed_by, refresh_privacy-pointwise}
use gps_trips.Types.Privacy.{KomootPrivacy, from_komoot_status}
use gps_trips.Komoot.World.{ok, World}
use gps_trips.Komoot.World.Keeps.{Ends, Ends-bind, Ends-weaken}
use gps_trips.Komoot.Service.{KomootTourSummary, Service}
use gps_trips.Komoot.Database.{query, refresh_privacy, listed_privacy}
use gps_trips.Komoot.Database.Ends.{query-Ends, refresh_privacy-Settles}
use gps_trips.Komoot.Pull.{
  SyncSummary, contains, Tours, tours_by_id, import_each, import_selected_tours,
}
use gps_trips.Komoot.Pull.Exact.Loop.{IsLinked, Done, Report}
use gps_trips.Komoot.Pull.Exact.Run.{Settles-Ends, import_selected_tours-Report}

abbrev pub nothing_new : SyncSummary
nothing_new = record { imported = []; failed = none }

abbrev pub summaries : List (KomootTourSummary × TripKind) → List KomootTourSummary
summaries tours = map (λ (t : KomootTourSummary × TripKind). t.0) tours

-- The archive with the privacy of a listing taken over, link by link.
abbrev pub refreshed_as : List KomootTourSummary → Archive → Archive
refreshed_as tours db = record db {
  links = map (refreshed_by (map (λ t. (t.id, from_komoot_status t.status)) tours)) db.links;
}

taken_over-tour :
    (chosen : Option KomootPrivacy) (link : KomootLink)
    → (taken_over chosen link).komoot_tour_id ≡ link.komoot_tour_id
taken_over-tour none link = refl
taken_over-tour (some chosen) link = refl

refreshed_by-tour :
    (listed : List (List ℕ × KomootPrivacy)) (link : KomootLink)
    → (refreshed_by listed link).komoot_tour_id ≡ link.komoot_tour_id
unfolding refreshed_by
refreshed_by-tour listed link = elim (Bool-cases (link.edit_pending || link.delete_pending)) [
  | inl e ↦ ap (λ (l : KomootLink). l.komoot_tour_id) (if_true _ _ e)
  | inr e ↦
      ap (λ (l : KomootLink). l.komoot_tour_id) (if_false _ _ e)
      ∙ taken_over-tour (latest listed link.komoot_tour_id) link
]

refreshed_as-tours :
    (tours : List KomootTourSummary) (db : Archive)
    → list_linked_tour_ids (refreshed_as tours db) ≡ list_linked_tour_ids db
unfolding list_linked_tour_ids
refreshed_as-tours tours db = go db.links
  where
    go :
        (links : List KomootLink)
        → map
            (λ (l : KomootLink). l.komoot_tour_id)
            (map (refreshed_by (map (λ t. (t.id, from_komoot_status t.status)) tours)) links)
          ≡ map (λ (l : KomootLink). l.komoot_tour_id) links
    go [] = refl
    go (link ∷ links) = ap₂ (λ i is. i ∷ is) (refreshed_by-tour _ link) (go links)

module _ {ℓ} {R : Type ℓ} (S : Service R) (fuel : ℕ) where
  nothing_left :
      (linked : List (List ℕ)) (by_id : Tours) (attempted ids : List (List ℕ)) (w : World R)
      → All (λ id. contains linked id ≡ true) ids
      → import_each S fuel linked by_id attempted [] ids w ≡ (ok nothing_new, w)
  unfolding import_each
  nothing_left linked by_id attempted [] w h = refl
  nothing_left linked by_id attempted (id ∷ ids) w h = elim (Bool-cases (contains attempted id)) [
    | inl again ↦ rw again (nothing_left linked by_id attempted ids w h.1)
    | inr new ↦ rw (new, h.0) (nothing_left linked by_id (id ∷ attempted) ids w h.1)
  ]

  refresh_privacy-Ends :
      (tours : List KomootTourSummary) (w : World R)
      → Ends (λ a db. db ≡ refreshed_as tours w.db) (refresh_privacy S tours w)
  refresh_privacy-Ends tours w =
      Ends-weaken (λ a db. db ≡ refresh_privacy_from_listing (listed_privacy S tours) w.db)
        (λ a db. db ≡ refreshed_as tours w.db) (refresh_privacy S tours w)
        (λ a db e. e ∙ refresh_privacy-pointwise (listed_privacy S tours) w.db)
        (Settles-Ends w.db (λ a db. db ≡ refresh_privacy_from_listing (listed_privacy S tours) w.db)
          (refresh_privacy S tours w) (refresh_privacy-Settles S tours w))

  nothing_new-Ends :
      (tours : List (KomootTourSummary × TripKind)) (ids : List (List ℕ)) (w : World R)
      → All (IsLinked w.db) ids
      → Ends
          (λ s db. (s ≡ nothing_new) × (db ≡ refreshed_as (summaries tours) w.db))
          (import_selected_tours S fuel tours ids w)
  unfolding import_selected_tours
  nothing_new-Ends tours ids w h =
      Ends-bind (λ a db. db ≡ refreshed_as (summaries tours) w.db) _
        (refresh_privacy S (summaries tours)) _ w (refresh_privacy-Ends (summaries tours) w)
        (λ a v fresh.
          Ends-bind (λ linked db. (linked ≡ list_linked_tour_ids v.db) × (db ≡ v.db)) _
            (query S list_linked_tour_ids) _ v (query-Ends S list_linked_tour_ids v)
            (λ linked u known.
              let same : linked ≡ list_linked_tour_ids w.db =
                known.0
                ∙ ap list_linked_tour_ids fresh
                ∙ refreshed_as-tours (summaries tours) w.db in
              let e =
                nothing_left linked (tours_by_id tours []) [] ids u
                  (subst (λ l. All (λ id. contains l id ≡ true) ids) (sym same) h) in
              rw e (refl, known.1 ∙ fresh)))

  -- After a run that has not halted, the same tours may be asked for again, whatever Komoot lists
  -- then: nothing is imported, the trips are those of before, and so are the links, but that those
  -- with nothing pending take over the privacy that is listed for their tours. The condition: the
  -- archive is as the run has left it.
  pub import_selected_tours-again :
      (tours : List (KomootTourSummary × TripKind)) (ids : List (List ℕ)) (w v : World R)
      → (s : SyncSummary) → import_selected_tours S fuel tours ids w ≡ (ok s, v)
      → s.failed ≡ none
      → (listed : List (KomootTourSummary × TripKind)) (u : World R) → u.db ≡ v.db
      → Ends
          (λ t db. (t ≡ nothing_new) × (db ≡ refreshed_as (summaries listed) u.db))
          (import_selected_tours S fuel listed ids u)
  import_selected_tours-again tours ids w v s run ended listed u same =
      let report : Report w.db [] ids s v.db =
        rw run at (import_selected_tours-Report S fuel tours ids w) in
      let linked : Done ids none v.db = subst (λ f. Done ids f v.db) ended report.done in
      nothing_new-Ends listed ids u (subst (λ db. All (IsLinked db) ids) (sym same) linked)
