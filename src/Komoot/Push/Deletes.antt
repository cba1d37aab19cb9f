-- ===== src/Komoot/Push/Deletes.antt =====
-- What a push of the pending deletions, src/server/komoot_sync.rs, comes to.
use gps_trips.Prelude.{
  ℕ, ◌≡◌, refl, sym, ap, subst, ◌∙◌, List, [], ◌∷◌, ◌++◌, append-nil, append_assoc, Option, none,
  some, ◌⊎◌, inl, inr,
}
use gps_trips.Komoot.Archive.{Archive, list_delete_pending, delete_link}
use gps_trips.Komoot.World.{World, Action}
use gps_trips.Komoot.World.Keeps.{Ends, Ends-bind, Ends-weaken}
use gps_trips.Komoot.Service.{Service}
use gps_trips.Komoot.Database.{query, write}
use gps_trips.Komoot.Database.Ends.{query-Ends, write-Ends}
use gps_trips.Komoot.Push.{PushDeleteSummary, after_delete, delete_each, push_pending_deletes}

-- The links of these tours are dropped, one after the other.
abbrev pub all_dropped : List (List ℕ) → Archive → Archive
all_dropped [] db = db
all_dropped (tour ∷ tours) db = all_dropped tours (delete_link tour db)

abbrev pub HaltedAt : List (List ℕ) → Option (List ℕ × List ℕ) → Type 0
HaltedAt left none = left ≡ []
HaltedAt [] (some (bad, message)) = ⊥
HaltedAt (tour ∷ left) (some (bad, message)) = bad ≡ tour

pub record Deleted (db : Archive) (before pending : List (List ℕ)) (s : PushDeleteSummary)
    (after : Archive) : Type 0 where
  pub done : List (List ℕ)
  pub left : List (List ℕ)
  pub split : pending ≡ done ++ left
  pub deleted : s.deleted ≡ before ++ done
  pub stopped : HaltedAt left s.failed
  pub dropped : after ≡ all_dropped done db

module _ {ℓ} {R : Type ℓ} (S : Service R) where
  after_delete-Ends :
      (tour : List ℕ) (tours before : List (List ℕ))
      → (rest : List (List ℕ) → Action R PushDeleteSummary)
      → ((all : List (List ℕ)) (v : World R) → Ends (Deleted v.db all tours) (rest all v))
      → (db : Archive) (r : (List ℕ ⊎ Unit {0}) × R)
      → Ends (Deleted db before (tour ∷ tours)) (after_delete S tour before rest db r)
  after_delete-Ends tour tours before rest h db (inl e, after) = record {
    done = [];
    left = tour ∷ tours;
    split = refl;
    deleted = sym (append-nil before);
    stopped = refl;
    dropped = refl;
  }
  after_delete-Ends tour tours before rest h db (inr done, after) =
      let all = before ++ tour ∷ [] in
      let w : World R = record { db = db; rest = after } in
      Ends-bind (λ a after. after ≡ delete_link tour db) _ (write S (delete_link tour))
        (λ a. rest all) w (write-Ends S (delete_link tour) w)
        (λ a v dropped.
          Ends-weaken (Deleted v.db all tours) (Deleted db before (tour ∷ tours)) (rest all v)
            (λ s after p. record {
              done = tour ∷ p.done;
              left = p.left;
              split = ap (λ l. tour ∷ l) p.split;
              deleted = p.deleted ∙ append_assoc before (tour ∷ []) p.done;
              stopped = p.stopped;
              dropped = p.dropped ∙ ap (all_dropped p.done) dropped;
            })
            (h all v))

  delete_each-Deleted :
      (before tours : List (List ℕ)) (w : World R)
      → Ends (Deleted w.db before tours) (delete_each S before tours w)
  unfolding delete_each
  delete_each-Deleted before [] w = record {
    done = [];
    left = [];
    split = refl;
    deleted = sym (append-nil before);
    stopped = refl;
    dropped = refl;
  }
  delete_each-Deleted before (tour ∷ tours) w =
      after_delete-Ends tour tours before (λ all. delete_each S all tours)
        (λ all v. delete_each-Deleted all tours v) w.db (S.delete_tour tour w.rest)

  pub push_pending_deletes-Deleted :
      (w : World R) → Ends (Deleted w.db [] (list_delete_pending w.db)) (push_pending_deletes S w)
  unfolding push_pending_deletes
  push_pending_deletes-Deleted w =
      Ends-bind (λ pending db. (pending ≡ list_delete_pending w.db) × (db ≡ w.db)) _
        (query S list_delete_pending) (delete_each S []) w (query-Ends S list_delete_pending w)
        (λ pending v known.
          subst (λ p. Ends (Deleted w.db [] p) (delete_each S [] pending v)) known.0
            (subst (λ db. Ends (Deleted db [] pending) (delete_each S [] pending v)) known.1
              (delete_each-Deleted [] pending v)))
