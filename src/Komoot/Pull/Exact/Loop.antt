-- ===== src/Komoot/Pull/Exact/Loop.antt =====
-- What the loop of `import_selected_tours`, src/server/komoot_sync.rs, comes to.
use gps_trips.Prelude.{
  ℕ, ◌≡◌, refl, sym, ap, subst, ◌∙◌, true, false, List, [], ◌∷◌, ◌++◌, append_assoc, Option, none,
  some, inl, inr, map, Bool-cases, any-append_left, any-append_right, All, All-weaken,
  some-injective, text_eq, text_eq→eq, text_eq_refl, All-filter, All-snoc,
}
use gps_trips.Types.Kind.{TripKind}
use gps_trips.Komoot.Archive.{Archive, list_linked_tour_ids}
use gps_trips.Komoot.Service.{KomootTourSummary}
use gps_trips.Komoot.Pull.{SyncSummary, contains, Tours, tours_by_id, get_tour_by_id, remove_tour}
use gps_trips.Komoot.Pull.Exact.{Adds, map-append}

abbrev pub IsLinked : Archive → List ℕ → Type 0
IsLinked db id = contains (list_linked_tour_ids db) id ≡ true

-- A run that halted at a tour: those before it are linked, and it is not.
pub record Halted (ids : List (List ℕ)) (bad : List ℕ) (db : Archive) : Type 0 where
  pub before : List (List ℕ)
  pub behind : List (List ℕ)
  pub split : ids ≡ before ++ bad ∷ behind
  pub done : All (IsLinked db) before
  pub left_out : contains (list_linked_tour_ids db) bad ≡ false

abbrev pub Done : List (List ℕ) → Option (List ℕ × List ℕ) → Archive → Type 0
Done ids none db = All (IsLinked db) ids
Done ids (some (bad, message)) db = Halted ids bad db

pub record Report (db : Archive) (imported : List (List ℕ × ℕ)) (ids : List (List ℕ))
    (s : SyncSummary) (after : Archive) : Type 0 where
  pub new : List (List ℕ × ℕ)
  pub grown : s.imported ≡ imported ++ new
  pub adds : Adds db new after
  pub done : Done ids s.failed after

-- What holds at each round of the loop.
pub record Round (linked attempted : List (List ℕ)) (imported : List (List ℕ × ℕ)) (db : Archive)
    : Type 0 where
  pub tours : list_linked_tour_ids db ≡ linked ++ map (λ (p : List ℕ × ℕ). p.0) imported
  pub tried : All (IsLinked db) attempted
  pub counted : All (λ p. contains attempted p.0 ≡ true) imported

abbrev pub Keyed : Tours → Type 0
Keyed tours = All (λ e. e.1.0.id ≡ e.0) tours

pub IsLinked-Adds :
    (a b : Archive) (ps : List (List ℕ × ℕ)) (id : List ℕ)
    → Adds a ps b
    → IsLinked a id
    → IsLinked b id
IsLinked-Adds a b ps id h k = rw h.tours (any-append_left (text_eq id) _ _ k)

pub Done-cons :
    (id : List ℕ) (ids : List (List ℕ)) (failed : Option (List ℕ × List ℕ)) (db : Archive)
    → IsLinked db id
    → Done ids failed db
    → Done (id ∷ ids) failed db
Done-cons id ids none db h k = (h, k)
Done-cons id ids (some (bad, message)) db h k = record {
  before = id ∷ k.before;
  behind = k.behind;
  split = ap (λ l. id ∷ l) k.split;
  done = (h, k.done);
  left_out = k.left_out;
}

pub contains-All {κ} :
    (P : List ℕ → Type κ) (ids : List (List ℕ)) (id : List ℕ)
    → contains ids id ≡ true
    → All P ids
    → P id
contains-All P [] id h k = cc
contains-All P (x ∷ ids) id h k = elim (Bool-cases (text_eq id x)) [
  | inl e ↦ subst P (sym (text_eq→eq id x e)) k.0
  | inr e ↦ contains-All P ids id (rw e at h) k.1
]

contains-cons :
    (x id : List ℕ) (ids : List (List ℕ)) → contains ids id ≡ true → contains (x ∷ ids) id ≡ true
contains-cons x id ids h = elim (Bool-cases (text_eq id x)) [ inl e ↦ rw e refl | inr e ↦ rw e h ]

contains_self : (id : List ℕ) (ids : List (List ℕ)) → contains (id ∷ ids) id ≡ true
contains_self id ids = rw (text_eq_refl id) refl

contains-append_false :
    (xs ys : List (List ℕ)) (id : List ℕ)
    → contains xs id ≡ false
    → contains ys id ≡ false
    → contains (xs ++ ys) id ≡ false
contains-append_false [] ys id h k = k
contains-append_false (x ∷ xs) ys id h k = elim (Bool-cases (text_eq id x)) [
  | inl e ↦ let bad : true ≡ false = rw e at h in cc
  | inr e ↦ rw e (contains-append_false xs ys id (rw e at h) k)
]

-- A tour that the loop has not come to was not imported by it.
uncounted :
    (attempted : List (List ℕ)) (imported : List (List ℕ × ℕ)) (id : List ℕ)
    → contains attempted id ≡ false
    → All (λ p. contains attempted p.0 ≡ true) imported
    → contains (map (λ (p : List ℕ × ℕ). p.0) imported) id ≡ false
uncounted attempted [] id h k = refl
uncounted attempted (p ∷ imported) id h k = elim (Bool-cases (text_eq id p.0)) [
  | inl e ↦
      let there : contains attempted id ≡ true = rw (text_eq→eq id p.0 e) k.0 in
      let bad : true ≡ false = rw there at h in cc
  | inr e ↦ rw e (uncounted attempted imported id h k.1)
]

-- A tour that is known to be linked is passed over.
pub Round-cons :
    (linked attempted : List (List ℕ)) (imported : List (List ℕ × ℕ)) (db : Archive) (id : List ℕ)
    → Round linked attempted imported db
    → IsLinked db id
    → Round linked (id ∷ attempted) imported db
Round-cons linked attempted imported db id r h = record {
  tours = r.tours;
  tried = (h, r.tried);
  counted = All-weaken (λ p k. contains-cons id p.0 attempted k) imported r.counted;
}

pub Round-imported :
    (linked attempted : List (List ℕ)) (imported : List (List ℕ × ℕ)) (db after : Archive)
    → (id : List ℕ) (trip : ℕ) → Round linked attempted imported db
    → Adds db ((id, trip) ∷ []) after
    → Round linked (id ∷ attempted) (imported ++ (id, trip) ∷ []) after
Round-imported linked attempted imported db after id trip r h = record {
  tours =
      h.tours
      ∙ ap (λ l. l ++ id ∷ []) r.tours
      ∙ append_assoc linked _ (id ∷ [])
      ∙ ap (λ l. linked ++ l) (sym (map-append _ imported ((id, trip) ∷ [])));
  tried = (
    rw h.tours (any-append_right _ (list_linked_tour_ids db) (id ∷ []) (contains_self id [])),
    All-weaken (λ x k. IsLinked-Adds db after _ x h k) attempted r.tried,
  );
  counted =
      All-snoc _ imported _
        (All-weaken (λ p k. contains-cons id p.0 attempted k) imported r.counted)
        (contains_self id attempted);
}

pub left_out_at :
    (linked attempted : List (List ℕ)) (imported : List (List ℕ × ℕ)) (db : Archive) (id : List ℕ)
    → Round linked attempted imported db
    → contains attempted id ≡ false
    → contains linked id ≡ false
    → contains (list_linked_tour_ids db) id ≡ false
left_out_at linked attempted imported db id r h k =
    rw r.tours (contains-append_false linked _ id k (uncounted attempted imported id h r.counted))

pub found-Keyed :
    (tours : Tours) (id : List ℕ) (found : KomootTourSummary × TripKind)
    → Keyed tours
    → get_tour_by_id id tours ≡ some found
    → found.0.id ≡ id
unfolding get_tour_by_id
found-Keyed [] id found h k = cc
found-Keyed (e ∷ tours) id found h k = elim (Bool-cases (text_eq e.0 id)) [
  | inl here ↦
      let same : e.1 ≡ found = some-injective e.1 found (rw here at k) in
      ap (λ (t : KomootTourSummary × TripKind). t.0.id) (sym same) ∙ h.0 ∙ text_eq→eq e.0 id here
  | inr there ↦ found-Keyed tours id found h.1 (rw there at k)
]

pub remove-Keyed : (tours : Tours) (id : List ℕ) → Keyed tours → Keyed (remove_tour id tours)
unfolding remove_tour
remove-Keyed tours id h = All-filter _ _ tours h

pub by_id-Keyed :
    (tours : List (KomootTourSummary × TripKind)) (found : Tours)
    → Keyed found
    → Keyed (tours_by_id tours found)
unfolding tours_by_id
by_id-Keyed [] found h = h
by_id-Keyed (tour ∷ tours) found h = by_id-Keyed tours _ (refl, h)
