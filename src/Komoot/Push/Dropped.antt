-- ===== src/Komoot/Push/Dropped.antt =====
-- Which links are left after a push of the deletions, src/server/komoot_sync.rs, that does not halt.
use gps_trips.Prelude.{
  ℕ, ◌≡◌, ◌≢◌, refl, sym, ap, subst, ◌∙◌, Bool, false, not, List, [], ◌∷◌, ◌++◌, append-nil, none,
  inl, inr, map, Bool-cases, any, filter, All, All-weaken, Pairwise, text_eq→eq, text_eq_refl,
  if_false, if_true,
}
use gps_trips.Komoot.Archive.{Archive, KomootLink, of_tour, list_delete_pending, delete_link}
use gps_trips.Komoot.Archive.Valid.{IsValid, Apart}
use gps_trips.Komoot.World.{ok, World}
use gps_trips.Komoot.Service.{Service}
use gps_trips.Komoot.Push.{PushDeleteSummary, push_pending_deletes}
use gps_trips.Komoot.Push.Deletes.{all_dropped, HaltedAt, Deleted, push_pending_deletes-Deleted}

abbrev named : List (List ℕ) → KomootLink → Bool
named tours link = any (λ tour. of_tour tour link) tours

abbrev pending_tours : List KomootLink → List (List ℕ)
pending_tours links =
    map (λ (l : KomootLink). l.komoot_tour_id) (filter (λ (l : KomootLink). l.delete_pending) links)

filter_ext {ℓ} :
    {A : Type ℓ} (p q : A → Bool) (xs : List A)
    → All (λ x. p x ≡ q x) xs
    → filter p xs ≡ filter q xs
filter_ext p q [] h = refl
filter_ext p q (x ∷ xs) h = elim (Bool-cases (q x)) [
  | inl e ↦ rw (h.0, e) (ap (λ l. x ∷ l) (filter_ext p q xs h.1))
  | inr e ↦ rw (h.0, e) (filter_ext p q xs h.1)
]

filter-named :
    (tour : List ℕ) (tours : List (List ℕ)) (links : List KomootLink)
    → filter (λ l. not (named tours l)) (filter (λ l. not (of_tour tour l)) links)
      ≡ filter (λ l. not (named (tour ∷ tours) l)) links
filter-named tour tours [] = refl
filter-named tour tours (l ∷ links) = elim (Bool-cases (of_tour tour l)) [
  | inl e ↦ rw e (filter-named tour tours links)
  | inr e ↦ elim (Bool-cases (named tours l)) [
    | inl d ↦ rw (e, d) (filter-named tour tours links)
    | inr d ↦ rw (e, d) (ap (λ ls. l ∷ ls) (filter-named tour tours links))
  ]
]

dropped_links :
    (tours : List (List ℕ)) (db : Archive)
    → (all_dropped tours db).links ≡ filter (λ l. not (named tours l)) db.links
unfolding delete_link
dropped_links [] db = all db.links
  where
    all : (links : List KomootLink) → links ≡ filter (λ l. not (named [] l)) links
    all [] = refl
    all (l ∷ links) = ap (λ ls. l ∷ ls) (all links)
dropped_links (tour ∷ tours) db =
    dropped_links tours (delete_link tour db) ∙ filter-named tour tours db.links

not_of_tour : (tour : List ℕ) (l : KomootLink) → l.komoot_tour_id ≢ tour → of_tour tour l ≡ false
not_of_tour tour l h = elim (Bool-cases (of_tour tour l)) [
  | inl e ↦ absurd (h (text_eq→eq l.komoot_tour_id tour e))
  | inr e ↦ e
]

-- A link of another tour than those of the list is not named by their pending ones.
unnamed :
    (l : KomootLink) (links : List KomootLink)
    → All (λ m. Apart l m) links
    → named (pending_tours links) l ≡ false
unnamed l [] h = refl
unnamed l (m ∷ links) h = elim (Bool-cases m.delete_pending) [
  | inl e ↦
      ap (λ ms. named (map (λ (x : KomootLink). x.komoot_tour_id) ms) l) (if_true _ _ e)
      ∙ if_false _ _ (not_of_tour m.komoot_tour_id l h.0.0)
      ∙ unnamed l links h.1
  | inr e ↦
      ap (λ ms. named (map (λ (x : KomootLink). x.komoot_tour_id) ms) l) (if_false _ _ e)
      ∙ unnamed l links h.1
]

others :
    (l : KomootLink) (ms : List KomootLink) (pending : List (List ℕ))
    → All (λ m. Apart l m) ms
    → All (λ m. named pending m ≡ m.delete_pending) ms
    → All (λ m. named (l.komoot_tour_id ∷ pending) m ≡ m.delete_pending) ms
others l [] pending h k = tt
others l (m ∷ ms) pending h k = (
  if_false _ _ (not_of_tour l.komoot_tour_id m (λ e. h.0.0 (sym e))) ∙ k.0,
  others l ms pending h.1 k.1,
)

-- The pending tours name the links that are to be deleted, and no others.
named_iff :
    (links : List KomootLink)
    → Pairwise Apart links
    → All (λ m. named (pending_tours links) m ≡ m.delete_pending) links
named_iff [] h = tt
named_iff (l ∷ links) h = elim (Bool-cases l.delete_pending) [
  | inl e ↦
      let more : pending_tours (l ∷ links) ≡ l.komoot_tour_id ∷ pending_tours links =
        ap (λ ms. map (λ (x : KomootLink). x.komoot_tour_id) ms) (if_true _ _ e) in
      subst (λ p. All (λ m. named p m ≡ m.delete_pending) (l ∷ links)) (sym more)
        (
          if_true _ _ (text_eq_refl l.komoot_tour_id) ∙ sym e,
          others l links _ h.0 (named_iff links h.1),
        )
  | inr e ↦
      let same : pending_tours (l ∷ links) ≡ pending_tours links =
        ap (λ ms. map (λ (x : KomootLink). x.komoot_tour_id) ms) (if_false _ _ e) in
      subst (λ p. All (λ m. named p m ≡ m.delete_pending) (l ∷ links)) (sym same)
        (unnamed l links h.0 ∙ sym e, named_iff links h.1)
]

-- After a push of the deletions that has not halted, the links are those from before that were not
-- to be deleted. The condition: the archive's tables have their invariant.
pub push_pending_deletes-settles {ℓ} :
    {R : Type ℓ} (S : Service R) (w v : World R) (s : PushDeleteSummary)
    → IsValid w.db
    → push_pending_deletes S w ≡ (ok s, v)
    → s.failed ≡ none
    → v.db.links ≡ filter (λ (l : KomootLink). not l.delete_pending) w.db.links
unfolding list_delete_pending
push_pending_deletes-settles S w v s valid run ended =
    let p : Deleted w.db [] (list_delete_pending w.db) s v.db =
      rw run at (push_pending_deletes-Deleted S w) in
    let left : p.left ≡ [] = subst (HaltedAt p.left) ended p.stopped in
    let all : list_delete_pending w.db ≡ p.done =
      p.split ∙ ap (λ l. p.done ++ l) left ∙ append-nil p.done in
    let none_other = All-weaken (λ l h. ap not h) w.db.links (named_iff w.db.links valid.apart) in
    ap (λ (db : Archive). db.links) p.dropped
    ∙ dropped_links p.done w.db
    ∙ ap (λ d. filter (λ l. not (named d l)) w.db.links) (sym all)
    ∙ filter_ext _ _ w.db.links none_other
