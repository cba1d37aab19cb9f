-- ===== src/Komoot/Push/Left.antt =====
-- Which flags a push of the edits, src/server/komoot_sync.rs, that does not halt has cleared.
use gps_trips.Prelude.{
  ◌≡◌, refl, sym, ap, subst, ap₂, ◌∙◌, Bool, true, false, List, [], ◌∷◌, ◌++◌, append-nil, none,
  inl, inr, map, Bool-cases, any, any-append_left, any-append_right, any-append_inv, All,
  All-weaken, ◌⊎◌, if◌then◌else◌, if_true, if_false,
}
use gps_trips.Komoot.Archive.{
  Archive, Trip, KomootLink, EditPending, id_is, of_trip, update_links, edit_cleared, joined,
  edits_of, list_edit_pending, clear_edit_pending,
}
use gps_trips.Komoot.World.{ok, World}
use gps_trips.Komoot.Service.{Service}
use gps_trips.Komoot.Push.{PushSummary, push_pending_edits}
use gps_trips.Komoot.Push.Edits.{all_cleared, Stopped, Pushed, push_pending_edits-Pushed}

-- Whether the link's trip is there.
abbrev pub is_of_any : List Trip → KomootLink → Bool
is_of_any trips link = any (λ (t : Trip). id_is t.id link.trip_id) trips

-- Whether one of the edits is that of the link's trip.
abbrev edits_link : List EditPending → KomootLink → Bool
edits_link edits link = any (λ (e : EditPending). of_trip e.trip_id link) edits

abbrev cleared_by : List EditPending → KomootLink → KomootLink
cleared_by edits link = if edits_link edits link then edit_cleared link else link

abbrev pub settled_link : List Trip → KomootLink → KomootLink
settled_link trips link = if is_of_any trips link then edit_cleared link else link

map-cleared :
    (edit : EditPending) (edits : List EditPending) (links : List KomootLink)
    → map
        (cleared_by edits)
        (map (λ link. if of_trip edit.trip_id link then edit_cleared link else link) links)
      ≡ map (cleared_by (edit ∷ edits)) links
map-cleared edit edits [] = refl
map-cleared edit edits (link ∷ links) = ap₂ (λ l ls. l ∷ ls) here (map-cleared edit edits links)
  where
    here :
        cleared_by edits (if of_trip edit.trip_id link then edit_cleared link else link)
        ≡ cleared_by (edit ∷ edits) link
    here = elim (Bool-cases (of_trip edit.trip_id link)) [
      | inr e ↦ rw e refl
      | inl e ↦ elim (Bool-cases (edits_link edits link)) [
        | inl d ↦ rw (e, d) refl
        | inr d ↦ rw (e, d) refl
      ]
    ]

map-unnamed : (links : List KomootLink) → links ≡ map (cleared_by []) links
map-unnamed [] = refl
map-unnamed (link ∷ links) = ap (λ ls. link ∷ ls) (map-unnamed links)

all_cleared-map :
    (edits : List EditPending) (db : Archive)
    → all_cleared edits db ≡ record db { links = map (cleared_by edits) db.links }
unfolding clear_edit_pending update_links
all_cleared-map [] db = ap (λ ls. record db { links = ls }) (map-unnamed db.links)
all_cleared-map (edit ∷ edits) db =
    all_cleared-map edits (clear_edit_pending edit.trip_id db)
    ∙ ap (λ ls. record db { links = ls }) (map-cleared edit edits db.links)

-- The edits of one link name those links of its trip, and no link of a trip that is not there.
joined_own :
    (link : KomootLink) (trips : List Trip)
    → edits_link (joined link trips) link ≡ is_of_any trips link
unfolding joined
joined_own link [] = refl
joined_own link (trip ∷ trips) = elim (Bool-cases (id_is trip.id link.trip_id)) [
  | inl e ↦ rw (e, e) refl
  | inr e ↦ rw e (joined_own link trips)
]

-- An edit of any link is that of a trip which is there.
joined_live :
    (other link : KomootLink) (trips : List Trip)
    → edits_link (joined other trips) link ≡ true
    → is_of_any trips link ≡ true
unfolding joined
joined_live other link [] h = cc
joined_live other link (trip ∷ trips) h = elim (Bool-cases (id_is trip.id link.trip_id)) [
  | inl e ↦ if_true _ _ e
  | inr e ↦
      if_false _ _ e
      ∙ joined_live other link trips (elim (Bool-cases (id_is trip.id other.trip_id)) [
        | inl d ↦ rw (d, e) at h
        | inr d ↦ rw d at h
      ])
]

edits_live :
    (trips : List Trip) (links : List KomootLink) (link : KomootLink)
    → edits_link (edits_of trips links) link ≡ true
    → is_of_any trips link ≡ true
unfolding edits_of joined
edits_live trips [] link h = cc
edits_live trips (other ∷ links) link h = elim (Bool-cases other.edit_pending) [
  | inr e ↦ edits_live trips links link (rw e at h)
  | inl e ↦ elim (any-append_inv _ (joined other trips) (edits_of trips links) (rw e at h)) [
    | inl own ↦ joined_live other link trips own
    | inr later ↦ edits_live trips links link later
  ]
]

-- The pending links of trips that are there are all named.
abbrev Named : List Trip → List EditPending → KomootLink → Type 0
Named trips edits link =
    (link.edit_pending ≡ false) ⊎ (is_of_any trips link ≡ false) ⊎ (edits_link edits link ≡ true)

edits_of-Named :
    (trips : List Trip) (links : List KomootLink) → All (Named trips (edits_of trips links)) links
unfolding edits_of
edits_of-Named trips [] = tt
edits_of-Named trips (link ∷ links) = elim (Bool-cases link.edit_pending) [
  | inr e ↦
      subst (λ p. All (Named trips p) (link ∷ links)) (sym (if_false _ _ e))
        (inl e, edits_of-Named trips links)
  | inl e ↦
      subst (λ p. All (Named trips p) (link ∷ links)) (sym (if_true _ _ e))
        (own, All-weaken (λ l h. named_further l h) links (edits_of-Named trips links))
]
  where
    named_further :
        (l : KomootLink)
        → Named trips (edits_of trips links) l
        → Named trips (joined link trips ++ edits_of trips links) l
    named_further l (inl h) = inl h
    named_further l (inr (inl h)) = inr (inl h)
    named_further l (inr (inr h)) =
        inr (
          inr (any-append_right (λ (x : EditPending). of_trip x.trip_id l) (joined link trips) _ h))

    own : Named trips (joined link trips ++ edits_of trips links) link
    own = elim (Bool-cases (is_of_any trips link)) [
      | inr e ↦ inr (inl e)
      | inl e ↦ inr (inr (any-append_left _ (joined link trips) _ (joined_own link trips ∙ e)))
    ]

either :
    (link : KomootLink) (b : Bool)
    → edit_cleared link ≡ link
    → (if b then edit_cleared link else link) ≡ link
either link true h = h
either link false h = refl

one_settled :
    (trips : List Trip) (edits : List EditPending) (link : KomootLink)
    → (edits_link edits link ≡ true → is_of_any trips link ≡ true)
    → Named trips edits link
    → cleared_by edits link ≡ settled_link trips link
one_settled trips edits link live (inl e) =
    let still : edit_cleared link ≡ link = ap (λ b. record link { edit_pending = b }) (sym e) in
    either link (edits_link edits link) still ∙ sym (either link (is_of_any trips link) still)
one_settled trips edits link live (inr (inl e)) = elim (Bool-cases (edits_link edits link)) [
  | inl d ↦ let bad : true ≡ false = sym (live d) ∙ e in cc
  | inr d ↦ if_false _ _ d ∙ sym (if_false _ _ e)
]
one_settled trips edits link live (inr (inr e)) = if_true _ _ e ∙ sym (if_true _ _ (live e))

every_link :
    (trips : List Trip) (edits : List EditPending) (links : List KomootLink)
    → ((link : KomootLink) → edits_link edits link ≡ true → is_of_any trips link ≡ true)
    → All (Named trips edits) links
    → map (cleared_by edits) links ≡ map (settled_link trips) links
every_link trips edits [] live h = refl
every_link trips edits (link ∷ links) live h =
    ap₂ (λ l ls. l ∷ ls) (one_settled trips edits link (live link) h.0)
      (every_link trips edits links live h.1)

-- After a push of the edits that has not halted, the archive is as before, but that no link of a
-- trip that is there is marked for a push. A link whose trip was deleted keeps its mark.
pub push_pending_edits-settles {ℓ} :
    {R : Type ℓ} (S : Service R) (w v : World R) (s : PushSummary)
    → push_pending_edits S w ≡ (ok s, v)
    → s.failed ≡ none
    → v.db ≡ record w.db { links = map (settled_link w.db.trips) w.db.links }
unfolding list_edit_pending
push_pending_edits-settles S w v s run ended =
    let p : Pushed w.db [] (list_edit_pending w.db) s v.db =
      rw run at (push_pending_edits-Pushed S w) in
    let left : p.left ≡ [] = subst (Stopped p.left) ended p.stopped in
    let all : list_edit_pending w.db ≡ p.done =
      p.split ∙ ap (λ l. p.done ++ l) left ∙ append-nil p.done in
    p.cleared
    ∙ all_cleared-map p.done w.db
    ∙ ap (λ edits. record w.db { links = map (cleared_by edits) w.db.links }) (sym all)
    ∙ ap (λ ls. record w.db { links = ls })
        (every_link w.db.trips (list_edit_pending w.db) w.db.links
          (λ link h. edits_live w.db.trips w.db.links link h)
          (edits_of-Named w.db.trips w.db.links))
