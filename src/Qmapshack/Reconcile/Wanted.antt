-- ===== src/Qmapshack/Reconcile/Wanted.antt =====
-- What it is that an item is as desired, for src/server/qmapshack/reconcile.rs.
use gps_trips.Prelude.{
  ℕ, ◌≡◌, refl, sym, ap, ◌∙◌, not, ◌||◌, text_eq, text_eq→eq, ==_iff, Bool, true, false, List, [],
  ◌∷◌, Option, none, some, text_eq_refl,
}
use gps_trips.Qmapshack.Target.{Database, ItemState, get_item_state}
use gps_trips.Qmapshack.Reconcile.{
  Desired, content_changed, placement_changed, differs, is_text, is_only,
}

-- The hash, where one is asked for.
abbrev pub HasHash : Option (List ℕ) → List ℕ → Type 0
HasHash none hash = Unit {0}
HasHash (some asked) hash = hash ≡ asked

-- The item under the desired key has the desired name, comment and hash, and is in the folder alone.
pub record IsDesired (db : Database) (folder : ℕ) (desired : Desired) : Type 0 where
  pub state : ItemState
  pub present : get_item_state db desired.keyqms ≡ some state
  pub name : state.name ≡ desired.name
  pub comment : state.comment ≡ some desired.comment
  pub hash : HasHash desired.hash state.hash
  pub folders : state.folder_ids ≡ folder ∷ []

-- Nothing is to be written.
pub record Settled (db : Database) (folder : ℕ) (desired : Desired) : Type 0 where
  pub state : ItemState
  pub present : get_item_state db desired.keyqms ≡ some state
  pub same : content_changed state desired ≡ false
  pub stays : placement_changed state folder ≡ false

or_false : (a b : Bool) → (a || b) ≡ false → (a ≡ false) × (b ≡ false)
or_false true b h = cc
or_false false b h = (refl, h)

not-false : (b : Bool) → not b ≡ false → b ≡ true
not-false true h = refl
not-false false h = cc

is_text-eq : (o : Option (List ℕ)) (t : List ℕ) → is_text o t ≡ true → o ≡ some t
is_text-eq none t h = cc
is_text-eq (some s) t h = ap some (text_eq→eq s t h)

differs-HasHash :
    (asked : Option (List ℕ)) (hash : List ℕ) → differs asked hash ≡ false → HasHash asked hash
differs-HasHash none hash h = tt
differs-HasHash (some t) hash h = sym (text_eq→eq t hash (not-false _ h))

pub HasHash-differs :
    (asked : Option (List ℕ)) (hash : List ℕ) → HasHash asked hash → differs asked hash ≡ false
HasHash-differs none hash h = refl
HasHash-differs (some t) hash h = ap not (ap (text_eq t) h ∙ text_eq_refl t)

is_only-eq : (ns : List ℕ) (folder : ℕ) → is_only ns folder ≡ true → ns ≡ folder ∷ []
is_only-eq [] folder h = cc
is_only-eq (n ∷ []) folder h = ap (λ m. m ∷ []) ((==_iff n folder).0 h)
is_only-eq (n ∷ m ∷ ns) folder h = cc

pub Settled-IsDesired :
    (db : Database) (folder : ℕ) (desired : Desired)
    → Settled db folder desired
    → IsDesired db folder desired
unfolding content_changed placement_changed
Settled-IsDesired db folder desired s =
    let (h, hash) = or_false _ _ s.same in
    let (name, comment) = or_false _ _ h in
    record {
      state = s.state;
      present = s.present;
      name = text_eq→eq s.state.name desired.name (not-false _ name);
      comment = is_text-eq s.state.comment desired.comment (not-false _ comment);
      hash = differs-HasHash desired.hash s.state.hash hash;
      folders = is_only-eq s.state.folder_ids folder (not-false _ s.stays);
    }
