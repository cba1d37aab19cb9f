-- ===== src/Komoot/Database/Ends.antt =====
-- What the statements and the transactions of src/server/komoot_sync.rs do to the archive, whether
-- they are carried out or not.
use gps_trips.Prelude.{ℕ, ◌≡◌, refl, sym, subst, ap, ◌∙◌, List, [], ◌∷◌, Option, none, some}
use gps_trips.Types.Privacy.{KomootPrivacy}
use gps_trips.Komoot.Archive.{Archive, insert_link_in_tx, refresh_privacy_from_listing}
use gps_trips.Komoot.World.{
  database, Outcome, ok, err, unfinished, World, Action, and_then, settle, ◌>>=◌,
}
use gps_trips.Komoot.World.Keeps.{Keeps, Keeps-bind, Ends, Ends-bind, call-db, call-Ends}
use gps_trips.Komoot.Service.{KomootTourSummary, Service, of_driver}
use gps_trips.Komoot.Database.{
  in_transaction, query, write, insert_link, inserted, refresh_each, listed_privacy,
  refresh_privacy,
}

abbrev pub Same : Archive → Archive → Type 0
Same before after = after ≡ before

pub Same-trans : (a b c : Archive) → Same a b → Same b c → Same a c
Same-trans a b c h k = k ∙ h

-- A call that succeeds ends as stated, and otherwise the archive is as it was.
abbrev pub Settles {ℓ κ} :
    {R : Type ℓ} {A : Type κ} → Archive → (A → Archive → Type 0) → Outcome A × World R → Type 0
Settles db Q (ok a, w) = Q a w.db
Settles db Q (err e, w) = w.db ≡ db
Settles db Q (unfinished, w) = w.db ≡ db

module _ {ℓ κ ν} {R : Type ℓ} {A : Type κ} {B : Type ν} where
  pub Settles-bind :
      (db : Archive) (Q : B → Archive → Type 0) (m : Action R A) (f : A → Action R B) (w : World R)
      → Keeps Same m
      → w.db ≡ db
      → ((a : A) (v : World R) → v.db ≡ db → Settles db Q (f a v))
      → Settles db Q ((m >>= f) w)
  Settles-bind db Q m f w h e k = go (m w) (h w ∙ e)
    where
      go : (r : Outcome A × World R) → r.1.db ≡ db → Settles db Q (and_then r f)
      go (ok a, v) h = k a v h
      go (err e, v) h = h
      go (unfinished, v) h = h

module _ {ℓ} {R : Type ℓ} (S : Service R) where
  pub query-Same {κ} : {A : Type κ} (f : Archive → A) → Keeps Same (query S f)
  unfolding query
  query-Same f =
      Keeps-bind Same Same-trans (of_driver S.execute) _ (call-db database S.execute) (λ a w. refl)

  pub query-Ends {κ} :
      {A : Type κ} (f : Archive → A) (w : World R)
      → Ends (λ a db. (a ≡ f w.db) × (db ≡ w.db)) (query S f w)
  unfolding query
  query-Ends f w =
      Ends-bind (λ a db. db ≡ w.db) _ (of_driver S.execute) _ w (call-Ends database S.execute w)
        (λ a v h. (ap f h, h))

  pub write-Ends : (f : Archive → Archive) (w : World R) → Ends (λ a db. db ≡ f w.db) (write S f w)
  unfolding write
  write-Ends f w =
      Ends-bind (λ a db. db ≡ w.db) _ (of_driver S.execute) _ w (call-Ends database S.execute w)
        (λ a v h. ap f h)

  pub insert_link-Ends :
      (trip : ℕ) (tour : List ℕ) (w : World R)
      → Ends (λ a db. insert_link_in_tx trip tour w.db ≡ some db) (insert_link S trip tour w)
  unfolding insert_link
  insert_link-Ends trip tour w =
      Ends-bind (λ a db. db ≡ w.db) _ (of_driver S.execute) _ w (call-Ends database S.execute w)
        (λ a v h.
          go v (insert_link_in_tx trip tour v.db) (ap (insert_link_in_tx trip tour) (sym h)))
    where
      go :
          (v : World R) (o : Option Archive)
          → insert_link_in_tx trip tour w.db ≡ o
          → Ends (λ (a : Unit {0}) db. insert_link_in_tx trip tour w.db ≡ some db) (inserted S v o)
      go v none e = tt
      go v (some db) e = e

  pub refresh_each-Ends :
      (listed : List (List ℕ × KomootPrivacy)) (w : World R)
      → Ends (λ a db. db ≡ refresh_privacy_from_listing listed w.db) (refresh_each S listed w)
  unfolding refresh_each refresh_privacy_from_listing
  refresh_each-Ends [] w = refl
  refresh_each-Ends (tour ∷ listed) w =
      Ends-bind (λ a db. db ≡ refresh_privacy_from_listing (tour ∷ []) w.db) _
        (write S (refresh_privacy_from_listing (tour ∷ []))) _ w
        (write-Ends (refresh_privacy_from_listing (tour ∷ [])) w)
        (λ a v h.
          subst
            (λ db.
              Ends (λ b after. after ≡ refresh_privacy_from_listing listed db)
                (refresh_each S listed v))
            h (refresh_each-Ends listed v))

  -- A transaction is the whole of its body, or nothing.
  pub in_transaction-Settles {κ} :
      {A : Type κ} (Q : A → Archive → Type 0) (body : Action R A) (w : World R)
      → ((v : World R) → v.db ≡ w.db → Ends Q (body v))
      → Settles w.db Q (in_transaction S body w)
  unfolding in_transaction
  in_transaction-Settles {A = A} Q body w h = go _ (
      Ends-bind (λ a db. db ≡ w.db) Q (of_driver S.execute) _ w (call-Ends database S.execute w)
        (λ a v e. Ends-bind Q Q body _ v (h v e) (λ b u k.
          Ends-bind (λ c db. db ≡ u.db) Q (of_driver S.execute) _ u (call-Ends database S.execute u)
            (λ c t k'. subst (Q b) (sym k') k))))
    where
      go : (r : Outcome A × World R) → Ends Q r → Settles w.db Q (settle w.db r)
      go (ok a, v) k = k
      go (err e, v) k = refl
      go (unfinished, v) k = refl

  pub refresh_privacy-Settles :
      (tours : List KomootTourSummary) (w : World R)
      → Settles w.db
          (λ a db. db ≡ refresh_privacy_from_listing (listed_privacy S tours) w.db)
          (refresh_privacy S tours w)
  unfolding refresh_privacy
  refresh_privacy-Settles tours w =
      in_transaction-Settles _ (refresh_each S (listed_privacy S tours)) w (λ v h.
        subst
          (λ db.
            Ends (λ a after. after ≡ refresh_privacy_from_listing (listed_privacy S tours) db)
              (refresh_each S (listed_privacy S tours) v))
          h (refresh_each-Ends (listed_privacy S tours) v))
