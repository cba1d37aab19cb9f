-- ===== src/Komoot/Listing/Pages.antt =====
-- That a listing of src/server/komoot_sync.rs ends, and has every tour.
use gps_trips.Prelude.{
  ℕ, zero, suc, ◌+◌, ◌-◌, ◌*◌, ◌^◌, ◌<◌, ◌≤◌, ◌≡◌, refl, sym, ap, ◌∙◌, false, List, [], ◌∷◌, ◌++◌,
  append-nil, append_assoc, inl, inr, arith, min, ltb, ltb→lt, Bool-cases, length, take, drop,
  length-drop, drop-drop,
}
use gps_trips.Types.Kind.{TripKind}
use gps_trips.Komoot.World.{ok, World, Action}
use gps_trips.Komoot.Service.{KomootTourSummary, Service}
use gps_trips.Komoot.Listing.{page_size, u32, pages, get_page, list_all_tours_of_kind}

leb_of_not_ltb : (a b : ℕ) → ltb a b ≡ false → b ≤ a
leb_of_not_ltb a b h = ground arith

module _ {ℓ} {A : Type ℓ} where
  length-take : (n : ℕ) (xs : List A) → length (take n xs) ≡ min n (length xs)
  length-take zero xs = omega arith
  length-take (suc n) [] = omega arith
  length-take (suc n) (x ∷ xs) = omega (arith, length-take n xs)

  take-drop : (n : ℕ) (xs : List A) → take n xs ++ drop n xs ≡ xs
  take-drop zero xs = refl
  take-drop (suc n) [] = refl
  take-drop (suc n) (x ∷ xs) = ap (λ l. x ∷ l) (take-drop n xs)

  drop_all : (n : ℕ) (xs : List A) → length xs ≤ n → drop n xs ≡ []
  drop_all zero [] h = refl
  drop_all zero (x ∷ xs) h = absurd (omega (arith, h))
  drop_all (suc n) [] h = refl
  drop_all (suc n) (x ∷ xs) h = drop_all n xs (omega (arith, h))

-- The account's listing: a page is the part of it that the page's number names.
abbrev pub Serves {ℓ κ} :
    {R : Type ℓ} {A : Type κ} → (ℕ → Action R (List A)) → List A → Type (ℓ ⊔ κ)
Serves {R = R} get all =
    (page : ℕ) (w : World R)
    → (after : R) × (get page w
        ≡ (ok (take page_size (drop (page * page_size) all)), record w { rest = after }))

module _ {ℓ κ} {R : Type ℓ} {A : Type κ} (get : ℕ → Action R (List A)) (all : List A) where
  short_page :
      (page : ℕ)
      → length all - page * page_size < page_size
      → take page_size (drop (page * page_size) all) ≡ drop (page * page_size) all
  short_page page h =
      let left = drop (page * page_size) all in
      let short : length left ≤ page_size = omega (arith, length-drop (page * page_size) all, h) in
      sym (append-nil _)
      ∙ ap (λ l. take page_size left ++ l) (sym (drop_all page_size left short))
      ∙ take-drop page_size left

  page-length :
      (page : ℕ)
      → u32 (length (take page_size (drop (page * page_size) all)))
        ≡ min page_size (length all - page * page_size)
  page-length page = omega (
    arith,
    length-take page_size (drop (page * page_size) all),
    length-drop (page * page_size) all,
  )

  not_short :
      (page : ℕ)
      → page_size ≤ u32 (length (take page_size (drop (page * page_size) all)))
      → page_size ≤ length all - page * page_size
  not_short page h = omega (arith, h, page-length page)

  next_page :
      (page : ℕ)
      → take page_size (drop (page * page_size) all) ++ drop ((page + 1) * page_size) all
        ≡ drop (page * page_size) all
  next_page page =
      let e : (page + 1) * page_size ≡ page * page_size + page_size = omega arith in
      let left = drop (page * page_size) all in
      ap (λ n. take page_size left ++ drop n all) e
      ∙ ap (λ l. take page_size left ++ l) (drop-drop (page * page_size) page_size all)
      ∙ take-drop page_size left

  one_more :
      (fuel page : ℕ) (found batch result : List A) (w : World R) (after last : R)
      → get page w ≡ (ok batch, record w { rest = after })
      → ltb (u32 (length batch)) page_size ≡ false
      → u32 (page + 1) ≡ page + 1
      → pages fuel get (page + 1) (found ++ batch) (record w { rest = after })
        ≡ (ok result, record w { rest = last })
      → pages (suc fuel) get page found w ≡ (ok result, record w { rest = last })
  unfolding pages
  one_more fuel page found batch result w after last answer full next h = rw (answer, full, next) h

  pub pages_complete :
      Serves get all
      → length all < 2 ^ 32
      → (fuel page : ℕ) (found : List A) (w : World R)
      → length all - page * page_size < fuel * page_size
      → (after : R) × (pages fuel get page found w
          ≡ (ok (found ++ drop (page * page_size) all), record w { rest = after }))
  unfolding pages
  pages_complete serves bounded zero page found w h = absurd (omega (arith, h))
  pages_complete serves bounded (suc fuel) page found w h =
      let (after, answer) = serves page w in
      let batch = take page_size (drop (page * page_size) all) in
      elim (Bool-cases (ltb (u32 (length batch)) page_size)) [
        | inl last ↦
            let short = ltb→lt (u32 (length batch)) page_size last in
            let e = short_page page (omega (arith, short, page-length page)) in
            (after, rw (answer, last, e) refl)
        | inr full ↦
            let long : page_size ≤ length all - page * page_size =
              not_short page (leb_of_not_ltb _ _ full) in
            let next : u32 (page + 1) ≡ page + 1 = omega (arith, bounded, long) in
            let (last, rest) =
              pages_complete serves bounded fuel (page + 1) (found ++ batch)
                (record w { rest = after }) (omega (arith, h, long)) in
            let e = append_assoc found batch _ ∙ ap (λ l. found ++ l) (next_page page) in
            (
              last,
              one_more fuel page found batch _ w after last answer full next rest
                  ∙ ap (λ l. (ok l, record w { rest = last })) e,
            )
      ]

-- With fuel for one page more than the account fills, a listing ends, and what it finds is every
-- tour of the account, in the account's order. The condition: an answer is the part of the account
-- that the page's number names, and the account has fewer than 2 ^ 32 tours.
pub list_all_tours_complete {ℓ} :
    {R : Type ℓ} (S : Service R) (username : List ℕ) (kind : TripKind)
    → (tours : List KomootTourSummary) → Serves (get_page S username kind) tours
    → length tours < 2 ^ 32
    → (fuel : ℕ) → length tours < fuel * page_size
    → (w : World R)
    → (after : R) × (list_all_tours_of_kind S fuel username kind w
        ≡ (ok tours, record w { rest = after }))
unfolding list_all_tours_of_kind
list_all_tours_complete S username kind tours serves bounded fuel enough w =
    pages_complete _ tours serves bounded fuel 0 [] w (omega (arith, enough))
