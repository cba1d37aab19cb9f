-- ===== src/Qmapshack/Removal/Gone.antt =====
-- Which keys have lost their record, for src/server/qmapshack/reconcile.rs.
use gps_trips.Prelude.{
  ℕ, ◌≡◌, refl, sym, ap, subst, ◌∙◌, Bool, true, false, not, ◌++◌, none, some, drop, length,
  drop-append_length, Option-cases, List, Bool-cases, inl, inr,
}
use gps_trips.Prelude.Int.{ℤ}
use gps_trips.Text.{starts_with, strip_prefix, strip_prefix-append, strip_prefix_joins}
use gps_trips.Text.Decimal.{parse_i64}
use gps_trips.Qmapshack.Removal.{is_live, is_stale}

-- A key of the namespace whose record is gone: what follows the prefix is no id, or the id of none.
pub data Gone (prefix : List ℕ) (live_ids : ℤ → Bool) : List ℕ → Type 0 where
  no_id : (rest : List ℕ) → parse_i64 rest ≡ none → Gone prefix live_ids (prefix ++ rest)
  no_record :
      (rest : List ℕ) (id : ℤ)
      → parse_i64 rest ≡ some id
      → live_ids id ≡ false
      → Gone prefix live_ids (prefix ++ rest)

pub Gone-is_stale :
    (prefix : List ℕ) (live_ids : ℤ → Bool) (key : List ℕ)
    → Gone prefix live_ids key
    → (starts_with prefix key ≡ true) × (is_stale prefix live_ids key ≡ true)
unfolding starts_with is_stale
Gone-is_stale prefix live_ids key (no_id rest e) = (
  rw (starts_with, strip_prefix-append prefix rest) refl,
  rw (drop-append_length prefix rest) (rw e refl),
)
Gone-is_stale prefix live_ids key (no_record rest id e dead) = (
  rw (starts_with, strip_prefix-append prefix rest) refl,
  rw (drop-append_length prefix rest) (rw e (rw dead refl)),
)

pub is_stale-Gone :
    (prefix : List ℕ) (live_ids : ℤ → Bool) (key : List ℕ)
    → starts_with prefix key ≡ true
    → is_stale prefix live_ids key ≡ true
    → Gone prefix live_ids key
unfolding starts_with is_stale
is_stale-Gone prefix live_ids key h k = elim (Option-cases (strip_prefix prefix key)) [
  | inl e ↦ let bad : false ≡ true = rw (starts_with, e) at h in cc
  | inr (rest, e) ↦
      let same = strip_prefix_joins prefix key rest e in
      let stale : not (is_live live_ids (parse_i64 rest)) ≡ true =
        ap (λ t. not (is_live live_ids (parse_i64 t))) (sym (drop-append_length prefix rest))
        ∙ ap (λ t. not (is_live live_ids (parse_i64 (drop (length prefix) t)))) (sym same)
        ∙ k in
      subst (Gone prefix live_ids) (sym same) (elim (Option-cases (parse_i64 rest)) [
        | inl d ↦ no_id rest d
        | inr (id, d) ↦ elim (Bool-cases (live_ids id)) [
          | inr dead ↦ no_record rest id d dead
          | inl live ↦ let bad : false ≡ true = rw (d, live) at stale in cc
        ]
      ])
]
