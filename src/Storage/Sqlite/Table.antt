-- ===== src/Storage/Sqlite/Table.antt =====
-- The table's invariant, and what an upsert does to it and to the value under a key.
use ldk_server.Prelude.{
  ◌≡◌, true, false, some, List, [], ◌∷◌, arith, All, find?, if◌then◌else◌, Bool-cases, inl, inr,
  opt_map,
}
use ldk_server.Prelude.Int.{◌≤ℤ◌, i64_max}
use ldk_server.Text.{Text, is_empty}
use ldk_server.Text.Equality.{text_eq_iff}
use ldk_server.Storage.Sqlite.{Row, has_key, upsert}

-- No row of the table has this primary key.
abbrev pub HasNoRow : Text → Text → Text → List Row → Type 0
HasNoRow p n k table = All (λ r. has_key p n k r ≡ false) table

abbrev pub IsUnique : List Row → Type 0
IsUnique [] = Unit
IsUnique (r ∷ t) = HasNoRow r.primary_namespace r.secondary_namespace r.key t × IsUnique t

-- What the table's declaration and `i64` ask of a row.
abbrev pub IsRow : Row → Type 0
IsRow r = (is_empty r.key ≡ false) × (r.creation_time ≤ℤ i64_max)

-- Primary keys are unique, keys are not empty, and times are at most the largest `i64`.
pub record IsTable (t : List Row) : Type 0 where
  pub unique : IsUnique t
  pub rows : All IsRow t

-- Two rows with the same primary key answer alike to every key.
has_key-same :
    (row r : Row) (p n k : Text)
    → has_key row.primary_namespace row.secondary_namespace row.key r ≡ true
    → has_key p n k r ≡ has_key p n k row
has_key-same row r p n k h = ground (
  arith,
  h,
  text_eq_iff r.primary_namespace row.primary_namespace,
  text_eq_iff r.secondary_namespace row.secondary_namespace,
  text_eq_iff r.key row.key,
)

HasNoRow-upsert :
    (p n k : Text) (row : Row) (t : List Row)
    → has_key p n k row ≡ false
    → HasNoRow p n k t
    → HasNoRow p n k (upsert row t)
unfolding upsert
HasNoRow-upsert p n k row [] e h = (e, tt)
HasNoRow-upsert p n k row (r ∷ t) e (f, h) =
    elim (Bool-cases (has_key row.primary_namespace row.secondary_namespace row.key r)) [
      | inl same ↦ rw same (f, h)
      | inr new ↦ rw new (f, HasNoRow-upsert p n k row t e h)
    ]

has_key_symm :
    (row r : Row)
    → has_key row.primary_namespace row.secondary_namespace row.key r ≡ false
    → has_key r.primary_namespace r.secondary_namespace r.key row ≡ false
has_key_symm row r h = ground (
  arith,
  text_eq_iff r.primary_namespace row.primary_namespace,
  text_eq_iff row.primary_namespace r.primary_namespace,
  text_eq_iff r.secondary_namespace row.secondary_namespace,
  text_eq_iff row.secondary_namespace r.secondary_namespace,
  text_eq_iff r.key row.key,
  text_eq_iff row.key r.key,
)

pub upsert-IsUnique : (row : Row) (t : List Row) → IsUnique t → IsUnique (upsert row t)
unfolding upsert
upsert-IsUnique row [] h = (tt, tt)
upsert-IsUnique row (r ∷ t) (n, h) =
    elim (Bool-cases (has_key row.primary_namespace row.secondary_namespace row.key r)) [
      | inl same ↦ rw same (n, h)
      | inr new ↦ rw new (
        HasNoRow-upsert r.primary_namespace r.secondary_namespace r.key row t
            (has_key_symm row r new) n,
        upsert-IsUnique row t h,
      )
    ]

pub upsert-rows : (row : Row) (t : List Row) → IsRow row → All IsRow t → All IsRow (upsert row t)
unfolding upsert
upsert-rows row [] p h = (p, tt)
upsert-rows row (r ∷ t) p (q, h) =
    elim (Bool-cases (has_key row.primary_namespace row.secondary_namespace row.key r)) [
      | inl same ↦ rw same (q, h)
      | inr new ↦ rw new (q, upsert-rows row t p h)
    ]

pub has_key-both :
    (row r : Row) (p n k : Text)
    → has_key p n k row ≡ true
    → has_key p n k r ≡ true
    → has_key row.primary_namespace row.secondary_namespace row.key r ≡ true
has_key-both row r p n k h g = ground (
  arith,
  text_eq_iff r.primary_namespace p,
  text_eq_iff row.primary_namespace p,
  text_eq_iff r.primary_namespace row.primary_namespace,
  text_eq_iff r.secondary_namespace n,
  text_eq_iff row.secondary_namespace n,
  text_eq_iff r.secondary_namespace row.secondary_namespace,
  text_eq_iff r.key k,
  text_eq_iff row.key k,
  text_eq_iff r.key row.key,
)

-- The value under a key after an upsert.
pub find?-upsert :
    (p n k : Text) (row : Row) (t : List Row)
    → opt_map (λ (r : Row). r.value) (find? (has_key p n k) (upsert row t)) ≡ (
        if has_key p n k row
        then some row.value
        else opt_map (λ (r : Row). r.value) (find? (has_key p n k) t))
unfolding upsert
find?-upsert p n k row [] = ground arith
find?-upsert p n k row (r ∷ t) =
    elim (Bool-cases (has_key row.primary_namespace row.secondary_namespace row.key r)) [
      | inl same ↦ rw same (ground (arith, has_key-same row r p n k same))
      | inr new ↦ rw new (ground (arith, new, has_key-both row r p n k, find?-upsert p n k row t))
    ]
