-- ===== src/Storage/Sqlite/Listing.antt =====
-- What the listings of a namespace depend on.
use ldk_server.Prelude.{
  ℕ, ◌≡◌, true, Option, some, List, [], ◌∷◌, map, ok, arith, filter, find?, Bool-cases, inl, inr,
  true-and,
}
use ldk_server.Prelude.Int.{ℤ}
use ldk_server.Text.{Text}
use ldk_server.Text.Equality.{text_eq_refl, eq→text_eq}
use ldk_server.Storage.Namespace.{KvEnv}
use ldk_server.Storage.Sqlite.{
  select_page, Row, works, Cursor, cursor, in_namespace, has_key, upsert, write, list,
}
use ldk_server.Storage.Sqlite.Order.{HasNoKey, HasDistinctKeys}
use ldk_server.Storage.Sqlite.Table.{IsUnique, HasNoRow, has_key-both}
use ldk_server.Storage.Sqlite.Access.{new_row, write-inversion}

cursors-upsert :
    (p n : Text) (row : Row) (t : List Row) {r : Row}
    → find? (has_key row.primary_namespace row.secondary_namespace row.key) t ≡ some r
    → map cursor (filter (in_namespace p n) (upsert row t))
      ≡ map cursor (filter (in_namespace p n) t)
unfolding upsert
cursors-upsert p n row [] e = cc
cursors-upsert p n row (r ∷ t) e =
    elim (Bool-cases (has_key row.primary_namespace row.secondary_namespace row.key r)) [
      | inl same ↦ rw same (ground arith)
      | inr new ↦ rw new (ground (arith, cursors-upsert p n row t (rw new at e)))
    ]

-- A successful write of a key that the table has already changes no listing, whatever time it is
-- given: the row keeps its own.
pub list-write_existing :
    (env : KvEnv) (p n k p' n' : Text) (time : ℤ) (buf : List ℕ) (t t' : List Row) (r : Row)
    (token : Option Cursor)
    → find? (has_key p n k) t ≡ some r
    → write env works p n k time buf t ≡ (ok tt, t')
    → list env works p' n' token t' ≡ list env works p' n' token t
unfolding list select_page
list-write_existing env p n k p' n' time buf t t' r token e h =
    let (good, same) = write-inversion env p n k time buf t t' h in
    rw same (rw (cursors-upsert p' n' (new_row env p n k time buf) t e))

-- The keys of one namespace are distinct.
key-ne :
    (p n : Text) (r : Row) (t : List Row)
    → in_namespace p n r ≡ true
    → HasNoRow r.primary_namespace r.secondary_namespace r.key t
    → HasNoKey r.key (map cursor (filter (in_namespace p n) t))
key-ne p n r [] e h = tt
key-ne p n r (x ∷ t) e (m, h) = elim (Bool-cases (in_namespace p n x)) [
  | inl here ↦ rw here (
    λ same.
        let other =
          has_key-both r x p n r.key (true-and _ _ e (text_eq_refl r.key))
            (true-and _ _ here (eq→text_eq x.key r.key same)) in
        cc (m, other),
    key-ne p n r t e h,
  )
  | inr there ↦ rw there (key-ne p n r t e h)
]

pub cursors-HasDistinctKeys :
    (p n : Text) (t : List Row)
    → IsUnique t
    → HasDistinctKeys (map cursor (filter (in_namespace p n) t))
cursors-HasDistinctKeys p n [] h = tt
cursors-HasDistinctKeys p n (r ∷ t) (m, h) = elim (Bool-cases (in_namespace p n r)) [
  | inl here ↦ rw here (key-ne p n r t here m, cursors-HasDistinctKeys p n t h)
  | inr there ↦ rw there (cursors-HasDistinctKeys p n t h)
]
