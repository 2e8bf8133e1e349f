-- ===== src/Storage/Sqlite/Latest.antt =====
-- What `ORDER BY creation_time DESC, key ASC` gives, said without the comparison that sorts.
use mathlib.Core.List.Perm
use mathlib.Core.List.{Perm}
use mathlib.Core.Path.{subst}
use ldk_server.Prelude.{
  ℕ, ◌<◌, ◌≡◌, refl, ◌≢◌, ◌⊎◌, inl, inr, ap, true, false, Bool-cases, List, [], ◌∷◌, ◌++◌, map,
  filter, All, All-map, arith, ◌==◌, ==_iff,
}
use ldk_server.Prelude.Int.{ℤ, pos, negsuc, ◌≤ℤ◌, ltb_ℤ, eqb_ℤ}
use ldk_server.Text.{Text}
use ldk_server.Text.Order.{text_lt}
use ldk_server.Storage.Sqlite.{Row, Cursor, cursor, in_namespace, before, insert_cursor, order_by}
use ldk_server.Storage.Sqlite.Order.{IsSorted, order_by-IsSorted}
use ldk_server.Storage.Sqlite.Table.{IsTable}
use ldk_server.Storage.Sqlite.Listing.{cursors-HasDistinctKeys}
use ldk_server.Storage.Sqlite.Pages.{listing}

-- The first text is a proper beginning of the second, or has the smaller byte where they part.
abbrev pub Precedes : Text → Text → Type 0
Precedes s t =
    ((b : ℕ) × (rest : Text) × (t ≡ s ++ b ∷ rest))
    ⊎ ((front : Text) × (a b : ℕ) × (s' t' : Text) × (s ≡ front ++ a ∷ s')
        × (t ≡ front ++ b ∷ t')
        × (a < b))

Precedes-cons : (a : ℕ) (s t : Text) → Precedes s t → Precedes (a ∷ s) (a ∷ t)
Precedes-cons a s t (inl (b, rest, e)) = inl (b, rest, ap (λ r. a ∷ r) e)
Precedes-cons a s t (inr (front, x, y, s', t', e, f, l)) =
    inr (a ∷ front, x, y, s', t', ap (λ r. a ∷ r) e, ap (λ r. a ∷ r) f, l)

text_lt-Precedes : (s t : Text) → text_lt s t ≡ true → Precedes s t
unfolding text_lt
text_lt-Precedes [] [] h = cc h
text_lt-Precedes [] (b ∷ t) h = inl (b, t, refl)
text_lt-Precedes (a ∷ s) [] h = cc h
text_lt-Precedes (a ∷ s) (b ∷ t) h = elim (Bool-cases (a == b)) [
  | inl e ↦
      subst (λ x. Precedes (a ∷ s) (x ∷ t)) ((==_iff a b).0 e)
        (Precedes-cons a s t (text_lt-Precedes s t (ground (arith, h, e))))
  | inr e ↦ inr ([], a, b, s, t, refl, refl, ground (arith, h, e))
]

-- The second row is older, or as old and its key comes later.
abbrev pub Follows : Cursor → Cursor → Type 0
Follows (key, time) (later_key, older) =
    ((older ≤ℤ time) × (older ≢ time)) ⊎ ((older ≡ time) × Precedes key later_key)

abbrev pub IsLatestFirst : List Cursor → Type 0
IsLatestFirst [] = Unit
IsLatestFirst (c ∷ s) = All (Follows c) s × IsLatestFirst s

eqb_ℤ-same : (a b : ℤ) → eqb_ℤ a b ≡ true → a ≡ b
eqb_ℤ-same (pos n) (pos m) h = ap pos (ground (arith, h))
eqb_ℤ-same (pos n) (negsuc m) h = ground (arith, h)
eqb_ℤ-same (negsuc n) (pos m) h = ground (arith, h)
eqb_ℤ-same (negsuc n) (negsuc m) h = ap negsuc (ground (arith, h))

ltb_ℤ-irrefl : (a : ℤ) → ltb_ℤ a a ≡ false
ltb_ℤ-irrefl a = ground arith

before-Follows : (c d : Cursor) → before c d ≡ true → Follows c d
unfolding before
before-Follows (k, t) (k', t') h = elim (Bool-cases (ltb_ℤ t' t)) [
  | inl l ↦ inl (ground (arith, l), λ e. cc (l, ltb_ℤ-irrefl t, e))
  | inr l ↦
      inr (eqb_ℤ-same t' t (ground (arith, h, l)), text_lt-Precedes k k' (ground (arith, h, l)))
]

IsSorted-IsLatestFirst : (s : List Cursor) → IsSorted s → IsLatestFirst s
IsSorted-IsLatestFirst [] h = tt
IsSorted-IsLatestFirst (c ∷ s) (b, h) = (All-map (before-Follows c) s b, IsSorted-IsLatestFirst s h)

Perm-insert_cursor : (c : Cursor) (s : List Cursor) → Perm (insert_cursor c s) (c ∷ s)
unfolding insert_cursor
Perm-insert_cursor c [] = Perm.rfl
Perm-insert_cursor c (d ∷ s) = elim (Bool-cases (before c d)) [
  | inl e ↦ rw e Perm.rfl
  | inr e ↦ rw e (Perm.trans (Perm.cons d (Perm-insert_cursor c s)) (Perm.swap c d s))
]

Perm-order_by : (s : List Cursor) → Perm (order_by s) s
unfolding order_by
Perm-order_by [] = Perm.rfl
Perm-order_by (c ∷ s) =
    Perm.trans (Perm-insert_cursor c (order_by s)) (Perm.cons c (Perm-order_by s))

-- The listing of a namespace of a well-formed table has the namespace's rows, each once, and of two
-- rows the later one of the listing is older, or as old with a key that comes later byte by byte.
pub listing-IsLatestFirst :
    (p n : Text) (table : List Row)
    → IsTable table
    → IsLatestFirst (listing p n table)
      × Perm (listing p n table) (map cursor (filter (in_namespace p n) table))
listing-IsLatestFirst p n table h = (
  IsSorted-IsLatestFirst (listing p n table) (
      order_by-IsSorted (map cursor (filter (in_namespace p n) table))
        (cursors-HasDistinctKeys p n table h.unique)),
  Perm-order_by (map cursor (filter (in_namespace p n) table)),
)
