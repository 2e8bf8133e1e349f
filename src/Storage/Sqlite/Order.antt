-- ===== src/Storage/Sqlite/Order.antt =====
-- `before` is a strict total order, and `order_by` sorts by it.
use ldk_server.Prelude.{
  ◌≡◌, refl, ◌≢◌, sym, All-map, All-filter, All-if, filter-All, if◌then◌else◌, Bool, true, false,
  List, [], ◌∷◌, ◌++◌, arith, All, filter, Bool-cases, inl, inr,
}
use ldk_server.Text.{Text}
use ldk_server.Text.Order.{text_lt_irrefl, text_lt_trans, text_lt-total}
use ldk_server.Storage.Sqlite.{Cursor, is_behind, before, insert_cursor, order_by}

before_irrefl : (c : Cursor) → before c c ≡ false
unfolding before
before_irrefl (k, t) = ground (arith, text_lt_irrefl k)

pub before_trans : (c d e : Cursor) → before c d ≡ true → before d e ≡ true → before c e ≡ true
unfolding before
before_trans (k, t) (k', t') (k'', t'') h g = ground (arith, text_lt_trans k k' k'')

-- Of two cursors with different keys one comes first.
before-total : (c d : Cursor) → c.0 ≢ d.0 → before c d ≡ false → before d c ≡ true
unfolding before
before-total (k, t) (k', t') n h = ground (arith, text_lt-total k k', text_lt-total k' k)

before-asym : (c d : Cursor) → before c d ≡ true → before d c ≡ false
before-asym c d h = ground (arith, before_irrefl c, before_trans c d c)

-- The rows behind a row are those that come after it.
pub is_behind-before : (c d : Cursor) → is_behind c d ≡ before c d
unfolding is_behind before
is_behind-before (k, t) (k', t') = refl

-- Each cursor comes before all that follow it.
abbrev pub IsSorted : List Cursor → Type 0
IsSorted [] = Unit
IsSorted (c ∷ s) = All (λ d. before c d ≡ true) s × IsSorted s

abbrev pub HasNoKey : Text → List Cursor → Type 0
HasNoKey k s = All (λ (d : Cursor). d.0 ≢ k) s

abbrev pub HasDistinctKeys : List Cursor → Type 0
HasDistinctKeys [] = Unit
HasDistinctKeys (c ∷ s) = HasNoKey c.0 s × HasDistinctKeys s

module _ (P : Cursor → Type 0) where
  All-insert_cursor : (c : Cursor) (s : List Cursor) → P c → All P s → All P (insert_cursor c s)
  unfolding insert_cursor
  All-insert_cursor c [] p h = (p, tt)
  All-insert_cursor c (d ∷ s) p (q, h) =
      All-if P (before c d) (c ∷ d ∷ s) (d ∷ insert_cursor c s) (p, (q, h))
        (q, All-insert_cursor c s p h)

  pub All-order_by : (s : List Cursor) → All P s → All P (order_by s)
  unfolding order_by
  All-order_by [] h = tt
  All-order_by (c ∷ s) (p, h) = All-insert_cursor c (order_by s) p (All-order_by s h)

insert_cursor-IsSorted :
    (c : Cursor) (s : List Cursor) → HasNoKey c.0 s → IsSorted s → IsSorted (insert_cursor c s)
unfolding insert_cursor
insert_cursor-IsSorted c [] n h = (tt, tt)
insert_cursor-IsSorted c (d ∷ s) (n, m) (b, h) = elim (Bool-cases (before c d)) [
  | inl e ↦ rw e ((e, All-map (λ x l. before_trans c d x e l) s b), (b, h))
  | inr e ↦
      let later = before-total c d (λ p. n (sym p)) e in
      rw e (All-insert_cursor (λ x. before d x ≡ true) c s later b, insert_cursor-IsSorted c s m h)
]

pub order_by-IsSorted : (s : List Cursor) → HasDistinctKeys s → IsSorted (order_by s)
unfolding order_by
order_by-IsSorted [] h = tt
order_by-IsSorted (c ∷ s) (n, h) =
    insert_cursor-IsSorted c (order_by s) (All-order_by (λ d. d.0 ≢ c.0) s n)
      (order_by-IsSorted s h)

insert_cursor-front :
    (c : Cursor) (s : List Cursor) → All (λ d. before c d ≡ true) s → insert_cursor c s ≡ c ∷ s
unfolding insert_cursor
insert_cursor-front c [] h = refl
insert_cursor-front c (d ∷ s) (e, h) = rw e

module _ (p : Cursor → Bool) where
  filter-insert_cursor :
      (c : Cursor) (s : List Cursor)
      → IsSorted s
      → filter p (insert_cursor c s) ≡ (if p c then insert_cursor c (filter p s) else filter p s)
  unfolding insert_cursor
  filter-insert_cursor c [] h = refl
  filter-insert_cursor c (d ∷ s) (b, h) = elim (Bool-cases (before c d)) [
    | inl e ↦
        let later = All-map (λ x l. before_trans c d x e l) s b in
        let front =
          insert_cursor-front c (filter p (d ∷ s))
            (All-filter (λ x. before c x ≡ true) p (d ∷ s) (e, later)) in
        rw e (rw front refl)
    | inr e ↦ rw e (ground (arith, e, filter-insert_cursor c s h))
  ]

  -- Selecting and sorting commute.
  pub filter-order_by :
      (s : List Cursor) → HasDistinctKeys s → order_by (filter p s) ≡ filter p (order_by s)
  unfolding order_by
  filter-order_by [] h = refl
  filter-order_by (c ∷ s) (n, h) =
      ground
        (arith, filter-insert_cursor c (order_by s) (order_by-IsSorted s h), filter-order_by s h)

All-of_append :
    (P : Cursor → Type 0) (pre : List Cursor) (t : Cursor) (rest : List Cursor)
    → All P (pre ++ t ∷ rest)
    → P t
All-of_append P [] t rest (h, k) = h
All-of_append P (d ∷ pre) t rest (h, k) = All-of_append P pre t rest k

-- What comes after a cursor of a sorted list is the rest of the list behind it.
pub filter-before-rest :
    (pre : List Cursor) (t : Cursor) (rest : List Cursor)
    → IsSorted (pre ++ t ∷ rest)
    → filter (before t) (pre ++ t ∷ rest) ≡ rest
filter-before-rest [] t rest (b, h) = rw (before_irrefl t) (filter-All (before t) rest b)
filter-before-rest (d ∷ pre) t rest (b, h) =
    let earlier = All-of_append (λ x. before d x ≡ true) pre t rest b in
    rw (before-asym d t earlier) (filter-before-rest pre t rest h)
