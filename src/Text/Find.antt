-- ===== src/Text/Find.antt =====
-- `find`, `split` and `starts_with` of `str` at a separator of several bytes, slices, and `lines`,
-- `chunks` and `join`, with what the PEM files need of them.
use ldk_server.Prelude.{
  ℕ, zero, suc, ◌+◌, ◌-◌, ◌≡◌, refl, ap, Bool, true, false, ◌&&◌, Option, none, some, List, [], ◌∷◌,
  ◌++◌, if◌then◌else◌, ◌==◌, leb, length, take, drop, opt_map, is_some, arith, length-append,
  le→leb,
}
use native.Mathlib.Nat.{zero-add}
use ldk_server.Text.Basic.{Text}
use ldk_server.Text.Split.{strip_prefix, push_front, lacks}

abbrev pub starts_with : Text → Text → Bool
starts_with p s = is_some (strip_prefix p s)

-- The offset of the first occurrence.
unfoldable pub find : Text → Text → Option ℕ
find p [] = if starts_with p [] then some 0 else none
find p (b ∷ s) = elim (strip_prefix p (b ∷ s)) [ some r ↦ some 0 | none ↦ opt_map suc (find p s) ]

-- `split` at a text that is not empty; `k` bytes of an occurrence are still to be skipped.
unfoldable pub split_from : Text → ℕ → Text → List Text
split_from p k [] = [] ∷ []
split_from p (suc k) (b ∷ s) = split_from p k s
split_from p zero (b ∷ s) = elim (strip_prefix p (b ∷ s)) [
  | some r ↦ [] ∷ split_from p (length p - 1) s
  | none ↦ push_front b (split_from p 0 s)
]

abbrev pub split_text : Text → Text → List Text
split_text p s = split_from p 0 s

-- `&s[from..to]`, which panics if the range is not one of the text
unfoldable pub slice : ℕ → ℕ → Text → Option Text
slice from to s =
    if leb from to && leb to (length s) then some (take (to - from) (drop from s)) else none

abbrev begins_with_newline : Text → Bool
begins_with_newline [] = false
begins_with_newline (b ∷ s) = b == b'\n'

-- `str::lines`: a line ends at a line feed, or at a carriage return and a line feed.
unfoldable pub lines : Text → List Text
lines [] = []
lines (b ∷ s) =
    let rest = lines s in
    if b == b'\n'
    then [] ∷ rest
    else if b == b'\r' && begins_with_newline s
    then rest
    else push_front b rest

unfoldable pub concat : List Text → Text
concat [] = []
concat (t ∷ ts) = t ++ concat ts

-- `slice::chunks`, on fuel: a chunk takes a byte at least.
unfoldable pub chunks_on : ℕ → ℕ → Text → List Text
chunks_on zero n s = []
chunks_on (suc fuel) n [] = []
chunks_on (suc fuel) n (b ∷ s) = take n (b ∷ s) ∷ chunks_on fuel n (drop n (b ∷ s))

abbrev pub chunks : ℕ → Text → List Text
chunks n s = chunks_on (length s) n s

unfoldable pub join : Text → List Text → Text
join sep [] = []
join sep (t ∷ []) = t
join sep (t ∷ u ∷ us) = t ++ (sep ++ join sep (u ∷ us))

-- A byte that is not the separator's first one begins no occurrence.
pub split_text-lacks :
    (c : ℕ) (p s rest piece : Text) (pieces : List Text)
    → lacks c s ≡ true
    → split_text (c ∷ p) rest ≡ piece ∷ pieces
    → split_text (c ∷ p) (s ++ rest) ≡ (s ++ piece) ∷ pieces
unfolding split_from strip_prefix
split_text-lacks c p [] rest piece pieces l h = h
split_text-lacks c p (b ∷ s) rest piece pieces l h =
    ground (arith, split_text-lacks c p s rest piece pieces)

pub find-lacks :
    (c : ℕ) (p s rest : Text) (n : ℕ)
    → lacks c s ≡ true
    → find (c ∷ p) rest ≡ some n
    → find (c ∷ p) (s ++ rest) ≡ some (length s + n)
unfolding find strip_prefix
find-lacks c p [] rest n l h = rw zero-add h
find-lacks c p (b ∷ s) rest n l h = ground (arith, find-lacks c p s rest n)

pub lines-append :
    (s rest : Text)
    → lacks b'\n' s ≡ true
    → lacks b'\r' s ≡ true
    → lines (s ++ b'\n' ∷ rest) ≡ s ∷ lines rest
unfolding lines
lines-append [] rest f r = refl
lines-append (b ∷ s) rest f r = ground (arith, lines-append s rest)

pub drop-length : (a z : Text) → drop (length a) (a ++ z) ≡ z
drop-length [] z = refl
drop-length (b ∷ a) z = drop-length a z

pub take-length : (a z : Text) → take (length a) (a ++ z) ≡ a
take-length [] z = refl
take-length (b ∷ a) z = ap (λ t. b ∷ t) (take-length a z)

-- The middle of a text is the slice between the two lengths.
pub slice-middle : (a m z : Text) → slice (length a) (length a + length m) (a ++ (m ++ z)) ≡ some m
unfolding slice
slice-middle a m z =
    let size = length-append a (m ++ z) in
    let size' = length-append m z in
    rw (
      le→leb (length a) (length a + length m) (omega arith),
      le→leb (length a + length m) (length (a ++ (m ++ z))) (omega (arith, size, size')),
      width,
      drop-length a (m ++ z),
      take-length m z,
    )
  where
    width : length a + length m - length a ≡ length m
    width = omega arith
