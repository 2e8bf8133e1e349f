-- ===== src/Text/Split.antt =====
-- `strip_prefix`, `split_once` and `split` of `str`, at a one-byte separator.
use ldk_server.Prelude.{
  ℕ, ◌≡◌, refl, Bool, true, not, Option, none, some, List, [], ◌∷◌, ◌++◌, all, ◌==◌, if◌then◌else◌,
  opt_map, arith, ==_refl,
}
use ldk_server.Text.Basic.{Text}

unfoldable pub strip_prefix : Text → Text → Option Text
strip_prefix [] s = some s
strip_prefix (a ∷ p) [] = none
strip_prefix (a ∷ p) (b ∷ s) = if a == b then strip_prefix p s else none

-- The first occurrence of the separator splits the text.
unfoldable pub split_once : ℕ → Text → Option (Text × Text)
split_once c [] = none
split_once c (b ∷ s) =
    if b == c then some ([], s) else opt_map (λ (p : Text × Text). (b ∷ p.0, p.1)) (split_once c s)

-- One more byte in front of the first piece.
abbrev pub push_front : ℕ → List Text → List Text
push_front b [] = (b ∷ []) ∷ []
push_front b (t ∷ ts) = (b ∷ t) ∷ ts

unfoldable pub split : ℕ → Text → List Text
split c [] = [] ∷ []
split c (b ∷ s) = if b == c then [] ∷ split c s else push_front b (split c s)

-- The text has no byte `c`.
abbrev pub lacks : ℕ → Text → Bool
lacks c s = all (λ b. not (b == c)) s

pub strip_prefix-append : (p s : Text) → strip_prefix p (p ++ s) ≡ some s
unfolding strip_prefix
strip_prefix-append [] s = refl
strip_prefix-append (a ∷ p) s = rw (==_refl a) (strip_prefix-append p s)

pub strip_prefix-eq_some : (p s r : Text) → strip_prefix p s ≡ some r → s ≡ p ++ r
unfolding strip_prefix
strip_prefix-eq_some [] s r h = cc
strip_prefix-eq_some (a ∷ p) [] r h = cc
strip_prefix-eq_some (a ∷ p) (b ∷ s) r h = ground (arith, strip_prefix-eq_some p s r)

pub split_once-append :
    (c : ℕ) (a b : Text) → lacks c a ≡ true → split_once c (a ++ c ∷ b) ≡ some (a, b)
unfolding split_once
split_once-append c [] b h = rw (==_refl c)
split_once-append c (x ∷ a) b h = ground (arith, split_once-append c a b)

pub split_once-eq_some : (c : ℕ) (s a b : Text) → split_once c s ≡ some (a, b) → s ≡ a ++ c ∷ b
unfolding split_once
split_once-eq_some c [] a b h = cc
split_once-eq_some c (x ∷ s) [] b h = ground arith
split_once-eq_some c (x ∷ s) (y ∷ a) b h = ground (arith, split_once-eq_some c s a b)

pub split-lacks : (c : ℕ) (a : Text) → lacks c a ≡ true → split c a ≡ a ∷ []
unfolding split
split-lacks c [] h = refl
split-lacks c (x ∷ a) h = ground (arith, split-lacks c a)

pub split-append : (c : ℕ) (a b : Text) → lacks c a ≡ true → split c (a ++ c ∷ b) ≡ a ∷ split c b
unfolding split
split-append c [] b h = rw (==_refl c)
split-append c (x ∷ a) b h = ground (arith, split-append c a b)
