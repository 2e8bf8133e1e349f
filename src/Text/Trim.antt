-- ===== src/Text/Trim.antt =====
-- `str::trim`: the characters of Unicode's White_Space at both ends, as their UTF-8 bytes.
use ldk_server.Prelude.{
  ℕ, zero, suc, ◌≡◌, refl, Option, none, some, List, [], ◌∷◌, ◌++◌, length, map, or_else,
}
use ldk_server.Text.Basic.{Text}
use ldk_server.Text.Split.{strip_prefix}

abbrev pub white_space : List Text
white_space =
    (9 ∷ [])
    ∷ (10 ∷ [])
    ∷ (11 ∷ [])
    ∷ (12 ∷ [])
    ∷ (13 ∷ [])
    ∷ (32 ∷ [])
    ∷ (194 ∷ 133 ∷ [])
    ∷ (194 ∷ 160 ∷ [])
    ∷ (225 ∷ 154 ∷ 128 ∷ [])
    ∷ (226 ∷ 128 ∷ 128 ∷ [])
    ∷ (226 ∷ 128 ∷ 129 ∷ [])
    ∷ (226 ∷ 128 ∷ 130 ∷ [])
    ∷ (226 ∷ 128 ∷ 131 ∷ [])
    ∷ (226 ∷ 128 ∷ 132 ∷ [])
    ∷ (226 ∷ 128 ∷ 133 ∷ [])
    ∷ (226 ∷ 128 ∷ 134 ∷ [])
    ∷ (226 ∷ 128 ∷ 135 ∷ [])
    ∷ (226 ∷ 128 ∷ 136 ∷ [])
    ∷ (226 ∷ 128 ∷ 137 ∷ [])
    ∷ (226 ∷ 128 ∷ 138 ∷ [])
    ∷ (226 ∷ 128 ∷ 168 ∷ [])
    ∷ (226 ∷ 128 ∷ 169 ∷ [])
    ∷ (226 ∷ 128 ∷ 175 ∷ [])
    ∷ (226 ∷ 129 ∷ 159 ∷ [])
    ∷ (227 ∷ 128 ∷ 128 ∷ [])
    ∷ []

-- The text behind the first of these characters that it begins with.
abbrev strip_any : List Text → Text → Option Text
strip_any [] s = none
strip_any (c ∷ cs) s = or_else (strip_prefix c s) (strip_any cs s)

-- On fuel: a character has a byte at least.
unfoldable pub strip_all : ℕ → List Text → Text → Text
strip_all zero cs s = s
strip_all (suc fuel) cs s = elim (strip_any cs s) [ none ↦ s | some r ↦ strip_all fuel cs r ]

abbrev backwards : Text → Text
backwards [] = []
backwards (b ∷ s) = backwards s ++ (b ∷ [])

unfoldable pub trim : Text → Text
trim s =
    let front = strip_all (length s) white_space s in
    backwards (strip_all (length front) (map backwards white_space) (backwards front))

spaces_trimmed : trim (32 ∷ 9 ∷ 97 ∷ 32 ∷ 98 ∷ 226 ∷ 128 ∷ 128 ∷ 10 ∷ []) ≡ 97 ∷ 32 ∷ 98 ∷ []
unfolding trim strip_all strip_prefix
spaces_trimmed = refl
