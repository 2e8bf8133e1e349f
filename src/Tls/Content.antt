-- ===== src/Tls/Content.antt =====
-- The lines between the markers of a PEM file, as ldk-server/src/util/tls.rs prints and reads them.
use ldk_server.Prelude.{
  append-nil, ltb, ap, sym, ℕ, suc, zero, ◌≡◌, refl, ap, ◌∙◌, Bool, true, false, not, ◌&&◌, ◌||◌,
  List, [], ◌∷◌, ◌++◌, ok, ◌==◌, leb, length, take, drop, all, all-append, All, arith, append_assoc,
  inl, inr, Bool-cases, ==_iff, and-true, true-and, leb→le, le→leb, take-append-drop,
  length-drop-le,
}
use ldk_server.Text.{Text, lit, is_empty, is_digit}
use ldk_server.Text.Split.{strip_prefix, lacks}
use ldk_server.Text.Find.{lines, concat, chunks_on, chunks, join, lines-append}
use ldk_server.Text.Utf8.{is_utf8, is_utf8-ascii}
use ldk_server.Tls.Pem.{Base64, is_content, base64_content, to_pem}

-- the alphabet of standard base64, with the padding
abbrev pub is_base64 : ℕ → Bool
is_base64 c =
    is_digit c
    || leb b'a' c && leb c b'z'
    || leb b'A' c && leb c b'Z'
    || c == b'+'
    || c == b'/'
    || c == b'='

-- What base64 is documented to do.
pub record Base64Laws (b64 : Base64) : Type 0 where
  pub decode_encode : (der : Text) → b64.decode (b64.encode der) ≡ ok der
  pub encode_alphabet : (der : Text) → all is_base64 (b64.encode der) ≡ true

-- A line of a PEM file, as it is printed.
abbrev IsLine : Text → Type 0
IsLine t = (all is_base64 t ≡ true) × (is_empty t ≡ false)

is_base64-ne : (c x : ℕ) → is_base64 c ≡ false → is_base64 x ≡ true → not (x == c) ≡ true
is_base64-ne c x b h = elim (Bool-cases (x == c)) [
  | inl e ↦ cc (h, b, (==_iff x c).0 e)
  | inr e ↦ rw e
]

abbrev is_ascii : Text → Bool
is_ascii t = all (λ b. ltb b 128) t

is_ascii-base64 : (t : Text) → all is_base64 t ≡ true → is_ascii t ≡ true
is_ascii-base64 [] h = refl
is_ascii-base64 (x ∷ t) h = ground (arith, h, is_ascii-base64 t)

lacks-all : (c : ℕ) (t : Text) → is_base64 c ≡ false → all is_base64 t ≡ true → lacks c t ≡ true
lacks-all c [] b h = refl
lacks-all c (x ∷ t) b h =
    let (first, rest) = and-true (is_base64 x) (all is_base64 t) h in
    true-and (not (x == c)) (lacks c t) (is_base64-ne c x b first) (lacks-all c t b rest)

all-take : (n : ℕ) (t : Text) → all is_base64 t ≡ true → all is_base64 (take n t) ≡ true
all-take zero t h = refl
all-take (suc n) [] h = refl
all-take (suc n) (x ∷ t) h = ground (arith, all-take n t)

all-drop : (n : ℕ) (t : Text) → all is_base64 t ≡ true → all is_base64 (drop n t) ≡ true
all-drop zero t h = h
all-drop (suc n) [] h = refl
all-drop (suc n) (x ∷ t) h = ground (arith, all-drop n t)

chunks_on-IsLine : (fuel : ℕ) (t : Text) → all is_base64 t ≡ true → All IsLine (chunks_on fuel 64 t)
unfolding chunks_on
chunks_on-IsLine zero t h = tt
chunks_on-IsLine (suc fuel) [] h = tt
chunks_on-IsLine (suc fuel) (x ∷ t) h =
    ((all-take 64 (x ∷ t) h, refl), chunks_on-IsLine fuel (drop 63 t) (all-drop 64 (x ∷ t) h))

concat-chunks_on :
    (fuel : ℕ) (t : Text) → leb (length t) fuel ≡ true → concat (chunks_on fuel 64 t) ≡ t
unfolding chunks_on concat
concat-chunks_on zero [] h = refl
concat-chunks_on zero (x ∷ t) h = ground arith
concat-chunks_on (suc fuel) [] h = refl
concat-chunks_on (suc fuel) (x ∷ t) h =
    ap (λ r. x ∷ take 63 t ++ r) (concat-chunks_on fuel (drop 63 t) (enough h))
    ∙ ap (λ r. x ∷ r) (take-append-drop 63 t)
  where
    enough : leb (suc (length t)) (suc fuel) ≡ true → leb (length (drop 63 t)) fuel ≡ true
    enough k =
        let short = length-drop-le 63 t in
        let long = leb→le (suc (length t)) (suc fuel) k in
        le→leb (length (drop 63 t)) fuel (omega (arith, short, long))

is_content-IsLine : (t : Text) → IsLine t → is_content t ≡ true
unfolding strip_prefix lit
is_content-IsLine [] (h, n) = cc n
is_content-IsLine (x ∷ t) (h, n) =
    let (first, rest) = and-true (is_base64 x) (all is_base64 t) h in
    rw (not_dash (is_base64-ne b'-' x refl first))
  where
    not_dash : not (x == b'-') ≡ true → (b'-' == x) ≡ false
    not_dash e = ground arith

abbrev pub newline : Text
newline = b'\n' ∷ []

lines-IsLine : (t rest : Text) → IsLine t → lines (t ++ b'\n' ∷ rest) ≡ t ∷ lines rest
lines-IsLine t rest (h, n) =
    lines-append t rest (lacks-all b'\n' t refl h) (lacks-all b'\r' t refl h)

content-join :
    (ts : List Text) → All IsLine ts → base64_content (join newline ts ++ newline) ≡ concat ts
unfolding base64_content join concat strip_prefix lit
content-join [] h = unfold lines in refl
content-join (t ∷ []) (l, h) =
    rw (lines-IsLine t [] l, is_content-IsLine t l) (unfold lines in refl)
content-join (t ∷ u ∷ us) (l, h) =
    rw (append_assoc, lines-IsLine t (join newline (u ∷ us) ++ newline) l, is_content-IsLine t l)
      (ap (λ r. t ++ r) (content-join (u ∷ us) h))

pub lacks-join : (ts : List Text) → All IsLine ts → lacks b'-' (join newline ts) ≡ true
unfolding join
lacks-join [] h = refl
lacks-join (t ∷ []) ((l, n), h) = lacks-all b'-' t refl l
lacks-join (t ∷ u ∷ us) ((l, n), h) =
    all-append (λ b. not (b == b'-')) t (newline ++ join newline (u ∷ us))
    ∙ rw (lacks-all b'-' t refl l, lacks-join (u ∷ us) h)

content_skip : (t : Text) → base64_content (b'\n' ∷ t) ≡ base64_content t
unfolding base64_content lines strip_prefix lit
content_skip t = refl

module _ (b64 : Base64) where
  abbrev pub body : Text → Text
  body der = join newline (chunks 64 (b64.encode der))

  -- what stands between the markers
  abbrev pub block : Text → Text
  block der = b'\n' ∷ (body der ++ newline)

  pub to_pem-append :
      (begin end der rest : Text)
      → to_pem b64 begin end der ++ rest ≡ begin ++ (block der ++ (end ++ b'\n' ∷ rest))
  unfolding to_pem
  to_pem-append begin end der rest = simp append_assoc

  module _ (laws : Base64Laws b64) where
    pub body-IsLine : (der : Text) → All IsLine (chunks 64 (b64.encode der))
    body-IsLine der =
        chunks_on-IsLine (length (b64.encode der)) (b64.encode der) (laws.encode_alphabet der)

    pub content-block : (der : Text) → base64_content (block der) ≡ b64.encode der
    content-block der =
        content_skip (body der ++ newline)
        ∙ content-join (chunks 64 (b64.encode der)) (body-IsLine der)
        ∙ concat-chunks_on (length (b64.encode der)) (b64.encode der)
            (le→leb (length (b64.encode der)) (length (b64.encode der)) (omega arith))

    is_ascii-join : (ts : List Text) → All IsLine ts → is_ascii (join newline ts) ≡ true
    unfolding join
    is_ascii-join [] h = refl
    is_ascii-join (t ∷ []) ((l, n), h) = is_ascii-base64 t l
    is_ascii-join (t ∷ u ∷ us) ((l, n), h) =
        all-append (λ b. ltb b 128) t (newline ++ join newline (u ∷ us))
        ∙ rw (is_ascii-base64 t l, is_ascii-join (u ∷ us) h)

    -- A PEM file is ASCII, and so is it read as text.
    pub is_utf8-to_pem :
        (begin end der : Text)
        → is_ascii begin ≡ true
        → is_ascii end ≡ true
        → is_utf8 (to_pem b64 begin end der) ≡ true
    is_utf8-to_pem begin end der first last = is_utf8-ascii (to_pem b64 begin end der) (
        ap is_ascii (sym (append-nil (to_pem b64 begin end der)) ∙ to_pem-append begin end der [])
        ∙ all-append (λ b. ltb b 128) begin (block der ++ (end ++ newline))
        ∙ rw (
          first,
          all-append (λ b. ltb b 128) (body der ++ newline) (end ++ newline),
          all-append (λ b. ltb b 128) (body der) newline,
          is_ascii-join (chunks 64 (b64.encode der)) (body-IsLine der),
          all-append (λ b. ltb b 128) end newline,
          last,
        ))
