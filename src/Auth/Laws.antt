-- ===== src/Auth/Laws.antt =====
-- What a header must hold to be accepted, and that the client's header is.
use ldk_server.Prelude.{
  ℕ, ◌+◌, ◌^◌, ◌≤◌, ◌<◌, ◌≡◌, refl, sym, if◌then◌else◌, ◌∙◌, ap, Bool, true, false, not, ◌&&◌,
  Option, none, some, List, [], ◌∷◌, ◌++◌, ok, err, ok_or-bind-eq_ok, opt_bind, ltb, leb, ◌==◌,
  length, all, all-append, arith, true-and,
}
use ldk_server.Text.{Text, lit, is_hex_digit, is_lower_hex}
use ldk_server.Text.Decimal.{show_nat, parse_unsigned, u64_max}
use ldk_server.Text.Decimal.Laws.{all-of_parse_unsigned, all-show_nat, parse_unsigned-show_nat}
use ldk_server.Text.Equality.{text_eq_iff, text_eq_refl}
use ldk_server.Text.Split.{
  strip_prefix, split_once, strip_prefix-append, strip_prefix-eq_some, split_once-append,
  split_once-eq_some,
}
use ldk_server.Api.Error.{LdkServerError, auth_error}
use ldk_server.Auth.{
  AuthParams, extract_auth_params, validate_hmac_auth, compute_auth_header, to_be_bytes,
  bad_hmac_hex,
}

-- Bytes that `HeaderValue::to_str` lets through.
abbrev pub is_visible : ℕ → Bool
is_visible c = leb 32 c && ltb c 127

-- The documented behaviour of `Hmac`'s `Display` and of `HeaderValue::to_str`.
pub record AuthLaws (hmac : Text → List ℕ → Text) (to_str : List ℕ → Option Text) : Type 0 where
  pub hmac_length : (k : Text) (m : List ℕ) → length (hmac k m) ≡ 64
  pub hmac_lower_hex : (k : Text) (m : List ℕ) → all is_lower_hex (hmac k m) ≡ true
  pub to_str_visible : (s : List ℕ) → all is_visible s ≡ true → to_str s ≡ some s

pub all_mono :
    (p q : ℕ → Bool)
    → ((c : ℕ) → p c ≡ true → q c ≡ true)
    → (s : Text) → all p s ≡ true
    → all q s ≡ true
all_mono p q f [] h = refl
all_mono p q f (c ∷ s) h = ground (arith, f c, all_mono p q f s)

module _ {hmac : Text → List ℕ → Text} {to_str : List ℕ → Option Text}
    (laws : AuthLaws hmac to_str) where
  hmac-ok : (k : Text) (m : List ℕ) → bad_hmac_hex (hmac k m) ≡ false
  hmac-ok k m = ground (
    arith,
    laws.hmac_length k m,
    all_mono is_lower_hex is_hex_digit (λ c h. ground arith) (hmac k m) (laws.hmac_lower_hex k m),
  )

  header-visible :
      (k : Text) (t : ℕ) (b : List ℕ) → all is_visible (compute_auth_header hmac k t b) ≡ true
  unfolding compute_auth_header lit
  header-visible k t b =
      let m = to_be_bytes t ++ b in
      let shown = all-show_nat is_visible t (λ c h. ground arith) in
      let hex =
        all_mono is_lower_hex is_visible (λ c h. ground arith) (hmac k m)
          (laws.hmac_lower_hex k m) in
      all-append is_visible (show_nat t) (b':' ∷ hmac k m) ∙ true-and _ _ shown hex

  -- The header that the client computes at a timestamp below 2^64 is read back by the server as that
  -- timestamp and its HMAC, if the printed HMAC and HeaderValue::to_str are as documented
  -- (AuthLaws).
  pub extract-compute :
      (k : Text) (t : ℕ) (b : List ℕ)
      → t < 2 ^ 64
      → extract_auth_params to_str (some (compute_auth_header hmac k t b))
        ≡ ok (record { timestamp = t; hmac_hex = hmac k (to_be_bytes t ++ b) })
  unfolding extract_auth_params
  extract-compute k t b h =
      let m = to_be_bytes t ++ b in
      let shown = all-show_nat (λ c. not (c == b':')) t (λ c e. ground arith) in
      rw (laws.to_str_visible _ (header-visible k t b)) (
        unfold compute_auth_header in
        rw strip_prefix-append (
          rw (split_once-append b':' (show_nat t) (hmac k m) shown)
            (rw (parse_unsigned-show_nat u64_max t (omega arith)) (rw (hmac-ok k m)))))

-- A header text that proves knowledge of the key for this body at this time: the timestamp as it
-- is written, a colon, and the HMAC of its eight bytes and the body, at most a minute off.
pub record IsAuthentic (hmac : Text → List ℕ → Text) (key : Text) (now : ℕ) (body : List ℕ)
    (header : Text) : Type 0 where
  pub timestamp_str : Text
  pub timestamp : ℕ
  pub parsed : parse_unsigned u64_max timestamp_str ≡ some timestamp
  pub written :
      header ≡ lit "HMAC " ++ (timestamp_str ++ (b':' ∷ hmac key (to_be_bytes timestamp ++ body)))
  pub early : now ≤ timestamp + 60
  pub late : timestamp ≤ now + 60

-- The inversions of the two functions.
checked_hex :
    (bad : Bool) (t : ℕ) (hex : Text) (e : LdkServerError) (p : AuthParams)
    → (if bad then err e else ok (record { timestamp = t; hmac_hex = hex })) ≡ ok p
    → (bad ≡ false) × (t ≡ p.timestamp) × (hex ≡ p.hmac_hex)
checked_hex true t hex e p h = cc
checked_hex false t hex e p h = ground arith

pub extract-eq_ok :
    (to_str : List ℕ → Option Text) (header : Option (List ℕ)) (p : AuthParams)
    → extract_auth_params to_str header ≡ ok p
    → (text : Text) × (str : Text) × (opt_bind header to_str ≡ some text)
      × (text ≡ lit "HMAC " ++ (str ++ (b':' ∷ p.hmac_hex)))
      × (parse_unsigned u64_max str ≡ some p.timestamp)
      × (bad_hmac_hex p.hmac_hex ≡ false)
unfolding extract_auth_params
extract-eq_ok to_str header p h =
    let (text, e1, h1) = ok_or-bind-eq_ok (opt_bind header to_str) _ _ h in
    let (rest, e2, h2) = ok_or-bind-eq_ok (strip_prefix (lit "HMAC ") text) _ _ h1 in
    let (parts, e3, h3) = ok_or-bind-eq_ok (split_once b':' rest) _ _ h2 in
    let (t, e4, h4) = ok_or-bind-eq_ok (parse_unsigned u64_max parts.0) _ _ h3 in
    let (good, same_t, same_hex) = checked_hex (bad_hmac_hex parts.1) t parts.1 _ p h4 in
    (
      text,
      parts.0,
      e1,
      cc (
        strip_prefix-eq_some (lit "HMAC ") text rest e2,
        split_once-eq_some b':' rest parts.0 parts.1 e3,
      ),
      e4 ∙ ap some same_t,
      ap bad_hmac_hex (sym same_hex) ∙ good,
    )

pub validate-eq_ok :
    (hmac : Text → List ℕ → Text) (now : Option ℕ) (t : ℕ) (hex : Text) (body : List ℕ) (key : Text)
    → validate_hmac_auth hmac now t hex body key ≡ ok tt
    → (n : ℕ) × (now ≡ some n)
      × (n ≤ t + 60)
      × (t ≤ n + 60)
      × (hmac key (to_be_bytes t ++ body) ≡ hex)
unfolding validate_hmac_auth
validate-eq_ok hmac none t hex body key h = cc
validate-eq_ok hmac (some n) t hex body key h = (
  n,
  refl,
  ground arith,
  ground arith,
  ground (arith, text_eq_iff (hmac key (to_be_bytes t ++ body)) hex),
)

pub validate-ok :
    (hmac : Text → List ℕ → Text) (n t : ℕ) (body : List ℕ) (key : Text)
    → n ≤ t + 60
    → t ≤ n + 60
    → validate_hmac_auth hmac (some n) t (hmac key (to_be_bytes t ++ body)) body key ≡ ok tt
unfolding validate_hmac_auth
validate-ok hmac n t body key h k = ground (arith, text_eq_refl (hmac key (to_be_bytes t ++ body)))

-- A header that extract_auth_params reads and validate_hmac_auth accepts for a body is the text
-- HMAC, a timestamp within a minute of the server's clock, a colon and the HMAC under the key of the
-- timestamp's eight bytes and the body.
pub accepted-IsAuthentic :
    {hmac : Text → List ℕ → Text} (to_str : List ℕ → Option Text) (header : Option (List ℕ))
    (p : AuthParams) (now : Option ℕ) (body : List ℕ) (key : Text)
    → extract_auth_params to_str header ≡ ok p
    → validate_hmac_auth hmac now p.timestamp p.hmac_hex body key ≡ ok tt
    → (n : ℕ) × (text : Text) × (now ≡ some n)
      × (opt_bind header to_str ≡ some text)
      × IsAuthentic hmac key n body text
accepted-IsAuthentic {hmac} to_str header p now body key e v =
    let (text, str, read, written, parsed, good) = extract-eq_ok to_str header p e in
    let (n, clock, early, late, same) = validate-eq_ok hmac now p.timestamp p.hmac_hex body key v in
    (
      n,
      text,
      clock,
      read,
      record {
        timestamp_str = str;
        timestamp = p.timestamp;
        parsed = parsed;
        written = written ∙ ap (λ (hex : Text). lit "HMAC " ++ (str ++ (b':' ∷ hex))) (sym same);
        early = early;
        late = late;
      },
    )

-- A readable header that is authentic for a key, a body and a clock is accepted by both checks, if
-- the printed HMAC is as documented (AuthLaws), for every spelling of the timestamp that u64 parses.
pub IsAuthentic-accepted :
    {hmac : Text → List ℕ → Text} {to_str : List ℕ → Option Text} (laws : AuthLaws hmac to_str)
    (header : Option (List ℕ)) (text : Text) (n : ℕ) (body : List ℕ) (key : Text)
    → opt_bind header to_str ≡ some text
    → IsAuthentic hmac key n body text
    → (p : AuthParams) × (extract_auth_params to_str header ≡ ok p)
      × (validate_hmac_auth hmac (some n) p.timestamp p.hmac_hex body key ≡ ok tt)
IsAuthentic-accepted {hmac} {to_str} laws header text n body key read a =
    let hex = hmac key (to_be_bytes a.timestamp ++ body) in
    let free =
      all-of_parse_unsigned (λ c. not (c == b':')) u64_max a.timestamp a.timestamp_str
        (λ c d. ground arith) refl a.parsed in
    (
      record { timestamp = a.timestamp; hmac_hex = hex },
      unfold extract_auth_params in
          rw read (
            rw a.written (
              rw strip_prefix-append (
                rw (split_once-append b':' a.timestamp_str hex free)
                  (rw a.parsed (rw (hmac-ok laws key (to_be_bytes a.timestamp ++ body))))))),
      validate-ok hmac n a.timestamp body key a.early a.late,
    )

-- Both functions fail with `AuthError` only.
pub extract-eq_err :
    (to_str : List ℕ → Option Text) (header : Option (List ℕ)) (e : LdkServerError)
    → extract_auth_params to_str header ≡ err e
    → e.error_code ≡ auth_error
unfolding extract_auth_params
extract-eq_err to_str header e h = ground arith

pub validate-eq_err :
    (hmac : Text → List ℕ → Text) (now : Option ℕ) (t : ℕ) (hex : Text) (body : List ℕ) (key : Text)
    (e : LdkServerError)
    → validate_hmac_auth hmac now t hex body key ≡ err e
    → e.error_code ≡ auth_error
unfolding validate_hmac_auth
validate-eq_err hmac none t hex body key e h = ground arith
validate-eq_err hmac (some n) t hex body key e h = ground arith
