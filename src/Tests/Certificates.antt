-- ===== src/Tests/Certificates.antt =====
-- A small base64, and a disk with no files and no faults.
use native.Mathlib.Nat.{add-zero, zero-add}
use ldk_server.Prelude.{
  ℕ, zero, suc, ◌+◌, ◌≡◌, refl, ap, ◌∙◌, inl, true, false, none, some, List, [], ◌∷◌, ◌++◌, Result,
  ok, err, if◌then◌else◌, ◌==◌, all, arith,
}
use ldk_server.Text.{Text, lit, text_eq}
use ldk_server.Text.Find.{find, lines, split_text}
use ldk_server.Files.{Files, Disk}
use ldk_server.Tls.{Rustls, get_or_generate_tls_config}
use ldk_server.Tls.Pem.{Base64, parse_pem_certs, parse_pem_private_key, pem_key_end, pem_key_begin}
use ldk_server.Tls.RoundTrip.{chain_pem, parse_pem_certs-chain_pem}
use ldk_server.Tls.Content.{Base64Laws, is_base64}
use ldk_server.Tls.Start.{
  with_pair, get_or_generate_tls_config-again, get_or_generate_tls_config-first,
}

-- `n` times the letter A in front of a text
abbrev tally : ℕ → Text → Text
tally zero t = t
tally (suc n) t = b'A' ∷ tally n t

-- Every number in unary, closed by the letter B.
abbrev unary : Text → Text
unary [] = []
unary (n ∷ t) = tally n (b'B' ∷ unary t)

abbrev read_unary : ℕ → Text → Text
read_unary n [] = []
read_unary n (c ∷ t) = if c == b'A' then read_unary (suc n) t else n ∷ read_unary 0 t

abbrev toy64 : Base64
toy64 = record { encode = unary; decode = λ t. ok (read_unary 0 t) }

read_unary-tally : (n k : ℕ) (t : Text) → read_unary k (tally n t) ≡ read_unary (k + n) t
read_unary-tally zero k t = rw add-zero
read_unary-tally (suc n) k t = read_unary-tally n (suc k) t ∙ ap (λ m. read_unary m t) (omega arith)

read_unary-unary : (t : Text) → read_unary 0 (unary t) ≡ t
read_unary-unary [] = refl
read_unary-unary (n ∷ t) =
    read_unary-tally n 0 (b'B' ∷ unary t) ∙ rw zero-add (ap (λ r. n ∷ r) (read_unary-unary t))

all-tally : (n : ℕ) (t : Text) → all is_base64 t ≡ true → all is_base64 (tally n t) ≡ true
all-tally zero t h = h
all-tally (suc n) t h = all-tally n t h

all-unary : (t : Text) → all is_base64 (unary t) ≡ true
all-unary [] = refl
all-unary (n ∷ t) = all-tally n (b'B' ∷ unary t) (all-unary t)

toy64-Base64Laws : Base64Laws toy64
toy64-Base64Laws = record {
  decode_encode = λ der. ap ok (read_unary-unary der);
  encode_alphabet = all-unary;
}

abbrev rustls : Rustls (List Text)
rustls = record { io_error = λ e. e.message; with_single_cert = λ certs key. ok (key ∷ certs) }

abbrev pub sound_disk : Disk
sound_disk = record {
  exists_fault = λ q. false;
  read_fault = λ q. none;
  write_fault = λ q bytes. none;
}

abbrev pub no_files : Files
no_files = λ q. none

lines_example_lem : lines (lit "a\r\nb\n\nc") ≡ lit "a" ∷ lit "b" ∷ [] ∷ lit "c" ∷ []
unfolding lines lit
lines_example_lem = refl

split_text_twice : split_text (lit "--") (lit "a---b--") ≡ lit "a" ∷ lit "-b" ∷ [] ∷ []
unfolding lit
split_text_twice = unfold ldk_server.Text.Find.split_from ldk_server.Text.Split.strip_prefix in refl

parse_pem_certs-chain_pem_example :
    parse_pem_certs toy64 (chain_pem toy64 toy64-Base64Laws ((1 ∷ 2 ∷ []) ∷ (3 ∷ []) ∷ []))
    ≡ ok ((1 ∷ 2 ∷ []) ∷ (3 ∷ []) ∷ [])
parse_pem_certs-chain_pem_example =
    parse_pem_certs-chain_pem toy64 toy64-Base64Laws ((1 ∷ 2 ∷ []) ∷ (3 ∷ []) ∷ [])

get_or_generate_tls_config-first_example :
    get_or_generate_tls_config toy64 rustls sound_disk
      (λ hosts. ok (1 ∷ [], 2 ∷ []))
      none
      (lit "d")
      no_files
    ≡ (
      some (ok ((2 ∷ []) ∷ (1 ∷ []) ∷ [])),
      with_pair toy64 rustls sound_disk
          (lit "d/tls.crt")
          (lit "d/tls.key")
          (1 ∷ [])
          (2 ∷ [])
          no_files,
    )
unfolding lit
get_or_generate_tls_config-first_example =
    get_or_generate_tls_config-first toy64 rustls sound_disk toy64-Base64Laws
      (λ hosts. ok (1 ∷ [], 2 ∷ [])) none (lit "d") no_files (1 ∷ []) (2 ∷ [])
      ((2 ∷ []) ∷ (1 ∷ []) ∷ [])
      (record { cert_read = refl; key_read = refl; cert_write = λ b. refl; key_write = λ b. refl })
      (unfold text_eq in refl) (inl refl) refl refl

abbrev first_generator : List Text → Result (Text × Text) Text
first_generator hosts = ok (1 ∷ [], 2 ∷ [])

-- The second start's generator would fail.
get_or_generate_tls_config-again_example :
    let first =
      get_or_generate_tls_config toy64 rustls sound_disk first_generator none (lit "d") no_files in
    get_or_generate_tls_config toy64 rustls sound_disk (λ hosts. err []) none (lit "d") first.1
    ≡ first
get_or_generate_tls_config-again_example =
    get_or_generate_tls_config-again toy64 rustls sound_disk first_generator (λ hosts. err []) none
      (lit "d") no_files ((2 ∷ []) ∷ (1 ∷ []) ∷ []) (refl, refl)
      (ap (λ p. p.0) get_or_generate_tls_config-first_example)

-- An end marker in front of the begin marker makes the slice panic.
swapped_panics : parse_pem_private_key toy64 (pem_key_end ++ pem_key_begin) ≡ none
unfolding parse_pem_private_key lit find
swapped_panics = unfold ldk_server.Text.Find.slice ldk_server.Text.Split.strip_prefix in refl
