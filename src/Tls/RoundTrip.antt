-- ===== src/Tls/RoundTrip.antt =====
-- What is printed as PEM is read back, for ldk-server/src/util/tls.rs.
use native.Mathlib.Nat.{zero-add}
use ldk_server.Prelude.{
  ℕ, ◌+◌, ◌≡◌, refl, sym, ap, ◌∙◌, Bool, true, false, some, List, [], ◌∷◌, ◌++◌, ok, ◌>>=◌, map_err,
  length, arith, append_assoc, append-nil, length-append,
}
use ldk_server.Text.{Text, lit}
use ldk_server.Text.Split.{strip_prefix}
use ldk_server.Text.Find.{
  find, split_from, split_text, slice, chunks, split_text-lacks, slice-middle, find-lacks,
}
use ldk_server.Tls.Pem.{
  Base64, pem_cert_begin, pem_cert_end, pem_key_begin, pem_key_end, base64_content, parse_blocks,
  parse_pem_certs, parse_pem_private_key, to_pem,
}
use ldk_server.Tls.Content.{
  Base64Laws, newline, lacks-join, body, block, to_pem-append, body-IsLine, content-block,
}

module _ (b64 : Base64) (laws : Base64Laws b64) where
  abbrev lead : Bool → Text
  lead true = newline
  lead false = []

  split-begin :
      (b : Bool) (t piece : Text) (pieces : List Text)
      → split_text pem_cert_end t ≡ piece ∷ pieces
      → split_text pem_cert_end (lead b ++ (pem_cert_begin ++ b'\n' ∷ t))
        ≡ (lead b ++ (pem_cert_begin ++ b'\n' ∷ piece)) ∷ pieces
  unfolding split_from strip_prefix lit
  split-begin true t piece pieces h = rw h
  split-begin false t piece pieces h = rw h

  split-end :
      (rest : Text)
      → split_text pem_cert_end (newline ++ (pem_cert_end ++ rest))
        ≡ newline ∷ split_text pem_cert_end rest
  unfolding split_from strip_prefix lit
  split-end rest = refl

  split-block :
      (b : Bool) (der rest : Text)
      → split_text pem_cert_end
          (lead b ++ (pem_cert_begin ++ (block b64 der ++ (pem_cert_end ++ rest))))
        ≡ (lead b ++ (pem_cert_begin ++ block b64 der)) ∷ split_text pem_cert_end rest
  split-block b der rest =
      split-begin b ((body b64 der ++ newline) ++ (pem_cert_end ++ rest)) (body b64 der ++ newline)
        (split_text pem_cert_end rest) (rw append_assoc after_body)
    where
      after_body :
          split_text pem_cert_end (body b64 der ++ (newline ++ (pem_cert_end ++ rest)))
          ≡ (body b64 der ++ newline) ∷ split_text pem_cert_end rest
      after_body =
          unfold lit in
          split_text-lacks b'-' _ (body b64 der) _ newline _
            (lacks-join (chunks 64 (b64.encode der)) (body-IsLine b64 laws der)) (split-end rest)

  parse-block :
      (b : Bool) (der : Text) (blocks : List Text)
      → parse_blocks b64 ((lead b ++ (pem_cert_begin ++ block b64 der)) ∷ blocks)
        ≡ (parse_blocks b64 blocks >>= λ certs. ok (der ∷ certs))
  unfolding parse_blocks find strip_prefix lit
  parse-block true der blocks = rw (content-block b64 laws der, laws.decode_encode der)
  parse-block false der blocks = rw (content-block b64 laws der, laws.decode_encode der)

  -- a certificate file with these certificates
  abbrev pub chain_pem : List Text → Text
  chain_pem [] = []
  chain_pem (der ∷ ders) = to_pem b64 pem_cert_begin pem_cert_end der ++ chain_pem ders

  parse-chain :
      (b : Bool) (ders : List Text)
      → parse_blocks b64 (split_text pem_cert_end (lead b ++ chain_pem ders)) ≡ ok ders
  parse-chain true [] = unfold parse_blocks find strip_prefix lit split_from in refl
  parse-chain false [] = unfold parse_blocks find strip_prefix lit split_from in refl
  parse-chain b (der ∷ ders) = rw (
    to_pem-append b64 pem_cert_begin pem_cert_end der (chain_pem ders),
    split-block b der (newline ++ chain_pem ders),
    parse-block b der (split_text pem_cert_end (newline ++ chain_pem ders)),
    parse-chain true ders,
  )

  -- A chain of certificates that is printed as PEM, one after the other, is parsed back as the
  -- certificates in their order, if base64 decodes what it encodes and stays in its alphabet.
  pub parse_pem_certs-chain_pem :
      (ders : List Text) → parse_pem_certs b64 (chain_pem ders) ≡ ok ders
  unfolding parse_pem_certs
  parse_pem_certs-chain_pem ders = parse-chain false ders

  pub parse_pem_certs-to_pem :
      (der : Text)
      → parse_pem_certs b64 (to_pem b64 pem_cert_begin pem_cert_end der) ≡ ok (der ∷ [])
  parse_pem_certs-to_pem der =
      ap (parse_pem_certs b64) (sym (append-nil (to_pem b64 pem_cert_begin pem_cert_end der)))
      ∙ parse_pem_certs-chain_pem (der ∷ [])

  find-key_begin : (t : Text) → find pem_key_begin (pem_key_begin ++ t) ≡ some 0
  unfolding find strip_prefix lit
  find-key_begin t = refl

  find-begin :
      (t : Text) (n : ℕ)
      → find pem_key_end t ≡ some n
      → find pem_key_end (pem_key_begin ++ b'\n' ∷ t) ≡ some (28 + n)
  unfolding find strip_prefix lit
  find-begin t n h = rw h (ap some (omega arith))

  find-end : (rest : Text) → find pem_key_end (newline ++ (pem_key_end ++ rest)) ≡ some 1
  unfolding find strip_prefix lit
  find-end rest = refl

  find-key_end :
      (der rest : Text)
      → find pem_key_end (pem_key_begin ++ (block b64 der ++ (pem_key_end ++ rest)))
        ≡ some (length pem_key_begin + length (block b64 der))
  find-key_end der rest =
      find-begin ((body b64 der ++ newline) ++ (pem_key_end ++ rest)) (length (body b64 der) + 1)
        (rw append_assoc after_body)
      ∙ ap some (offset (length-append (body b64 der) newline))
    where
      after_body :
          find pem_key_end (body b64 der ++ (newline ++ (pem_key_end ++ rest)))
          ≡ some (length (body b64 der) + 1)
      after_body =
          unfold lit in
          find-lacks b'-' _ (body b64 der) _ 1
            (lacks-join (chunks 64 (b64.encode der)) (body-IsLine b64 laws der)) (find-end rest)

      offset :
          length (body b64 der ++ newline) ≡ length (body b64 der) + 1
          → 28 + (length (body b64 der) + 1) ≡ length pem_key_begin + length (block b64 der)
      offset e = unfold lit in omega (arith, e)

  parse_pem_private_key-slice :
      (pem middle : Text) (start end : ℕ)
      → find pem_key_begin pem ≡ some start
      → find pem_key_end pem ≡ some end
      → slice (start + length pem_key_begin) end pem ≡ some middle
      → parse_pem_private_key b64 pem
        ≡ some (
            map_err
              (λ e. lit "Failed to decode private key base64: " ++ e)
              (b64.decode (base64_content middle)))
  unfolding parse_pem_private_key
  parse_pem_private_key-slice pem middle start end b e s = cc (b, e, s)

  pub parse_pem_private_key-to_pem :
      (der : Text)
      → parse_pem_private_key b64 (to_pem b64 pem_key_begin pem_key_end der) ≡ some (ok der)
  parse_pem_private_key-to_pem der =
      ap (parse_pem_private_key b64) whole
      ∙ parse_pem_private_key-slice (pem_key_begin ++ (block b64 der ++ (pem_key_end ++ newline)))
          (block b64 der) 0 (length pem_key_begin + length (block b64 der))
          (find-key_begin (block b64 der ++ (pem_key_end ++ newline))) (find-key_end der newline)
          (rw zero-add (slice-middle pem_key_begin (block b64 der) (pem_key_end ++ newline)))
      ∙ rw (content-block b64 laws der, laws.decode_encode der)
    where
      whole :
          to_pem b64 pem_key_begin pem_key_end der
          ≡ pem_key_begin ++ (block b64 der ++ (pem_key_end ++ newline))
      whole =
          sym (append-nil (to_pem b64 pem_key_begin pem_key_end der))
          ∙ to_pem-append b64 pem_key_begin pem_key_end der []
