-- ===== src/Tls/Start.antt =====
-- The start and the restart of the server, for `get_or_generate_tls_config` of
-- ldk-server/src/util/tls.rs.
use ldk_server.Prelude.{
  ◌≡◌, refl, ap, ◌∙◌, ◌⊎◌, inl, inr, true, false, not, ◌||◌, Bool-cases, Option, none, some, List,
  [], ◌∷◌, Result, ok, err, is_some, arith, Result-cases,
}
use ldk_server.Text.{Text, lit, text_eq}
use ldk_server.Text.Equality.{text_eq_refl}
use ldk_server.Files.{
  Files, Disk, exists, read_to_string, write_file, with_file, with_file-same, with_file-other,
  read_to_string-found,
}
use ldk_server.Tls.{
  TlsConfig, Generator, Rustls, generate_self_signed_cert, load_tls_config, ensure_and_load,
  from_pems, cert_path_of, key_path_of, hosts_of, get_or_generate_tls_config,
}
use ldk_server.Tls.Pem.{Base64, pem_cert_begin, pem_cert_end, pem_key_begin, pem_key_end, to_pem}
use ldk_server.Tls.Content.{Base64Laws, is_utf8-to_pem}
use ldk_server.Tls.RoundTrip.{parse_pem_certs-to_pem, parse_pem_private_key-to_pem}

module _ {S : Type 0} (b64 : Base64) (tls : Rustls S) (disk : Disk) where
  -- A file is there and can be looked for.
  abbrev Sees : Text → Files → Type 0
  Sees path fs = exists disk path fs ≡ true

  -- Neither path is hidden by a fault of the disk.
  abbrev pub IsVisible : Text → Text → Type 0
  IsVisible cert_path key_path =
      (disk.exists_fault cert_path ≡ false) × (disk.exists_fault key_path ≡ false)

  -- No fault on the paths of the certificate and the key.
  pub record IsSound (cert_path key_path : Text) : Type 0 where
    pub cert_read : disk.read_fault cert_path ≡ none
    pub key_read : disk.read_fault key_path ≡ none
    pub cert_write : (bytes : Text) → disk.write_fault cert_path bytes ≡ none
    pub key_write : (bytes : Text) → disk.write_fault key_path bytes ≡ none

  -- The files as the generated pair leaves them.
  abbrev pub with_pair : Text → Text → Text → Text → Files → Files
  with_pair cert_path key_path cert_der key_der fs =
      with_file key_path (some (to_pem b64 pem_key_begin pem_key_end key_der))
        (with_file cert_path (some (to_pem b64 pem_cert_begin pem_cert_end cert_der)) fs)

  module _ (cert_path key_path : Text) (hosts : List Text) where
    -- `ensure_and_load` on these paths
    abbrev started : Generator → Files → Option (Result S Text) × Files
    started generate = ensure_and_load b64 tls disk generate cert_path key_path hosts

    abbrev generated : Generator → Files → Result (Unit {0}) Text × Files
    generated generate = generate_self_signed_cert b64 tls disk generate cert_path key_path hosts

    started-existing :
        (generate : Generator) (fs : Files)
        → Sees cert_path fs
        → Sees key_path fs
        → started generate fs ≡ (load_tls_config b64 tls disk cert_path key_path fs, fs)
    unfolding ensure_and_load
    started-existing generate fs c k = rw (c, k)

    started-missing :
        (generate : Generator) (fs : Files)
        → (not (exists disk cert_path fs) || not (exists disk key_path fs)) ≡ true
        → (generated generate fs).0 ≡ ok tt
        → started generate fs ≡ (
          load_tls_config b64 tls disk cert_path key_path (generated generate fs).1,
          (generated generate fs).1,
        )
    unfolding ensure_and_load
    started-missing generate fs m g = rw (m, g)

    started-failed :
        (generate : Generator) (fs : Files) (e : Text)
        → (not (exists disk cert_path fs) || not (exists disk key_path fs)) ≡ true
        → (generated generate fs).0 ≡ err e
        → (started generate fs).0 ≡ some (err e)
    unfolding ensure_and_load
    started-failed generate fs e m g = rw (m, g)

    generated-present :
        (generate : Generator) (fs : Files)
        → (generated generate fs).0 ≡ ok tt
        → (is_some ((generated generate fs).1 cert_path) ≡ true)
          × (is_some ((generated generate fs).1 key_path) ≡ true)
    unfolding generate_self_signed_cert write_file
    generated-present generate fs h = ground (arith, text_eq_refl cert_path, text_eq_refl key_path)

    -- With both files there, the next start only loads them, whatever its generator.
    again_with-present :
        (next : Generator) (fs : Files)
        → IsVisible cert_path key_path
        → (is_some (fs cert_path) ≡ true) × (is_some (fs key_path) ≡ true)
        → started next fs ≡ (load_tls_config b64 tls disk cert_path key_path fs, fs)
    again_with-present next fs (v, w) (c, k) = started-existing next fs (rw (v, c)) (rw (w, k))

    started-again :
        (generate next : Generator) (fs : Files) (config : S)
        → IsVisible cert_path key_path
        → (started generate fs).0 ≡ some (ok config)
        → started next (started generate fs).1 ≡ started generate fs
    started-again generate next fs config v h =
        elim (Bool-cases (not (exists disk cert_path fs) || not (exists disk key_path fs))) [
          | inl m ↦ elim (Result-cases (generated generate fs).0) [
            | inl (tt, g) ↦
                rw (started-missing generate fs m g)
                  (again_with-present next _ v (generated-present generate fs g))
            | inr (e, g) ↦ cc (started-failed generate fs e m g, h)
          ]
          | inr p ↦
              let (c, k) = both p in
              rw (started-existing generate fs c k) (started-existing next fs c k)
        ]
      where
        both :
            (not (exists disk cert_path fs) || not (exists disk key_path fs)) ≡ false
            → Sees cert_path fs × Sees key_path fs
        both e = ground arith

  -- If the daemon gets a TLS configuration, and no fault hides the certificate or the key from
  -- fs::exists, then the next start with the same settings gets the same one and changes no file,
  -- whatever the generator would make then.
  pub get_or_generate_tls_config-again :
      (generate next : Generator) (tls_config : Option TlsConfig) (storage_dir : Text) (fs : Files)
      (config : S)
      → IsVisible (cert_path_of tls_config storage_dir) (key_path_of tls_config storage_dir)
      → (get_or_generate_tls_config b64 tls disk generate tls_config storage_dir fs).0
        ≡ some (ok config)
      → get_or_generate_tls_config b64 tls disk next tls_config storage_dir
          (get_or_generate_tls_config b64 tls disk generate tls_config storage_dir fs).1
        ≡ get_or_generate_tls_config b64 tls disk generate tls_config storage_dir fs
  unfolding get_or_generate_tls_config
  get_or_generate_tls_config-again generate next tls_config storage_dir fs config v h =
      started-again (cert_path_of tls_config storage_dir) (key_path_of tls_config storage_dir)
        (hosts_of tls_config) generate next fs config v h

  module _ (laws : Base64Laws b64) where
    load-read :
        (cert_path key_path cert_pem key_pem : Text) (fs : Files)
        → read_to_string disk cert_path fs ≡ ok cert_pem
        → read_to_string disk key_path fs ≡ ok key_pem
        → load_tls_config b64 tls disk cert_path key_path fs
          ≡ from_pems b64 tls disk cert_pem key_pem
    unfolding load_tls_config
    load-read cert_path key_path cert_pem key_pem fs c k = ground (arith, c, k)

    from_pems-to_pem :
        (cert_der key_der : Text) (config : S)
        → tls.with_single_cert (cert_der ∷ []) key_der ≡ ok config
        → from_pems b64 tls disk
            (to_pem b64 pem_cert_begin pem_cert_end cert_der)
            (to_pem b64 pem_key_begin pem_key_end key_der)
          ≡ some (ok config)
    from_pems-to_pem cert_der key_der config s =
        let c = parse_pem_certs-to_pem b64 laws cert_der in
        let k = parse_pem_private_key-to_pem b64 laws key_der in ground (arith, c, k, s)

    load-with_pair :
        (cert_path key_path cert_der key_der : Text) (fs : Files) (config : S)
        → disk.read_fault cert_path ≡ none
        → disk.read_fault key_path ≡ none
        → text_eq key_path cert_path ≡ false
        → tls.with_single_cert (cert_der ∷ []) key_der ≡ ok config
        → load_tls_config b64 tls disk cert_path key_path
            (with_pair cert_path key_path cert_der key_der fs)
          ≡ some (ok config)
    unfolding load_tls_config
    load-with_pair cert_path key_path cert_der key_der fs config c k d s =
        load-read cert_path key_path _ _ (with_pair cert_path key_path cert_der key_der fs)
          (read_to_string-found disk cert_path _ (with_pair cert_path key_path cert_der key_der fs)
            c there
            (is_utf8-to_pem b64 laws pem_cert_begin pem_cert_end cert_der (unfold lit in refl)
              (unfold lit in refl)))
          (read_to_string-found disk key_path _ (with_pair cert_path key_path cert_der key_der fs) k
            (with_file-same key_path _
              (with_file cert_path (some (to_pem b64 pem_cert_begin pem_cert_end cert_der)) fs))
            (is_utf8-to_pem b64 laws pem_key_begin pem_key_end key_der (unfold lit in refl)
              (unfold lit in refl)))
        ∙ from_pems-to_pem cert_der key_der config s
      where
        there :
            with_pair cert_path key_path cert_der key_der fs cert_path
            ≡ some (to_pem b64 pem_cert_begin pem_cert_end cert_der)
        there =
            with_file-other key_path cert_path (some (to_pem b64 pem_key_begin pem_key_end key_der))
              (with_file cert_path (some (to_pem b64 pem_cert_begin pem_cert_end cert_der)) fs) d
            ∙ with_file-same cert_path (some (to_pem b64 pem_cert_begin pem_cert_end cert_der)) fs

    generated_sound :
        (generate : Generator) (cert_path key_path : Text) (hosts : List Text) (fs : Files)
        (cert_der key_der : Text)
        → IsSound cert_path key_path
        → generate (lit "localhost" ∷ lit "127.0.0.1" ∷ hosts) ≡ ok (cert_der, key_der)
        → generated cert_path key_path hosts generate fs
          ≡ (ok tt, with_pair cert_path key_path cert_der key_der fs)
    unfolding generate_self_signed_cert write_file
    generated_sound generate cert_path key_path hosts fs cert_der key_der sound g =
        let c = sound.cert_write (to_pem b64 pem_cert_begin pem_cert_end cert_der) in
        let k = sound.key_write (to_pem b64 pem_key_begin pem_key_end key_der) in
        ground (arith, g, c, k)

    needs :
        (cert_path key_path : Text) (fs : Files)
        → (fs cert_path ≡ none) ⊎ (fs key_path ≡ none)
        → (not (exists disk cert_path fs) || not (exists disk key_path fs)) ≡ true
    needs cert_path key_path fs gone = ground arith

    started_first :
        (generate : Generator) (cert_path key_path : Text) (hosts : List Text) (fs : Files)
        (cert_der key_der : Text) (config : S)
        → IsSound cert_path key_path
        → text_eq key_path cert_path ≡ false
        → (fs cert_path ≡ none) ⊎ (fs key_path ≡ none)
        → generate (lit "localhost" ∷ lit "127.0.0.1" ∷ hosts) ≡ ok (cert_der, key_der)
        → tls.with_single_cert (cert_der ∷ []) key_der ≡ ok config
        → started cert_path key_path hosts generate fs
          ≡ (some (ok config), with_pair cert_path key_path cert_der key_der fs)
    started_first generate cert_path key_path hosts fs cert_der key_der config sound distinct gone g
          s =
        let made = generated_sound generate cert_path key_path hosts fs cert_der key_der sound g in
        rw (
          started-missing cert_path key_path hosts generate fs (needs cert_path key_path fs gone)
              (ap (λ p. p.0) made),
          made,
          load-with_pair cert_path key_path cert_der key_der fs config sound.cert_read
              sound.key_read distinct s,
        )

    -- With the certificate or the key missing, two different paths without faults, and a generator
    -- that succeeds for localhost, 127.0.0.1 and the configured hosts, the daemon writes the new
    -- pair to the two paths as PEM, changes no other file, and gets the configuration that rustls
    -- makes of the certificate and the key.
    pub get_or_generate_tls_config-first :
        (generate : Generator) (tls_config : Option TlsConfig) (storage_dir : Text) (fs : Files)
        (cert_der key_der : Text) (config : S)
        → IsSound (cert_path_of tls_config storage_dir) (key_path_of tls_config storage_dir)
        → text_eq (key_path_of tls_config storage_dir) (cert_path_of tls_config storage_dir) ≡ false
        → (fs (cert_path_of tls_config storage_dir) ≡ none)
          ⊎ (fs (key_path_of tls_config storage_dir) ≡ none)
        → generate (lit "localhost" ∷ lit "127.0.0.1" ∷ hosts_of tls_config)
          ≡ ok (cert_der, key_der)
        → tls.with_single_cert (cert_der ∷ []) key_der ≡ ok config
        → get_or_generate_tls_config b64 tls disk generate tls_config storage_dir fs ≡ (
          some (ok config),
          with_pair
              (cert_path_of tls_config storage_dir)
              (key_path_of tls_config storage_dir)
              cert_der
              key_der
              fs,
        )
    unfolding get_or_generate_tls_config
    get_or_generate_tls_config-first generate tls_config storage_dir =
        started_first generate (cert_path_of tls_config storage_dir)
          (key_path_of tls_config storage_dir) (hosts_of tls_config)
