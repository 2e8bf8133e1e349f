-- ===== src/Storage/Sqlite/Access.antt =====
-- What `read` and `write` do to a well-formed table.
use ldk_server.Prelude.{
  ℕ, ◌≡◌, refl, sym, ap, ◌∙◌, true, false, ◌&&◌, Option, none, some, List, [], ◌∷◌, ◌++◌, Result,
  ok, err, ◌>>◌, Result-cases, Option-cases, arith, find?, if◌then◌else◌, Bool-cases, inl, inr,
  opt_map, and-true,
}
use ldk_server.Prelude.Int.{ℤ, ◌≤ℤ◌, i64_max}
use ldk_server.Text.{Text, text_eq, is_empty, lit}
use ldk_server.Text.Equality.{text_eq→eq}
use ldk_server.Storage.Namespace.{not_found, KvEnv, IoError, check_namespace_key_validity}
use ldk_server.Storage.Sqlite.{
  run_write, shown, Row, Engine, works, prepare_fails, run_fails, has_key, upsert, read, write,
}
use ldk_server.Storage.Sqlite.Table.{IsTable, upsert-IsUnique, upsert-rows, find?-upsert}

module _ (env : KvEnv) (p n : Text) where
  valid-nonempty :
      (k op : Text) → check_namespace_key_validity env p n (some k) op ≡ ok tt → is_empty k ≡ false
  unfolding check_namespace_key_validity
  valid-nonempty [] op h = cc
  valid-nonempty (c ∷ k) op h = refl

  valid-operation :
      (k op op' : Text)
      → check_namespace_key_validity env p n (some k) op ≡ ok tt
      → check_namespace_key_validity env p n (some k) op' ≡ ok tt
  unfolding check_namespace_key_validity
  valid-operation k op op' h = ground arith

  abbrev pub new_row : Text → ℤ → List ℕ → Row
  new_row k time buf = record {
    primary_namespace = p;
    secondary_namespace = n;
    key = k;
    creation_time = time;
    value = buf;
  }

  -- Every write whose time is at most i64::MAX, successful or not, keeps the table well formed:
  -- primary keys unique, keys not empty, times at most i64::MAX.
  pub write-IsTable :
      (engine : Engine) (k : Text) (time : ℤ) (buf : List ℕ) (t : List Row)
      → time ≤ℤ i64_max
      → IsTable t
      → IsTable (write env engine p n k time buf t).1
  unfolding write
  write-IsTable engine k time buf t bound h =
      elim (Result-cases (check_namespace_key_validity env p n (some k) (lit "write"))) [
        | inr (e, bad) ↦ rw (bad, write) h
        | inl (u, good) ↦ rw (good, write) (by_engine engine (valid-nonempty k (lit "write") good))
      ]
    where
      by_engine : (g : Engine) → is_empty k ≡ false → IsTable (run_write env g p n k time buf t).1
      by_engine works e = record {
        unique = upsert-IsUnique (new_row k time buf) t h.unique;
        rows = upsert-rows (new_row k time buf) t (e, bound) h.rows;
      }
      by_engine (prepare_fails m) e = h
      by_engine (run_fails m) e = h

  pub write-inversion :
      (k : Text) (time : ℤ) (buf : List ℕ) (t t' : List Row)
      → write env works p n k time buf t ≡ (ok tt, t')
      → (check_namespace_key_validity env p n (some k) (lit "write") ≡ ok tt)
        × (t' ≡ upsert (new_row k time buf) t)
  unfolding write
  write-inversion k time buf t t' h =
      elim (Result-cases (check_namespace_key_validity env p n (some k) (lit "write"))) [
        | inr (e, bad) ↦ cc (rw (bad, write) at h)
        | inl (u, good) ↦ (
          good,
          sym (ap (λ (o : Result (Unit {0}) IoError × List Row). o.1) (rw (good, write) at h)),
        )
      ]

  abbrev found : Text → Option (List ℕ) → Result (List ℕ) IoError
  found k none = err (record {
    kind = not_found;
    message = lit "Failed to read as key could not be found: " ++ shown env works p n k;
  })
  found k (some v) = ok v

  read-found :
      (k : Text) (t : List Row)
      → read env works p n k t ≡ (
          check_namespace_key_validity env p n (some k) (lit "read")
          >> found k (opt_map (λ (r : Row). r.value) (find? (has_key p n k) t)))
  unfolding read
  read-found k t = elim (Option-cases (find? (has_key p n k) t)) [
    | inl e ↦ rw (e, read)
    | inr (r, e) ↦ rw (e, read)
  ]

read-upsert :
    (env : KvEnv) (p n k : Text) (row : Row) (t : List Row)
    → read env works p n k (upsert row t) ≡ (
        check_namespace_key_validity env p n (some k) (lit "read")
        >> found env p n k (
            if has_key p n k row
            then some row.value
            else opt_map (λ (r : Row). r.value) (find? (has_key p n k) t)))
read-upsert env p n k row t =
    read-found env p n k (upsert row t)
    ∙ ap (λ o. check_namespace_key_validity env p n (some k) (lit "read") >> found env p n k o)
        (find?-upsert p n k row t)

read-upsert_hit :
    (env : KvEnv) (p n k : Text) (row : Row) (t : List Row)
    → has_key p n k row ≡ true
    → check_namespace_key_validity env p n (some k) (lit "read") ≡ ok tt
    → read env works p n k (upsert row t) ≡ ok row.value
read-upsert_hit env p n k row t hit good = read-upsert env p n k row t ∙ rw hit (rw good)

read-upsert_miss :
    (env : KvEnv) (p n k : Text) (row : Row) (t : List Row)
    → has_key p n k row ≡ false
    → read env works p n k (upsert row t) ≡ read env works p n k t
read-upsert_miss env p n k row t miss =
    read-upsert env p n k row t ∙ rw miss (sym (read-found env p n k t))

-- After a successful write a read gives the bytes written if it asks for the same namespaces and
-- key, and what it gave before otherwise.
pub read-write :
    (env : KvEnv) (p n k p' n' j : Text) (time : ℤ) (buf : List ℕ) (t t' : List Row)
    → write env works p n k time buf t ≡ (ok tt, t')
    → read env works p' n' j t'
      ≡ (if text_eq p p' && text_eq n n' && text_eq k j then ok buf else read env works p' n' j t)
read-write env p n k p' n' j time buf t t' h =
    let (good, same) = write-inversion env p n k time buf t t' h in
    let row = new_row env p n k time buf in
    elim (Bool-cases (has_key p' n' j row)) [
      | inl hit ↦
          let (spaces, key) = and-true (text_eq p p' && text_eq n n') (text_eq k j) hit in
          let (primary, secondary) = and-true (text_eq p p') (text_eq n n') spaces in
          let readable : check_namespace_key_validity env p' n' (some j) (lit "read") ≡ ok tt = cc (
            valid-operation env p n k (lit "write") (lit "read") good,
            text_eq→eq p p' primary,
            text_eq→eq n n' secondary,
            text_eq→eq k j key,
          ) in
          rw hit (rw same (read-upsert_hit env p' n' j row t hit readable))
      | inr miss ↦ rw miss (rw same (read-upsert_miss env p' n' j row t miss))
    ]

-- A write keeps readable what is readable.
pub write-keeps :
    (env : KvEnv) (engine : Engine) (p n k : Text) (time : ℤ) (buf : List ℕ) (t : List Row)
    (p' n' j : Text) (v : List ℕ)
    → read env works p' n' j t ≡ ok v
    → (v' : List ℕ) × (read env works p' n' j (write env engine p n k time buf t).1 ≡ ok v')
unfolding write
write-keeps env works p n k time buf t p' n' j v r =
    elim (Result-cases (check_namespace_key_validity env p n (some k) (lit "write"))) [
      | inr (e, bad) ↦ (v, rw (bad, write) r)
      | inl (u, good) ↦
          let done : (write env works p n k time buf t).0 ≡ ok tt = rw (good, write) refl in
          let now =
            read-write env p n k p' n' j time buf t (write env works p n k time buf t).1
              (λ i. (done i, (write env works p n k time buf t).1)) in
          elim (Bool-cases (text_eq p p' && text_eq n n' && text_eq k j)) [
            | inl hit ↦ (buf, now ∙ rw hit refl)
            | inr miss ↦ (v, now ∙ rw miss r)
          ]
    ]
write-keeps env (prepare_fails m) p n k time buf t p' n' j v r =
    elim (Result-cases (check_namespace_key_validity env p n (some k) (lit "write"))) [
      | inr (e, bad) ↦ (v, rw (bad, write) r)
      | inl (u, good) ↦ (v, rw (good, write) r)
    ]
write-keeps env (run_fails m) p n k time buf t p' n' j v r =
    elim (Result-cases (check_namespace_key_validity env p n (some k) (lit "write"))) [
      | inr (e, bad) ↦ (v, rw (bad, write) r)
      | inl (u, good) ↦ (v, rw (good, write) r)
    ]
