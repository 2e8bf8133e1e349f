-- ===== src/Gui/Save.antt =====
-- What `save_chain_source` of ldk-server-gui/src/config.rs changes in the configuration file.
use ldk_server.Prelude.{
  ◌≡◌, refl, sym, ap, ◌∙◌, Bool, true, false, ◌||◌, Option, none, some, Result, ok, err, ◌>>=◌,
  map_err, ok-injective, is_some, if◌then◌else◌, arith,
}
use mathlib.Core.Path.{subst}
use ldk_server.Text.{Text, lit, text_eq}
use ldk_server.Gui.Config.{ChainSourceConfig, TomlDoc, add_source, replace_source}

-- What the toml crate is documented to do with tables.
pub record TomlLaws (doc : TomlDoc) : Type 0 where
  pub as_table-of_table : (t : doc.Table) → doc.as_table (doc.of_table t) ≡ some t
  pub get-remove :
      (n m : Text) (t : doc.Table)
      → doc.get n (doc.remove m t) ≡ (if text_eq m n then none else doc.get n t)
  pub get-insert :
      (n m : Text) (v : doc.Value) (t : doc.Table)
      → doc.get n (doc.insert m v t) ≡ (if text_eq m n then some v else doc.get n t)

-- The section of a chain source, and the sections of all of them.
abbrev section_of : ChainSourceConfig → Option Text
section_of ChainSourceConfig.no_source = none
section_of (ChainSourceConfig.bitcoind rpc_address rpc_user rpc_password) = some (lit "bitcoind")
section_of (ChainSourceConfig.electrum server_url) = some (lit "electrum")
section_of (ChainSourceConfig.esplora server_url) = some (lit "esplora")

abbrev pub is_section : ChainSourceConfig → Text → Bool
is_section chosen n = elim (section_of chosen) [ none ↦ false | some s ↦ text_eq s n ]

abbrev pub is_source_section : Text → Bool
is_source_section n =
    text_eq (lit "bitcoind") n || text_eq (lit "electrum") n || text_eq (lit "esplora") n

module _ (doc : TomlDoc) (laws : TomlLaws doc) where
  open doc use {Value, Table, get, remove, insert}

  -- the table without chain sources
  abbrev stripped : Table → Table
  stripped t = remove (lit "esplora") (remove (lit "electrum") (remove (lit "bitcoind") t))

  get-stripped :
      (n : Text) (t : Table) → get n (stripped t) ≡ (if is_source_section n then none else get n t)
  get-stripped n t =
      let a =
        laws.get-remove n (lit "esplora") (remove (lit "electrum") (remove (lit "bitcoind") t)) in
      let b = laws.get-remove n (lit "electrum") (remove (lit "bitcoind") t) in
      let c = laws.get-remove n (lit "bitcoind") t in ground (arith, a, b, c)

  -- The sections are those of the source, and the others as they were.
  abbrev pub Replaced : ChainSourceConfig → Table → Table → Type 0
  Replaced chosen before after =
      (n : Text)
      → (is_source_section n ≡ true → is_some (get n after) ≡ is_section chosen n)
        × (is_source_section n ≡ false → get n after ≡ get n before)

  inserted-Replaced :
      (chosen : ChainSourceConfig) (s : Text) (value : Value) (before : Table)
      → section_of chosen ≡ some s
      → is_source_section s ≡ true
      → ((n : Text) → text_eq s n ≡ true → is_source_section n ≡ true)
      → Replaced chosen before (insert s value (stripped before))
  inserted-Replaced chosen s value before e own inside n =
      let a = laws.get-insert n s value (stripped before) in
      let b = get-stripped n before in let c = inside n in ground (arith, a, b, c, e)

  -- The value of the section is serialized first.
  then-Replaced :
      (chosen : ChainSourceConfig) (s : Text) (f : Text → Text) (r : Result Value Text)
      (before after : Table)
      → section_of chosen ≡ some s
      → is_source_section s ≡ true
      → ((n : Text) → text_eq s n ≡ true → is_source_section n ≡ true)
      → (map_err f r >>= λ v. ok (insert s v (stripped before))) ≡ ok after
      → Replaced chosen before after
  then-Replaced chosen s f (err e) before after e' own inside h = cc h
  then-Replaced chosen s f (ok v) before after e own inside h =
      subst (Replaced chosen before) (ok-injective h)
        (inserted-Replaced chosen s v before e own inside)

  add_source-Replaced :
      (chosen : ChainSourceConfig) (before after : Table)
      → add_source doc chosen (stripped before) ≡ ok after
      → Replaced chosen before after
  unfolding add_source
  add_source-Replaced ChainSourceConfig.no_source before after h =
      λ n. let b = get-stripped n before in let same = ok-injective h in ground (arith, b, same)
  add_source-Replaced (ChainSourceConfig.bitcoind a u p) before after h =
      then-Replaced (ChainSourceConfig.bitcoind a u p) (lit "bitcoind") _ _ before after refl
        (unfold lit text_eq in refl) (λ n t. ground (arith, t)) h
  add_source-Replaced (ChainSourceConfig.electrum url) before after h =
      then-Replaced (ChainSourceConfig.electrum url) (lit "electrum") _ _ before after refl
        (unfold lit text_eq in refl) (λ n t. ground (arith, t)) h
  add_source-Replaced (ChainSourceConfig.esplora url) before after h =
      then-Replaced (ChainSourceConfig.esplora url) (lit "esplora") _ _ before after refl
        (unfold lit text_eq in refl) (λ n t. ground (arith, t)) h

  -- Of a document whose root is a table, a saved chain source leaves a table that has its own
  -- section and no section of another chain source, and every other section as it was, if tables
  -- behave as the toml crate documents (TomlLaws).
  pub replace_source-Replaced :
      (chosen : ChainSourceConfig) (document saved : Value) (before : Table)
      → doc.as_table document ≡ some before
      → replace_source doc chosen document ≡ ok saved
      → (after : Table) × (doc.as_table saved ≡ some after) × Replaced chosen before after
  unfolding replace_source
  replace_source-Replaced chosen document saved before t h =
      replaced (add_source doc chosen (stripped before)) refl (rw t at h)
    where
      replaced :
          (r : Result Table Text)
          → add_source doc chosen (stripped before) ≡ r
          → (r >>= λ after. ok (doc.of_table after)) ≡ ok saved
          → (after : Table) × (doc.as_table saved ≡ some after) × Replaced chosen before after
      replaced (err e) same k = cc k
      replaced (ok after) same k = (
        after,
        ap doc.as_table (sym (ok-injective k)) ∙ laws.as_table-of_table after,
        add_source-Replaced chosen before after same,
      )
