-- ===== src/Evidence/Accounting.antt =====
-- What holds of every registry: its rows are numbered as they came, and its accounts are right.
use learning_qa_assistant.Base.{
  ℕ, suc, ◌+◌, ◌/◌, ◌≤◌, false, ◌≡◌, refl, inl, inr, none, List, [], ◌∷◌, ◌++◌, Bool-cases,
  Option-cases, length, length-append, arith,
}
use learning_qa_assistant.Base.Table.{find_row, store_row}
use learning_qa_assistant.Base.Numbered.{
  store_row-append, total, total-append, IsNumbered, append-IsNumbered, find_row-beyond, IsDict,
  append-IsDict,
}
use learning_qa_assistant.Base.Text.{Text}
use learning_qa_assistant.Evidence.State.{
  Citation, Source, Passage, KeyRow, Registry, Environment, key_of, source_of, new_registry,
}
use learning_qa_assistant.Evidence.Registry.{
  Item, trimmed, is_empty, new_source, entered, exceeds, add_new, add_found, add, add_each,
}
use learning_qa_assistant.Evidence.Snapshot.{same_row}
use learning_qa_assistant.Evidence.Sets.{IsAscending}

abbrev pub entry_number : Citation → ℕ
entry_number entry = entry.number

abbrev pub source_number : Source → ℕ
source_number source = source.number

abbrev pub row_number : KeyRow → ℕ
row_number row = row.number

abbrev pub source_weight : Environment → Source → ℕ
source_weight env source = env.count_tokens source.content

abbrev pub passage_weight : Environment → Passage → ℕ
passage_weight env passage = env.count_tokens passage.content

-- The entries, the sources and the keys are numbered from 1 in one go, the keys are distinct, the
-- tokens used are those of all sources and contexts and within the budget, those of the contexts
-- are within a third of it, and the two sets are ascending.
pub record IsRegistry (env : Environment) (registry : Registry) : Type 0 where
  pub entries : IsNumbered entry_number 1 registry.entries
  pub sources : IsNumbered source_number 1 registry.sources
  pub keys : IsNumbered row_number 1 registry.keys
  pub source_count : length registry.sources ≡ length registry.entries
  pub key_count : length registry.keys ≡ length registry.entries
  pub distinct : IsDict same_row [] registry.keys
  pub used :
      registry.used_tokens ≡ total (source_weight env) registry.sources + registry.context_tokens
  pub passages : registry.context_tokens ≡ total (passage_weight env) registry.contexts
  pub within : registry.used_tokens ≤ registry.token_budget
  pub third : registry.context_tokens ≤ registry.token_budget / 3
  pub warnings : IsAscending registry.warnings
  pub excluded : IsAscending registry.excluded_numbers

module _ (env : Environment) where
  pub new_registry-IsRegistry : (token_budget : ℕ) → IsRegistry env (new_registry token_budget)
  new_registry-IsRegistry token_budget = record {
    entries = tt;
    sources = tt;
    keys = tt;
    source_count = refl;
    key_count = refl;
    distinct = tt;
    used = refl;
    passages = refl;
    within = omega arith;
    third = omega arith;
    warnings = tt;
    excluded = tt;
  }

  sources-append :
      (item : Item) (content : Text) (registry : Registry)
      → IsRegistry env registry
      → let number = suc (length registry.entries) in
        let new = new_source number item content in
        store_row (source_of number) new registry.sources ≡ registry.sources ++ new ∷ []
  sources-append item content registry h =
      store_row-append _ _ _
        (find_row-beyond source_number 1 _ _ h.sources (let e = h.source_count in omega (arith, e)))

  entered-IsRegistry :
      (item : Item) (content : Text) (registry : Registry)
      → IsRegistry env registry
      → find_row (key_of item.key) registry.keys ≡ none
      → exceeds env (env.count_tokens content) registry ≡ false
      → IsRegistry env (entered (env.count_tokens content) item content registry)
  entered-IsRegistry item content registry h fresh fits =
      let s = sources-append item content registry h in
      let number = suc (length registry.entries) in
      let k =
        store_row-append (key_of item.key) (record { key = item.key; number = number })
          registry.keys fresh in
      record {
        entries = append-IsNumbered entry_number 1 _ _ h.entries (omega arith);
        sources = rw s (
            append-IsNumbered source_number 1 _ _ h.sources
              (let e = h.source_count in omega (arith, e)));
        keys =
            rw k
              (append-IsNumbered row_number 1 _ _ h.keys (let e = h.key_count in omega (arith, e)));
        source_count = rw s (
            let e = h.source_count in
            omega (arith, e, length-append registry.sources _, length-append registry.entries _));
        key_count = rw k (
            let e = h.key_count in
            omega (arith, e, length-append registry.keys _, length-append registry.entries _));
        distinct = rw k (append-IsDict same_row [] _ _ h.distinct fresh);
        used = rw s (
            let e = h.used in
            omega (
              arith,
              e,
              total-append (source_weight env) registry.sources (new_source number item content),
            ));
        passages = h.passages;
        within = ground arith;
        third = h.third;
        warnings = h.warnings;
        excluded = h.excluded;
      }

  add_new-IsRegistry :
      (item : Item) (content : Text) (registry : Registry)
      → IsRegistry env registry
      → find_row (key_of item.key) registry.keys ≡ none
      → IsRegistry env (add_new env item content registry).1
  unfolding add_new
  add_new-IsRegistry item content registry h fresh = elim (Bool-cases (is_empty content)) [
    | inl empty ↦ rw empty h
    | inr text ↦ rw text (elim (Bool-cases (exceeds env (env.count_tokens content) registry)) [
      | inl over ↦ rw over h
      | inr fits ↦ rw fits (entered-IsRegistry item content registry h fresh fits)
    ])
  ]

  pub add-IsRegistry :
      (item : Item) (registry : Registry)
      → IsRegistry env registry
      → IsRegistry env (add env item registry).1
  unfolding add add_found
  add-IsRegistry item registry h = elim (Option-cases (find_row (key_of item.key) registry.keys)) [
    | inl fresh ↦ rw fresh (add_new-IsRegistry item (trimmed item.content) registry h fresh)
    | inr (row, found) ↦ rw found h
  ]

  pub add_each-IsRegistry :
      (items : List Item) (registry : Registry)
      → IsRegistry env registry
      → IsRegistry env (add_each env items registry).1
  unfolding add_each
  add_each-IsRegistry [] registry h = h
  add_each-IsRegistry (item ∷ items) registry h =
      add_each-IsRegistry items _ (add-IsRegistry item registry h)
