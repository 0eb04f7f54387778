-- ===== src/Evidence/Snapshot.antt =====
-- EvidenceRegistry.snapshot and restore of app/manager/evidence.py.
use learning_qa_assistant.Base.{ℕ, Bool, not, List, [], ◌∷◌, ◌==◌, if◌then◌else◌}
use learning_qa_assistant.Base.Table.{store_row}
use learning_qa_assistant.Transaction.{Result, ok, err, app_error, run_checkpoint_diverged}
use learning_qa_assistant.Evidence.State.{
  Citation, Source, Passage, KeyRow, Registry, source_of, key_of, insert_numbers,
}

pub record State : Type 0 where
  pub token_budget : ℕ
  pub entries : List Citation
  pub sources : List Source
  pub contexts : List Passage
  pub context_tokens : ℕ
  pub warnings : List ℕ
  pub rerank_events : List ℕ
  pub hierarchy_events : List ℕ
  pub excluded_numbers : List ℕ
  pub keys : List KeyRow
  pub used_tokens : ℕ

unfoldable pub snapshot : Registry → State
snapshot registry = record {
  token_budget = registry.token_budget;
  entries = registry.entries;
  sources = registry.sources;
  contexts = registry.contexts;
  context_tokens = registry.context_tokens;
  warnings = registry.warnings;
  rerank_events = registry.rerank_events;
  hierarchy_events = registry.hierarchy_events;
  excluded_numbers = registry.excluded_numbers;
  keys = registry.keys;
  used_tokens = registry.used_tokens;
}

-- A dict comprehension over rows, onto the rows that are there.
unfoldable pub dict_onto {ℓ} : {A : Type ℓ} (same : A → A → Bool) → List A → List A → List A
dict_onto same rows [] = rows
dict_onto same rows (x ∷ xs) = dict_onto same (store_row (same x) x rows) xs

abbrev pub same_source : Source → Source → Bool
same_source source other = source_of source.number other

abbrev pub same_row : KeyRow → KeyRow → Bool
same_row row other = key_of row.key other

unfoldable pub restore : State → Registry → Result Registry
restore state registry =
    if not (state.token_budget == registry.token_budget)
    then err (app_error run_checkpoint_diverged)
    else ok (record {
      token_budget = registry.token_budget;
      entries = state.entries;
      sources = dict_onto same_source [] state.sources;
      contexts = state.contexts;
      context_tokens = state.context_tokens;
      warnings = insert_numbers state.warnings [];
      rerank_events = state.rerank_events;
      hierarchy_events = state.hierarchy_events;
      excluded_numbers = insert_numbers state.excluded_numbers [];
      keys = dict_onto same_row [] state.keys;
      used_tokens = state.used_tokens;
    })
