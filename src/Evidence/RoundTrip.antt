-- ===== src/Evidence/RoundTrip.antt =====
-- A registry that is restored from its snapshot.
use learning_qa_assistant.Base.{ℕ, Bool, true, ◌==◌, ◌≡◌, sym, ap, ◌∙◌, List, [], ◌∷◌, ◌++◌, arith}
use learning_qa_assistant.Base.Numbered.{
  IsDict, store_row-append, append_assoc, append_nil, IsNumbered-IsDict,
}
use learning_qa_assistant.Transaction.{ok}
use learning_qa_assistant.Evidence.State.{Registry, Environment, new_registry}
use learning_qa_assistant.Evidence.Snapshot.{snapshot, dict_onto, same_source, same_row, restore}
use learning_qa_assistant.Evidence.Accounting.{IsRegistry, source_number}
use learning_qa_assistant.Evidence.Sets.{insert_numbers-ascending}
use learning_qa_assistant.Evidence.Operations.{Operation, registry_history}
use learning_qa_assistant.Evidence.History.{registry_history-IsRegistry}

dict_onto-IsDict :
    {A : Type 0} (same : A → A → Bool) (rows xs : List A)
    → IsDict same rows xs
    → dict_onto same rows xs ≡ rows ++ xs
unfolding dict_onto
dict_onto-IsDict same rows [] h = sym (append_nil rows)
dict_onto-IsDict same rows (x ∷ xs) h =
    ap (λ r. dict_onto same r xs) (store_row-append (same x) x rows h.0)
    ∙ dict_onto-IsDict same (rows ++ x ∷ []) xs h.1
    ∙ append_assoc rows x xs

sources-same :
    (env : Environment) (registry : Registry)
    → IsRegistry env registry
    → dict_onto same_source [] registry.sources ≡ registry.sources
sources-same env registry h =
    dict_onto-IsDict same_source [] _ (IsNumbered-IsDict source_number 1 [] _ tt h.sources)

restore-same :
    (env : Environment) (registry other : Registry)
    → IsRegistry env registry
    → registry.token_budget ≡ other.token_budget
    → restore (snapshot registry) other ≡ ok registry
unfolding restore snapshot
restore-same env registry other h budget =
    let same : (registry.token_budget == other.token_budget) ≡ true = ground arith in
    let sources = sources-same env registry h in
    let warnings = insert_numbers-ascending registry.warnings h.warnings in
    let excluded = insert_numbers-ascending registry.excluded_numbers h.excluded in
    let keys = dict_onto-IsDict same_row [] registry.keys h.distinct in
    rw same (λ i. ok (record registry {
      token_budget = sym budget i;
      sources = sources i;
      warnings = warnings i;
      excluded_numbers = excluded i;
      keys = keys i;
    }))

-- Whatever was added to a registry, a registry of the same budget that is restored from its
-- snapshot is that registry again: its entries, sources, contexts, keys, sets and counts.
pub restore-snapshot :
    (env : Environment) (token_budget : ℕ) (operations : List Operation) (other : Registry)
    → (registry_history env operations (new_registry token_budget)).token_budget
      ≡ other.token_budget
    → restore (snapshot (registry_history env operations (new_registry token_budget))) other
      ≡ ok (registry_history env operations (new_registry token_budget))
restore-snapshot env token_budget operations other =
    restore-same env _ other (registry_history-IsRegistry env token_budget operations)
