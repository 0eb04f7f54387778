-- ===== src/Evidence/Tests.antt =====
-- Runs of the registry on samples, and the theorems at concrete inputs.
use learning_qa_assistant.Base.{
  ℕ, ◌-◌, true, ◌&&◌, ◌≡◌, ◌≢◌, refl, ◌⊎◌, Option, none, some, List, [], ◌∷◌, map, length, leb,
  arith, if◌then◌else◌,
}
use learning_qa_assistant.Base.Table.{find_row}
use learning_qa_assistant.Base.Text.{Text, codes}
use learning_qa_assistant.Transaction.{ok}
use learning_qa_assistant.Evidence.State.{
  Registry, Environment, Citation, web, memory, new_registry, insert_number,
}
use learning_qa_assistant.Evidence.Registry.{
  WebResult, Memory, add, add_found, add_new, add_each, web_items, memory_items, set_at, shrink,
}
use learning_qa_assistant.Evidence.Registry
use learning_qa_assistant.Evidence.Operations.{
  Operation, add_web, add_web_page, add_memories, exclude, operate, exclude_numbers,
  registry_history,
}
use learning_qa_assistant.Evidence.Accounting.{IsRegistry}
use learning_qa_assistant.Evidence.History.{registry_history-IsRegistry, history-add_web_page}
use learning_qa_assistant.Evidence.Pages.{shrink-fits}
use learning_qa_assistant.Evidence.Snapshot.{snapshot, restore}
use learning_qa_assistant.Evidence.RoundTrip.{restore-snapshot}
use learning_qa_assistant.Evidence.Citations.{
  grounded, auto, validate, numbers_of, visible, cited, check_cited, validate_answer,
  validate_numbers, numbers_from, next_group, extended,
}
use learning_qa_assistant.Evidence.Sets.{IsAscending}
use learning_qa_assistant.Evidence.Cited.{IsAccepted, citation_number, validate-IsAccepted}

abbrev decimal : ℕ → Option ℕ
decimal c = if leb b'0' c && leb c b'9' then some (c - b'0') else none

abbrev sample_env : Environment
sample_env = record {
  count_tokens = λ text. length text;
  normalized_url = λ url. url;
  decimal = decimal;
  budget_warning = 1;
}

abbrev page : WebResult
page = record { url = 7; title = codes "a"; content = codes "abc"; detail = 0 }

abbrev longer : WebResult
longer = record { url = 7; title = codes "a"; content = codes "abcdefghijklmnop"; detail = 0 }

abbrev remembered : Memory
remembered = record { memory_id = 3; content = codes "xy"; detail = 0; asserted_at = none }

abbrev sample_operations : List Operation
sample_operations =
    add_web (page ∷ page ∷ []) ∷ add_memories (remembered ∷ []) ∷ add_web_page longer ∷ []

registry_history-IsRegistry_example :
    IsRegistry sample_env (registry_history sample_env sample_operations (new_registry 12))
registry_history-IsRegistry_example = registry_history-IsRegistry sample_env 12 sample_operations

history-add_web_page_example :
    Registry.add_web_page sample_env longer
      (registry_history sample_env sample_operations (new_registry 12))
    ≢ none
history-add_web_page_example = history-add_web_page sample_env 12 sample_operations longer

restore-snapshot_example :
    restore
      (snapshot (registry_history sample_env (exclude (2 ∷ 1 ∷ []) ∷ []) (new_registry 12)))
      (new_registry 12)
    ≡ ok (registry_history sample_env (exclude (2 ∷ 1 ∷ []) ∷ []) (new_registry 12))
unfolding registry_history operate exclude_numbers
restore-snapshot_example =
    restore-snapshot sample_env 12 (exclude (2 ∷ 1 ∷ []) ∷ []) (new_registry 12) refl

abbrev web_entry : Citation
web_entry = record { number = 1; type = web; excerpt = codes "abc"; title = none; detail = 0 }

abbrev memory_entry : Citation
memory_entry = record { number = 2; type = memory; excerpt = codes "xy"; title = none; detail = 0 }

abbrev sample_registry : Registry
sample_registry = record (new_registry 12) { entries = web_entry ∷ memory_entry ∷ [] }

abbrev sample_answer : Text
sample_answer = codes "b[2] a[1][x]b[2]"

validate-IsAccepted_example :
    IsAccepted sample_registry grounded auto
      (numbers_of decimal sample_answer)
      (web_entry ∷ memory_entry ∷ [])
    × IsAscending (map citation_number (web_entry ∷ memory_entry ∷ []))
unfolding validate validate_numbers validate_answer check_cited cited visible numbers_of
    numbers_from next_group extended insert_number find_row
validate-IsAccepted_example =
    validate-IsAccepted decimal grounded sample_answer auto sample_registry
      (web_entry ∷ memory_entry ∷ []) refl

shrink-fits_example :
    (shrink 4 (λ text. leb (length text) 2) (codes "abcd") ≡ [])
    ⊎ (leb (length (shrink 4 (λ text. leb (length text) 2) (codes "abcd"))) 2 ≡ true)
shrink-fits_example = shrink-fits 4 (λ text. leb (length text) 2) (codes "abcd") (omega arith)
