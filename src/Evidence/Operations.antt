-- ===== src/Evidence/Operations.antt =====
-- Any operation on a registry, and any history of operations.
use learning_qa_assistant.Base.{ℕ, not, Option, none, some, List, [], ◌∷◌, keep, contains}
use learning_qa_assistant.Base.Text.{Text}
use learning_qa_assistant.Transaction.{Result, ok, err}
use learning_qa_assistant.Evidence.State.{Registry, Report, Environment, insert_numbers}
use learning_qa_assistant.Evidence.Registry.{WebResult, Memory}
use learning_qa_assistant.Evidence.Registry
use learning_qa_assistant.Evidence.Knowledge.{SearchHit, KnowledgeReport}
use learning_qa_assistant.Evidence.Knowledge

-- `exclude` and `include` are what the knowledge agent does to `excluded_numbers`.
pub data Operation : Type 0 where
  add_web : List WebResult → Operation
  add_web_page : WebResult → Operation
  add_memories : List Memory → Operation
  add_tool : (identity detail : ℕ) → (name content : Text) → Operation
  add_sql : (identity detail : ℕ) → (source_name content preview : Text) → Operation
  add_knowledge : List SearchHit → Operation
  exclude include : List ℕ → Operation

unfoldable pub exclude_numbers : List ℕ → Registry → Registry
exclude_numbers numbers registry = record registry {
  excluded_numbers = insert_numbers numbers registry.excluded_numbers;
}

unfoldable pub include_numbers : List ℕ → Registry → Registry
include_numbers numbers registry = record registry {
  excluded_numbers = keep (λ number. not (contains numbers number)) registry.excluded_numbers;
}

-- An operation that raises leaves the registry as it was.
abbrev pub after_page : Registry → Option (Report × Registry) → Registry
after_page registry none = registry
after_page registry (some (report, next)) = next

abbrev pub after_knowledge : Registry → Result (KnowledgeReport × Registry) → Registry
after_knowledge registry (ok (report, next)) = next
after_knowledge registry (err failure) = registry

unfoldable pub operate : Environment → Operation → Registry → Registry
operate env (add_web results) registry = (Registry.add_web env results registry).1
operate env (add_web_page page) registry =
    after_page registry (Registry.add_web_page env page registry)
operate env (add_memories rows) registry = (Registry.add_memories env rows registry).1
operate env (add_tool identity detail name content) registry =
    (Registry.add_tool env identity detail name content registry).1
operate env (add_sql identity detail source_name content preview) registry =
    (Registry.add_sql env identity detail source_name content preview registry).1
operate env (add_knowledge hits) registry =
    after_knowledge registry (Knowledge.add_knowledge env hits registry)
operate env (exclude numbers) registry = exclude_numbers numbers registry
operate env (include numbers) registry = include_numbers numbers registry

unfoldable pub registry_history : Environment → List Operation → Registry → Registry
registry_history env [] registry = registry
registry_history env (operation ∷ operations) registry =
    registry_history env operations (operate env operation registry)
