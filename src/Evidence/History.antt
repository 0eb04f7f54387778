-- ===== src/Evidence/History.antt =====
-- The accounts of every registry that can be reached, and what a page that is read again needs.
use learning_qa_assistant.Base.{
  ℕ, Bool, true, false, ◌≢◌, subst, Option, none, some, List, [], ◌∷◌, any, if◌then◌else◌,
}
use learning_qa_assistant.Transaction.{ok, err, app_error, vector_scope_mismatch}
use learning_qa_assistant.Evidence.State.{Registry, Report, Environment, new_registry}
use learning_qa_assistant.Evidence.Registry.{WebResult, Memory}
use learning_qa_assistant.Evidence.Registry
use learning_qa_assistant.Evidence.Knowledge.{SearchHit, is_outside, add_known}
use learning_qa_assistant.Evidence.Knowledge
use learning_qa_assistant.Evidence.Operations.{
  Operation, add_web, add_web_page, add_memories, add_tool, add_sql, add_knowledge, exclude,
  include, exclude_numbers, include_numbers, after_page, after_knowledge, operate, registry_history,
}
use learning_qa_assistant.Evidence.Accounting.{
  IsRegistry, new_registry-IsRegistry, add_each-IsRegistry,
}
use learning_qa_assistant.Evidence.Pages.{
  Left, add_web_page-Left, add_tool-IsRegistry, add_sql-IsRegistry,
}
use learning_qa_assistant.Evidence.Contexts.{with_notes-IsRegistry, add_known-IsRegistry}
use learning_qa_assistant.Evidence.Sets.{insert_numbers-IsAscending, keep-IsAscending}

module _ (env : Environment) where
  after_page-IsRegistry :
      (registry : Registry) (out : Option (Report × Registry))
      → Left env out
      → IsRegistry env (after_page registry out)
  after_page-IsRegistry registry none h = absurd h
  after_page-IsRegistry registry (some (report, next)) h = h

  add_knowledge-IsRegistry :
      (hits : List SearchHit) (registry : Registry)
      → IsRegistry env registry
      → IsRegistry env (after_knowledge registry (Knowledge.add_knowledge env hits registry))
  unfolding Knowledge.add_knowledge
  add_knowledge-IsRegistry hits registry h = checked (any (λ hit. is_outside hit hit.context) hits)
    where
      checked :
          (test : Bool)
          → IsRegistry env (
              after_knowledge registry (
                if test
                then err (app_error vector_scope_mismatch)
                else ok (add_known env hits registry)))
      checked true = h
      checked false = add_known-IsRegistry env hits registry h

  operate-IsRegistry :
      (operation : Operation) (registry : Registry)
      → IsRegistry env registry
      → IsRegistry env (operate env operation registry)
  unfolding operate Registry.add_web Registry.add_memories exclude_numbers include_numbers
  operate-IsRegistry (add_web results) registry h = add_each-IsRegistry env _ registry h
  operate-IsRegistry (add_web_page page) registry h =
      after_page-IsRegistry registry _ (add_web_page-Left env page registry h)
  operate-IsRegistry (add_memories rows) registry h = add_each-IsRegistry env _ registry h
  operate-IsRegistry (add_tool identity detail name content) registry h =
      add_tool-IsRegistry env identity detail name content registry h
  operate-IsRegistry (add_sql identity detail source_name content preview) registry h =
      add_sql-IsRegistry env identity detail source_name content preview registry h
  operate-IsRegistry (add_knowledge hits) registry h = add_knowledge-IsRegistry hits registry h
  operate-IsRegistry (exclude numbers) registry h =
      with_notes-IsRegistry env registry _ _ _ _ h h.warnings
        (insert_numbers-IsAscending numbers _ h.excluded)
  operate-IsRegistry (include numbers) registry h =
      with_notes-IsRegistry env registry _ _ _ _ h h.warnings (keep-IsAscending _ _ h.excluded)

  onward-IsRegistry :
      (operations : List Operation) (registry : Registry)
      → IsRegistry env registry
      → IsRegistry env (registry_history env operations registry)
  unfolding registry_history
  onward-IsRegistry [] registry h = h
  onward-IsRegistry (operation ∷ operations) registry h =
      onward-IsRegistry operations _ (operate-IsRegistry operation registry h)

-- Whatever is added to a new registry, in whatever order, its citations, sources and keys are
-- numbered from 1 without a gap, no key occurs twice, the tokens used are the sum of those of all
-- sources and contexts and stay within the budget, and those of the contexts within a third of it.
pub registry_history-IsRegistry :
    (env : Environment) (token_budget : ℕ) (operations : List Operation)
    → IsRegistry env (registry_history env operations (new_registry token_budget))
registry_history-IsRegistry env token_budget operations =
    onward-IsRegistry env operations _ (new_registry-IsRegistry env token_budget)

-- After any additions, reading a page again finds the source that it renews: there is no
-- `KeyError`, whether or not the page has been cited before.
pub history-add_web_page :
    (env : Environment) (token_budget : ℕ) (operations : List Operation) (page : WebResult)
    → Registry.add_web_page env page (registry_history env operations (new_registry token_budget))
      ≢ none
history-add_web_page env token_budget operations page e =
    subst (Left env) e
      (add_web_page-Left env page _ (registry_history-IsRegistry env token_budget operations))
