-- ===== src/Evidence/Knowledge.antt =====
-- EvidenceRegistry.add_knowledge of app/manager/evidence.py: search hits, and the contexts around
-- them that stay within a third of the budget.
use learning_qa_assistant.Base.{
  ℕ, ◌+◌, ◌/◌, Bool, false, not, ◌||◌, Option, none, some, List, [], ◌∷◌, ◌++◌, ltb, if◌then◌else◌,
  any, contains,
}
use learning_qa_assistant.Base.Table.{find_row, store_row}
use learning_qa_assistant.Transaction.{Result, ok, err, app_error, vector_scope_mismatch}
use learning_qa_assistant.Evidence.Contracts.{Chunk, Context, content_of, contains_chunk}
use learning_qa_assistant.Evidence.State.{
  knowledge, Key, Passage, KeyRow, Registry, Report, Environment, key_of, passage_of, insert_number,
  insert_numbers,
}
use learning_qa_assistant.Evidence.Registry.{Item, add, noted, no_report}

pub record RerankTrace : Type 0 where
  pub error_code : Option ℕ
  pub detail : ℕ

-- `detail` stands for the citation's fields that are passed on unread, `context_id` for the identity
-- of the context, and `hierarchy_trace` is `none` for an empty one too.
pub record SearchHit : Type 0 where
  pub chunk : Chunk
  pub detail : ℕ
  pub excel_detail : Option ℕ
  pub context : Option (ℕ × Context)
  pub context_warning : Option ℕ
  pub rerank_trace : Option RerankTrace
  pub hierarchy_trace : Option ℕ

abbrev pub is_outside : SearchHit → Option (ℕ × Context) → Bool
is_outside hit none = false
is_outside hit (some (context_id, context)) = not (contains_chunk context hit.chunk)

abbrev pub first_trace : List SearchHit → Option RerankTrace
first_trace [] = none
first_trace (hit ∷ hits) = hit.rerank_trace

unfoldable pub add_trace : Option RerankTrace → Registry → Registry
add_trace none registry = registry
add_trace (some trace) registry = record registry {
  rerank_events = registry.rerank_events ++ trace.detail ∷ [];
}

unfoldable pub add_event : Option ℕ → Registry → Registry
add_event none registry = registry
add_event (some event) registry =
    if contains registry.hierarchy_events event
    then registry
    else record registry { hierarchy_events = registry.hierarchy_events ++ event ∷ [] }

abbrev pub chunk_key : SearchHit → Key
chunk_key hit = record { kind = knowledge; identity = hit.chunk.chunk_id }

abbrev pub knowledge_item : SearchHit → Item
knowledge_item hit = record {
  key = chunk_key hit;
  title = hit.chunk.source_name;
  content = hit.chunk.content;
  named = none;
  detail = hit.detail;
  extra = hit.excel_detail;
}

unfoldable pub insert_some : Option ℕ → List ℕ → List ℕ
insert_some none set = set
insert_some (some n) set = insert_number n set

unfoldable pub context_warnings : List SearchHit → List ℕ
context_warnings [] = []
context_warnings (hit ∷ hits) = insert_some hit.context_warning (context_warnings hits)

abbrev pub trace_warning : Option RerankTrace → Option ℕ
trace_warning none = none
trace_warning (some trace) = trace.error_code

-- The registry with the contexts that were used and the warnings that were given.
pub record Gathered : Type 0 where
  pub registry : Registry
  pub context_ids : List ℕ
  pub warnings : List ℕ

abbrev pub new_passage : ℕ → SearchHit → Context → Passage
new_passage context_id hit context = record {
  context_id = context_id;
  for_numbers = [];
  title = hit.chunk.source_name;
  content = content_of context;
}

abbrev pub numbered_for : ℕ → Passage → Passage
numbered_for number passage =
    if contains passage.for_numbers number
    then passage
    else record passage { for_numbers = passage.for_numbers ++ number ∷ [] }

-- `tokens > min(token_budget - used_tokens, token_budget // 3 - context_tokens)`
abbrev pub overflows : (tokens : ℕ) → Registry → Bool
overflows tokens registry =
    ltb registry.token_budget (tokens + registry.used_tokens)
    || ltb (registry.token_budget / 3) (tokens + registry.context_tokens)

abbrev pub with_passage : (tokens : ℕ) → Passage → Registry → Registry
with_passage tokens passage registry = record registry {
  contexts = store_row (passage_of passage.context_id) passage registry.contexts;
  used_tokens = registry.used_tokens + tokens;
  context_tokens = registry.context_tokens + tokens;
}

abbrev pub replaced : Passage → Registry → Registry
replaced passage registry = record registry {
  contexts = store_row (passage_of passage.context_id) passage registry.contexts;
}

abbrev pub used : ℕ → Registry → Gathered → Gathered
used context_id registry gathered = record gathered {
  registry = registry;
  context_ids = insert_number context_id gathered.context_ids;
}

pub record KnowledgeReport : Type 0 where
  pub added : Report
  pub passages : List Passage
  pub warnings : List ℕ
  pub rerank : Option RerankTrace

abbrev pub passage_found : Option Passage → List Passage → List Passage
passage_found none rest = rest
passage_found (some passage) rest = passage ∷ rest

unfoldable pub passages_of : List ℕ → List Passage → List Passage
passages_of [] contexts = []
passages_of (id ∷ ids) contexts =
    passage_found (find_row (passage_of id) contexts) (passages_of ids contexts)

module _ (env : Environment) where
  unfoldable pub add_hits : List SearchHit → Registry → Report × Registry
  add_hits [] registry = (no_report, registry)
  add_hits (hit ∷ hits) registry =
      let (result, next) = add env (knowledge_item hit) (add_event hit.hierarchy_trace registry) in
      let (report, last) = add_hits hits next in (noted result report, last)

  unfoldable pub open_context : ℕ → SearchHit → ℕ → Context → Gathered → Gathered
  open_context number hit context_id context gathered =
      let tokens = env.count_tokens (content_of context) in
      if overflows tokens gathered.registry
      then record gathered { warnings = insert_number env.budget_warning gathered.warnings }
      else used context_id
          (with_passage tokens (numbered_for number (new_passage context_id hit context))
            gathered.registry)
          gathered

  unfoldable pub use_context : ℕ → SearchHit → ℕ → Context → Option Passage → Gathered → Gathered
  use_context number hit context_id context none gathered =
      open_context number hit context_id context gathered
  use_context number hit context_id context (some passage) gathered =
      used context_id (replaced (numbered_for number passage) gathered.registry) gathered

  unfoldable pub add_context :
      SearchHit → Option (ℕ × Context) → Option KeyRow → Gathered → Gathered
  add_context hit none row gathered = gathered
  add_context hit (some context) none gathered = gathered
  add_context hit (some (context_id, context)) (some row) gathered =
      use_context row.number hit context_id context
        (find_row (passage_of context_id) gathered.registry.contexts) gathered

  unfoldable pub add_contexts : List SearchHit → Gathered → Gathered
  add_contexts [] gathered = gathered
  add_contexts (hit ∷ hits) gathered = add_contexts hits (
      add_context hit hit.context (find_row (key_of (chunk_key hit)) gathered.registry.keys)
        gathered)

  unfoldable pub add_known : List SearchHit → Registry → KnowledgeReport × Registry
  add_known hits registry =
      let trace = first_trace hits in
      let (report, next) = add_hits hits (add_trace trace registry) in
      let gathered = add_contexts hits (record {
        registry = next;
        context_ids = [];
        warnings = insert_some (trace_warning trace) (context_warnings hits);
      }) in
      let last = gathered.registry in
      (
        record {
          added = report;
          passages = passages_of gathered.context_ids last.contexts;
          warnings = gathered.warnings;
          rerank = trace;
        },
        record last { warnings = insert_numbers gathered.warnings last.warnings },
      )

  unfoldable pub add_knowledge : List SearchHit → Registry → Result (KnowledgeReport × Registry)
  add_knowledge hits registry =
      if any (λ hit. is_outside hit hit.context) hits
      then err (app_error vector_scope_mismatch)
      else ok (add_known hits registry)
