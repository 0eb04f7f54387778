-- ===== src/Evidence/Contexts.antt =====
-- Search hits and the contexts around them keep a registry's accounts.
use learning_qa_assistant.Base.{
  ℕ, false, ◌≡◌, refl, sym, ap, subst, ◌∙◌, inl, inr, Option, none, some, List, [], ◌∷◌, Bool-cases,
  contains, arith,
}
use learning_qa_assistant.Base.Table.{find_row, find_row-passes}
use learning_qa_assistant.Base.Numbered.{store_row-append, total-append, total-store_row}
use learning_qa_assistant.Evidence.Contracts.{Context, content_of}
use learning_qa_assistant.Evidence.State.{Passage, KeyRow, Registry, Environment, passage_of}
use learning_qa_assistant.Evidence.Knowledge.{
  RerankTrace, SearchHit, first_trace, add_trace, add_event, knowledge_item, Gathered, new_passage,
  numbered_for, add_hits, overflows, with_passage, replaced, open_context, use_context, add_context,
  add_contexts, add_known,
}
use learning_qa_assistant.Evidence.Accounting.{IsRegistry, passage_weight, add-IsRegistry}
use learning_qa_assistant.Evidence.Sets.{IsAscending, insert_numbers-IsAscending}

numbered_for-content :
    (number : ℕ) (passage : Passage) → (numbered_for number passage).content ≡ passage.content
numbered_for-content number passage = elim (Bool-cases (contains passage.for_numbers number)) [
  | inl there ↦ rw there refl
  | inr new ↦ rw new refl
]

numbered_for-context_id :
    (number : ℕ) (passage : Passage) → (numbered_for number passage).context_id ≡ passage.context_id
numbered_for-context_id number passage = elim (Bool-cases (contains passage.for_numbers number)) [
  | inl there ↦ rw there refl
  | inr new ↦ rw new refl
]

module _ (env : Environment) where
  with_passage-IsRegistry :
      (passage : Passage) (registry : Registry)
      → IsRegistry env registry
      → find_row (passage_of passage.context_id) registry.contexts ≡ none
      → overflows (env.count_tokens passage.content) registry ≡ false
      → IsRegistry env (with_passage (env.count_tokens passage.content) passage registry)
  with_passage-IsRegistry passage registry h fresh fits =
      let s = store_row-append (passage_of passage.context_id) passage registry.contexts fresh in
      let u = h.used in
      let p = h.passages in
      record {
        entries = h.entries;
        sources = h.sources;
        keys = h.keys;
        source_count = h.source_count;
        key_count = h.key_count;
        distinct = h.distinct;
        used = omega (arith, u);
        passages =
            rw s (omega (arith, p, total-append (passage_weight env) registry.contexts passage));
        within = ground arith;
        third = ground arith;
        warnings = h.warnings;
        excluded = h.excluded;
      }

  replaced-IsRegistry :
      (new previous : Passage) (registry : Registry)
      → IsRegistry env registry
      → find_row (passage_of new.context_id) registry.contexts ≡ some previous
      → new.content ≡ previous.content
      → IsRegistry env (replaced new registry)
  replaced-IsRegistry new previous registry h found same =
      let t =
        total-store_row (passage_weight env) (passage_of new.context_id) new previous
          registry.contexts found in
      let w : passage_weight env new ≡ passage_weight env previous = ap env.count_tokens same in
      let p = h.passages in
      record {
        entries = h.entries;
        sources = h.sources;
        keys = h.keys;
        source_count = h.source_count;
        key_count = h.key_count;
        distinct = h.distinct;
        used = h.used;
        passages = omega (arith, p, t, w);
        within = h.within;
        third = h.third;
        warnings = h.warnings;
        excluded = h.excluded;
      }

  abbrev Kept : Gathered → Type 0
  Kept gathered = IsRegistry env gathered.registry

  open_context-Kept :
      (number : ℕ) (hit : SearchHit) (context_id : ℕ) (context : Context) (gathered : Gathered)
      → Kept gathered
      → find_row (passage_of context_id) gathered.registry.contexts ≡ none
      → Kept (open_context env number hit context_id context gathered)
  unfolding open_context
  open_context-Kept number hit context_id context gathered h fresh =
      elim (Bool-cases (overflows (env.count_tokens (content_of context)) gathered.registry)) [
        | inl over ↦ rw over h
        | inr fits ↦ rw fits (
            with_passage-IsRegistry (numbered_for number (new_passage context_id hit context))
              gathered.registry h fresh fits)
      ]

  use_context-Kept :
      (number : ℕ) (hit : SearchHit) (context_id : ℕ) (context : Context) (found : Option Passage)
      (gathered : Gathered)
      → Kept gathered
      → find_row (passage_of context_id) gathered.registry.contexts ≡ found
      → Kept (use_context env number hit context_id context found gathered)
  unfolding use_context
  use_context-Kept number hit context_id context none gathered h e =
      open_context-Kept number hit context_id context gathered h e
  use_context-Kept number hit context_id context (some passage) gathered h e =
      let id : (numbered_for number passage).context_id ≡ context_id =
        numbered_for-context_id number passage ∙ (let p = find_row-passes _ _ e in ground arith) in
      replaced-IsRegistry (numbered_for number passage) passage gathered.registry h
        (subst (λ n. find_row (passage_of n) gathered.registry.contexts ≡ some passage) (sym id) e)
        (numbered_for-content number passage)

  add_context-Kept :
      (hit : SearchHit) (context : Option (ℕ × Context)) (row : Option KeyRow) (gathered : Gathered)
      → Kept gathered
      → Kept (add_context env hit context row gathered)
  unfolding add_context
  add_context-Kept hit none row gathered h = h
  add_context-Kept hit (some context) none gathered h = h
  add_context-Kept hit (some (context_id, context)) (some row) gathered h =
      use_context-Kept row.number hit context_id context _ gathered h refl

  add_contexts-Kept :
      (hits : List SearchHit) (gathered : Gathered)
      → Kept gathered
      → Kept (add_contexts env hits gathered)
  unfolding add_contexts
  add_contexts-Kept [] gathered h = h
  add_contexts-Kept (hit ∷ hits) gathered h =
      add_contexts-Kept hits _ (add_context-Kept hit hit.context _ gathered h)

  pub with_notes-IsRegistry :
      (registry : Registry) (rerank_events hierarchy_events warnings excluded_numbers : List ℕ)
      → IsRegistry env registry
      → IsAscending warnings
      → IsAscending excluded_numbers
      → IsRegistry env (record registry {
        rerank_events = rerank_events;
        hierarchy_events = hierarchy_events;
        warnings = warnings;
        excluded_numbers = excluded_numbers;
      })
  with_notes-IsRegistry registry rerank_events hierarchy_events warnings excluded_numbers h w e =
      record {
        entries = h.entries;
        sources = h.sources;
        keys = h.keys;
        source_count = h.source_count;
        key_count = h.key_count;
        distinct = h.distinct;
        used = h.used;
        passages = h.passages;
        within = h.within;
        third = h.third;
        warnings = w;
        excluded = e;
      }

  add_event-IsRegistry :
      (event : Option ℕ) (registry : Registry)
      → IsRegistry env registry
      → IsRegistry env (add_event event registry)
  unfolding add_event
  add_event-IsRegistry none registry h = h
  add_event-IsRegistry (some event) registry h =
      elim (Bool-cases (contains registry.hierarchy_events event)) [
        | inl there ↦ rw there h
        | inr new ↦ rw new (with_notes-IsRegistry registry _ _ _ _ h h.warnings h.excluded)
      ]

  add_trace-IsRegistry :
      (trace : Option RerankTrace) (registry : Registry)
      → IsRegistry env registry
      → IsRegistry env (add_trace trace registry)
  unfolding add_trace
  add_trace-IsRegistry none registry h = h
  add_trace-IsRegistry (some trace) registry h =
      with_notes-IsRegistry registry _ _ _ _ h h.warnings h.excluded

  add_hits-IsRegistry :
      (hits : List SearchHit) (registry : Registry)
      → IsRegistry env registry
      → IsRegistry env (add_hits env hits registry).1
  unfolding add_hits
  add_hits-IsRegistry [] registry h = h
  add_hits-IsRegistry (hit ∷ hits) registry h = add_hits-IsRegistry hits _ (
      add-IsRegistry env (knowledge_item hit) _
        (add_event-IsRegistry hit.hierarchy_trace registry h))

  pub add_known-IsRegistry :
      (hits : List SearchHit) (registry : Registry)
      → IsRegistry env registry
      → IsRegistry env (add_known env hits registry).1
  unfolding add_known
  add_known-IsRegistry hits registry h =
      let h' =
        add_contexts-Kept hits _
          (add_hits-IsRegistry hits _ (add_trace-IsRegistry (first_trace hits) registry h)) in
      with_notes-IsRegistry _ _ _ _ _ h' (insert_numbers-IsAscending _ _ h'.warnings) h'.excluded
