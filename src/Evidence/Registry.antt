-- ===== src/Evidence/Registry.antt =====
-- EvidenceRegistry of app/manager/evidence.py: _add, add_web, add_memories, add_tool, add_sql and
-- add_web_page.
use learning_qa_assistant.Base.{
  ℕ, zero, suc, ◌+◌, ◌-◌, ◌/◌, Bool, true, false, ◌||◌, Option, none, some, List, [], ◌∷◌, ◌++◌,
  leb, ltb, if◌then◌else◌, take, length,
}
use learning_qa_assistant.Base.Table.{find_row, store_row}
use learning_qa_assistant.Base.Text.{Text, codes, strip}
use learning_qa_assistant.Evidence.State.{
  web, tool, memory, sql, Key, Citation, Source, KeyRow, Registry, Report, Environment, key_of,
  source_of,
}

-- `extra` is what the callers of `_add` put into the source that it returns.
pub record Item : Type 0 where
  pub key : Key
  pub title : Text
  pub content : Text
  pub named : Option Text
  pub detail : ℕ
  pub extra : Option ℕ

-- What `_add` returns; `duplicate` has the number that the key has.
pub data Added : Type 0 where
  duplicate : ℕ → Added
  added : Source → Added
  dropped : Added

abbrev pub trimmed : Text → Text
trimmed content = strip (take 12000 content)

abbrev pub is_empty : Text → Bool
is_empty [] = true
is_empty (c ∷ cs) = false

abbrev pub new_citation : (number : ℕ) → Item → Text → Citation
new_citation number item content = record {
  number = number;
  type = item.key.kind;
  excerpt = take 500 content;
  title = item.named;
  detail = item.detail;
}

abbrev pub new_source : (number : ℕ) → Item → Text → Source
new_source number item content = record {
  number = number;
  type = item.key.kind;
  title = take 500 item.title;
  content = content;
  extra = item.extra;
}

abbrev pub entered : (tokens : ℕ) → Item → Text → Registry → Registry
entered tokens item content registry =
    let number = suc (length registry.entries) in
    record registry {
      entries = registry.entries ++ new_citation number item content ∷ [];
      keys = store_row (key_of item.key) (record { key = item.key; number = number }) registry.keys;
      used_tokens = registry.used_tokens + tokens;
      sources = store_row (source_of number) (new_source number item content) registry.sources;
    }

abbrev pub noted : Added → Report → Report
noted (duplicate number) report = record report {
  existing_numbers = number ∷ report.existing_numbers;
}
noted (added source) report = record report { sources = source ∷ report.sources }
noted dropped report = record report { truncated = true }

abbrev pub no_report : Report
no_report = record { sources = []; existing_numbers = []; truncated = false }

pub record WebResult : Type 0 where
  pub url : ℕ
  pub title : Text
  pub content : Text
  pub detail : ℕ

pub record Memory : Type 0 where
  pub memory_id : ℕ
  pub content : Text
  pub detail : ℕ
  pub asserted_at : Option ℕ

abbrev pub memory_item : Memory → Item
memory_item row = record {
  key = record { kind = memory; identity = row.memory_id };
  title = codes "长期记忆";
  content = row.content;
  named = none;
  detail = row.detail;
  extra = row.asserted_at;
}

unfoldable pub memory_items : List Memory → List Item
memory_items [] = []
memory_items (row ∷ rows) = memory_item row ∷ memory_items rows

abbrev pub single : Added → Registry → Report × Registry
single result registry = (noted result no_report, registry)

unfoldable pub set_at : ℕ → (Citation → Citation) → List Citation → List Citation
set_at n f [] = []
set_at zero f (entry ∷ entries) = f entry ∷ entries
set_at (suc n) f (entry ∷ entries) = entry ∷ set_at n f entries

abbrev pub previewed : Text → Added → Registry → Registry
previewed preview (added source) registry = record registry {
  entries =
      set_at (source.number - 1) (λ entry. record entry { excerpt = take 500 preview })
        registry.entries;
}
previewed preview _ registry = registry

-- `while content and count_tokens(content) > available: content = content[:len(content) // 2]`,
-- where `available` is what the budget leaves beside the previous content.
unfoldable pub shrink : (fuel : ℕ) → (fits : Text → Bool) → Text → Text
shrink zero fits content = content
shrink (suc fuel) fits content =
    let rest = shrink fuel fits (take (length content / 2) content) in
    if is_empty content || fits content then content else rest

module _ (env : Environment) where
  abbrev pub exceeds : (tokens : ℕ) → Registry → Bool
  exceeds tokens registry = ltb registry.token_budget (registry.used_tokens + tokens)

  -- A key that is not in the dict.
  unfoldable pub add_new : Item → Text → Registry → Added × Registry
  add_new item content registry =
      if is_empty content || exceeds (env.count_tokens content) registry
      then (dropped, registry)
      else (
        added (new_source (suc (length registry.entries)) item content),
        entered (env.count_tokens content) item content registry,
      )

  unfoldable pub add_found : Option KeyRow → Item → Registry → Added × Registry
  add_found (some row) item registry = (duplicate row.number, registry)
  add_found none item registry = add_new item (trimmed item.content) registry

  unfoldable pub add : Item → Registry → Added × Registry
  add item registry = add_found (find_row (key_of item.key) registry.keys) item registry

  -- The loop of `add_web`, `add_memories` and `add_knowledge`
  unfoldable pub add_each : List Item → Registry → Report × Registry
  add_each [] registry = (no_report, registry)
  add_each (item ∷ items) registry =
      let (result, next) = add item registry in
      let (report, last) = add_each items next in (noted result report, last)

  abbrev pub web_item : WebResult → Item
  web_item result = record {
    key = record { kind = web; identity = env.normalized_url result.url };
    title = result.title;
    content = result.content;
    named = some result.title;
    detail = result.detail;
    extra = none;
  }

  unfoldable pub web_items : List WebResult → List Item
  web_items [] = []
  web_items (result ∷ results) = web_item result ∷ web_items results

  unfoldable pub add_web : List WebResult → Registry → Report × Registry
  add_web results registry = add_each (web_items results) registry

  unfoldable pub add_memories : List Memory → Registry → Report × Registry
  add_memories rows registry = add_each (memory_items rows) registry

  -- `content` is the JSON of the tool's data, and `identity` its name, version and digest.
  unfoldable pub add_tool :
      (identity detail : ℕ) → (name content : Text) → Registry → Report × Registry
  add_tool identity detail name content registry =
      let item : Item = record {
        key = record { kind = tool; identity = identity };
        title = name;
        content = content;
        named = none;
        detail = detail;
        extra = some detail;
      } in
      let (result, next) = add item registry in
      let (report, last) = single result next in
      (record report { truncated = ltb 12000 (length content) || report.truncated }, last)

  -- `content` is the JSON of the rows, `identity` its digest, and `preview` its first rows as text.
  unfoldable pub add_sql :
      (identity detail : ℕ) → (source_name content preview : Text) → Registry → Report × Registry
  add_sql identity detail source_name content preview registry =
      let item : Item = record {
        key = record { kind = sql; identity = identity };
        title = source_name;
        content = content;
        named = none;
        detail = detail;
        extra = none;
      } in
      let (result, next) = add item registry in single result (previewed preview result next)

  abbrev pub fits_beside : Source → Registry → Text → Bool
  fits_beside previous registry content =
      leb (env.count_tokens content + registry.used_tokens)
        (registry.token_budget + env.count_tokens previous.content)

  abbrev pub refreshed : Source → WebResult → Text → Registry → Registry
  refreshed previous page content registry = record registry {
    used_tokens =
        registry.used_tokens + env.count_tokens content - env.count_tokens previous.content;
    sources =
        store_row (source_of previous.number)
          (record previous { content = content; title = take 500 page.title }) registry.sources;
    entries =
        set_at (previous.number - 1)
          (λ entry. record entry { excerpt = take 500 content; title = some (take 500 page.title) })
          registry.entries;
  }

  unfoldable pub refresh : Source → WebResult → Text → Registry → Report × Registry
  refresh previous page content registry =
      if is_empty content
      then (
        record { sources = []; existing_numbers = previous.number ∷ []; truncated = true },
        registry,
      )
      else (
        record {
          sources = record previous { content = content; title = take 500 page.title } ∷ [];
          existing_numbers = [];
          truncated = ltb (length content) (length page.content);
        },
        refreshed previous page content registry,
      )

  -- A number of a key that no source has would be a `KeyError`.
  unfoldable pub add_page_source : Option Source → WebResult → Registry → Option (Report × Registry)
  add_page_source none page registry = none
  add_page_source (some previous) page registry =
      let content = trimmed page.content in
      some (
        refresh previous page (shrink (length content) (fits_beside previous registry) content)
          registry)

  unfoldable pub add_page_found : Option KeyRow → WebResult → Registry → Option (Report × Registry)
  add_page_found none page registry = some (add_web (page ∷ []) registry)
  add_page_found (some row) page registry =
      add_page_source (find_row (source_of row.number) registry.sources) page registry

  unfoldable pub add_web_page : WebResult → Registry → Option (Report × Registry)
  add_web_page page registry =
      add_page_found
        (find_row (key_of (record { kind = web; identity = env.normalized_url page.url }))
          registry.keys)
        page registry
