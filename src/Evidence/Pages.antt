-- ===== src/Evidence/Pages.antt =====
-- A page that is read again, and the preview of a query, keep a registry's accounts.
use learning_qa_assistant.Base.{
  ℕ, zero, suc, ◌/◌, ◌≤◌, Bool, true, ◌≡◌, refl, sym, ap, subst, ◌∙◌, ◌⊎◌, inl, inr, Option, none,
  some, List, [], ◌∷◌, Bool-cases, take, length, arith,
}
use learning_qa_assistant.Base.Table.{find_row, find_row-passes}
use learning_qa_assistant.Base.Numbered.{
  length-store_row, total-store_row, IsNumbered, store_row-IsNumbered, find_row-range,
  find_row-numbered,
}
use learning_qa_assistant.Base.Text.{Text}
use learning_qa_assistant.Evidence.State.{
  Key, Citation, Source, KeyRow, Registry, Report, Environment, key_of, source_of,
}
use learning_qa_assistant.Evidence.Registry.{
  Added, duplicate, added, dropped, trimmed, set_at, shrink, fits_beside, WebResult, refreshed,
  refresh, previewed, add_tool, add_sql, add_web, add_page_source, add_page_found, add_web_page,
}
use learning_qa_assistant.Evidence.Accounting.{
  IsRegistry, entry_number, source_number, row_number, source_weight, add-IsRegistry,
  add_each-IsRegistry,
}

length-take : (n : ℕ) (text : Text) → length (take n text) ≤ n
length-take zero text = omega arith
length-take (suc n) [] = omega arith
length-take (suc n) (c ∷ text) = omega (arith, length-take n text)

-- Halving a text as often as it has characters leaves one that fits, or nothing.
pub shrink-fits :
    (fuel : ℕ) (fits : Text → Bool) (text : Text)
    → length text ≤ fuel
    → (shrink fuel fits text ≡ []) ⊎ (fits (shrink fuel fits text) ≡ true)
unfolding shrink
shrink-fits zero fits [] le = inl refl
shrink-fits zero fits (c ∷ text) le = absurd (omega (arith, le))
shrink-fits (suc fuel) fits [] le = inl refl
shrink-fits (suc fuel) fits (c ∷ text) le = elim (Bool-cases (fits (c ∷ text))) [
  | inl good ↦ inr (rw good good)
  | inr bad ↦ rw bad (
      shrink-fits fuel fits _
        (let short = length-take (length (c ∷ text) / 2) (c ∷ text) in omega (arith, short, le)))
]

length-set_at :
    (n : ℕ) (f : Citation → Citation) (entries : List Citation)
    → length (set_at n f entries) ≡ length entries
unfolding set_at
length-set_at n f [] = refl
length-set_at zero f (entry ∷ entries) = refl
length-set_at (suc n) f (entry ∷ entries) = ap suc (length-set_at n f entries)

set_at-IsNumbered :
    (m n : ℕ) (f : Citation → Citation) (entries : List Citation)
    → ((entry : Citation) → (f entry).number ≡ entry.number)
    → IsNumbered entry_number m entries
    → IsNumbered entry_number m (set_at n f entries)
unfolding set_at
set_at-IsNumbered m n f [] same h = tt
set_at-IsNumbered m zero f (entry ∷ entries) same h = (same entry ∙ h.0, h.1)
set_at-IsNumbered m (suc n) f (entry ∷ entries) same h =
    (h.0, set_at-IsNumbered (suc m) n f entries same h.1)

module _ (env : Environment) where
  with_entries-IsRegistry :
      (n : ℕ) (f : Citation → Citation) (registry : Registry)
      → ((entry : Citation) → (f entry).number ≡ entry.number)
      → IsRegistry env registry
      → IsRegistry env (record registry { entries = set_at n f registry.entries })
  with_entries-IsRegistry n f registry same h =
      let l = length-set_at n f registry.entries in
      record {
        entries = set_at-IsNumbered 1 n f registry.entries same h.entries;
        sources = h.sources;
        keys = h.keys;
        source_count = h.source_count ∙ sym l;
        key_count = h.key_count ∙ sym l;
        distinct = h.distinct;
        used = h.used;
        passages = h.passages;
        within = h.within;
        third = h.third;
        warnings = h.warnings;
        excluded = h.excluded;
      }

  refreshed-IsRegistry :
      (previous : Source) (page : WebResult) (content : Text) (registry : Registry)
      → IsRegistry env registry
      → find_row (source_of previous.number) registry.sources ≡ some previous
      → fits_beside env previous registry content ≡ true
      → IsRegistry env (refreshed env previous page content registry)
  refreshed-IsRegistry previous page content registry h found fits =
      let next = with_entries-IsRegistry _ _ _ (λ _. refl) h in
      let new : Source = record previous { content = content; title = take 500 page.title } in
      let l = length-store_row (source_of previous.number) new previous registry.sources found in
      let t =
        total-store_row (source_weight env) (source_of previous.number) new previous
          registry.sources found in
      let used = h.used in
      record {
        entries = next.entries;
        sources =
            store_row-IsNumbered source_number 1 previous.number new previous registry.sources
              h.sources refl found;
        keys = h.keys;
        source_count = l ∙ next.source_count;
        key_count = next.key_count;
        distinct = h.distinct;
        used = omega (arith, t, used);
        passages = h.passages;
        within = ground arith;
        third = h.third;
        warnings = h.warnings;
        excluded = h.excluded;
      }

  refresh-IsRegistry :
      (previous : Source) (page : WebResult) (content : Text) (registry : Registry)
      → IsRegistry env registry
      → find_row (source_of previous.number) registry.sources ≡ some previous
      → (content ≡ []) ⊎ (fits_beside env previous registry content ≡ true)
      → IsRegistry env (refresh env previous page content registry).1
  unfolding refresh
  refresh-IsRegistry previous page [] registry h found e = h
  refresh-IsRegistry previous page (c ∷ content) registry h found (inl e) = absurd (cc e)
  refresh-IsRegistry previous page (c ∷ content) registry h found (inr e) =
      refreshed-IsRegistry previous page (c ∷ content) registry h found e

  -- A registry that an operation leaves; a `KeyError` would leave none.
  abbrev pub Left : Option (Report × Registry) → Type 0
  Left none = ⊥
  Left (some (report, registry)) = IsRegistry env registry

  page_source-Left :
      (row : KeyRow) (page : WebResult) (registry : Registry) (previous : Source)
      → IsRegistry env registry
      → find_row (source_of row.number) registry.sources ≡ some previous
      → Left (add_page_source env (some previous) page registry)
  unfolding add_page_source
  page_source-Left row page registry previous h found =
      let number : previous.number ≡ row.number =
        let e = find_row-passes _ _ found in ground arith in
      refresh-IsRegistry previous page _ registry h
        (subst (λ n. find_row (source_of n) registry.sources ≡ some previous) (sym number) found)
        (shrink-fits _ _ (trimmed page.content) (omega arith))

  page_found-Left :
      (key : Key) (found : Option KeyRow) (page : WebResult) (registry : Registry)
      → IsRegistry env registry
      → find_row (key_of key) registry.keys ≡ found
      → Left (add_page_found env found page registry)
  unfolding add_page_found add_web
  page_found-Left key none page registry h e = add_each-IsRegistry env _ registry h
  page_found-Left key (some row) page registry h e =
      let (low, high) = find_row-range row_number 1 (key_of key) row registry.keys h.keys e in
      let same = h.source_count in
      let also = h.key_count in
      let (previous, found) =
        find_row-numbered source_number 1 row.number registry.sources h.sources low
          (omega (arith, high, same, also)) in
      rw found (page_source-Left row page registry previous h found)

  pub add_web_page-Left :
      (page : WebResult) (registry : Registry)
      → IsRegistry env registry
      → Left (add_web_page env page registry)
  unfolding add_web_page
  add_web_page-Left page registry h = page_found-Left _ _ page registry h refl

  pub add_tool-IsRegistry :
      (identity detail : ℕ) (name content : Text) (registry : Registry)
      → IsRegistry env registry
      → IsRegistry env (add_tool env identity detail name content registry).1
  unfolding add_tool
  add_tool-IsRegistry identity detail name content registry h = add-IsRegistry env _ registry h

  previewed-IsRegistry :
      (preview : Text) (result : Added) (registry : Registry)
      → IsRegistry env registry
      → IsRegistry env (previewed preview result registry)
  previewed-IsRegistry preview (added source) registry h =
      with_entries-IsRegistry _ _ registry (λ _. refl) h
  previewed-IsRegistry preview (duplicate number) registry h = h
  previewed-IsRegistry preview dropped registry h = h

  pub add_sql-IsRegistry :
      (identity detail : ℕ) (source_name content preview : Text) (registry : Registry)
      → IsRegistry env registry
      → IsRegistry env (add_sql env identity detail source_name content preview registry).1
  unfolding add_sql
  add_sql-IsRegistry identity detail source_name content preview registry h =
      previewed-IsRegistry preview _ _ (add-IsRegistry env _ registry h)
