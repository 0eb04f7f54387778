-- ===== src/Run/Firsts.antt =====
-- The first run of a list that passes a test, before and after a row is changed or added.
use learning_qa_assistant.Base.{
  Bool, true, false, not, ◌&&◌, ◌≡◌, refl, ◌∙◌, sym, ap, subst, some, List, [], ◌∷◌, ◌++◌, ◌==◌,
  arith, Bool-cases, inl, inr,
}
use learning_qa_assistant.Transaction.{Result, ok, err, Session, Tx, get}
use learning_qa_assistant.Transaction.Rules.{Post}
use learning_qa_assistant.Run.State.{Run, same_kind, Kind, chat, evaluation}
use learning_qa_assistant.Run.Stable.{history_of}
use learning_qa_assistant.Run.Receipts.{Identity, identity_of}
use learning_qa_assistant.Run.Store.{
  Creation, first, change_first, count, is_retry, settled, on_first, on_new,
}
use learning_qa_assistant.Run.Rows.{Succeeds}

-- Which run it is.
abbrev pub label : Run → Identity
label run = identity_of (history_of run)

pub is_retry-label :
    (creation : Creation) (a b : Run)
    → label a ≡ label b
    → is_retry creation a ≡ is_retry creation b
unfolding is_retry
is_retry-label creation a b e =
    ap (λ i. i.user_id == creation.user_id && i.client_key == creation.client_key) e

pub first-change_first :
    (test : Run → Bool) (new : Run) (runs : List Run) {old : Run}
    → first test runs ≡ some old
    → test new ≡ true
    → first test (change_first test new runs) ≡ some new
unfolding first change_first
first-change_first test new [] h k = cc
first-change_first test new (run ∷ runs) h k = elim (Bool-cases (test run)) [
  | inl hit ↦ rw hit (rw k refl)
  | inr miss ↦ rw miss (rw miss (first-change_first test new runs (rw miss at h) k))
]

pub first-added :
    (test : Run → Bool) (runs : List Run) (new : Run)
    → count test runs ≡ 0
    → test new ≡ true
    → first test (runs ++ new ∷ []) ≡ some new
unfolding first count
first-added test [] new h k = rw k refl
first-added test (run ∷ runs) new h k = ground (arith, first-added test runs new)

pub same_kind_refl : (k : Kind) → same_kind k k ≡ true
same_kind_refl chat = refl
same_kind_refl evaluation = refl

pub got : (runs : List Run) (s t : Session (List Run)) → get s ≡ (ok runs, t) → runs ≡ t.work
unfolding get
got runs s t h = cc (ap (λ p. p.0) h, ap (λ p. p.1.work) h)

pub get-work : (runs : List Run) (s t : Session (List Run)) → get s ≡ (ok runs, t) → t.work ≡ s.work
unfolding get
get-work runs s t h = ap (λ p. p.1.work) (sym h)

pub ok-injective : (a b : Run) → ok a ≡ ok b → a ≡ b
ok-injective a b h = cc h

settled-eq-ok : (r : Result (Unit {0})) (w run : Run) → settled r w ≡ ok run → w ≡ run
settled-eq-ok (ok _) w run h = cc h
settled-eq-ok (err f) w run h = absurd (cc h)

pub not-false : (b : Bool) → not b ≡ false → b ≡ true
not-false true h = refl
not-false false h = absurd (cc h)

pub on_first-eq-ok :
    (test : Run → Bool) (old run : Run) (body : Tx Run (Unit {0})) (s t : Session (List Run))
    → Post (Succeeds old) (λ _. Unit {0}) body
    → on_first test old body s ≡ (ok run, t)
    → Succeeds old run × (t.work ≡ change_first test run s.work)
unfolding on_first
on_first-eq-ok test old run body s t keeps h =
    let inner : Session Run = record { work = old; saved = old; clock = s.clock } in
    let same : Succeeds old old = record { same = refl; alive = λ k. k } in
    let (later, _, _) = keeps.at inner same same in
    let e = settled-eq-ok (body inner).0 (body inner).1.work run (ap (λ p. p.0) h) in
    (
      subst (Succeeds old) e later,
      ap (λ p. p.1.work) (sym h) ∙ ap (λ r. change_first test r s.work) e,
    )

pub on_new-eq-ok :
    (row run : Run) (body : Tx Run (Unit {0})) (s t : Session (List Run))
    → Post (Succeeds row) (λ _. Unit {0}) body
    → on_new row body s ≡ (ok run, t)
    → Succeeds row run × (t.work ≡ s.work ++ run ∷ [])
unfolding on_new
on_new-eq-ok row run body s t keeps h =
    let inner : Session Run = record { work = row; saved = row; clock = s.clock } in
    let same : Succeeds row row = record { same = refl; alive = λ k. k } in
    let (later, _, _) = keeps.at inner same same in
    let e = settled-eq-ok (body inner).0 (body inner).1.work run (ap (λ p. p.0) h) in
    (subst (Succeeds row) e later, ap (λ p. p.1.work) (sym h) ∙ ap (λ r. s.work ++ r ∷ []) e)
