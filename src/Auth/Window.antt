-- ===== src/Auth/Window.antt =====
-- The sliding window of the login limits: what a bucket keeps is what was let through lately.
use learning_qa_assistant.Base.{
  ℕ, ◌+◌, ◌≤◌, Bool, true, false, not, ◌&&◌, ◌≡◌, refl, sym, ap, ◌∙◌, inl, inr, List, [], ◌∷◌, ◌++◌,
  Bool-cases, leb, length, length-append, if◌then◌else◌, keep, arith,
}
use learning_qa_assistant.Base.Table.{All}
use learning_qa_assistant.Transaction.{Result, ok, err}
use learning_qa_assistant.Auth.Limit.{expire, limit_bucket}

-- A call of `_limit` on one key
pub record Attempt : Type 0 where
  pub time : ℕ
  pub recorded : Bool

abbrev pub was_let : Result (Unit {0}) → Bool
was_let (ok u) = true
was_let (err e) = false

-- A bucket, beside the times of all recorded attempts that were let through.
pub record Tally : Type 0 where
  pub attempts : List ℕ
  pub log : List ℕ

module _ (limit window : ℕ) where
  unfoldable pub count : Attempt → Tally → Tally
  count attempt tally =
      let (result, attempts) =
        limit_bucket limit window attempt.time attempt.recorded tally.attempts in
      record {
        attempts = attempts;
        log =
            (if was_let result && attempt.recorded
              then tally.log ++ attempt.time ∷ []
              else tally.log);
      }

  unfoldable pub count_all : List Attempt → Tally → Tally
  count_all [] tally = tally
  count_all (attempt ∷ attempts) tally = count_all attempts (count attempt tally)

-- An attempt still counts at `now`.
abbrev pub is_live : (window now attempt : ℕ) → Bool
is_live window now attempt = not (leb (attempt + window) now)

-- The calls come in the order of the monotonic clock.
abbrev pub IsInOrder : ℕ → List Attempt → Type 0
IsInOrder last [] = Unit
IsInOrder last (attempt ∷ attempts) = (last ≤ attempt.time) × IsInOrder attempt.time attempts

abbrev pub last_time : ℕ → List Attempt → ℕ
last_time last [] = last
last_time last (attempt ∷ attempts) = last_time attempt.time attempts

Ordered : List ℕ → Type 0
Ordered [] = Unit
Ordered (t ∷ rest) = All (λ u. t ≤ u) rest × Ordered rest

Ordered-append : (xs : List ℕ) (t : ℕ) → Ordered xs → All (λ u. u ≤ t) xs → Ordered (xs ++ t ∷ [])
unfolding Ordered
Ordered-append [] t h below = (tt, tt)
Ordered-append (x ∷ xs) t h below = (all-append xs h.0, Ordered-append xs t h.1 below.1)
  where
    all-append : (ys : List ℕ) → All (λ u. x ≤ u) ys → All (λ u. x ≤ u) (ys ++ t ∷ [])
    all-append [] k = (below.0, tt)
    all-append (y ∷ ys) k = (k.0, all-append ys k.1)

All-append : (P : ℕ → Type 0) (xs : List ℕ) (t : ℕ) → All P xs → P t → All P (xs ++ t ∷ [])
All-append P [] t h p = (p, tt)
All-append P (x ∷ xs) t h p = (h.0, All-append P xs t h.1 p)

All-weaken : (P Q : ℕ → Type 0) (xs : List ℕ) → ((t : ℕ) → P t → Q t) → All P xs → All Q xs
All-weaken P Q [] f h = tt
All-weaken P Q (x ∷ xs) f h = (f x h.0, All-weaken P Q xs f h.1)

keep-All : (test : ℕ → Bool) (xs : List ℕ) → All (λ t. test t ≡ true) xs → keep test xs ≡ xs
keep-All test [] h = refl
keep-All test (x ∷ xs) h = rw h.0 (ap (λ r. x ∷ r) (keep-All test xs h.1))

keep-append :
    (test : ℕ → Bool) (xs : List ℕ) (t : ℕ)
    → test t ≡ true
    → keep test (xs ++ t ∷ []) ≡ keep test xs ++ t ∷ []
keep-append test [] t h = rw h refl
keep-append test (x ∷ xs) t h = elim (Bool-cases (test x)) [
  | inl hit ↦ rw hit (ap (λ r. x ∷ r) (keep-append test xs t h))
  | inr miss ↦ rw miss (keep-append test xs t h)
]

module _ (window : ℕ) where
  -- Of ordered attempts, those that have expired come first.
  expire-keep :
      (now : ℕ) (xs : List ℕ) → Ordered xs → expire window now xs ≡ keep (is_live window now) xs
  unfolding expire Ordered
  expire-keep now [] h = refl
  expire-keep now (t ∷ rest) h = elim (Bool-cases (leb (t + window) now)) [
    | inl gone ↦ rw gone (expire-keep now rest h.1)
    | inr live ↦
        rw live (
          ap (λ r. t ∷ r)
            (sym (keep-All _ rest (All-weaken _ _ rest (λ u less. ground arith) h.0))))
  ]

  -- What expires later may as well expire at once.
  expire-keep_later :
      (last now : ℕ) (xs : List ℕ)
      → last ≤ now
      → Ordered xs
      → expire window now (keep (is_live window last) xs) ≡ keep (is_live window now) xs
  unfolding expire Ordered
  expire-keep_later last now [] le h = refl
  expire-keep_later last now (t ∷ rest) le h = elim (Bool-cases (leb (t + window) last)) [
    | inl gone ↦ rw gone (
        let also : leb (t + window) now ≡ true = ground arith in
        rw also (expire-keep_later last now rest le h.1))
    | inr live ↦ rw live (elim (Bool-cases (leb (t + window) now)) [
      | inl gone ↦ rw gone (expire-keep_later last now rest le h.1)
      | inr still ↦ rw still (
          ap (λ r. t ∷ r)
            (keep-All _ rest (All-weaken _ _ rest (λ u less. ground arith) h.0)
              ∙ sym (keep-All _ rest (All-weaken _ _ rest (λ u less. ground arith) h.0))))
    ])
  ]

length-expire : (window now : ℕ) (xs : List ℕ) → length (expire window now xs) ≤ length xs
unfolding expire
length-expire window now [] = omega arith
length-expire window now (t ∷ rest) = elim (Bool-cases (leb (t + window) now)) [
  | inl gone ↦ rw gone (let fewer = length-expire window now rest in omega (arith, fewer))
  | inr live ↦ rw live (omega arith)
]

-- What is known of a tally at the time of its last call.
record IsTallied (limit window last : ℕ) (tally : Tally) : Type 0 where
  live : tally.attempts ≡ keep (is_live window last) tally.log
  bounded : length tally.attempts ≤ limit
  ordered : Ordered tally.log
  past : All (λ t. t ≤ last) tally.log

module _ (limit window : ℕ) (positive : 1 ≤ window) where
  recorded-IsTallied :
      (last time : ℕ) (tally : Tally)
      → last ≤ time
      → IsTallied limit window last tally
      → leb limit (length (expire window time tally.attempts)) ≡ false
      → IsTallied limit window time (record {
        attempts = expire window time tally.attempts ++ time ∷ [];
        log = tally.log ++ time ∷ [];
      })
  recorded-IsTallied last time tally le h room =
      let kept : expire window time tally.attempts ≡ keep (is_live window time) tally.log =
        ap (λ xs. expire window time xs) h.live
        ∙ expire-keep_later window last time tally.log le h.ordered in
      let past = All-weaken _ _ tally.log (λ t less. omega (arith, less, le)) h.past in
      record {
        live = ap (λ xs. xs ++ time ∷ []) kept ∙ sym (keep-append _ tally.log time (ground arith));
        bounded =
            let more = length-append (expire window time tally.attempts) (time ∷ []) in
            ground arith;
        ordered = Ordered-append tally.log time h.ordered past;
        past = All-append _ tally.log time past (omega arith);
      }

  passed-IsTallied :
      (last time : ℕ) (tally : Tally)
      → last ≤ time
      → IsTallied limit window last tally
      → IsTallied limit window time
          (record { attempts = expire window time tally.attempts; log = tally.log })
  passed-IsTallied last time tally le h = record {
    live =
        ap (λ xs. expire window time xs) h.live
        ∙ expire-keep_later window last time tally.log le h.ordered;
    bounded =
        let fewer = length-expire window time tally.attempts in
        let bound = h.bounded in omega (arith, fewer, bound);
    ordered = h.ordered;
    past = All-weaken _ _ tally.log (λ t less. omega (arith, less, le)) h.past;
  }

  count-IsTallied :
      (last : ℕ) (attempt : Attempt) (tally : Tally)
      → last ≤ attempt.time
      → IsTallied limit window last tally
      → IsTallied limit window attempt.time (count limit window attempt tally)
  unfolding count limit_bucket
  count-IsTallied last attempt tally le h =
      elim (Bool-cases (leb limit (length (expire window attempt.time tally.attempts)))) [
        | inl full ↦ rw full (passed-IsTallied last attempt.time tally le h)
        | inr room ↦ rw room (elim (Bool-cases attempt.recorded) [
          | inl noted ↦ rw noted (recorded-IsTallied last attempt.time tally le h room)
          | inr asked ↦ rw asked (passed-IsTallied last attempt.time tally le h)
        ])
      ]

  count_all-IsTallied :
      (last : ℕ) (attempts : List Attempt) (tally : Tally)
      → IsInOrder last attempts
      → IsTallied limit window last tally
      → IsTallied limit window (last_time last attempts) (count_all limit window attempts tally)
  unfolding count_all
  count_all-IsTallied last [] tally order h = h
  count_all-IsTallied last (attempt ∷ attempts) tally order h =
      count_all-IsTallied attempt.time attempts _ order.1
        (count-IsTallied last attempt tally order.0 h)

-- After any calls for one key, in the order of the clock, the bucket holds exactly those of all
-- attempts let through and recorded that are younger than the window at the last call, and they
-- are no more than the limit.
pub count_all-live :
    (limit window : ℕ) (attempts : List Attempt)
    → 1 ≤ window
    → IsInOrder 0 attempts
    → let tally = count_all limit window attempts (record { attempts = []; log = [] }) in
      (tally.attempts ≡ keep (is_live window (last_time 0 attempts)) tally.log)
      × (length tally.attempts ≤ limit)
unfolding Ordered
count_all-live limit window attempts positive order =
    let h =
      count_all-IsTallied limit window positive 0 attempts _ order
        (record { live = refl; bounded = omega arith; ordered = tt; past = tt }) in
    (h.live, h.bounded)
