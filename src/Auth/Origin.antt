-- ===== src/Auth/Origin.antt =====
-- AuthService.verify_cookie_origin of app/service/auth.py.
use learning_qa_assistant.Base.{
  Bool, true, false, not, ◌&&◌, ◌||◌, ◌≡◌, refl, ap, ◌⊎◌, inl, inr, Option, none, some, [], ◌∷◌,
  ◌==◌, Bool-cases, if◌then◌else◌,
}
use learning_qa_assistant.Base.Text.{Text, codes, text_eq, text_eq_sound}
use learning_qa_assistant.Transaction.{Result, ok, err, app_error, csrf_rejected}

abbrev pub is_all_slashes : Text → Bool
is_all_slashes [] = true
is_all_slashes (c ∷ text) = c == b'/' && is_all_slashes text

-- `text.rstrip("/")`
unfoldable pub without_slashes : Text → Text
without_slashes [] = []
without_slashes (c ∷ text) =
    let rest = without_slashes text in if is_all_slashes (c ∷ text) then [] else c ∷ rest

abbrev pub is_origin : Option Text → Text → Bool
is_origin none allowed = false
is_origin (some origin) allowed = text_eq origin (without_slashes allowed)

unfoldable pub is_same_site : Option Text → Bool
is_same_site none = true
is_same_site (some site) = text_eq site (codes "same-origin") || text_eq site (codes "same-site")

unfoldable pub verify_cookie_origin :
    (frontend_origin : Text)
    → (origin sec_fetch_site : Option Text) → (request_origin : Text) → Result (Unit {0})
verify_cookie_origin frontend_origin origin sec_fetch_site request_origin =
    if not (is_origin origin frontend_origin || is_origin origin request_origin)
      || not (is_same_site sec_fetch_site)
    then err (app_error csrf_rejected)
    else ok tt

is_origin_sound :
    (origin : Option Text) (allowed : Text)
    → is_origin origin allowed ≡ true
    → origin ≡ some (without_slashes allowed)
is_origin_sound none allowed h = absurd (cc h)
is_origin_sound (some origin) allowed h = ap some (text_eq_sound origin _ h)

site_sound :
    (site : Option Text)
    → is_same_site site ≡ true
    → (site ≡ none) ⊎ ((site ≡ some (codes "same-origin")) ⊎ (site ≡ some (codes "same-site")))
unfolding is_same_site
site_sound none h = inl refl
site_sound (some site) h = elim (Bool-cases (text_eq site (codes "same-origin"))) [
  | inl same ↦ inr (inl (ap some (text_eq_sound site _ same)))
  | inr other ↦ inr (inr (ap some (text_eq_sound site _ (rw other at h))))
]

abbrev answer : Bool → Result (Unit {0})
answer refused = if refused then err (app_error csrf_rejected) else ok tt

foreign-refused : (known : Bool) → answer (not known || true) ≡ ok tt → ⊥
foreign-refused true h = cc h
foreign-refused false h = cc h

-- A request that passes the check names an origin, which is the front end's or the request's own
-- without trailing slashes, and the browser says nothing of its site or that it is the same.
pub verify_cookie_origin_sound :
    (frontend_origin : Text) (origin sec_fetch_site : Option Text) (request_origin : Text)
    → verify_cookie_origin frontend_origin origin sec_fetch_site request_origin ≡ ok tt
    → ((origin ≡ some (without_slashes frontend_origin))
        ⊎ (origin ≡ some (without_slashes request_origin)))
      × ((sec_fetch_site ≡ none)
          ⊎ ((sec_fetch_site ≡ some (codes "same-origin"))
              ⊎ (sec_fetch_site ≡ some (codes "same-site"))))
unfolding verify_cookie_origin
verify_cookie_origin_sound frontend_origin origin sec_fetch_site request_origin h =
    elim (Bool-cases (is_same_site sec_fetch_site)) [
      | inl same ↦ elim (Bool-cases (is_origin origin frontend_origin)) [
        | inl front ↦
            (inl (is_origin_sound origin frontend_origin front), site_sound sec_fetch_site same)
        | inr other ↦ elim (Bool-cases (is_origin origin request_origin)) [
          | inl own ↦
              (inr (is_origin_sound origin request_origin own), site_sound sec_fetch_site same)
          | inr neither ↦ absurd (cc (rw neither at (rw other at h)))
        ]
      ]
      | inr foreign ↦ absurd (foreign-refused _ (rw foreign at h))
    ]
