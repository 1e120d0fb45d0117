-- ===== src/Oauth2/Scopes/Normal.antt =====
-- What `normalize_scope` promises.
use zero_auth_lite.Prelude.{
  ◌≡◌, ◌∙◌, sym, ap, refl, true, Option, none, some, List, [], ◌∷◌, arith, Text, All,
}
use zero_auth_lite.Oauth2.Scopes.{
  close_word, parts, split, join, is_member, normalize_scope, validate_requested_scope,
}
use zero_auth_lite.Oauth2.Scopes.Words.{IsWord, split-words, split-join}
use zero_auth_lite.Oauth2.Scopes.Unique.{
  Fresh, unseen, collect-eq-unseen, unseen-Fresh, unseen_of_Fresh, All-unseen, is_member-unseen,
  are_members_mono, are_members_of,
}

-- The items of an optional scope parameter.
abbrev pub scope_words : Option Text → List Text
scope_words none = []
scope_words (some s) = split s

normalize_scope-join : (s : Option Text) → normalize_scope s ≡ join (unseen (scope_words s) [])
unfolding normalize_scope join unseen split close_word parts
normalize_scope-join none = refl
normalize_scope-join (some []) = refl
normalize_scope-join (some (c ∷ s)) = ap join (collect-eq-unseen (split (c ∷ s)) [] [])

words-of : (s : Option Text) → All IsWord (scope_words s)
words-of none = tt
words-of (some s) = split-words s

-- The items of a normalized scope are the first occurrences of the items, in request order.
split-normalize_scope : (s : Option Text) → split (normalize_scope s) ≡ unseen (scope_words s) []
split-normalize_scope s =
    rw (normalize_scope-join s) (split-join _ (All-unseen IsWord (scope_words s) [] (words-of s)))

-- A normalized scope lists no item twice and has exactly the items of the request.
pub normalize_scope_items :
    (s : Option Text)
    → Fresh (split (normalize_scope s)) []
      × ((t : Text) → is_member t (split (normalize_scope s)) ≡ is_member t (scope_words s))
unfolding is_member
normalize_scope_items s =
    rw (split-normalize_scope s)
      (unseen-Fresh (scope_words s) [], λ t. ground (arith, is_member-unseen t (scope_words s) []))

-- Normalizing a second time changes nothing.
pub normalize_scope_idem :
    (s : Option Text) → normalize_scope (some (normalize_scope s)) ≡ normalize_scope s
normalize_scope_idem s =
    normalize_scope-join (some (normalize_scope s))
    ∙ rw (split-normalize_scope s)
        (rw (unseen_of_Fresh _ [] (unseen-Fresh (scope_words s) [])) (sym (normalize_scope-join s)))

-- A requested scope passes exactly if each of its items is registered for the client.
pub validate_requested_scope_iff :
    (requested : Text) (allowed : List Text)
    → (validate_requested_scope requested allowed ≡ true
        → (t : Text) → is_member t (split requested) ≡ true
        → is_member t allowed ≡ true)
      × (((t : Text) → is_member t (split requested) ≡ true → is_member t allowed ≡ true)
          → validate_requested_scope requested allowed ≡ true)
unfolding validate_requested_scope
validate_requested_scope_iff requested allowed = (
  λ h t m. are_members_mono (split requested) allowed t h m,
  λ h. are_members_of (split requested) allowed h,
)
