-- ===== src/Oauth2/Scopes.antt =====
-- `normalize_scope`, `validate_requested_scope` and `validate_oidc_scope_enabled` of
-- `app/oauth2/validation.py`, and `scope_includes_openid` of `app/oauth2/oidc/claims.py`.
pub mod Words
pub mod Unique
pub mod Normal
use zero_auth_lite.Prelude.{
  ℕ, Bool, true, false, not, ◌&&◌, ◌||◌, Option, none, some, List, [], ◌∷◌, ◌++◌, Text, text,
  text_eq, leb, ◌==◌, if◌then◌else◌,
}

-- `str.isspace` at one code point.
unfoldable pub is_space : ℕ → Bool
is_space c =
    (leb 9 c && leb c 13)
    || (leb 28 c && leb c 32)
    || (c == 0x85)
    || (c == 0xa0)
    || (c == 0x1680)
    || (leb 0x2000 c && leb c 0x200a)
    || (c == 0x2028)
    || (c == 0x2029)
    || (c == 0x202f)
    || (c == 0x205f)
    || (c == 0x3000)

-- A word that has ended goes to the front, unless it is empty.
unfoldable pub close_word : Text → List Text → List Text
close_word [] ws = ws
close_word (c ∷ w) ws = (c ∷ w) ∷ ws

-- The word that a text begins with, which is empty at a space, and the words behind it.
unfoldable pub parts : Text → Text × List Text
parts [] = ([], [])
parts (c ∷ s) = let (w, ws) = parts s in if is_space c then ([], close_word w ws) else (c ∷ w, ws)

-- `str.split()`
unfoldable pub split : Text → List Text
split s = let (w, ws) = parts s in close_word w ws

-- `" ".join(words)`
unfoldable pub join : List Text → Text
join [] = []
join (w ∷ []) = w
join (w ∷ v ∷ ws) = w ++ b' ' ∷ join (v ∷ ws)

unfoldable pub is_member : Text → List Text → Bool
is_member t [] = false
is_member t (u ∷ us) = text_eq t u || is_member t us

-- The loop of `normalize_scope`.
unfoldable pub collect : List Text → List Text → List Text → List Text
collect [] seen scopes = scopes
collect (item ∷ items) seen scopes =
    let known = is_member item seen in
    collect items (if known then seen else item ∷ seen)
      (if known then scopes else scopes ++ item ∷ [])

unfoldable pub normalize_scope : Option Text → Text
normalize_scope none = []
normalize_scope (some []) = []
normalize_scope (some (c ∷ s)) = join (collect (split (c ∷ s)) [] [])

-- `set(words) - set(allowed)` is empty.
unfoldable pub are_members : List Text → List Text → Bool
are_members [] allowed = true
are_members (w ∷ ws) allowed = is_member w allowed && are_members ws allowed

-- False where the source raises `ValueError`.
unfoldable pub validate_requested_scope : Text → List Text → Bool
validate_requested_scope requested_scope allowed_scopes =
    are_members (split requested_scope) allowed_scopes

unfoldable pub scope_includes_openid : Text → Bool
scope_includes_openid scope = is_member (text "openid") (split scope)

-- False where the source raises `ValueError`.
unfoldable pub validate_oidc_scope_enabled : Text → Bool → Bool
validate_oidc_scope_enabled requested_scope oidc_enabled =
    not (scope_includes_openid requested_scope && not oidc_enabled)
