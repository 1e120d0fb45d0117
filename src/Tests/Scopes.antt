-- ===== src/Tests/Scopes.antt =====
-- Scopes and identities.
use zero_auth_lite.Prelude.{◌≡◌, refl, true, some, [], Text, text, text_eq}
use zero_auth_lite.Database.{ok}
use zero_auth_lite.Oauth2.Scopes.{
  is_space, split, parts, close_word, join, is_member, collect, normalize_scope,
}
use zero_auth_lite.Oauth2.Scopes.Unique.{Fresh}
use zero_auth_lite.Oauth2.Scopes.Normal.{scope_words, normalize_scope_items}
use zero_auth_lite.Oauth2.Identity.{Identity, load_eligible_oauth2_user_identity}
use zero_auth_lite.Tests.Store.{store}

abbrev asked : Text
asked = text " read write  read"

normalizes : normalize_scope (some asked) ≡ text "read write"
unfolding text_eq is_space split parts close_word join is_member collect normalize_scope
normalizes = refl

normalize_scope_items_example :
    Fresh (split (normalize_scope (some asked))) []
    × ((t : Text)
        → is_member t (split (normalize_scope (some asked)))
          ≡ is_member t (scope_words (some asked)))
normalize_scope_items_example = normalize_scope_items (some asked)

abbrev ann : Identity
ann = record {
  user = record {
    id = 7;
    public_id = text "p";
    organization_id = 3;
    organization_public_id = text "o";
    email = text "a@b";
    first_name = text "Ann";
    last_name = text "Lee";
    is_active = true;
    email_verified = true;
  };
  organization = record { id = 3; public_id = text "o"; name = text "Org" };
}

ann_loads : load_eligible_oauth2_user_identity (some 7) (some 3) store ≡ ok (some ann)
unfolding load_eligible_oauth2_user_identity
ann_loads = refl
