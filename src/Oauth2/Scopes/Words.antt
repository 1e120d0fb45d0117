-- ===== src/Oauth2/Scopes/Words.antt =====
-- `split` undoes `join` on words: texts that are not empty and hold no space.
use zero_auth_lite.Prelude.{
  ◌≡◌, refl, false, List, [], ◌∷◌, ◌++◌, arith, Text, All, Bool-cases, inl, inr,
}
use zero_auth_lite.Oauth2.Scopes.{is_space, close_word, parts, split, join}

-- No code point is a space.
abbrev pub Spaceless : Text → Type 0
Spaceless [] = Unit
Spaceless (c ∷ w) = (is_space c ≡ false) × Spaceless w

abbrev NonEmpty : Text → Type 0
NonEmpty [] = ⊥
NonEmpty (_ ∷ _) = Unit

pub record IsWord (w : Text) : Type 0 where
  pub spaceless : Spaceless w
  pub nonempty : NonEmpty w

close_word-words :
    (w : Text) (ws : List Text) → Spaceless w → All IsWord ws → All IsWord (close_word w ws)
unfolding close_word
close_word-words [] ws s h = h
close_word-words (c ∷ w) ws s h = (record { spaceless = s; nonempty = tt }, h)

parts-words : (s : Text) → Spaceless (parts s).0 × All IsWord (parts s).1
unfolding parts
parts-words [] = (tt, tt)
parts-words (c ∷ s) = elim (Bool-cases (is_space c)) [
  | inl t ↦ rw t (tt, close_word-words (parts s).0 (parts s).1 (parts-words s).0 (parts-words s).1)
  | inr f ↦ rw f ((f, (parts-words s).0), (parts-words s).1)
]

pub split-words : (s : Text) → All IsWord (split s)
unfolding split
split-words s = close_word-words (parts s).0 (parts s).1 (parts-words s).0 (parts-words s).1

parts-word : (w : Text) → Spaceless w → parts w ≡ (w, [])
unfolding parts
parts-word [] h = refl
parts-word (c ∷ w) h = rw (h.0, parts-word w h.1)

parts-append :
    (w t : Text) → Spaceless w → parts (w ++ b' ' ∷ t) ≡ (w, close_word (parts t).0 (parts t).1)
unfolding parts is_space
parts-append [] t h = refl
parts-append (c ∷ w) t h = ground (arith, parts-append w t h.1, h.0)

close_word-word : (w : Text) (ws : List Text) → IsWord w → close_word w ws ≡ w ∷ ws
unfolding close_word
close_word-word [] ws h = absurd h.nonempty
close_word-word (c ∷ w) ws h = refl

-- Words that are joined by single spaces come back by splitting.
pub split-join : (ws : List Text) → All IsWord ws → split (join ws) ≡ ws
unfolding split join close_word parts
split-join [] h = refl
split-join (w ∷ []) h = rw (parts-word w h.0.spaceless) (close_word-word w [] h.0)
split-join (w ∷ v ∷ ws) h =
    rw (parts-append w (join (v ∷ ws)) h.0.spaceless)
      (rw (split-join (v ∷ ws) h.1) (close_word-word w (v ∷ ws) h.0))
