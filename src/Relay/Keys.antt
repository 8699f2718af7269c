-- ===== src/Relay/Keys.antt =====
-- makeKey, and maps whose keys are such lists.
use veyport.Base.{ℕ, ◌≡◌, ◌↔◌, ◌==◌, Bool, true, false, ◌&&◌, [], ◌∷◌, ◌++◌, arith, any}
use veyport.Base.Text.{Text}

abbrev pub colon : ℕ
colon = 58

unfoldable pub eq_text : Text → Text → Bool
eq_text [] [] = true
eq_text (c ∷ cs) (d ∷ ds) = c == d && eq_text cs ds
eq_text _ _ = false

pub eq_text_iff : (a b : Text) → (eq_text a b ≡ true) ↔ (a ≡ b)
unfolding eq_text
eq_text_iff [] [] = ground arith
eq_text_iff [] (d ∷ ds) = ground arith
eq_text_iff (c ∷ cs) [] = ground arith
eq_text_iff (c ∷ cs) (d ∷ ds) = ground (arith, eq_text_iff cs ds)

unfoldable pub make_key : Text → Text → Text
make_key server_id request_id = server_id ++ colon ∷ request_id

abbrev pub has_colon : Text → Bool
has_colon cs = any (λ c. c == colon) cs

-- Keys of servers whose ids hold no colon differ unless both parts are the same.
pub make_key-injective :
    (s t r q : Text)
    → has_colon s ≡ false
    → has_colon t ≡ false
    → make_key s r ≡ make_key t q
    → (s ≡ t) × (r ≡ q)
unfolding make_key any
make_key-injective [] [] r q h k e = ground arith
make_key-injective [] (d ∷ t) r q h k e = ground arith
make_key-injective (c ∷ s) [] r q h k e = ground arith
make_key-injective (c ∷ s) (d ∷ t) r q h k e = ground (arith, make_key-injective s t r q)
