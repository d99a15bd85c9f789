-- ===== src/Parser/RoundTrip/Loops.antt =====
-- The rounds of `repeat`.
use dbccpp_tiny.Common.{ℕ, suc, Bool, true, false, List, [], ◌∷◌, ◌≡◌, refl}
use dbccpp_tiny.Lexer.Types.{Token}
use dbccpp_tiny.Parser.Result.{Parser, ok}
use dbccpp_tiny.Parser.Basic.{repeat}

module _ {ℓ} {A : Type ℓ} (test : List Token → Bool) (item : Parser A) (fuel : ℕ) where
  pub repeat-stop : (ts : List Token) → test ts ≡ false → repeat (suc fuel) test item ts ≡ ok [] ts
  unfolding repeat
  repeat-stop ts e = rw (e, repeat) refl

  pub repeat-next :
      (ts rest left : List Token) (a : A) (items : List A)
      → test ts ≡ true
      → item ts ≡ ok a rest
      → repeat fuel test item rest ≡ ok items left
      → repeat (suc fuel) test item ts ≡ ok (a ∷ items) left
  unfolding repeat
  repeat-next ts rest left a items e f g = rw (e, f, g, repeat) refl
