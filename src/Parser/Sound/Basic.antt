-- ===== src/Parser/Sound/Basic.antt =====
-- The steps of `Parser.Basic`: each reads at most the token that it tests.
use Prim.Native.String.{String}
use dbccpp_tiny.Common.{Bool, true, false, Bool-cases, inl, inr, List, [], ◌∷◌, ◌≡◌, refl, arith}
use dbccpp_tiny.Lexer.Types.{TokenType, integer, float, string, identifier, minus, Token}
use dbccpp_tiny.Parser.Numbers.{DoubleReader}
use dbccpp_tiny.Parser.Basic.{
  current, starts, fail, take_token, skip_token, expect, pass, require, skip_optional, unsigned,
  name_of, text_of, number_of, negated, signed_number, listed,
}
use dbccpp_tiny.Parser.Sound.Steps.{
  Plain, Passed, Passed-stay, At, Ends, passed, rejected, Under, Sound, bind-Under, then-Under,
  pure-Sound, lift-Sound, if_next-Under, many-Sound,
}

-- A test that only tokens other than the end of the file pass.
abbrev pub Tests : (List Token → Bool) → Type 0
Tests test = (ts : List Token) → test ts ≡ true → Plain (current ts).type

pub starts-Tests : (type : TokenType) → Plain type → Tests (starts type)
unfolding starts
starts-Tests type plain ts h = ground (arith, plain, h)

pub fail-Sound {ℓ} : {A : Type ℓ} {n : Bool} (message : String) → Sound {A = A} n (fail message)
unfolding fail
fail-Sound message = record {
  run = λ ts _. rejected (Passed-stay ts) (record { code = refl; line = refl; column = refl });
}

pub Passed-one : {n : Bool} (t : Token) (ts : List Token) → Plain t.type → Passed n (t ∷ ts) ts
Passed-one t ts plain = record {
  read = t ∷ [];
  split = refl;
  plain = (plain, tt);
  longer = λ e. omega arith;
}

pub take_token-Under : {test : List Token → Bool} {n : Bool} → Tests test → Under test n take_token
unfolding take_token current
take_token-Under {test} {n} tests = record { run = by }
  where
    by : (ts : List Token) → test ts ≡ true → Ends n ts (take_token ts)
    by [] h = absurd (ground (arith, tests [] h))
    by (t ∷ ts) h = passed (Passed-one t ts (tests (t ∷ ts) h))

pub skip_token-Under : {test : List Token → Bool} {n : Bool} → Tests test → Under test n skip_token
unfolding skip_token current
skip_token-Under {test} {n} tests = record { run = by }
  where
    by : (ts : List Token) → test ts ≡ true → Ends n ts (skip_token ts)
    by [] h = absurd (ground (arith, tests [] h))
    by (t ∷ ts) h = passed (Passed-one t ts (tests (t ∷ ts) h))

pub expect-Sound : {n : Bool} (type : TokenType) → Plain type → Sound n (expect type)
unfolding expect
expect-Sound type plain = record {
  run = λ ts _. elim (Bool-cases (starts type ts)) [
    | inl e ↦ rw e ((take_token-Under (starts-Tests type plain)).run ts e)
    | inr e ↦ rw e (rejected (Passed-stay ts) (record { code = refl; line = refl; column = refl }))
  ];
}

pub pass-Sound : {n : Bool} (type : TokenType) → Plain type → Sound n (pass type)
unfolding pass
pass-Sound type plain = bind-Under (expect-Sound type plain) λ _. pure-Sound tt

pub require-Sound :
    {n : Bool} (type : TokenType) (message : String) → Plain type → Sound n (require type message)
unfolding require
require-Sound type message plain = record {
  run = λ ts _. elim (Bool-cases (starts type ts)) [
    | inl e ↦ rw e ((take_token-Under (starts-Tests type plain)).run ts e)
    | inr e ↦ rw e ((fail-Sound message).run ts refl)
  ];
}

pub skip_optional-Sound : (type : TokenType) → Plain type → Sound false (skip_optional type)
unfolding skip_optional
skip_optional-Sound type plain =
    if_next-Under type (skip_token-Under (starts-Tests type plain)) (pure-Sound tt)

pub unsigned-Sound : {n : Bool} (message : String) → Sound n (unsigned message)
unfolding unsigned
unsigned-Sound message = bind-Under (require-Sound integer message refl) λ t. lift-Sound _

pub name_of-Sound : {n : Bool} (message : String) → Sound n (name_of message)
unfolding name_of
name_of-Sound message = bind-Under (require-Sound identifier message refl) λ t. pure-Sound _

pub text_of-Sound : {n : Bool} → Sound n text_of
unfolding text_of
text_of-Sound = bind-Under (expect-Sound string refl) λ t. pure-Sound _

module _ {Double : Type 0} (reader : DoubleReader Double) where
  pub number_of-Sound : {n : Bool} (message : String) → Sound n (number_of reader message)
  unfolding number_of
  number_of-Sound message =
      bind-Under
        (if_next-Under float (take_token-Under (starts-Tests float refl)) (
          if_next-Under integer (take_token-Under (starts-Tests integer refl))
            (fail-Sound message)))
        λ t. lift-Sound _

  pub negated-Under : {n : Bool} → Under (starts minus) n (negated reader)
  unfolding negated
  negated-Under =
      search (bind-Under, then-Under, skip_token-Under, number_of-Sound, pure-Sound, starts-Tests)

  pub signed_number-Sound : {n : Bool} (message : String) → Sound n (signed_number reader message)
  unfolding signed_number
  signed_number-Sound message = if_next-Under minus negated-Under (number_of-Sound message)

pub listed-Under : {test : List Token → Bool} {n : Bool} → Tests test → Under test n listed
unfolding listed
listed-Under tests =
    search (bind-Under, then-Under, take_token-Under, skip_optional-Sound, pure-Sound)

pub ruleset sound_rules = (
  bind-Under, then-Under, pure-Sound, lift-Sound, if_next-Under, many-Sound, many-Sound,
  starts-Tests, fail-Sound, take_token-Under, skip_token-Under, expect-Sound, pass-Sound,
  require-Sound, skip_optional-Sound, unsigned-Sound, name_of-Sound, text_of-Sound, number_of-Sound,
  negated-Under, signed_number-Sound, listed-Under,
)
