-- ===== src/Parser/Bounds.antt =====
-- The numbers that the parser gives are of 64 bits.
use dbccpp_tiny.Common.{
  ℕ, zero, suc, ◌+◌, ◌<◌, ◌^◌, ltb, Bool, true, false, if◌then◌else◌, Bool-cases, inl, inr, List,
  [], ◌∷◌, ◌++◌, length, All, Option, Option-cases, none, some, ◌≡◌, refl, ap, sym, ◌∙◌, arith,
}
use dbccpp_tiny.Objects.{Text}
use dbccpp_tiny.Lexer.Types.{TokenType, integer, Token}
use dbccpp_tiny.Parser.Result.{
  ParseError, Outcome, ok, err, thrown, unfinished, Parser, bind, ◌>>=◌, ◌>>◌, pure, lift,
}
use dbccpp_tiny.Parser.Numbers.{Signed, signed_of, without_space, stoull, DoubleReader}
use dbccpp_tiny.Parser.Basic.{starts, if_next, require, unsigned, repeat, many}
use Prim.Native.String.{String}
pub mod Sections

-- The value of a result, if it has one.
pub data Yields {ℓ} {A : Type ℓ} (P : A → Type 0) : Outcome A → Type ℓ where
  yields : {a : A} {rest : List Token} → P a → Yields P (ok a rest)
  refuses : {e : ParseError} → Yields P (err e)
  throws : Yields P thrown
  starves : Yields P unfinished

pub record Gives {ℓ} {A : Type ℓ} (P : A → Type 0) (p : Parser A) : Type ℓ where
  pub run : (ts : List Token) → Yields P (p ts)

pub Yields-bind {ℓ κ} :
    {A : Type ℓ} {B : Type κ} {P : A → Type 0} {Q : B → Type 0} {r : Outcome A} {f : A → Parser B}
    → Yields P r
    → ((a : A) → P a → (rest : List Token) → Yields Q (f a rest))
    → Yields Q (bind r f)
Yields-bind (yields {a} {rest} h) k = k a h rest
Yields-bind refuses k = refuses
Yields-bind throws k = throws
Yields-bind starves k = starves

Yields-any {ℓ} : {A : Type ℓ} (r : Outcome A) → Yields (λ _. Unit {0}) r
Yields-any (ok a rest) = yields tt
Yields-any (err e) = refuses
Yields-any thrown = throws
Yields-any unfinished = starves

module _ {ℓ κ} {A : Type ℓ} {B : Type κ} {Q : B → Type 0} where
  pub bind-Gives :
      {P : A → Type 0} {p : Parser A} {f : A → Parser B}
      → Gives P p
      → ((a : A) → P a → Gives Q (f a))
      → Gives Q (p >>= f)
  bind-Gives g k = record { run = λ ts. Yields-bind (g.run ts) λ a h rest. (k a h).run rest }

  -- Behind a step whose value does not matter.
  pub behind-Gives :
      (p : Parser A) (f : A → Parser B) → ((a : A) → Gives Q (f a)) → Gives Q (p >>= f)
  behind-Gives p f k = record {
    run = λ ts. Yields-bind (Yields-any (p ts)) λ a _ rest. (k a).run rest;
  }

module _ {ℓ} {A : Type ℓ} {P : A → Type 0} where
  pub pure-Gives : (a : A) → P a → Gives P (pure a)
  pure-Gives a h = record { run = λ ts. yields h }

  pub if_next-Gives :
      (type : TokenType) (p q : Parser A) → Gives P p → Gives P q → Gives P (if_next type p q)
  unfolding if_next
  if_next-Gives type p q g h = record {
    run = λ ts. elim (Bool-cases (starts type ts)) [
      | inl e ↦ rw e (g.run ts)
      | inr e ↦ rw e (h.run ts)
    ];
  }

repeat-Yields {ℓ} :
    {A : Type ℓ} {P : A → Type 0} {item : Parser A} (test : List Token → Bool) (fuel : ℕ)
    (ts : List Token)
    → Gives P item
    → Yields (All P) (repeat fuel test item ts)
unfolding repeat
repeat-Yields test zero ts g = starves
repeat-Yields test (suc fuel) ts g = elim (Bool-cases (test ts)) [
  | inl e ↦
      rw (e, repeat)
        (Yields-bind (g.run ts)
          λ a h rest. Yields-bind (repeat-Yields test fuel rest g) λ _ hs left. yields (h, hs))
  | inr e ↦ rw (e, repeat) (yields tt)
]

pub many-Gives {ℓ} :
    {A : Type ℓ} {P : A → Type 0} {item : Parser A} (test : List Token → Bool)
    → Gives P item
    → Gives (All P) (many test item)
unfolding many
many-Gives test g = record { run = λ ts. repeat-Yields test (suc (length ts)) ts g }

-- `std::stoull` gives a number of 64 bits.
Within : Option ℕ → Type 0
Within none = Unit
Within (some n) = n < 2 ^ 64

stoull-Within : (cs : Text) → Within (stoull cs)
unfolding stoull Within
stoull-Within cs = elim (Option-cases (signed_of (without_space cs))) [
  | inl e ↦ rw (e, stoull) tt
  | inr (n, e) ↦ elim (Bool-cases (ltb n.magnitude (2 ^ 64))) [
    | inl f ↦ elim (Bool-cases n.negative) [
      | inl g ↦ rw (e, f, g, stoull) (omega arith)
      | inr g ↦ rw (e, f, g, stoull) (ground (arith, f))
    ]
    | inr f ↦ rw (e, f, stoull) tt
  ]
]

lift-Gives : (o : Option ℕ) → Within o → Gives (λ n. n < 2 ^ 64) (lift o)
unfolding Within
lift-Gives none h = record { run = λ ts. throws }
lift-Gives (some n) h = pure-Gives n h

pub unsigned-Gives : (message : String) → Gives (λ n. n < 2 ^ 64) (unsigned message)
unfolding unsigned
unsigned-Gives message =
    behind-Gives (require integer message) _
      λ t. lift-Gives (stoull t.value) (stoull-Within t.value)
