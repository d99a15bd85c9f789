-- ===== src/Parser/Sound/Steps.antt =====
-- What a parse function reads, through the steps of src/dbc_parser_result.h.
use mathlib.Core.List.{append_assoc}
use dbccpp_tiny.Common.{
  ℕ, zero, suc, ◌<◌, Bool, true, false, Bool-cases, inl, inr, List, [], ◌∷◌, ◌++◌, length,
  length-append, All, Option, none, some, ◌≡◌, refl, ap, sym, ◌∙◌, arith,
}
use dbccpp_tiny.Lexer.Types.{TokenType, end_of_file, is_type, Token}
use dbccpp_tiny.Parser.Result.{
  ParseError, unexpected_token, Outcome, ok, err, thrown, Parser, bind, ◌>>=◌, ◌>>◌, pure, lift,
}
use dbccpp_tiny.Parser.Basic.{current, starts, if_next, repeat, many}

-- A type other than END_OF_FILE.
abbrev pub Plain : TokenType → Type 0
Plain type = is_type type end_of_file ≡ false

-- From `ts` to `rest` over some tokens, none of them the end of the file; over one at least if
-- `some_token`.
pub record Passed (some_token : Bool) (ts rest : List Token) : Type 0 where
  pub read : List Token
  pub split : ts ≡ read ++ rest
  pub plain : All (λ t. Plain t.type) read
  pub longer : some_token ≡ true → 0 < length read

-- The error is at the first token of `rest`.
pub record At (e : ParseError) (rest : List Token) : Type 0 where
  pub code : e.code ≡ unexpected_token
  pub line : e.line ≡ (current rest).line
  pub column : e.column ≡ (current rest).column

-- The result of a parse function on `ts`: it ends, and an error is at a token that it comes to.
pub data Ends {ℓ} {A : Type ℓ} (n : Bool) (ts : List Token) : Outcome A → Type ℓ where
  passed : {a : A} {rest : List Token} → Passed n ts rest → Ends n ts (ok a rest)
  rejected :
      {e : ParseError} {rest : List Token} → Passed false ts rest → At e rest → Ends n ts (err e)
  raised : Ends n ts thrown

-- So it is wherever a test holds of the tokens.
pub record Under {ℓ} {A : Type ℓ} (test : List Token → Bool) (n : Bool) (p : Parser A)
    : Type ℓ where
  pub run : (ts : List Token) → test ts ≡ true → Ends n ts (p ts)

abbrev pub always : List Token → Bool
always ts = true

abbrev pub Sound {ℓ} : {A : Type ℓ} → Bool → Parser A → Type ℓ
Sound n p = Under always n p

pub Passed-stay : (ts : List Token) → Passed false ts ts
Passed-stay ts = record { read = []; split = refl; plain = tt; longer = λ e. cc e }

All-append {ℓ κ} :
    {A : Type ℓ} (P : A → Type κ) (xs ys : List A) → All P xs → All P ys → All P (xs ++ ys)
All-append P [] ys h k = k
All-append P (x ∷ xs) ys (h, hs) k = (h, All-append P xs ys hs k)

pub Passed-trans :
    {n m : Bool} {ts us vs : List Token} → Passed n ts us → Passed m us vs → Passed n ts vs
Passed-trans {n} {m} {ts} {us} {vs} p q = record {
  read = p.read ++ q.read;
  split = p.split ∙ ap (p.read ++◌) q.split ∙ sym (append_assoc p.read q.read vs);
  plain = All-append _ p.read q.read p.plain q.plain;
  longer = λ e. omega (arith, p.longer e, length-append p.read q.read);
}

pub Passed-relax : {n : Bool} {ts rest : List Token} → Passed n ts rest → Passed false ts rest
Passed-relax p = record { read = p.read; split = p.split; plain = p.plain; longer = λ e. cc e }

pub length-Passed : {ts rest : List Token} → Passed true ts rest → length rest < length ts
length-Passed {rest} p = omega (arith, p.longer refl, ap length p.split, length-append p.read rest)

pub Ends-after {ℓ} :
    {A : Type ℓ} {n m : Bool} {ts us : List Token} {r : Outcome A}
    → Passed n ts us
    → Ends m us r
    → Ends n ts r
Ends-after p (passed h) = passed (Passed-trans p h)
Ends-after p (rejected q at) = rejected (Passed-relax (Passed-trans p q)) at
Ends-after p raised = raised

pub Ends-relax {ℓ} :
    {A : Type ℓ} {n : Bool} {ts : List Token} {r : Outcome A} → Ends n ts r → Ends false ts r
Ends-relax {ts} h = Ends-after (Passed-stay ts) h

pub Ends-bind {ℓ κ} :
    {A : Type ℓ} {B : Type κ} {n m : Bool} {ts : List Token} {r : Outcome A} {f : A → Parser B}
    → Ends n ts r
    → ((a : A) (rest : List Token) → Passed n ts rest → Ends m rest (f a rest))
    → Ends n ts (bind r f)
Ends-bind (passed {a} {rest} h) k = Ends-after h (k a rest h)
Ends-bind (rejected h at) k = rejected h at
Ends-bind raised k = raised

module _ {ℓ} {A : Type ℓ} where
  pub anywhere : {test : List Token → Bool} {n : Bool} {p : Parser A} → Sound n p → Under test n p
  anywhere s = record { run = λ ts _. s.run ts refl }

  pub bind-Under {κ} :
      {B : Type κ} {test : List Token → Bool} {n : Bool} {p : Parser A} {f : A → Parser B}
      → Under test n p
      → ((a : A) → Sound false (f a))
      → Under test n (p >>= f)
  bind-Under s k = record { run = λ ts h. Ends-bind (s.run ts h) λ a rest _. (k a).run rest refl }

  pub then-Under :
      {test : List Token → Bool} {n : Bool} {p : Parser (Unit {0})} {q : Parser A}
      → Under test n p
      → Sound false q
      → Under test n (p >> q)
  then-Under s t = record { run = λ ts h. Ends-bind (s.run ts h) λ _ rest _. t.run rest refl }

  pub pure-Sound : (a : A) → Sound false (pure a)
  pure-Sound a = record { run = λ ts _. passed (Passed-stay ts) }

  pub lift-Sound : (o : Option A) → Sound false (lift o)
  lift-Sound none = record { run = λ ts _. raised }
  lift-Sound (some a) = pure-Sound a

  pub if_next-Under :
      {test : List Token → Bool} (type : TokenType) {n : Bool} {p q : Parser A}
      → Under (starts type) n p
      → Under test n q
      → Under test n (if_next type p q)
  unfolding if_next
  if_next-Under type s t = record {
    run = λ ts h. elim (Bool-cases (starts type ts)) [
      | inl e ↦ rw e (s.run ts e)
      | inr e ↦ rw e (t.run ts h)
    ];
  }

  repeat-Ends :
      {test : List Token → Bool} {item : Parser A}
      → Under test true item
      → (fuel : ℕ) (ts : List Token) → length ts < fuel
      → Ends false ts (repeat fuel test item ts)
  unfolding repeat
  repeat-Ends s zero ts h = absurd (omega arith)
  repeat-Ends {test} {item} s (suc fuel) ts h = elim (Bool-cases (test ts)) [
    | inl e ↦
        rw (e, repeat)
          (Ends-relax (
            Ends-bind (s.run ts e) λ a rest p.
              Ends-bind (repeat-Ends s fuel rest (omega (arith, length-Passed p)))
                λ _ left _. passed (Passed-stay left)))
    | inr e ↦ rw (e, repeat) (passed (Passed-stay ts))
  ]

  pub many-Sound :
      {test : List Token → Bool} {item : Parser A}
      → Under test true item
      → Sound false (many test item)
  unfolding many
  many-Sound s = record { run = λ ts _. repeat-Ends s (suc (length ts)) ts (omega arith) }
