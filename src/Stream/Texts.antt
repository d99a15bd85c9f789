-- ===== src/Stream/Texts.antt =====
-- From the text of a message to the message.
use dbccpp_tiny.Common.{
  ℕ, suc, ◌<◌, ◌^◌, List, [], ◌∷◌, ◌++◌, map, length, get_or, some, codes, ◌≡◌, refl, ap, ap₂, sym,
  subst, ◌∙◌, arith,
}
use dbccpp_tiny.Objects.{Text}
use dbccpp_tiny.Lexer.Types.{Token}
use dbccpp_tiny.Lexer.Cursor.{is_digit, is_alpha, is_word}
use dbccpp_tiny.Lexer.Tokenize.{tokenize}
use dbccpp_tiny.Lexer.RoundTrip.Words.{
  IsName, Word, symbol, colon_symbol, digits_word, name_word, kind,
}
use dbccpp_tiny.Lexer.RoundTrip.Whole.{tokenize-spelled}
use dbccpp_tiny.Parser.Numbers.{decimal, DoubleReader}
use dbccpp_tiny.Parser.RoundTrip.Numbers.{Digits, stoull-decimal, digits-Digits, digits-cons}
use dbccpp_tiny.Stream.Text.{trim, trim_start, trim_end}
use dbccpp_tiny.Stream.State.{message_at, State, done, skip_value, Storage}
use dbccpp_tiny.Stream.Statements.{read_message, parse_message}
use dbccpp_tiny.Stream.Route.{route, route_tokens, parse_statement}
use dbccpp_tiny.Stream.Agrees.{message_id-decimal}

-- `BO_ id name : size transmitter`, with a blank behind each word.
unfoldable pub message_text : ℕ → Text → ℕ → Text → Text
message_text id name size transmitter =
    codes "BO_ "
    ++ (decimal id
        ++ (b' '
            ∷ (name ++ (codes " : " ++ (decimal size ++ (b' ' ∷ (transmitter ++ (b' ' ∷ []))))))))

abbrev values_of : ℕ → Text → ℕ → Text → List Text
values_of id name size transmitter =
    codes "BO_" ∷ decimal id ∷ name ∷ codes ":" ∷ decimal size ∷ transmitter ∷ [] ∷ []

abbrev value : Token → Text
value t = t.value

abbrev text_with : Text → Text → Text → Text → Text
text_with id name size transmitter =
    codes "BO_ "
    ++ (id ++ (b' ' ∷ (name ++ (codes " : " ++ (size ++ (b' ' ∷ (transmitter ++ (b' ' ∷ []))))))))

-- The value is the second part of the kind.
values-kinds : (ts : List Token) → map value ts ≡ map (λ k. k.1) (map kind ts)
values-kinds [] = refl
values-kinds (t ∷ ts) = ap (t.value ∷◌) (values-kinds ts)

-- The values of the tokens of the text.
message_text-tokens :
    (id size : ℕ) (name transmitter : Text)
    → IsName name
    → IsName transmitter
    → (ts : List Token) × (tokenize (message_text id name size transmitter) ≡ some ts)
      × (map value ts ≡ values_of id name size transmitter)
unfolding message_text is_alpha is_word is_digit
message_text-tokens id size [] transmitter h k = absurd h
message_text-tokens id size (n ∷ ns) [] h k = absurd k
message_text-tokens id size (n ∷ ns) (m ∷ ms) h k =
    let (c, cs, e) = digits-cons (suc id) id (omega arith) in
    let (d, ds, f) = digits-cons (suc size) size (omega arith) in
    let words : List Word =
      name_word b'B' (codes "O_")
      ∷ digits_word c cs
      ∷ name_word n ns
      ∷ symbol colon_symbol
      ∷ digits_word d ds
      ∷ name_word m ms
      ∷ [] in
    let of_id = subst Digits e (digits-Digits (suc id) id) in
    let of_size = subst Digits f (digits-Digits (suc size) size) in
    let (ts, read, same) =
      tokenize-spelled words ((refl, (refl, (refl, tt))), (of_id, (h, (tt, (of_size, (k, tt)))))) in
    (
      ts,
      ap tokenize (ap₂ (λ x y. text_with x (n ∷ ns) y (m ∷ ms)) e f) ∙ read,
      values-kinds ts
          ∙ ap (map (λ q. q.1)) same
          ∙ sym (ap₂ (λ x y. codes "BO_" ∷ x ∷ (n ∷ ns) ∷ codes ":" ∷ y ∷ (m ∷ ms) ∷ [] ∷ []) e f),
    )

module _ {Double : Type 0} where
  -- The state with a message more, at which the parser points.
  abbrev pub with_message : ℕ → Text → ℕ → Text → State Double → State Double
  with_message id name size transmitter s = record {
    network = record s.network {
      messages =
          s.network.messages
          ++ (record { id = id; name = name; size = size; transmitter = transmitter; signals = [] }
              ∷ []);
    };
    current = message_at (length s.network.messages);
  }

  -- Only the values of the tokens matter.
  parse_message-values :
      (ts : List Token) (id size : ℕ) (name transmitter : Text) (s : State Double)
      → map value ts ≡ values_of id name size transmitter
      → id < 2 ^ 64
      → size < 2 ^ 64
      → parse_message ts s ≡ done (with_message id name size transmitter s)
  unfolding parse_message read_message skip_value
  parse_message-values (a ∷ b ∷ c ∷ d ∷ e ∷ f ∷ ts) id size name transmitter s v h k =
      let at : (i : ℕ)
          → get_or (map value (a ∷ b ∷ c ∷ d ∷ e ∷ f ∷ ts)) i []
            ≡ get_or (values_of id name size transmitter) i [] =
        λ i. ap (λ vs. get_or vs i []) v in
      rw
        (
          at 1,
          message_id-decimal id h,
          at 3,
          at 4,
          stoull-decimal size k,
          at 2,
          at 5,
          parse_message,
          read_message,
        )
        refl
  parse_message-values [] id size name transmitter s v h k = absurd (omega (arith, ap length v))
  parse_message-values (a ∷ []) id size name transmitter s v h k =
      absurd (omega (arith, ap length v))
  parse_message-values (a ∷ b ∷ []) id size name transmitter s v h k =
      absurd (omega (arith, ap length v))
  parse_message-values (a ∷ b ∷ c ∷ []) id size name transmitter s v h k =
      absurd (omega (arith, ap length v))
  parse_message-values (a ∷ b ∷ c ∷ d ∷ []) id size name transmitter s v h k =
      absurd (omega (arith, ap length v))
  parse_message-values (a ∷ b ∷ c ∷ d ∷ e ∷ []) id size name transmitter s v h k =
      absurd (omega (arith, ap length v))

module _ {Double : Type 0} (reader : DoubleReader Double) (storage : Storage Double) where
  route-message :
      (ts : List Token) (id size : ℕ) (name transmitter : Text) (s : State Double)
      → map value ts ≡ values_of id name size transmitter
      → route_tokens reader storage (some ts) s ≡ parse_message ts s
  unfolding route
  route-message [] id size name transmitter s v = absurd (omega (arith, ap length v))
  route-message (t ∷ ts) id size name transmitter s v =
      ap (λ word. route reader storage word (t ∷ ts) s) (ap (λ vs. get_or vs 0 []) v)

  -- The text of a message without signals is read as this message, which is added to the network
  -- and becomes the current one: `BO_`, an identifier, a name, a colon, a size and the name of the
  -- transmitter, with a blank behind each of them, where the numbers are below 2 ^ 64.
  pub parse_statement-message_text :
      (id size : ℕ) (name transmitter : Text) (s : State Double)
      → id < 2 ^ 64
      → size < 2 ^ 64
      → IsName name
      → IsName transmitter
      → parse_statement reader storage (message_text id name size transmitter) s
        ≡ done (with_message id name size transmitter s)
  unfolding parse_statement message_text trim trim_start trim_end
  parse_statement-message_text id size name transmitter s h k n t =
      let (ts, tokens, v) = message_text-tokens id size name transmitter n t in
      ap (λ o. route_tokens reader storage o s) tokens
      ∙ route-message ts id size name transmitter s v
      ∙ parse_message-values ts id size name transmitter s v h k
