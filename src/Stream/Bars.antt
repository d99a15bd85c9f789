-- ===== src/Stream/Bars.antt =====
-- The signals that `parseSignal` of src/dbc_stream_parser.h makes of the text of a signal.
use dbccpp_tiny.Common.{
  ℕ, suc, ◌==◌, All, true, false, not, List, [], ◌∷◌, ◌++◌, map, filter, length, none, some, codes,
  text_eq, ◌≡◌, refl, ap, subst, ◌∙◌, arith,
}
use dbccpp_tiny.Objects.{Text}
use dbccpp_tiny.Lexer.Types.{Token}
use dbccpp_tiny.Lexer.Cursor.{is_digit, is_alpha, is_word}
use dbccpp_tiny.Lexer.Tokenize.{initial, tokenize}
use dbccpp_tiny.Lexer.Total.{tokenize-Laid}
use dbccpp_tiny.Lexer.RoundTrip.Words.{IsName, symbol, colon_symbol, name_word}
use dbccpp_tiny.Lexer.RoundTrip.Whole.{spell-Clear, skip-Clear, skip-blank}
use dbccpp_tiny.Lexer.RoundTrip.Front.{Before, word-Before, digits-Clear, digits_bar-Before}
use dbccpp_tiny.Parser.Numbers.{decimal, DoubleReader}
use dbccpp_tiny.Parser.RoundTrip.Numbers.{Digits, digits-Digits, digits-cons}
use dbccpp_tiny.Stream.Text.{trim, trim_start, trim_end, contains, split_at}
use dbccpp_tiny.Stream.State.{
  Current, no_message, message_at, stale_message, leads_into, State, done, Storage,
}
use dbccpp_tiny.Stream.Signals.{
  initial_signal, push_signal, read_indicator, behind_colon, read_bit_info, read_pair, read_unit,
  read_receivers, read_signal, read_name, for_message, parse_signal,
}
use dbccpp_tiny.Stream.Route.{route, route_tokens, parse_statement}

split_at-none : (d : ℕ) (cs : Text) → contains d cs ≡ false → split_at d cs ≡ none
unfolding split_at
split_at-none d [] h = refl
split_at-none d (c ∷ cs) h =
    let other : (c == d) ≡ false = ground (arith, h) in
    let rest : contains d cs ≡ false = ground (arith, h) in
    rw (other, split_at-none d cs rest, split_at) refl

-- The values of the tokens without the commas.
abbrev pub receiver_names : List Token → List Text
receiver_names ts = filter (λ v. not (text_eq v (codes ","))) (map (λ t. t.value) ts)

module _ {Double : Type 0} (reader : DoubleReader Double) (storage : Storage Double) where
  read_signal-colon :
      (name : Text) (colon position bar : Token) (ts : List Token)
      → colon.value ≡ codes ":"
      → bar.value ≡ codes "|"
      → contains b'|' position.value ≡ false
      → read_signal reader (initial_signal storage name) (colon ∷ position ∷ bar ∷ ts)
        ≡ record (initial_signal storage name) { unit = codes "|"; receivers = receiver_names ts }
  unfolding read_signal read_indicator behind_colon read_bit_info read_pair read_unit read_receivers
  read_signal-colon name colon position bar ts c b p =
      rw (c, b, split_at-none b'|' position.value p) refl

  parse_signal-bar :
      (s : State Double) (keyword name colon position bar : Token) (ts : List Token)
      → leads_into s.current s.network.messages ≡ true
      → colon.value ≡ codes ":"
      → bar.value ≡ codes "|"
      → contains b'|' position.value ≡ false
      → parse_signal reader storage (keyword ∷ name ∷ colon ∷ position ∷ bar ∷ ts) s
        ≡ done (
            push_signal
              (record (initial_signal storage name.value) {
                unit = codes "|";
                receivers = receiver_names ts;
              })
              s)
  unfolding parse_signal read_name
  parse_signal-bar s keyword name colon position bar ts h c b p =
      for_message-leads s.current (name ∷ colon ∷ position ∷ bar ∷ ts) s h
      ∙ rw h (
          ap (λ signal. done (push_signal signal s))
            (read_signal-colon name.value colon position bar ts c b p))
    where
      for_message-leads :
          (current : Current) (ts : List Token) (s : State Double)
          → leads_into current s.network.messages ≡ true
          → for_message reader storage current ts s ≡ read_name reader storage ts s
      for_message-leads no_message ts s h = cc
      for_message-leads stale_message ts s h = refl
      for_message-leads (message_at i) ts s h = refl

-- A signal statement as `parse` hands it on, up to the bar, and the rest of the line.
unfoldable pub signal_text : Text → ℕ → Text → Text
signal_text name start_bit rest =
    codes " SG_ " ++ (name ++ (codes " : " ++ (decimal start_bit ++ (b'|' ∷ rest))))

-- What a token list starts with.
record SignalTokens (name start : Text) (ts : List Token) : Type 0 where
  keyword : Token
  name_token : Token
  colon : Token
  position : Token
  bar : Token
  others : List Token
  whole : ts ≡ keyword ∷ name_token ∷ colon ∷ position ∷ bar ∷ others
  is_keyword : keyword.value ≡ codes "SG_"
  is_name : name_token.value ≡ name
  is_colon : colon.value ≡ codes ":"
  is_position : position.value ≡ start
  is_bar : bar.value ≡ codes "|"

signal-tokens :
    (n c : ℕ) (ns cs rest : Text) (ts : List Token)
    → IsName (n ∷ ns)
    → All (λ d. is_digit d ≡ true) (c ∷ cs)
    → Before (codes "SG_ " ++ ((n ∷ ns) ++ (codes " : " ++ ((c ∷ cs) ++ (b'|' ∷ rest))))) ts
    → SignalTokens (n ∷ ns) (c ∷ cs) ts
unfolding is_alpha is_word is_digit
signal-tokens n c ns cs rest ts h p before =
    let start = c ∷ (cs ++ (b'|' ∷ rest)) in
    let behind_name = b':' ∷ b' ' ∷ start in
    let behind_keyword = n ∷ (ns ++ (b' ' ∷ behind_name)) in
    let name_clear = spell-Clear (name_word n ns) (b' ' ∷ behind_name) h in
    let colon_clear = spell-Clear (symbol colon_symbol) (b' ' ∷ start) tt in
    let (k, ts1, e1, k1, before1) =
      word-Before (name_word b'S' (codes "G_")) behind_keyword ts (refl, (refl, (refl, tt)))
        name_clear before in
    let (t, ts2, e2, k2, before2) =
      word-Before (name_word n ns) behind_name ts1 h colon_clear before1 in
    let (u, ts3, e3, k3, before3) =
      word-Before (symbol colon_symbol) start ts2 tt (digits-Clear c cs (b'|' ∷ rest) p) before2 in
    let (v, w, others, e4, k4, k5) = digits_bar-Before c cs rest ts3 p before3 in
    record {
      keyword = k;
      name_token = t;
      colon = u;
      position = v;
      bar = w;
      others = others;
      whole = e1 ∙ ap (k ∷◌) (e2 ∙ ap (t ∷◌) (e3 ∙ ap (u ∷◌) e4));
      is_keyword = ap (λ q. q.1) k1;
      is_name = ap (λ q. q.1) k2;
      is_colon = ap (λ q. q.1) k3;
      is_position = k4;
      is_bar = k5;
    }

-- Digits hold no bar.
digits-no_bar : (cs : Text) → All (λ d. is_digit d ≡ true) cs → contains b'|' cs ≡ false
unfolding is_digit
digits-no_bar [] p = refl
digits-no_bar (c ∷ cs) (p, ps) = ground (arith, p, digits-no_bar cs ps)

module _ {Double : Type 0} (reader : DoubleReader Double) (storage : Storage Double) where
  route-signal :
      (name start : Text) (ts : List Token) (s : State Double)
      → SignalTokens name start ts
      → leads_into s.current s.network.messages ≡ true
      → contains b'|' start ≡ false
      → (receivers : List Text) × (route_tokens reader storage (some ts) s
          ≡ done (
              push_signal
                (record (initial_signal storage name) { unit = codes "|"; receivers = receivers })
                s))
  unfolding route
  route-signal name start ts s h leads p =
      let tokens = h.keyword ∷ h.name_token ∷ h.colon ∷ h.position ∷ h.bar ∷ h.others in
      let free : contains b'|' h.position.value ≡ false = ap (contains b'|') h.is_position ∙ p in
      (
        receiver_names h.others,
        ap (λ us. route_tokens reader storage (some us) s) h.whole
            ∙ ap (λ word. route reader storage word tokens s) h.is_keyword
            ∙ parse_signal-bar reader storage s h.keyword h.name_token h.colon h.position h.bar
                h.others leads h.is_colon h.is_bar free
            ∙ ap
                (λ name. done (
                  push_signal
                    (record (initial_signal storage name) {
                      unit = codes "|";
                      receivers = receiver_names h.others;
                    })
                    s))
                h.is_name,
      )

  -- When `current_message_` leads into the network, the text of a signal, ` SG_ `, a name, ` : `, a
  -- decimal start bit and a bar, adds to the last message a signal with this name, whatever stands
  -- behind the bar. Its unit is the bar; the start bit, the size, the byte order, the sign, the
  -- factor, the offset and the limits are those that a signal starts with, for every start bit and
  -- every rest. Only the receivers depend on the rest.
  pub parse_statement-bar :
      (name : Text) (start_bit : ℕ) (rest : Text) (s : State Double)
      → IsName name
      → leads_into s.current s.network.messages ≡ true
      → (receivers : List Text) × (parse_statement reader storage
            (signal_text name start_bit rest)
            s
          ≡ done (
              push_signal
                (record (initial_signal storage name) { unit = codes "|"; receivers = receivers })
                s))
  unfolding parse_statement signal_text tokenize trim trim_start trim_end
  parse_statement-bar [] start_bit rest s h leads = absurd h
  parse_statement-bar (n ∷ ns) start_bit rest s h leads =
      let (c, cs, e) = digits-cons (suc start_bit) start_bit (omega arith) in
      let p = subst Digits e (digits-Digits (suc start_bit) start_bit) in
      let text = signal_text (n ∷ ns) start_bit rest in
      let behind : Text → Text =
        λ start. codes "SG_ " ++ ((n ∷ ns) ++ (codes " : " ++ (start ++ (b'|' ∷ rest)))) in
      let (ts, is_ts, laid) = tokenize-Laid text in
      let clear = spell-Clear (name_word b'S' (codes "G_")) _ (refl, (refl, (refl, tt))) in
      let before : Before (behind (c ∷ cs)) ts =
        subst (λ start. Before (behind start) ts) e
          (record {
            fuel = suc (length text);
            state = initial text;
            line = 1;
            column = 2;
            skipped =
                skip-blank (behind (decimal start_bit)) 1 1
                ∙ skip-Clear (behind (decimal start_bit)) 1 2 clear;
            given = is_ts;
          }) in
      let tokens = signal-tokens n c ns cs rest ts h p before in
      let (receivers, done_with) =
        route-signal (n ∷ ns) (c ∷ cs) ts s tokens leads (digits-no_bar (c ∷ cs) p) in
      (receivers, ap (λ o. route_tokens reader storage o s) is_ts ∙ done_with)
