-- ===== src/Stream/Posts.antt =====
-- What each statement keeps of `current_message_` and the messages.
use dbccpp_tiny.Common.{
  ℕ, Bool, true, false, if◌then◌else◌, List, [], ◌∷◌, ◌++◌, Option, none, some, Option-cases, inl,
  inr, text_eq, codes, drop, length, Bool-cases, ◌≡◌, refl,
}
use dbccpp_tiny.Objects.{Text, BitTiming}
use dbccpp_tiny.Lexer.Types.{Token}
use dbccpp_tiny.Lexer.Total.{tokenize-Laid}
use dbccpp_tiny.Parser.Result.{ParseError}
use dbccpp_tiny.Parser.Numbers.{stoull, DoubleReader}
use dbccpp_tiny.Stream.Text.{is_empty, trim}
use dbccpp_tiny.Stream.State.{
  Current, no_message, message_at, stale_message, leads_into, State, Result, done, failed, thrown,
  elsewhere, out_of_fuel, Storage, skip_value,
}
use dbccpp_tiny.Stream.Statements.{
  message_id, with_timing, parse_version, parse_new_symbols, parse_bit_timing, parse_nodes,
  read_message, parse_message,
}
use dbccpp_tiny.Stream.Attributes.{
  object_type_of, behind_object_type, add_definition, parse_attribute_definition,
}
use dbccpp_tiny.Stream.Signals.{update_last, push_signal, read_name, for_message, parse_signal}
use dbccpp_tiny.Stream.Route.{route, route_tokens, parse_statement}
use dbccpp_tiny.Ast

-- `Good` holds of a result, `Wrong` of an error, and `Stale` if it is a write elsewhere.
abbrev pub Post {ℓ} :
    {A : Type ℓ} → Type 0 → (ParseError → Type 0) → (A → Type 0) → Result A → Type 0
Post Stale Wrong Good (done a) = Good a
Post Stale Wrong Good (failed e) = Wrong e
Post Stale Wrong Good thrown = Unit
Post Stale Wrong Good elsewhere = Stale
Post Stale Wrong Good out_of_fuel = ⊥

abbrev pub AnyError : ParseError → Type 0
AnyError e = Unit

abbrev pub is_null : Current → Bool
is_null no_message = true
is_null stale_message = false
is_null (message_at i) = false

-- A property of `current_message_` and the messages that the statements keep.
pub record Kept (Double : Type 0) : Type 1 where
  pub Keeps : Current → List (Ast.Message Double) → Type 0
  pub Stale : Type 0
  pub added :
      (c : Current) (ms : List (Ast.Message Double)) (m : Ast.Message Double)
      → Keeps c ms
      → Keeps (message_at (length ms)) (ms ++ (m ∷ []))
  pub changed :
      (f : Ast.Message Double → Ast.Message Double) (c : Current) (ms : List (Ast.Message Double))
      → Keeps c ms
      → Keeps c (update_last f ms)
  pub stale :
      (c : Current) (ms : List (Ast.Message Double))
      → is_null c ≡ false
      → leads_into c ms ≡ false
      → Keeps c ms
      → Stale

module _ {Double : Type 0} (kept : Kept Double) where
  open kept use {Keeps, Stale, added, changed, stale}

  abbrev pub KeepsState : State Double → Type 0
  KeepsState s = Keeps s.current s.network.messages

  unfoldable pub Statement : Result (State Double) → Type 0
  Statement = Post Stale AnyError KeepsState

  if-Statement :
      (b : Bool) (r q : Result (State Double))
      → Statement r
      → Statement q
      → Statement (if b then r else q)
  if-Statement true r q h k = h
  if-Statement false r q h k = k

  done-Statement : (s : State Double) → KeepsState s → Statement (done s)
  unfolding Statement
  done-Statement s h = h

  parse_version-Statement :
      (ts : List Token) (s : State Double) → KeepsState s → Statement (parse_version ts s)
  unfolding Statement parse_version
  parse_version-Statement [] s h = tt
  parse_version-Statement (t ∷ []) s h = tt
  parse_version-Statement (t ∷ u ∷ ts) s h = h

  parse_new_symbols-Statement :
      (ts : List Token) (s : State Double) → KeepsState s → Statement (parse_new_symbols ts s)
  unfolding Statement parse_new_symbols
  parse_new_symbols-Statement [] s h = h
  parse_new_symbols-Statement (t ∷ ts) s h = h

  with_timing-Statement :
      (s : State Double) (timing : Option BitTiming)
      → KeepsState s
      → Statement (with_timing s timing)
  unfolding Statement
  with_timing-Statement s none h = tt
  with_timing-Statement s (some timing) h = h

  parse_bit_timing-Statement :
      (ts : List Token) (s : State Double) → KeepsState s → Statement (parse_bit_timing ts s)
  unfolding Statement parse_bit_timing
  parse_bit_timing-Statement [] s h = h
  parse_bit_timing-Statement (t ∷ []) s h = h
  parse_bit_timing-Statement (t ∷ u ∷ []) s h =
      if-Statement (text_eq u.value (codes ":")) _ _ h (with_timing-Statement s _ h)
  parse_bit_timing-Statement (t ∷ u ∷ v ∷ ts) s h = with_timing-Statement s _ h

  parse_nodes-Statement :
      (ts : List Token) (s : State Double) → KeepsState s → Statement (parse_nodes ts s)
  unfolding Statement parse_nodes
  parse_nodes-Statement [] s h = h
  parse_nodes-Statement (t ∷ ts) s h = h

  read_message-Statement :
      (id : ℕ) (name : Text) (ts : List Token) (s : State Double)
      → KeepsState s
      → Statement (read_message id name ts s)
  unfolding Statement read_message
  read_message-Statement id name [] s h = tt
  read_message-Statement id name (t ∷ ts) s h = elim (Option-cases (stoull t.value)) [
    | inl e ↦ rw (e, read_message) tt
    | inr (size, e) ↦ rw (e, read_message) (added s.current s.network.messages _ h)
  ]

  parse_message-Statement :
      (ts : List Token) (s : State Double) → KeepsState s → Statement (parse_message ts s)
  unfolding Statement parse_message
  parse_message-Statement [] s h = tt
  parse_message-Statement (a ∷ []) s h = tt
  parse_message-Statement (a ∷ b ∷ []) s h = tt
  parse_message-Statement (a ∷ b ∷ c ∷ []) s h = tt
  parse_message-Statement (a ∷ b ∷ c ∷ d ∷ []) s h = tt
  parse_message-Statement (a ∷ b ∷ c ∷ d ∷ e ∷ ts) s h = elim (Option-cases (message_id b.value)) [
    | inl f ↦ rw (f, parse_message) tt
    | inr (n, f) ↦
        rw (f, parse_message)
          (read_message-Statement n c.value (skip_value (codes ":") (d ∷ e ∷ ts)) s h)
  ]

  module _ (reader : DoubleReader Double) (storage : Storage Double) where
    read_name-Statement :
        (ts : List Token) (s : State Double)
        → is_null s.current ≡ false
        → KeepsState s
        → Statement (read_name reader storage ts s)
    unfolding Statement read_name push_signal
    read_name-Statement [] s set h = tt
    read_name-Statement (t ∷ ts) s set h =
        elim (Bool-cases (leads_into s.current s.network.messages)) [
          | inl e ↦ rw e (changed _ s.current s.network.messages h)
          | inr e ↦ rw e (stale s.current s.network.messages set e h)
        ]

    for_message-Statement :
        (current : Current) (ts : List Token) (network : Ast.Network Double)
        → Keeps current network.messages
        → Statement (
            for_message reader storage current ts (record { network = network; current = current }))
    unfolding Statement
    for_message-Statement no_message ts network h = tt
    for_message-Statement stale_message ts network h = read_name-Statement ts _ refl h
    for_message-Statement (message_at i) ts network h = read_name-Statement ts _ refl h

    parse_signal-Statement :
        (ts : List Token) (s : State Double)
        → KeepsState s
        → Statement (parse_signal reader storage ts s)
    unfolding Statement parse_signal
    parse_signal-Statement ts s h = for_message-Statement s.current (drop 1 ts) s.network h

    add_definition-Statement :
        (object_type : Ast.ObjectType) (ts : List Token) (s : State Double)
        → KeepsState s
        → Statement (add_definition reader object_type ts s)
    unfolding Statement add_definition
    add_definition-Statement object_type [] s h = tt
    add_definition-Statement object_type (t ∷ []) s h = tt
    add_definition-Statement object_type (t ∷ u ∷ ts) s h = h

    parse_attribute_definition-Statement :
        (ts : List Token) (s : State Double)
        → KeepsState s
        → Statement (parse_attribute_definition reader ts s)
    unfolding Statement parse_attribute_definition
    parse_attribute_definition-Statement [] s h = tt
    parse_attribute_definition-Statement (a ∷ []) s h = tt
    parse_attribute_definition-Statement (a ∷ b ∷ []) s h = tt
    parse_attribute_definition-Statement (a ∷ b ∷ c ∷ []) s h = tt
    parse_attribute_definition-Statement (a ∷ b ∷ c ∷ d ∷ ts) s h =
        add_definition-Statement (object_type_of b.value) (behind_object_type (b ∷ c ∷ d ∷ ts)) s h

    route-Statement :
        (keyword : Text) (ts : List Token) (s : State Double)
        → KeepsState s
        → Statement (route reader storage keyword ts s)
    unfolding route
    route-Statement keyword ts s h =
        let skipped = done-Statement s h in
        if-Statement _ _ _ (parse_version-Statement ts s h) (
          if-Statement _ _ _ (parse_new_symbols-Statement ts s h) (
            if-Statement _ _ _ (parse_bit_timing-Statement ts s h) (
              if-Statement _ _ _ (parse_nodes-Statement ts s h) (
                if-Statement _ _ _ (parse_message-Statement ts s h) (
                  if-Statement _ _ _ (parse_signal-Statement ts s h) (
                    if-Statement (text_eq keyword (codes "CM_")) _ _ skipped (
                      if-Statement (text_eq keyword (codes "VAL_")) _ _ skipped (
                        if-Statement (text_eq keyword (codes "BA_DEF_")) _ _
                          (parse_attribute_definition-Statement ts s h)
                          (if-Statement (text_eq keyword (codes "BA_")) _ _ skipped (
                            if-Statement (text_eq keyword (codes "VAL_TABLE_")) _ _ skipped (
                              if-Statement (text_eq keyword (codes "BO_TX_BU_")) _ _ skipped (
                                if-Statement (text_eq keyword (codes "SG_MUL_VAL_")) _ _ skipped
                                  skipped))))))))))))

    pub parse_statement-Statement :
        (statement : Text) (s : State Double)
        → KeepsState s
        → Statement (parse_statement reader storage statement s)
    unfolding Statement parse_statement
    parse_statement-Statement statement s h =
        let (ts, e, laid) = tokenize-Laid statement in
        if-Statement (is_empty (trim statement)) _ _ h (rw e (tokens ts))
      where
        tokens : (ts : List Token) → Statement (route_tokens reader storage (some ts) s)
        tokens [] = h
        tokens (t ∷ ts) = route-Statement t.value (t ∷ ts) s h
