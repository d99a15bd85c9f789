-- ===== src/Stream/Misread.antt =====
-- The nodes that `parseNodes` of src/dbc_stream_parser.h makes of the end of the file.
use dbccpp_tiny.Common.{
  ℕ, zero, suc, ◌==◌, false, Bool-cases, inl, inr, List, [], ◌∷◌, ◌++◌, map, drop, length, Option,
  none, some, codes, ◌≡◌, refl, ap, sym, subst, ◌∙◌, ◌>>=◌,
}
use dbccpp_tiny.Objects.{Text}
use dbccpp_tiny.Lexer.Types.{Token}
use dbccpp_tiny.Lexer.Cursor.{Cursor, peek}
use dbccpp_tiny.Lexer.Tokenize.{next_token, end_token, skip, tokenize_from, initial, tokenize}
use dbccpp_tiny.Parser.Numbers.{DoubleReader}
use dbccpp_tiny.Stream.Text.{is_empty, trim}
use dbccpp_tiny.Stream.State.{State, Result, done, Storage}
use dbccpp_tiny.Stream.Statements.{parse_nodes}
use dbccpp_tiny.Stream.Route.{route, route_tokens, parse_statement}

-- The last token has no value.
pub record EndsEmpty (ts : List Token) : Type 0 where
  pub front : List Token
  pub end : Token
  pub whole : ts ≡ front ++ (end ∷ [])
  pub value : end.value ≡ []

abbrev AllEndEmpty : Option (List Token) → Type 0
AllEndEmpty none = Unit
AllEndEmpty (some ts) = EndsEmpty ts

cons-AllEndEmpty :
    (t : Token) (o : Option (List Token)) → AllEndEmpty o → AllEndEmpty (o >>= λ ts. some (t ∷ ts))
cons-AllEndEmpty t none h = tt
cons-AllEndEmpty t (some ts) h = record {
  front = t ∷ h.front;
  end = h.end;
  whole = ap (t ∷◌) h.whole;
  value = h.value;
}

-- The lexer puts the end of file behind the tokens.
tokenize_from-AllEndEmpty : (fuel : ℕ) (s : Cursor) → AllEndEmpty (tokenize_from fuel s)
unfolding tokenize_from
tokenize_from-AllEndEmpty zero s = tt
tokenize_from-AllEndEmpty (suc fuel) s = elim (Bool-cases (peek (skip s) == 0)) [
  | inl e ↦ rw e (record { front = []; end = end_token (skip s); whole = refl; value = refl })
  | inr e ↦
      let t = next_token (skip s) in
      rw e (cons-AllEndEmpty t.token _ (tokenize_from-AllEndEmpty fuel t.after))
]

tokenize-EndsEmpty : (input : Text) (ts : List Token) → tokenize input ≡ some ts → EndsEmpty ts
unfolding tokenize
tokenize-EndsEmpty input ts e =
    subst AllEndEmpty e (tokenize_from-AllEndEmpty (suc (length input)) (initial input))

map_append :
    (ts : List Token) (t : Token)
    → map (λ u. u.value) (ts ++ (t ∷ [])) ≡ map (λ u. u.value) ts ++ (t.value ∷ [])
map_append [] t = refl
map_append (u ∷ ts) t = ap (u.value ∷◌) (map_append ts t)

-- The values behind the first token end with an empty one.
values-behind :
    (keyword : Token) (ts front : List Token) (end : Token)
    → keyword ∷ ts ≡ front ++ (end ∷ [])
    → keyword.value ≡ codes "BU_"
    → end.value ≡ []
    → (names : List Text) × (map (λ t. t.value) ts ≡ names ++ ([] ∷ []))
values-behind keyword ts [] end e k v = absurd (cc (sym k ∙ ap (λ us. first us) e ∙ v))
  where
    first : List Token → Text
    first [] = []
    first (t ∷ us) = t.value
values-behind keyword ts (t ∷ front) end e k v = (
  map (λ u. u.value) front,
  ap (λ us. map (λ u. u.value) (drop 1 us)) e
      ∙ map_append front end
      ∙ ap (λ w. map (λ u. u.value) front ++ (w ∷ [])) v,
)

module _ {Double : Type 0} (reader : DoubleReader Double) (storage : Storage Double) where
  -- A statement whose first token is BU_ adds a node without a name to the network, behind all
  -- others: the end of file is taken for one.
  pub parse_statement-nodes :
      (statement : Text) (keyword : Token) (ts : List Token) (s : State Double)
      → is_empty (trim statement) ≡ false
      → tokenize statement ≡ some (keyword ∷ ts)
      → keyword.value ≡ codes "BU_"
      → (names : List Text) × (parse_statement reader storage statement s
          ≡ done (record s {
            network = record s.network { nodes = s.network.nodes ++ (names ++ ([] ∷ [])) };
          }))
  unfolding parse_statement route parse_nodes
  parse_statement-nodes statement keyword ts s b e k =
      let ends = tokenize-EndsEmpty statement (keyword ∷ ts) e in
      let (names, found) = values-behind keyword ts ends.front ends.end ends.whole k ends.value in
      let nodes_of : List Text → Result (State Double) =
        λ ns. done (record s { network = record s.network { nodes = s.network.nodes ++ ns } }) in
      (
        names,
        rw b (
            ap (λ o. route_tokens reader storage o s) e
            ∙ ap (λ word. route reader storage word (keyword ∷ ts) s) k
            ∙ ap nodes_of found),
      )
