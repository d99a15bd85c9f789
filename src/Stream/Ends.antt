-- ===== src/Stream/Ends.antt =====
-- How a parse by lines can end.
use dbccpp_tiny.Common.{
  ℕ, suc, ◌+◌, true, false, List, [], ◌∷◌, ◌++◌, length, length-append, inl, inr, ◌⊎◌, ◌≡◌, ◌≢◌,
  refl, ap, subst, ◌∙◌, arith,
}
use dbccpp_tiny.Objects.{Text}
use dbccpp_tiny.Lexer.Types.{Token}
use dbccpp_tiny.Parser.Result.{ParseError, unexpected_token}
use dbccpp_tiny.Parser.Numbers.{DoubleReader}
use dbccpp_tiny.Reader.Adapters.{LineReader}
use dbccpp_tiny.Stream.State.{
  Current, no_message, message_at, stale_message, leads_into, State, Result, done, failed, thrown,
  elsewhere, out_of_fuel, Storage, fail,
}
use dbccpp_tiny.Stream.Signals.{
  initial_signal, update_last, push_signal, read_signal, read_name, parse_signal,
}
use dbccpp_tiny.Stream.Whole.{Progress, step, parse}
use dbccpp_tiny.Stream.Posts.{Kept, is_null}
use dbccpp_tiny.Stream.Runs.{Between, Round, Run, step-Round, parse-Run}
use dbccpp_tiny.Ast

abbrev anything : (Double : Type 0) → Kept Double
anything Double = record {
  Keeps = λ c ms. Unit;
  Stale = Unit;
  added = λ c ms m h. tt;
  changed = λ f c ms h. tt;
  stale = λ c ms set e h. tt;
}

-- A null pointer while there is no message, and the last message after that.
abbrev Tracks : {A : Type 0} → Current → List A → Type 0
Tracks no_message ms = ms ≡ []
Tracks stale_message ms = ⊥
Tracks (message_at i) ms = length ms ≡ i + 1

module _ {A : Type 0} where
  length-update_last : (f : A → A) (xs : List A) → length (update_last f xs) ≡ length xs
  length-update_last f [] = refl
  length-update_last f (x ∷ []) = refl
  length-update_last f (x ∷ y ∷ xs) = ap suc (length-update_last f (y ∷ xs))

  update_last-append :
      (f : A → A) (xs : List A) (x : A) → update_last f (xs ++ (x ∷ [])) ≡ xs ++ (f x ∷ [])
  update_last-append f [] x = refl
  update_last-append f (y ∷ []) x = refl
  update_last-append f (y ∷ z ∷ xs) x = ap (y ∷◌) (update_last-append f (z ∷ xs) x)

  last_of :
      (xs : List A) (i : ℕ)
      → length xs ≡ i + 1
      → (front : List A) × (x : A) × (xs ≡ front ++ (x ∷ []))
  last_of [] i h = absurd (omega (arith, h))
  last_of (x ∷ []) i h = ([], x, refl)
  last_of (x ∷ y ∷ xs) i h =
      let (front, z, e) = last_of (y ∷ xs) (length xs) (omega arith) in (x ∷ front, z, ap (x ∷◌) e)

module _ {Double : Type 0} where
  changed-Tracks :
      (f : Ast.Message Double → Ast.Message Double) (c : Current) (ms : List (Ast.Message Double))
      → Tracks c ms
      → Tracks c (update_last f ms)
  changed-Tracks f no_message ms h = ap (update_last f) h
  changed-Tracks f stale_message ms h = h
  changed-Tracks f (message_at i) ms h = length-update_last f ms ∙ h

  stale-Tracks :
      (c : Current) (ms : List (Ast.Message Double))
      → is_null c ≡ false
      → leads_into c ms ≡ false
      → Tracks c ms
      → ⊥
  stale-Tracks no_message ms set e h = cc
  stale-Tracks stale_message ms set e h = h
  stale-Tracks (message_at i) ms set e h = ground (arith, e, h)

  abbrev tracking : Kept Double
  tracking = record {
    Keeps = Tracks;
    Stale = ⊥;
    added = λ c ms m h. length-append ms (m ∷ []);
    changed = changed-Tracks;
    stale = stale-Tracks;
  }

module _ {Double : Type 0} (reader : DoubleReader Double) (storage : Storage Double) where
  Run-ends : (kept : Kept Double) (r : Result (State Double)) → Run kept r → r ≢ out_of_fuel
  unfolding Run
  Run-ends kept (done s) h = cc
  Run-ends kept (failed e) h = cc
  Run-ends kept thrown h = cc
  Run-ends kept elsewhere h = cc
  Run-ends kept out_of_fuel h = absurd h

  -- Parsing by lines ends, whatever the reader and the parser hold: the loops over the lines and
  -- over the tokens come to an end.
  pub parse-ends :
      (lines : LineReader) (current : Current) (s : lines.State)
      → parse reader storage lines current s ≢ out_of_fuel
  parse-ends lines current s =
      Run-ends (anything Double) _ (parse-Run (anything Double) reader storage lines current s tt)

  Run-code : (kept : Kept Double) (e : ParseError) → Run kept (failed e) → e.code ≡ unexpected_token
  unfolding Run
  Run-code kept e h = h

  -- Each error that parsing by lines reports has the code of an unexpected token: the error for an
  -- incomplete statement at the end of the file does not occur.
  pub parse-code :
      (lines : LineReader) (current : Current) (s : lines.State) (e : ParseError)
      → parse reader storage lines current s ≡ failed e
      → e.code ≡ unexpected_token
  parse-code lines current s e h = Run-code (anything Double) e (
      subst (Run (anything Double)) h
        (parse-Run (anything Double) reader storage lines current s tt))

  Round-Between : (kept : Kept Double) (q : Progress Double) → Round kept (done q) → Between kept q
  unfolding Round
  Round-Between kept q h = h

  -- A line does not go on in the next: if nothing is accumulated before it, nothing is accumulated
  -- behind it, also when it starts a signal.
  pub step-single :
      (number : ℕ) (line : Text) (p q : Progress Double)
      → p.accumulated ≡ []
      → p.in_multiline ≡ false
      → step reader storage number line p ≡ done q
      → (q.accumulated ≡ []) × (q.in_multiline ≡ false)
  step-single number line p q empty single e =
      let before : Between (anything Double) p = record {
        empty = empty;
        single = single;
        keeps = tt;
      } in
      let after = Round-Between (anything Double) q (
        subst (Round (anything Double)) e
          (step-Round (anything Double) reader storage number line p before)) in
      (after.empty, after.single)

  module _ (keyword name : Token) (ts : List Token) where
    -- A signal statement fails for want of a message, or adds the signal to the last message.
    abbrev pub SignalAtLast : State Double → Type 0
    SignalAtLast s =
        ((s.network.messages ≡ [])
          × (parse_signal reader storage (keyword ∷ name ∷ ts) s
              ≡ fail unexpected_token "Signal without message"))
        ⊎ ((front : List (Ast.Message Double)) × (m : Ast.Message Double) × (s.network.messages
              ≡ front ++ (m ∷ []))
            × (parse_signal reader storage (keyword ∷ name ∷ ts) s
                ≡ done (record s {
                  network = record s.network {
                    messages =
                        front
                        ++ (record m {
                          signals =
                              m.signals
                              ++ (read_signal reader (initial_signal storage name.value) ts ∷ []);
                        }
                            ∷ []);
                  };
                })))

    -- No write has gone elsewhere, and in the state reached the next signal goes to the last message.
    abbrev pub InNetwork : Result (State Double) → Type 0
    InNetwork (done s) = SignalAtLast s
    InNetwork (failed e) = Unit
    InNetwork thrown = Unit
    InNetwork elsewhere = ⊥
    InNetwork out_of_fuel = ⊥

    Tracks-SignalAtLast :
        (current : Current) (network : Ast.Network Double)
        → Tracks current network.messages
        → SignalAtLast (record { network = network; current = current })
    unfolding parse_signal read_name push_signal
    Tracks-SignalAtLast no_message network h = inl (h, refl)
    Tracks-SignalAtLast stale_message network h = absurd h
    Tracks-SignalAtLast (message_at i) network h =
        let (front, m, e) = last_of network.messages i h in
        let leads : leads_into (message_at i) network.messages ≡ true = ground (arith, h) in
        inr (front, m, e, rw (leads, e, update_last-append _ front m) refl)

    Run-InNetwork : (r : Result (State Double)) → Run tracking r → InNetwork r
    unfolding Run
    Run-InNetwork (done s) h = Tracks-SignalAtLast s.current s.network h
    Run-InNetwork (failed e) h = tt
    Run-InNetwork thrown h = tt
    Run-InNetwork elsewhere h = h
    Run-InNetwork out_of_fuel h = h

    -- A parser that has read nothing before ends, and it never writes through a pointer that does
    -- not lead into the network it reads. In the state that it reaches without an error a further
    -- signal statement is the error of a signal without message, when there is no message, or adds
    -- the signal to the last message.
    pub parse-InNetwork :
        (lines : LineReader) (s : lines.State) → InNetwork (parse reader storage lines no_message s)
    parse-InNetwork lines s =
        Run-InNetwork _ (parse-Run tracking reader storage lines no_message s refl)
