-- ===== src/Lexer/Moves.antt =====
-- What the readers of src/dbc_lexer.h consume, and where they leave the line and the column.
use mathlib.Core.List.{append_assoc}
use dbccpp_tiny.Common.{
  ℕ, ◌==◌, Bool, true, false, ◌&&◌, if◌then◌else◌, Bool-cases, inl, inr, [], ◌∷◌, ◌++◌, ◌≡◌, refl,
  ap, sym, ◌∙◌,
}
use dbccpp_tiny.Objects.{Text}
use dbccpp_tiny.Lexer.Cursor.{
  Cursor, cursor, peek, peek_at, next_line, next_column, advance, Read, read_from, read_while,
  read_one, then_read, skip_whitespace, skip_block, skip_comment,
}

-- The line and the column behind a text: a fold over its characters.
unfoldable pub line_behind : Text → ℕ → ℕ
line_behind [] line = line
line_behind (c ∷ cs) line = line_behind cs (next_line c line)

unfoldable pub column_behind : Text → ℕ → ℕ
column_behind [] column = column
column_behind (c ∷ cs) column = column_behind cs (next_column c column)

line_behind-append :
    (xs ys : Text) (line : ℕ) → line_behind (xs ++ ys) line ≡ line_behind ys (line_behind xs line)
unfolding line_behind
line_behind-append [] ys line = refl
line_behind-append (x ∷ xs) ys line = line_behind-append xs ys (next_line x line)

column_behind-append :
    (xs ys : Text) (column : ℕ)
    → column_behind (xs ++ ys) column ≡ column_behind ys (column_behind xs column)
unfolding column_behind
column_behind-append [] ys column = refl
column_behind-append (x ∷ xs) ys column = column_behind-append xs ys (next_column x column)

-- From `s` to `t` over a text.
pub record Moves (s : Cursor) (text : Text) (t : Cursor) : Type 0 where
  pub split : s.rest ≡ text ++ t.rest
  pub to_line : t.line ≡ line_behind text s.line
  pub to_column : t.column ≡ column_behind text s.column

pub Moves-stay : (s : Cursor) → Moves s [] s
unfolding line_behind column_behind
Moves-stay s = record { split = refl; to_line = refl; to_column = refl }

pub Moves-step :
    (c : ℕ) (cs : Text) (line column : ℕ) {text : Text} {t : Cursor}
    → Moves (cursor cs (next_line c line) (next_column c column)) text t
    → Moves (cursor (c ∷ cs) line column) (c ∷ text) t
unfolding line_behind column_behind
Moves-step c cs line column m = record {
  split = ap (c ∷◌) m.split;
  to_line = m.to_line;
  to_column = m.to_column;
}

pub Moves-trans : {s t u : Cursor} {x y : Text} → Moves s x t → Moves t y u → Moves s (x ++ y) u
Moves-trans {s} {t} {u} {x} {y} m n = record {
  split = m.split ∙ ap (x ++◌) n.split ∙ sym (append_assoc x y u.rest);
  to_line = n.to_line ∙ ap (line_behind y) m.to_line ∙ sym (line_behind-append x y s.line);
  to_column =
      n.to_column ∙ ap (column_behind y) m.to_column ∙ sym (column_behind-append x y s.column);
}

-- What a reader returns is what it consumes.
abbrev pub Reads : Cursor → Read → Type 0
Reads s r = Moves s r.value r.after

pub read_from-Reads :
    (p : ℕ → Bool) (cs : Text) (line column : ℕ)
    → Reads (cursor cs line column) (read_from p cs line column)
read_from-Reads p [] line column = Moves-stay _
read_from-Reads p (c ∷ cs) line column = elim (Bool-cases (p c)) [
  | inl e ↦ rw e (Moves-step c cs line column (read_from-Reads p cs _ _))
  | inr e ↦ rw e (Moves-stay _)
]

pub read_while-Reads : (p : ℕ → Bool) (s : Cursor) → Reads s (read_while p s)
read_while-Reads p s = read_from-Reads p s.rest s.line s.column

pub read_one-Reads : (s : Cursor) → Reads s (read_one s)
read_one-Reads s = by s.rest s.line s.column
  where
    by :
        (cs : Text) (line column : ℕ)
        → Reads (cursor cs line column) (read_one (cursor cs line column))
    by [] line column = Moves-stay _
    by (c ∷ cs) line column = Moves-step c cs line column (Moves-stay _)

pub then_read-Reads :
    {s : Cursor} {r : Read} {f : Cursor → Read}
    → Reads s r
    → ((t : Cursor) → Reads t (f t))
    → Reads s (then_read r f)
then_read-Reads {r} m n = Moves-trans m (n r.after)

pub if-Reads :
    (b : Bool) {s : Cursor} {r q : Read} → Reads s r → Reads s q → Reads s (if b then r else q)
if-Reads true m n = m
if-Reads false m n = n

-- The same without the text.
abbrev pub Skips : Cursor → Cursor → Type 0
Skips s t = (text : Text) × Moves s text t

pub Skips-trans : {s t u : Cursor} → Skips s t → Skips t u → Skips s u
Skips-trans (x, m) (y, n) = (x ++ y, Moves-trans m n)

pub advance-Skips : (s : Cursor) → Skips s (advance s)
advance-Skips s = by s.rest s.line s.column
  where
    by :
        (cs : Text) (line column : ℕ)
        → Skips (cursor cs line column) (advance (cursor cs line column))
    by [] line column = ([], Moves-stay _)
    by (c ∷ cs) line column = (c ∷ [], Moves-step c cs line column (Moves-stay _))

pub if-Skips : (b : Bool) {s t u : Cursor} → Skips s t → Skips s u → Skips s (if b then t else u)
if-Skips true m n = m
if-Skips false m n = n

skip_block-Skips :
    (cs : Text) (line column : ℕ) → Skips (cursor cs line column) (skip_block cs line column)
unfolding skip_block
skip_block-Skips [] line column = ([], Moves-stay _)
skip_block-Skips (c ∷ cs) line column =
    let (text, m) = skip_block-Skips cs (next_line c line) (next_column c column) in
    if-Skips (c == 0) ([], Moves-stay _)
      (if-Skips (c == b'*' && peek_at 0 (cursor cs 0 0) == b'/')
        (Skips-trans (advance-Skips _) (advance-Skips _)) (c ∷ text, Moves-step c cs line column m))

skip_whitespace-Skips : (s : Cursor) → Skips s (skip_whitespace s)
unfolding skip_whitespace
skip_whitespace-Skips s = (_, read_while-Reads _ s)

skip_comment-Skips : (s : Cursor) → Skips s (skip_comment s)
unfolding skip_comment
skip_comment-Skips s =
    let opened = Skips-trans (advance-Skips s) (advance-Skips (advance s)) in
    if-Skips (peek s == b'/' && peek_at 1 s == b'/')
      (Skips-trans opened (_, read_while-Reads _ (advance (advance s))))
      (if-Skips (peek s == b'/' && peek_at 1 s == b'*')
        (Skips-trans opened (skip_block-Skips _ _ _)) ([], Moves-stay s))

pub skip-Skips : (s : Cursor) → Skips s (skip_whitespace (skip_comment (skip_whitespace s)))
skip-Skips s =
    Skips-trans (skip_whitespace-Skips s)
      (Skips-trans (skip_comment-Skips _) (skip_whitespace-Skips _))
