-- ===== src/Lexer/Reads.antt =====
-- The parts of a number consume what they return.
use dbccpp_tiny.Common.{◌==◌, ◌||◌}
use dbccpp_tiny.Lexer.Cursor.{Cursor, peek}
use dbccpp_tiny.Lexer.Readers.{
  read_hex, read_digits, read_sign, has_fraction, read_fraction, has_exponent, read_exponent,
  read_exponent_sign,
}
use dbccpp_tiny.Lexer.Moves.{
  Moves-stay, Reads, read_while-Reads, read_one-Reads, then_read-Reads, if-Reads,
}

pub read_hex-Reads : (s : Cursor) → Reads s (read_hex s)
unfolding read_hex
read_hex-Reads s =
    then_read-Reads (then_read-Reads (read_one-Reads s) read_one-Reads) (read_while-Reads _)

pub read_digits-Reads : (s : Cursor) → Reads s (read_digits s)
unfolding read_digits
read_digits-Reads s = read_while-Reads _ s

pub read_sign-Reads : (s : Cursor) → Reads s (read_sign s)
read_sign-Reads s = if-Reads (peek s == b'-') (read_one-Reads s) (Moves-stay s)

pub read_fraction-Reads : (s : Cursor) → Reads s (read_fraction s)
unfolding read_fraction
read_fraction-Reads s =
    if-Reads (has_fraction s) (then_read-Reads (read_one-Reads s) read_digits-Reads) (Moves-stay s)

pub read_exponent_sign-Reads : (s : Cursor) → Reads s (read_exponent_sign s)
read_exponent_sign-Reads s =
    if-Reads (peek s == b'+' || peek s == b'-') (read_one-Reads s) (Moves-stay s)

pub read_exponent-Reads : (s : Cursor) → Reads s (read_exponent s)
unfolding read_exponent
read_exponent-Reads s =
    if-Reads (has_exponent s)
      (then_read-Reads (then_read-Reads (read_one-Reads s) read_exponent_sign-Reads)
        read_digits-Reads)
      (Moves-stay s)
