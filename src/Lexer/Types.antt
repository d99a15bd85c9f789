-- ===== src/Lexer/Types.antt =====
-- `TokenType` and `Token`.
use dbccpp_tiny.Common.{ℕ, ◌==◌, Bool}
use dbccpp_tiny.Objects.{Text}

-- The source's names in small letters; `MUX_M` and `MUX_m` are `mux_capital` and `mux_small`.
pub data TokenType : Type 0 where
  integer float string identifier : TokenType
  version ns_ ns_desc_ bs_ bu_ bo_ sg_ cm_ ba_def_ ba_def_def_ ba_ val_ val_table_ : TokenType
  sig_group_ sig_valtype_ bo_tx_bu_ cat_def_ cat_ filter_ ev_data_ envvar_data_ : TokenType
  sgtype_ sgtype_val_ ba_def_sgtype_ ba_sgtype_ sig_type_ref_ sigtype_valtype_ : TokenType
  ba_def_rel_ ba_rel_ ba_def_def_rel_ bu_sg_rel_ bu_ev_rel_ bu_bo_rel_ sg_mul_val_ ev_ : TokenType
  colon semicolon comma at plus minus pipe lparen rparen lbracket rbracket : TokenType
  mux_capital mux_small end_of_file unknown : TokenType

-- The number of a type in the enumeration.
abbrev pub number_of : TokenType → ℕ
number_of integer = 0
number_of float = 1
number_of string = 2
number_of identifier = 3
number_of version = 4
number_of ns_ = 5
number_of ns_desc_ = 6
number_of bs_ = 7
number_of bu_ = 8
number_of bo_ = 9
number_of sg_ = 10
number_of cm_ = 11
number_of ba_def_ = 12
number_of ba_def_def_ = 13
number_of ba_ = 14
number_of val_ = 15
number_of val_table_ = 16
number_of sig_group_ = 17
number_of sig_valtype_ = 18
number_of bo_tx_bu_ = 19
number_of cat_def_ = 20
number_of cat_ = 21
number_of filter_ = 22
number_of ev_data_ = 23
number_of envvar_data_ = 24
number_of sgtype_ = 25
number_of sgtype_val_ = 26
number_of ba_def_sgtype_ = 27
number_of ba_sgtype_ = 28
number_of sig_type_ref_ = 29
number_of sigtype_valtype_ = 30
number_of ba_def_rel_ = 31
number_of ba_rel_ = 32
number_of ba_def_def_rel_ = 33
number_of bu_sg_rel_ = 34
number_of bu_ev_rel_ = 35
number_of bu_bo_rel_ = 36
number_of sg_mul_val_ = 37
number_of ev_ = 38
number_of colon = 39
number_of semicolon = 40
number_of comma = 41
number_of at = 42
number_of plus = 43
number_of minus = 44
number_of pipe = 45
number_of lparen = 46
number_of rparen = 47
number_of lbracket = 48
number_of rbracket = 49
number_of mux_capital = 50
number_of mux_small = 51
number_of end_of_file = 52
number_of unknown = 53

-- `type == t`
abbrev pub is_type : TokenType → TokenType → Bool
is_type t u = number_of t == number_of u

pub record Token : Type 0 where
  pub type : TokenType
  pub value : Text
  pub line : ℕ
  pub column : ℕ
