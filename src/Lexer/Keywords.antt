-- ===== src/Lexer/Keywords.antt =====
-- The keywords, and the type of an identifier: the end of `readIdentifier`.
use dbccpp_tiny.Common.{
  ◌==◌, Bool, false, ◌&&◌, ◌||◌, if◌then◌else◌, List, [], ◌∷◌, Option, none, some, codes, text_eq,
}
use dbccpp_tiny.Objects.{Text}
use dbccpp_tiny.Lexer.Types.{
  TokenType, identifier, mux_small, version, ns_, ns_desc_, bs_, bu_, bo_, sg_, cm_, ba_def_,
  ba_def_def_, ba_, val_, val_table_, sig_group_, sig_valtype_, bo_tx_bu_, cat_def_, cat_, filter_,
  ev_data_, envvar_data_, sgtype_, sgtype_val_, ba_def_sgtype_, ba_sgtype_, sig_type_ref_,
  sigtype_valtype_, ba_def_rel_, ba_rel_, ba_def_def_rel_, bu_sg_rel_, bu_ev_rel_, bu_bo_rel_,
  sg_mul_val_, ev_,
}
use dbccpp_tiny.Lexer.Cursor.{is_digit}

-- The chain of comparisons, in its order.
abbrev pub keywords : List (Text × TokenType)
keywords =
    (codes "VERSION", version)
    ∷ (codes "NS_", ns_)
    ∷ (codes "NS_DESC_", ns_desc_)
    ∷ (codes "BS_", bs_)
    ∷ (codes "BU_", bu_)
    ∷ (codes "BO_", bo_)
    ∷ (codes "SG_", sg_)
    ∷ (codes "CM_", cm_)
    ∷ (codes "BA_DEF_", ba_def_)
    ∷ (codes "BA_DEF_DEF_", ba_def_def_)
    ∷ (codes "BA_", ba_)
    ∷ (codes "VAL_", val_)
    ∷ (codes "VAL_TABLE_", val_table_)
    ∷ (codes "SIG_GROUP_", sig_group_)
    ∷ (codes "SIG_VALTYPE_", sig_valtype_)
    ∷ (codes "BO_TX_BU_", bo_tx_bu_)
    ∷ (codes "CAT_DEF_", cat_def_)
    ∷ (codes "CAT_", cat_)
    ∷ (codes "FILTER", filter_)
    ∷ (codes "EV_DATA_", ev_data_)
    ∷ (codes "ENVVAR_DATA_", envvar_data_)
    ∷ (codes "SGTYPE_", sgtype_)
    ∷ (codes "SGTYPE_VAL_", sgtype_val_)
    ∷ (codes "BA_DEF_SGTYPE_", ba_def_sgtype_)
    ∷ (codes "BA_SGTYPE_", ba_sgtype_)
    ∷ (codes "SIG_TYPE_REF_", sig_type_ref_)
    ∷ (codes "SIGTYPE_VALTYPE_", sigtype_valtype_)
    ∷ (codes "BA_DEF_REL_", ba_def_rel_)
    ∷ (codes "BA_REL_", ba_rel_)
    ∷ (codes "BA_DEF_DEF_REL_", ba_def_def_rel_)
    ∷ (codes "BU_SG_REL_", bu_sg_rel_)
    ∷ (codes "BU_EV_REL_", bu_ev_rel_)
    ∷ (codes "BU_BO_REL_", bu_bo_rel_)
    ∷ (codes "SG_MUL_VAL_", sg_mul_val_)
    ∷ (codes "EV_", ev_)
    ∷ []

abbrev pub look_up : List (Text × TokenType) → Text → Option TokenType
look_up [] value = none
look_up ((name, type) ∷ rest) value = if text_eq value name then some type else look_up rest value

-- What stands behind the digits that `value` starts with.
abbrev pub behind_digits : Text → Text
behind_digits [] = []
behind_digits (c ∷ cs) = if is_digit c then behind_digits cs else c ∷ cs

-- After an 'm': digits, at least one, and at most an 'M' behind them.
unfoldable pub is_mux_number : Text → Bool
is_mux_number [] = false
is_mux_number (c ∷ cs) =
    is_digit c && (text_eq (behind_digits cs) [] || text_eq (behind_digits cs) (codes "M"))

unfoldable pub is_mux : Text → Bool
unfolding is_mux_number
is_mux [] = false
is_mux (c ∷ cs) = c == b'm' && is_mux_number cs

unfoldable pub identifier_type : Text → TokenType
unfolding is_mux
identifier_type value = elim (look_up keywords value) [
  | some type ↦ type
  | none ↦ if is_mux value then mux_small else identifier
]
