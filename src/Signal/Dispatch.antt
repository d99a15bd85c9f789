-- ===== src/Signal/Dispatch.antt =====
-- `enum_mask` and `make_decode` of src/signal_impl.cpp: the choice of an instance of the template.
use dbccpp_tiny.Common.{
  ℕ, ◌≡◌, arith, List, [], ◌∷◌, ◌++◌, Option, none, some, bit_or, ◌==◌, if◌then◌else◌,
}
use dbccpp_tiny.Signal.Types.{
  EByteOrder, big_endian, little_endian, EValueType, signed, unsigned, EExtendedValueType, integer,
  float, double, Alignment, size_inbetween_first_64_bit,
  signal_exceeds_64_bit_size_but_signal_fits_into_64_bit,
  signal_exceeds_64_bit_size_and_signal_does_not_fit_into_64_bit, Template,
}

alignment_flag : Alignment → ℕ
alignment_flag size_inbetween_first_64_bit = 0b1
alignment_flag signal_exceeds_64_bit_size_but_signal_fits_into_64_bit = 0b10
alignment_flag signal_exceeds_64_bit_size_and_signal_does_not_fit_into_64_bit = 0b100

byte_order_flag : EByteOrder → ℕ
byte_order_flag little_endian = 0b1000
byte_order_flag big_endian = 0b10000

value_type_flag : EValueType → ℕ
value_type_flag signed = 0b100000
value_type_flag unsigned = 0b1000000

extended_flag : EExtendedValueType → ℕ
extended_flag integer = 0b10000000
extended_flag float = 0b100000000
extended_flag double = 0b1000000000

unfoldable pub enum_mask : Alignment → EByteOrder → EValueType → EExtendedValueType → ℕ
unfolding alignment_flag byte_order_flag value_type_flag extended_flag
enum_mask a bo vt evt =
    bit_or (bit_or (bit_or (alignment_flag a) (byte_order_flag bo)) (value_type_flag vt))
      (extended_flag evt)

-- `template_decode<a, bo, vt, evt>`
abbrev pub instance_for : Alignment → EByteOrder → EValueType → EExtendedValueType → Template
instance_for a bo vt evt = record {
  alignment = a;
  byte_order = bo;
  value_type = vt;
  extended_value_type = evt;
}

-- The six cases of the switch for one alignment and byte order, in the order of the source.
cases_for : Alignment → EByteOrder → List Template
cases_for a bo =
    instance_for a bo signed integer
    ∷ instance_for a bo signed float
    ∷ instance_for a bo signed double
    ∷ instance_for a bo unsigned integer
    ∷ instance_for a bo unsigned float
    ∷ instance_for a bo unsigned double
    ∷ []

-- The 36 cases of the switch.
switch_cases : List Template
unfolding cases_for
switch_cases =
    cases_for size_inbetween_first_64_bit little_endian
    ++ (cases_for size_inbetween_first_64_bit big_endian
        ++ (cases_for signal_exceeds_64_bit_size_but_signal_fits_into_64_bit little_endian
            ++ (cases_for signal_exceeds_64_bit_size_but_signal_fits_into_64_bit big_endian
                ++ (cases_for signal_exceeds_64_bit_size_and_signal_does_not_fit_into_64_bit
                      little_endian
                    ++ cases_for signal_exceeds_64_bit_size_and_signal_does_not_fit_into_64_bit
                        big_endian))))

-- The case with this label; `none` is the `nullptr` behind the switch.
select : ℕ → List Template → Option Template
unfolding enum_mask
select key [] = none
select key (t ∷ ts) =
    if enum_mask t.alignment t.byte_order t.value_type t.extended_value_type == key
    then some t
    else select key ts

unfoldable pub make_decode :
    Alignment → EByteOrder → EValueType → EExtendedValueType → Option Template
unfolding enum_mask switch_cases select
make_decode a bo vt evt = select (enum_mask a bo vt evt) switch_cases

-- For every combination the switch has a case, and it is the instance for that combination.
pub make_decode_lem :
    (a : Alignment) (bo : EByteOrder) (vt : EValueType) (evt : EExtendedValueType)
    → make_decode a bo vt evt ≡ some (instance_for a bo vt evt)
unfolding make_decode
make_decode_lem a bo vt evt = ground arith
