-- ===== src/Samples.antt =====
-- Segments, keys and values for the examples of all modules.
use liboffkv.Base.{codes, arith, bytes_eq, refl, Bytes}
use liboffkv.Key.{validate_segment, all_printable}
use liboffkv.Key.Segments.{IsSegment, validate_segment_iff}

abbrev pub p_segment : Bytes
p_segment = codes "p"

abbrev pub a_segment : Bytes
a_segment = codes "a"

abbrev pub b_segment : Bytes
b_segment = codes "b"

abbrev pub value : Bytes
value = codes "value"

pub p-IsSegment : IsSegment p_segment
unfolding validate_segment all_printable bytes_eq
p-IsSegment = (validate_segment_iff p_segment (omega arith)).0 refl

pub a-IsSegment : IsSegment a_segment
unfolding validate_segment all_printable bytes_eq
a-IsSegment = (validate_segment_iff a_segment (omega arith)).0 refl

pub b-IsSegment : IsSegment b_segment
unfolding validate_segment all_printable bytes_eq
b-IsSegment = (validate_segment_iff b_segment (omega arith)).0 refl
