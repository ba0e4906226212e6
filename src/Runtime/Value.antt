-- ===== src/Runtime/Value.antt =====
-- Tagged values (src/runtime/value.hpp, src/runtime/value.cpp). A value is a data type with a case for
-- each payload; `number` carries a double, which is abstract, and `obj` an object's tag and address.
pub mod Equality
use luajit.Common.{
  ℕ, ◌-◌, ◌^◌, Bool, true, false, not, ◌&&◌, Option, none, some, ◌==◌, if◌then◌else◌,
}
use luajit.Common.Int.{ℤ, pos, negsuc, to_word, ltb_ℤ}

pub data ValueTag : Type 0 where
  nil bool int float string table function userdata thread light_userdata internal : ValueTag

-- The tags of values that point to an object (or hold a light userdata).
pub data ObjTag : Type 0 where
  string table function userdata thread light_userdata internal : ObjTag

abbrev pub obj_tag : ObjTag → ValueTag
obj_tag ObjTag.string = ValueTag.string
obj_tag ObjTag.table = ValueTag.table
obj_tag ObjTag.function = ValueTag.function
obj_tag ObjTag.userdata = ValueTag.userdata
obj_tag ObjTag.thread = ValueTag.thread
obj_tag ObjTag.light_userdata = ValueTag.light_userdata
obj_tag ObjTag.internal = ValueTag.internal

-- `static_cast<uint32_t>(tag)`
abbrev pub tag_number : ValueTag → ℕ
tag_number ValueTag.nil = 0
tag_number ValueTag.bool = 1
tag_number ValueTag.int = 2
tag_number ValueTag.float = 3
tag_number ValueTag.string = 4
tag_number ValueTag.table = 5
tag_number ValueTag.function = 6
tag_number ValueTag.userdata = 7
tag_number ValueTag.thread = 8
tag_number ValueTag.light_userdata = 9
tag_number ValueTag.internal = 10

abbrev pub tag_eq : ValueTag → ValueTag → Bool
tag_eq a b = tag_number a == tag_number b

-- The machine's doubles, as far as the code uses them. `to_int` is the cast to `int64_t`, `of_int` the
-- cast back, `payload` the bits.
pub record Double (F : Type 0) : Type 0 where
  pub lt : F → F → Bool
  pub le : F → F → Bool
  pub eq : F → F → Bool
  pub floor : F → F
  pub neg : F → F
  pub of_int : ℤ → F
  pub to_int : F → ℤ
  pub payload : F → ℕ

pub data TValue (F : Type 0) : Type 0 where
  nil : TValue F
  boolean : Bool → TValue F
  integer : ℤ → TValue F
  number : F → TValue F
  obj : ObjTag → ℕ → TValue F

module _ {F : Type 0} where
  abbrev pub tag : TValue F → ValueTag
  tag nil = ValueTag.nil
  tag (boolean b) = ValueTag.bool
  tag (integer n) = ValueTag.int
  tag (number x) = ValueTag.float
  tag (obj t p) = obj_tag t

  abbrev pub is_nil : TValue F → Bool
  is_nil nil = true
  is_nil _ = false

  abbrev pub is_truthy : TValue F → Bool
  is_truthy nil = false
  is_truthy (boolean b) = b
  is_truthy _ = true

  abbrev pub is_string : TValue F → Bool
  is_string (obj ObjTag.string p) = true
  is_string _ = false

-- `i1 == i2`
abbrev pub int_eq : ℤ → ℤ → Bool
int_eq (pos a) (pos b) = a == b
int_eq (negsuc a) (negsuc b) = a == b
int_eq _ _ = false

abbrev pub both_ints : Option ℤ → Option ℤ → Bool
both_ints (some i) (some j) = int_eq i j
both_ints _ _ = false

-- 2 ^ 53 bounds the integers that every double holds exactly.
unfoldable pub int_fits_float : ℤ → Bool
int_fits_float i = not (ltb_ℤ i (negsuc (2 ^ 53 - 1))) && not (ltb_ℤ (pos (2 ^ 53)) i)

module _ {F : Type 0} ⦃dbl : Double F⦄ where
  abbrev pub min_int : F
  min_int = dbl.of_int (negsuc (2 ^ 63 - 1))

  -- `none` is a return of false.
  unfoldable pub float_to_integer : F → Option ℤ
  float_to_integer d =
      if dbl.le min_int d && dbl.lt d (dbl.neg min_int) && dbl.eq (dbl.floor d) d
      then some (dbl.to_int d)
      else none

  -- The lambda `as_int` of `values_equal`, on numbers.
  unfoldable pub as_int : TValue F → Option ℤ
  unfolding float_to_integer
  as_int (integer n) = some n
  as_int (number x) = float_to_integer x
  as_int _ = none

  abbrev pub payload : TValue F → ℕ
  payload nil = 0
  payload (boolean b) = if b then 1 else 0
  payload (integer n) = to_word n
  payload (number x) = dbl.payload x
  payload (obj t p) = p

  -- Equal payloads of two integers are equal integers. Different tags: only an integer and a float can be equal, by their integer values.
  unfoldable pub values_equal : TValue F → TValue F → Bool
  unfolding as_int
  values_equal (number x) (number y) = dbl.eq x y
  values_equal (integer i) (number y) = both_ints (some i) (as_int (number y))
  values_equal (number x) (integer j) = both_ints (as_int (number x)) (some j)
  values_equal (integer i) (integer j) = int_eq i j
  values_equal a b = tag_eq (tag a) (tag b) && payload a == payload b

  -- The NaN test is `x != x`.
  unfoldable pub lt_int_float : ℤ → F → Bool
  unfolding int_fits_float
  lt_int_float i f =
      if not (dbl.eq f f)
      then false
      else if not (int_fits_float i)
      then (if dbl.le (dbl.neg min_int) f
          then true
          else if dbl.lt min_int f
          then ltb_ℤ i (dbl.to_int f)
          else false)
      else dbl.lt (dbl.of_int i) f

  unfoldable pub le_int_float : ℤ → F → Bool
  unfolding int_fits_float
  le_int_float i f =
      if not (dbl.eq f f)
      then false
      else if not (int_fits_float i)
      then (if dbl.le (dbl.neg min_int) f
          then true
          else if dbl.le min_int f
          then not (ltb_ℤ (dbl.to_int f) i)
          else false)
      else dbl.le (dbl.of_int i) f

  unfoldable pub number_lt : TValue F → TValue F → Bool
  unfolding lt_int_float le_int_float
  number_lt (integer a) (integer b) = ltb_ℤ a b
  number_lt (integer a) (number b) = lt_int_float a b
  number_lt (number a) (number b) = dbl.lt a b
  number_lt (number a) (integer b) = if not (dbl.eq a a) then false else not (le_int_float b a)
  number_lt _ _ = false

  unfoldable pub number_le : TValue F → TValue F → Bool
  unfolding lt_int_float le_int_float
  number_le (integer a) (integer b) = not (ltb_ℤ b a)
  number_le (integer a) (number b) = le_int_float a b
  number_le (number a) (number b) = dbl.le a b
  number_le (number a) (integer b) = if not (dbl.eq a a) then false else not (lt_int_float b a)
  number_le _ _ = false
