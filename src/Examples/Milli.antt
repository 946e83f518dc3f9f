-- ===== src/Examples/Milli.antt =====
-- A concrete runtime: numbers as whole thousandths, with 10^9 for infinity, and the sine and cosine
-- of small angles.
use Prim.Native.Nat.{◌/◌, ◌%◌, ◌^◌}
use flyto_robotics.Prelude.{ℕ, ◌+◌, ◌*◌, false, ◌&&◌, none, some, if◌then◌else◌, ltb}
use flyto_robotics.Prelude.Int.{ℤ, pos, pos_part, neg_part, sub_ℕ, ltb_ℤ, leb_ℤ}
use flyto_robotics.Python.{
  Value, integer, number, text, array, object, nil, cons, end, entry, Runtime,
}

abbrev magnitude : ℤ → ℕ
magnitude z = pos_part z + neg_part z

abbrev negate : ℤ → ℤ
negate z = sub_ℕ (neg_part z) (pos_part z)

abbrev plus : ℤ → ℤ → ℤ
plus a b = sub_ℕ (pos_part a + pos_part b) (neg_part a + neg_part b)

abbrev minus : ℤ → ℤ → ℤ
minus a b = sub_ℕ (pos_part a + neg_part b) (neg_part a + pos_part b)

abbrev times : ℤ → ℤ → ℤ
times a b =
    sub_ℕ ((pos_part a * pos_part b + neg_part a * neg_part b) / 1000)
      ((pos_part a * neg_part b + neg_part a * pos_part b) / 1000)

abbrev over : ℤ → ℤ → ℤ
over a b = times a (pos (1000000 / magnitude b))

abbrev with_sign : ℤ → ℤ → ℤ
with_sign a b = if ltb_ℤ b (pos 0) then negate (pos (magnitude a)) else pos (magnitude a)

-- The one file that this platform can decode.
abbrev bed_document : Value ℤ
bed_document = object (
    entry "contract_version" (text "flyto.robotics.semantic-location-map.v1") (
      entry "locations"
        (array (
          cons
            (object (
              entry "labels" (array (cons (text "bed") nil)) (
                entry "location_id" (text "bed-1") (
                  entry "pose"
                    (object (
                      entry "x" (number (pos 1000))
                        (entry "y" (number (pos 2000)) (entry "yaw" (number (pos 0)) end))))
                    end))))
            nil))
        (entry "map_id" (text "ward") (entry "revision" (integer (pos 1)) end))))

instance abbrev pub milli : Runtime ℤ
milli = record {
  decimal = λ n d. pos (n * 1000 / 10 ^ d);
  neg = negate;
  abs = λ a. pos (magnitude a);
  add = plus;
  sub = minus;
  mul = times;
  div = over;
  lt = ltb_ℤ;
  le = leb_ℤ;
  eq = λ a b. leb_ℤ a b && leb_ℤ b a;
  is_finite = λ a. ltb (magnitude a) 1000000000;
  is_nan = λ a. false;
  infinity = pos 1000000000;
  pi = pos 3142;
  sin = λ a. some a;
  cos = λ a. some (pos 1000);
  degrees = λ a. times a (pos 57296);
  modulo = λ a b. pos (magnitude a % magnitude b);
  atan2 = λ a b. over a b;
  hypot = λ a b. pos (magnitude a + magnitude b);
  copysign = with_sign;
  remainder = λ a b. some a;
  of_integer = λ z. times z (pos 1000000);
  round_to = λ n a. a;
  fixed = λ n a. "?";
  parse_float = λ s. none;
  repr = λ v. "?";
  normalize_label = λ s. some s;
  json_dump = λ v. "{}";
  json_loads = λ s. some bed_document;
  utf8_length = λ s. 0;
}
