-- ===== src/Examples/Clearances.antt =====
-- The clearance of a path on a concrete sweep, as a test and as a witness.
use flyto_robotics.Prelude.{◌≡◌, refl, true, false, none, some, ◌&&◌, arith}
use flyto_robotics.Prelude.Int.{ℤ, pos, ltb_ℤ, leb_ℤ}
use flyto_robotics.Python.{Value, number, array, object, null, nil, cons, end, entry, ok}
use flyto_robotics.Python.Checks.{◌>>=◌}
use flyto_robotics.PathClearance.{
  kind_of, sweep_beams, sectors_of, judge, remainder_tau, sector_clearances, sectors_from, side_of,
  judge_path, measured, nearest_from,
}
use flyto_robotics.PathClearance.Judging.{passes, may_start, passes-judge}
use flyto_robotics.Examples.Milli.{milli}

transitive : (x y z : ℤ) → ltb_ℤ x y ≡ true → ltb_ℤ y z ≡ true → ltb_ℤ x z ≡ true
transitive x y z h k = ground arith

between :
    (x y z : ℤ) → milli.is_finite y ≡ true → ltb_ℤ x z ≡ true → ltb_ℤ x y ≡ false → ltb_ℤ y z ≡ true
between x y z fin h k = ground arith

same : (x y z : ℤ) → (leb_ℤ x y && leb_ℤ y x) ≡ true → ltb_ℤ x z ≡ ltb_ℤ y z
same x y z h = ground arith

-- A return at 0.3 m ahead of the robot, and one at 0.4 m to its side.
abbrev sweep : Value ℤ
sweep = object (
    entry "angle_min_rad" (number (pos 0)) (
      entry "angle_increment_rad" (number (pos 100)) (
        entry "ranges_m" (array (cons (number (pos 300)) (cons null (cons (number (pos 400)) nil))))
          end)))

blocked_test : passes (judge sweep (some "rotate") (pos 350) (pos 100) none) ≡ ok false
unfolding judge sweep_beams remainder_tau sector_clearances sectors_from side_of judge_path measured
    nearest_from
blocked_test = refl

passes-judge_example : passes (judge sweep (some "advance") (pos 350) (pos 100) none) ≡ (
    sweep_beams sweep >>= λ beams.
    (sectors_of beams >>= λ sectors.
    may_start (kind_of (some "advance")) (pos 350) (pos 100) beams none))
passes-judge_example =
    passes-judge transitive between same sweep (some "advance") (pos 350) (pos 100) none
