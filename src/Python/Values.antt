-- ===== src/Python/Values.antt =====
-- The values of `dict[str, object]` and of decoded JSON. `F` is the type of floats.
use flyto_robotics.Prelude.{String, Bool}
use flyto_robotics.Prelude.Int.{ℤ}

mutual
  pub data Value (F : Type 0) : Type 0 where
    null : Value F
    flag : Bool → Value F
    integer : ℤ → Value F
    number : F → Value F
    text : String → Value F
    array : Items F → Value F
    object : Fields F → Value F

  pub data Items (F : Type 0) : Type 0 where
    nil : Items F
    cons : Value F → Items F → Items F

  pub data Fields (F : Type 0) : Type 0 where
    end : Fields F
    entry : String → Value F → Fields F → Fields F
