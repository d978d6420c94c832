-- ===== src/Prelude/Text.antt =====
-- The bytes of an ASCII text, and `u64`'s `Display`.
use Prim.Native.Nat.{ℕ, zero, suc, ◌+◌, ◌/◌, ◌%◌}
use Prim.Native.Char.{code}
use Prim.Native.String.{String}
use mathlib.Core.List.{[], ◌∷◌, ◌++◌}
use sidecar.Prelude.Tests.{if◌then◌else◌, ltb}
use sidecar.Prelude.Equality.{Bytes}

abbrev pub codes : String → Bytes
codes String.[] = []
codes (String.◌∷◌ c s) = code c ∷ codes s

-- With fuel for as many digits as the number has; a `u64` has at most 20.
decimal_from : ℕ → ℕ → Bytes
decimal_from zero n = []
decimal_from (suc f) n =
    let rest = decimal_from f (n / 10) in
    if ltb n 10 then (b'0' + n) ∷ [] else rest ++ (b'0' + n % 10) ∷ []

unfoldable pub decimal : ℕ → Bytes
unfolding decimal_from
decimal n = decimal_from 20 n
