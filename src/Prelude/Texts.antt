-- ===== src/Prelude/Texts.antt =====
-- Texts: their code points, decimal numbers, and templates.
use Prim.Native.Nat.{ℕ, zero, suc, ◌/◌, ◌%◌}
use Prim.Native.Char.{Char, code}
use Prim.Native.String.{String}
use Prim.Native.String
use Prim.Native.String.append
use mathlib.Core.Path.{◌≡◌, refl}
use mathlib.Core.Logic.{◌≢◌}
use mathlib.Core.List.{List, [], ◌∷◌}
use edgepay_cf.Prelude.Tests.{ltb, ◌==◌, if◌then◌else◌}

-- The code points of a text.
abbrev pub codes : String → List ℕ
codes String.[] = []
codes (String.◌∷◌ c s) = code c ∷ codes s

-- A template literal, by its parts.
unfoldable pub join : List String → String
join [] = ""
join (s ∷ ss) = String.◌++◌ s (join ss)

digit : ℕ → String
digit n =
    if n == 0
    then "0"
    else if n == 1
    then "1"
    else if n == 2
    then "2"
    else if n == 3
    then "3"
    else if n == 4
    then "4"
    else if n == 5
    then "5"
    else if n == 6
    then "6"
    else if n == 7
    then "7"
    else if n == 8
    then "8"
    else "9"

-- The digits before `acc`; as many rounds as the number are enough.
digits : ℕ → ℕ → String → String
digits zero n acc = String.◌++◌ (digit (n % 10)) acc
digits (suc f) n acc =
    let rest = digits f (n / 10) (String.◌++◌ (digit (n % 10)) acc) in
    if ltb n 10 then String.◌++◌ (digit n) acc else rest

-- `String(n)` of a natural number.
unfoldable pub decimal : ℕ → String
unfolding digit digits
decimal n = digits n n ""

decimal_test : join ("m" ∷ decimal 12 ∷ ":payment:" ∷ decimal 307 ∷ []) ≡ "m12:payment:307"
unfolding join decimal
decimal_test = refl

cons_append-ne-empty : (c : Char) (s t : String) → String.◌++◌ (String.◌∷◌ c s) t ≢ ""
cons_append-ne-empty c s t h = cc (append.cons c s t, h)

-- A template that starts with an `m` is not empty.
pub join-ne-empty : (ss : List String) → join ("m" ∷ ss) ≢ ""
unfolding join
join-ne-empty ss h = cons_append-ne-empty "m" "" (join ss) h
