-- ===== src/Prelude/Decimal.antt =====
-- Numbers in texts.
use Prim.Native.Nat.{ℕ, zero, suc, ◌/◌, ◌%◌}
use Prim.Native.String.{String, ◌++◌ as str_append}
use package.hive_chameleon.Prelude.Tests.{if◌then◌else◌, ◌==◌}

-- A number in a text: `${value}`.
abbrev digit : ℕ → String
digit n =
    if n == 0
    then "0"
    else if n == 1
    then "1"
    else if n == 2
    then "2"
    else if n == 3
    then "3"
    else if n == 4
    then "4"
    else if n == 5
    then "5"
    else if n == 6
    then "6"
    else if n == 7
    then "7"
    else if n == 8
    then "8"
    else "9"

abbrev digits_before : ℕ → ℕ → String → String
digits_before zero n rest = rest
digits_before (suc fuel) n rest =
    let text = str_append (digit (n % 10)) rest in
    let more = digits_before fuel (n / 10) text in if n / 10 == 0 then text else more

abbrev pub decimal : ℕ → String
decimal n = digits_before (suc n) n ""
