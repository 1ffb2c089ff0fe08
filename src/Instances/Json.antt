-- ===== src/Instances/Json.antt =====
-- `JSON.stringify` of an option's value. Lone surrogates, which it escapes as well, are left out:
-- the strings are well-formed UTF-16.
use bit_bench.Prelude.{
  ℕ, ◌+◌, ◌/◌, ◌%◌, [], ◌∷◌, ◌++◌, true, false, Str, codes, if◌then◌else◌, ltb, ◌==◌,
}
use bit_bench.Options.{Numeric, Value, undefined, null, bool, num, str}

-- A hexadecimal digit in lower case; 87 is the code of `a` less ten.
unfoldable pub hex_digit : ℕ → ℕ
hex_digit d = if ltb d 10 then b'0' + d else 87 + d

-- The escape of one code unit.
unfoldable pub json_unit : ℕ → Str
unfolding hex_digit
json_unit c =
    if c == b'"'
    then codes "\\\""
    else (if c == 92
        then codes "\\\\"
        else (if c == 8
            then codes "\\b"
            else (if c == 9
                then codes "\\t"
                else (if c == 10
                    then codes "\\n"
                    else (if c == 12
                        then codes "\\f"
                        else (if c == 13
                            then codes "\\r"
                            else (if ltb c 32
                                then codes "\\u00" ++ hex_digit (c / 16) ∷ hex_digit (c % 16) ∷ []
                                else c ∷ [])))))))

unfoldable pub json_units : Str → Str
unfolding json_unit
json_units [] = []
json_units (c ∷ s) = json_unit c ++ json_units s

-- In a template, an `undefined` result of `JSON.stringify` reads "undefined".
unfoldable pub json_value : {Num : Type 0} ⦃n : Numeric Num⦄ → Value Num → Str
unfolding json_units
json_value undefined = codes "undefined"
json_value null = codes "null"
json_value (bool true) = codes "true"
json_value (bool false) = codes "false"
json_value ⦃n⦄ (num a) = n.to_string a
json_value (str s) = b'"' ∷ json_units s ++ b'"' ∷ []
