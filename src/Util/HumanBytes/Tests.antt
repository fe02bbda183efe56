-- ===== src/Util/HumanBytes/Tests.antt =====
-- Runs of the parser of humanbytes.rs, and the theorems about it at an input.
use btdt.Prelude.{◌≡◌, ◌≢◌, refl, codes, bytes_dec}
use btdt.Util.HumanBytes.Scanning.{parse_bytes_from_str-ends}
use btdt.Io.{ok, err}
use btdt.Util.HumanBytes.{parse_bytes_from_str, invalid_unit_prefix, out_of_fuel}

sum_run : parse_bytes_from_str (codes " 1KiB 2 k3") ≡ ok 3027
unfolding parse_bytes_from_str bytes_dec
sum_run = refl

unit_run : parse_bytes_from_str (codes "1X") ≡ err (invalid_unit_prefix (codes "X"))
unfolding parse_bytes_from_str bytes_dec
unit_run = refl

-- The product of the value and the unit wraps.
overflow_run : parse_bytes_from_str (codes "20E") ≡ ok 1553255926290448384
unfolding parse_bytes_from_str bytes_dec
overflow_run = refl

parse_bytes_from_str-ends_example : parse_bytes_from_str (codes "1 kB 2") ≢ err out_of_fuel
parse_bytes_from_str-ends_example = parse_bytes_from_str-ends (codes "1 kB 2")
