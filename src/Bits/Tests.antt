-- ===== src/Bits/Tests.antt =====
-- Binary digits at concrete numbers.
use eltex_school.Base.{◌≡◌, refl, arith}
use eltex_school.Text.{codes}
use eltex_school.Bits.{print_binary, print_from, count_ones, count_below}
use eltex_school.Bits.Printed.{value_of, ones_in, print_binary_lem}

print_binary_lem_example :
    (value_of 0 (print_binary 2147483661) ≡ 2147483661)
    × (ones_in (print_binary 2147483661) ≡ count_ones 2147483661)
print_binary_lem_example = print_binary_lem 2147483661 (omega arith)

print_binary_test : print_binary 2147483661 ≡ codes "10000000 00000000 00000000 00001101\n"
unfolding print_binary print_from
print_binary_test = refl

count_ones_test : count_ones 2147483661 ≡ 4
unfolding count_ones count_below
count_ones_test = refl
