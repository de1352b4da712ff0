-- ===== src/Tests/Files.antt =====
-- A run of hw1/kernelthreadcount.c.
use operating_system_linux_t.Common.{◌≡◌, refl, some, [], ◌∷◌, ◌++◌, arith}
use operating_system_linux_t.Homework.Cpuinfo
use operating_system_linux_t.Homework.Cpuinfo.Line.{cores_line, number, get_no_of_cores-number}

-- "flags : x" and then "cpu cores : 16".
get_no_of_cores-number_example :
    Cpuinfo.get_no_of_cores 0 (some (((102 ∷ 58 ∷ 120 ∷ []) ∷ []) ++ cores_line (1 ∷ 6 ∷ []) ∷ []))
    ≡ number 0 (1 ∷ 6 ∷ [])
get_no_of_cores-number_example =
    get_no_of_cores-number 0 1 (6 ∷ []) ((102 ∷ 58 ∷ 120 ∷ []) ∷ []) [] (refl, tt)
      (omega arith, (omega arith, tt)) (omega arith)
