-- ===== src/Cores.antt =====
-- pthreads/utilities.c: the counts that bound the kernel threads, read from the output of `lscpu`.
use operating_system_linux_t.Common.{
  ℕ, zero, suc, ◌==◌, ◌-◌, ◌≤◌, ◌≡◌, ◌&&◌, Option, none, some, List, [], ◌∷◌, leb, if◌then◌else◌,
  arith,
}
use operating_system_linux_t.Homework.Cpuinfo.{atoi}
use operating_system_linux_t.Machine.{Machine}
use operating_system_linux_t.Lifecycle.{klmatchcores, init_kthread_info, mypthread_init}

-- `fgets` into an array of the size, of which the last place is for the NUL: the characters up to a
-- newline, itself included, and what is left of the output.
unfoldable pub fgets : (size : ℕ) → List ℕ → List ℕ × List ℕ
fgets zero output = ([], output)
fgets (suc zero) output = ([], output)
fgets (suc (suc size)) [] = ([], [])
fgets (suc (suc size)) (c ∷ output) =
    let more = fgets (suc size) output in if c == 10 then (c ∷ [], output) else (c ∷ more.0, more.1)

-- `resultString` holds two characters. `junk` is what `atoi` makes of it when nothing was read into it.
unfoldable pub read_count : (fallback junk : ℕ) → Option (List ℕ) → ℕ
unfolding fgets
read_count fallback junk none = fallback
read_count fallback junk (some []) = junk
read_count fallback junk (some (c ∷ rest)) = atoi (fgets 2 (c ∷ rest)).0

-- The output of the command, `none` where `popen` fails.
unfoldable pub get_cpu_cores : (junk : ℕ) → Option (List ℕ) → ℕ
unfolding read_count
get_cpu_cores junk output = read_count 2 junk output

unfoldable pub get_hyperthreads : (junk : ℕ) → Option (List ℕ) → ℕ
unfolding read_count
get_hyperthreads junk output = read_count 1 junk output

-- The digit, or 0 for any other character.
abbrev pub digit : ℕ → ℕ
digit c = if leb 48 c && leb c 57 then c - 48 else 0

read_first :
    (fallback junk c : ℕ) (rest : List ℕ) → read_count fallback junk (some (c ∷ rest)) ≡ digit c
unfolding read_count fgets
read_first fallback junk c rest = ground arith

-- Where lscpu prints a count that starts with the character c, however long the count is,
-- KLMATCHCORES bounds the kernel threads by the one digit c, or 0 where it is none, so by at
-- most 9.
pub mypthread_init-get_cpu_cores :
    (junk hyper c : ℕ) (rest : List ℕ) (m : Machine)
    → (let n = mypthread_init klmatchcores (get_cpu_cores junk (some (c ∷ rest))) hyper m in
        (n.max_kthread_count ≡ digit c) × (n.max_kthread_count ≤ 9))
unfolding mypthread_init init_kthread_info get_cpu_cores
mypthread_init-get_cpu_cores junk hyper c rest m =
    (read_first 2 junk c rest, rw (read_first 2 junk c rest) (ground arith))
