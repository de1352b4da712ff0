-- ===== src/Homework/Cpuinfo/Line.antt =====
-- The line "cpu cores : n" of /proc/cpuinfo as hw1/kernelthreadcount.c reads it.
use operating_system_linux_t.Common.{
  ℕ, suc, ◌+◌, ◌*◌, ◌^◌, ◌<◌, ◌≡◌, refl, ap, ◌∙◌, true, false, Option, none, some, List, [], ◌∷◌,
  ◌++◌, length, if◌then◌else◌, arith,
}
use operating_system_linux_t.Homework.Cpuinfo.{
  strstr, cpu_cores, skip, token, behind, strtok, digits_from, atoi, read_line, read_tokens,
  get_no_of_cores,
}

-- Decimal digits, most significant first, their characters, and the number that they stand for.
abbrev pub Decimal : List ℕ → Type 0
Decimal [] = Unit
Decimal (x ∷ xs) = (x < 10) × Decimal xs

abbrev pub characters : List ℕ → List ℕ
characters [] = []
characters (x ∷ xs) = (48 + x) ∷ characters xs

abbrev pub number : ℕ → List ℕ → ℕ
number acc [] = acc
number acc (x ∷ xs) = number (acc * 10 + x) xs

-- "cpu cores", a tab, a colon, a blank, the digits and the end of the line.
abbrev pub cores_line : List ℕ → List ℕ
cores_line xs = cpu_cores ++ 9 ∷ 58 ∷ 32 ∷ (characters xs ++ 10 ∷ [])

-- None of the pieces has "cpu cores" in it.
abbrev pub Others : List (List ℕ) → Type 0
Others [] = Unit
Others (p ∷ ps) = (strstr p cpu_cores ≡ false) × Others ps

read_line-finds :
    (tmp line : List ℕ) (before after : List (List ℕ))
    → Others before
    → strstr line cpu_cores ≡ true
    → read_line tmp (before ++ line ∷ after) ≡ line
unfolding read_line
read_line-finds tmp line [] after o found = rw found refl
read_line-finds tmp line (p ∷ before) after o found =
    rw (o.0) (read_line-finds p line before after o.1 found)

digits_from-number :
    (acc : ℕ) (xs : List ℕ)
    → Decimal xs
    → digits_from acc (characters xs ++ 10 ∷ []) ≡ number acc xs
digits_from-number acc [] d = refl
digits_from-number acc (x ∷ xs) d = ground (arith, digits_from-number (acc * 10 + x) xs d.1)

token-whole :
    (xs : List ℕ) → Decimal xs → token 32 (characters xs ++ 10 ∷ []) ≡ characters xs ++ 10 ∷ []
token-whole [] d = refl
token-whole (x ∷ xs) d = ground (arith, token-whole xs d.1)

behind-none : (xs : List ℕ) → Decimal xs → behind 32 (characters xs ++ 10 ∷ []) ≡ []
behind-none [] d = refl
behind-none (x ∷ xs) d = ground (arith, behind-none xs d.1)

strstr-none : (xs : List ℕ) → Decimal xs → strstr (characters xs ++ 10 ∷ []) cpu_cores ≡ false
strstr-none [] d = refl
strstr-none (x ∷ xs) d = ground (arith, strstr-none xs d.1)

-- What `strtok` makes of a string that starts with no delimiter.
abbrev first_token : List ℕ → Option (List ℕ) × List ℕ
first_token [] = (none, [])
first_token (x ∷ xs) = (some (token 32 (x ∷ xs)), behind 32 (x ∷ xs))

strtok-digits :
    (x : ℕ) (xs : List ℕ)
    → Decimal (x ∷ xs)
    → strtok 32 (32 ∷ (characters (x ∷ xs) ++ 10 ∷ []))
      ≡ (some (characters (x ∷ xs) ++ 10 ∷ []), [])
strtok-digits x xs d =
    let skipped : skip 32 (32 ∷ (characters (x ∷ xs) ++ 10 ∷ [])) ≡ characters (x ∷ xs) ++ 10 ∷ [] =
      ground arith in
    ap first_token skipped ∙ rw (token-whole (x ∷ xs) d, behind-none (x ∷ xs) d) refl

atoi-number :
    (x : ℕ) (xs : List ℕ)
    → Decimal (x ∷ xs)
    → number 0 (x ∷ xs) < 2 ^ 31
    → atoi (characters (x ∷ xs) ++ 10 ∷ []) ≡ number 0 (x ∷ xs)
atoi-number x xs d small = ground (arith, digits_from-number (0 + x) xs d.1)

-- The loop over the tokens of a line.
tokens_of : ℕ → List ℕ → ℕ
tokens_of junk tmp = read_tokens (suc (suc (length tmp))) junk (strtok 58 tmp).0 (strtok 58 tmp).1

tokens-number :
    (junk x : ℕ) (xs : List ℕ)
    → Decimal (x ∷ xs)
    → number 0 (x ∷ xs) < 2 ^ 31
    → tokens_of junk (cores_line (x ∷ xs)) ≡ number 0 (x ∷ xs)
unfolding tokens_of read_tokens
tokens-number junk x xs d small =
    ap (λ q. read_tokens (suc (length (cores_line (x ∷ xs)))) junk q.0 q.1) (strtok-digits x xs d)
    ∙ ap (λ b. if b then junk else atoi (characters (x ∷ xs) ++ 10 ∷ [])) (strstr-none (x ∷ xs) d)
    ∙ atoi-number x xs d small

-- Where the first line with "cpu cores" in it is "cpu cores : n", whatever lines stand before and
-- behind it, `get_no_of_cores` answers n, as long as it is an `int`.
pub get_no_of_cores-number :
    (junk x : ℕ) (xs : List ℕ) (before after : List (List ℕ))
    → Others before
    → Decimal (x ∷ xs)
    → number 0 (x ∷ xs) < 2 ^ 31
    → get_no_of_cores junk (some (before ++ cores_line (x ∷ xs) ∷ after)) ≡ number 0 (x ∷ xs)
unfolding get_no_of_cores tokens_of
get_no_of_cores-number junk x xs before after o d small =
    ap (tokens_of junk) (read_line-finds [] (cores_line (x ∷ xs)) before after o refl)
    ∙ tokens-number junk x xs d small
