-- ===== src/CString/Tests.antt =====
-- The theorems on blocks and strings, in a memory with two strings.
use course_archive.Prelude.{
  ℕ, ◌+◌, ◌-◌, ◌<◌, ◌≡◌, refl, ◌==◌, ltb, if◌then◌else◌, Returns, inr, arith,
}
use course_archive.CString.{Memory, memmove, strtok_r, strlcpy}
use course_archive.CString.Copy.{inside, Copied, memmove-Copied}
use course_archive.CString.Search.{IsString}
use course_archive.CString.Token.{Tokenized, strtok_r-Tokenized}
use course_archive.CString.Bounded.{fits, strlcpy-fits}

-- "a b" stands at 10, and " " at 20.
abbrev memory : Memory
memory a =
    if a == 10
    then 97
    else (if a == 11 then 32 else (if a == 12 then 98 else (if a == 20 then 32 else 0)))

small_bytes : (a : ℕ) → memory a < 256
small_bytes a = ground arith

text-IsString : IsString memory 10 3
text-IsString = record {
  address = refl;
  full = λ i lt. ground arith;
  end = refl;
  room = omega arith;
}

space-IsString : IsString memory 20 1
space-IsString = record {
  address = refl;
  full = λ i lt. ground arith;
  end = refl;
  room = omega arith;
}

memmove-Copied_example :
    Returns
      (λ (mem', p). Copied memory 11 10 3 mem' × (p ≡ (if ltb 11 10 then 11 + 3 else 11)))
      (memmove memory 11 10 3)
memmove-Copied_example = memmove-Copied memory 11 10 3 refl refl

strtok_r-Tokenized_example :
    Returns
      (λ (token, mem', save'). Tokenized memory (if 10 == 0 then 0 else 10) 3 20 1 token mem' save')
      (strtok_r memory 10 20 0)
strtok_r-Tokenized_example =
    strtok_r-Tokenized memory 10 20 0 3 1 small_bytes space-IsString text-IsString

strlcpy-fits_example :
    Returns
      (λ (len, mem').
        (len ≡ 3)
        × ((b : ℕ)
            → mem' b ≡ (
                if 3 == 0
                then memory b
                else (if b == 30 + fits 3 3
                    then 0
                    else (if inside 30 (fits 3 3) b then memory (10 + (b - 30)) else memory b)))))
      (strlcpy memory 30 10 3)
strlcpy-fits_example = strlcpy-fits memory 30 10 3 3 refl text-IsString (inr (omega arith))
