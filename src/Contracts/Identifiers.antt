-- ===== src/Contracts/Identifiers.antt =====
-- src/shared/identifiers.ts, `uuidV7`: the random bytes are inputs. Bytes 0 to 5 are overwritten with the time,
-- so the arguments are bytes 6 to 15.
mod Tests
use onyx_ifem.Prelude.{
  ℕ, eqb, subst, ◌<◌, ◌-◌, suc, All, some, ◌+◌, ◌*◌, ◌/◌, ◌%◌, ◌^◌, ◌≡◌, refl, Bool, true, ◌&&◌,
  String, List, [], ◌∷◌, ◌++◌, arith,
}
use Prim.Native.Char.{Char, code}
use onyx_ifem.Json.{Json, codes}
use onyx_ifem.Contracts.Errors.{Result, ok}
use onyx_ifem.Contracts.Checks.{matches, test, uuid, is_hex, is_variant, uuid_v7_pattern}

-- A digit of `toString("hex")`, which no number above 15 has.
abbrev digits : List Char
digits =
    "0" ∷ "1" ∷ "2" ∷ "3" ∷ "4" ∷ "5" ∷ "6" ∷ "7" ∷ "8" ∷ "9" ∷ "a" ∷ "b" ∷ "c" ∷ "d" ∷ "e" ∷ "f"
    ∷ []

unfoldable pub digit_at : List Char → ℕ → Char
digit_at [] n = "f"
digit_at (c ∷ cs) ℕ.zero = c
digit_at (c ∷ cs) (suc n) = digit_at cs n

abbrev hex_digit : ℕ → Char
hex_digit n = digit_at digits n

abbrev hex : List ℕ → List Char
hex [] = []
hex (b ∷ bs) = hex_digit (b / 16) ∷ hex_digit (b % 16) ∷ hex bs

-- A byte of the time: `(milliseconds >> 8 * i) & 0xff`.
abbrev time_byte : ℕ → ℕ → ℕ
time_byte milliseconds i = milliseconds / 256 ^ i % 256

abbrev text_of_chars : List Char → String
text_of_chars [] = String.[]
text_of_chars (c ∷ cs) = String.◌∷◌ c (text_of_chars cs)

unfoldable pub uuid_v7 : (now b6 b7 b8 b9 b10 b11 b12 b13 b14 b15 : ℕ) → String
uuid_v7 now b6 b7 b8 b9 b10 b11 b12 b13 b14 b15 = text_of_chars (
    hex (time_byte now 5 ∷ time_byte now 4 ∷ time_byte now 3 ∷ time_byte now 2 ∷ [])
    ++ ("-" ∷ hex (time_byte now 1 ∷ time_byte now 0 ∷ [])
        ++ ("-" ∷ hex ((b6 % 16 + 112) ∷ b7 ∷ [])
            ++ ("-" ∷ hex ((b8 % 64 + 128) ∷ b9 ∷ [])
                ++ ("-" ∷ hex (b10 ∷ b11 ∷ b12 ∷ b13 ∷ b14 ∷ b15 ∷ []))))))

digit_at-is_hex :
    (cs : List Char) (n : ℕ)
    → All (λ c. is_hex (code c) ≡ true) cs
    → is_hex (code (digit_at cs n)) ≡ true
unfolding digit_at
digit_at-is_hex [] n h = refl
digit_at-is_hex (c ∷ cs) ℕ.zero (here, there) = here
digit_at-is_hex (c ∷ cs) (suc n) (here, there) = digit_at-is_hex cs n there

digit : (n : ℕ) → is_hex (code (hex_digit n)) ≡ true
digit n = digit_at-is_hex digits n (
  refl,
  (
    refl,
    (
      refl,
      (
        refl,
        (
          refl,
          (
            refl,
            (refl, (refl, (refl, (refl, (refl, (refl, (refl, (refl, (refl, (refl, tt)))))))))),
          ),
        ),
      ),
    ),
  ),
)

abbrev Fits : List (ℕ → Bool) → List ℕ → Type 0
Fits [] [] = Unit
Fits (p ∷ ps) (c ∷ cs) = (p c ≡ true) × Fits ps cs
Fits _ _ = ⊥

matches_of_Fits : (ps : List (ℕ → Bool)) (cs : List ℕ) → Fits ps cs → matches ps cs ≡ true
unfolding matches
matches_of_Fits [] [] h = refl
matches_of_Fits (p ∷ ps) (c ∷ cs) (here, there) = rw (here, matches_of_Fits ps cs there) refl
matches_of_Fits [] (c ∷ cs) h = absurd h
matches_of_Fits (p ∷ ps) [] h = absurd h

version_digit : (b : ℕ) → (b % 16 + 112) / 16 ≡ 7
version_digit b = omega arith

from_eight : (k : ℕ) → k < 4 → is_variant (code (hex_digit (8 + k))) ≡ true
unfolding digit_at
from_eight ℕ.zero h = refl
from_eight (suc ℕ.zero) h = refl
from_eight (suc (suc ℕ.zero)) h = refl
from_eight (suc (suc (suc ℕ.zero))) h = refl
from_eight (suc (suc (suc (suc k)))) h = absurd (omega (arith, h))

variant_digit : (b : ℕ) → is_variant (code (hex_digit ((b % 64 + 128) / 16))) ≡ true
variant_digit b =
    let above : 8 + ((b % 64 + 128) / 16 - 8) ≡ (b % 64 + 128) / 16 = omega arith in
    subst (λ n. is_variant (code (hex_digit n)) ≡ true) above
      (from_eight ((b % 64 + 128) / 16 - 8) (omega arith))

version_is_7 : (b : ℕ) → eqb b'7' (code (hex_digit ((b % 16 + 112) / 16))) ≡ true
unfolding digit_at
version_is_7 b = rw (version_digit b) refl

-- Whatever the time and the random bytes, the identifier that `uuidV7` makes is one that the validation of
-- commands and events accepts.
pub uuid_v7-uuid :
    (now b6 b7 b8 b9 b10 b11 b12 b13 b14 b15 : ℕ) (name : String)
    → uuid (some (Json.text (uuid_v7 now b6 b7 b8 b9 b10 b11 b12 b13 b14 b15))) name ≡ ok tt
unfolding uuid uuid_v7 test digit_at
uuid_v7-uuid now b6 b7 b8 b9 b10 b11 b12 b13 b14 b15 name =
    let t = digit in
    let time = time_byte now in
    let fits =
      matches_of_Fits uuid_v7_pattern (codes (uuid_v7 now b6 b7 b8 b9 b10 b11 b12 b13 b14 b15)) (
        t (time 5 / 16),
        (
          t (time 5 % 16),
          (
            t (time 4 / 16),
            (
              t (time 4 % 16),
              (
                t (time 3 / 16),
                (
                  t (time 3 % 16),
                  (
                    t (time 2 / 16),
                    (
                      t (time 2 % 16),
                      (
                        refl,
                        (
                          t (time 1 / 16),
                          (
                            t (time 1 % 16),
                            (
                              t (time 0 / 16),
                              (
                                t (time 0 % 16),
                                (
                                  refl,
                                  (
                                    version_is_7 b6,
                                    (
                                      t ((b6 % 16 + 112) % 16),
                                      (
                                        t (b7 / 16),
                                        (
                                          t (b7 % 16),
                                          (
                                            refl,
                                            (
                                              variant_digit b8,
                                              (
                                                t ((b8 % 64 + 128) % 16),
                                                (
                                                  t (b9 / 16),
                                                  (
                                                    t (b9 % 16),
                                                    (
                                                      refl,
                                                      (
                                                        t (b10 / 16),
                                                        (
                                                          t (b10 % 16),
                                                          (
                                                            t (b11 / 16),
                                                            (
                                                            t (b11 % 16),
                                                            (
                                                            t (b12 / 16),
                                                            (
                                                            t (b12 % 16),
                                                            (
                                                            t (b13 / 16),
                                                            (
                                                            t (b13 % 16),
                                                            (
                                                            t (b14 / 16),
                                                            (
                                                            t (b14 % 16),
                                                            (t (b15 / 16), (t (b15 % 16), tt)),
                                                            ),
                                                            ),
                                                            ),
                                                            ),
                                                            ),
                                                            ),
                                                            ),
                                                          ),
                                                        ),
                                                      ),
                                                    ),
                                                  ),
                                                ),
                                              ),
                                            ),
                                          ),
                                        ),
                                      ),
                                    ),
                                  ),
                                ),
                              ),
                            ),
                          ),
                        ),
                      ),
                    ),
                  ),
                ),
              ),
            ),
          ),
        ),
      ) in
    rw fits refl
