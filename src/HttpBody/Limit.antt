-- ===== src/HttpBody/Limit.antt =====
-- The limit of a body, which is counted chunk by chunk.
use onyx_ifem.Prelude.{
  ℕ, ◌+◌, ◌≡◌, refl, sym, ap, ◌∙◌, true, false, List, [], ◌∷◌, ◌++◌, ltb, length, length-append,
  arith, if◌then◌else◌, Bool-cases, inl, inr,
}
use onyx_ifem.Contracts.Errors.{Result, ok, err, onyx, invalid_argument, ◌>>=◌, ◌>>◌}
use onyx_ifem.HttpBody.{
  Decoder, Headers, max_json_bytes, concat, read_chunks, value_of, read_json_body,
  validate_json_request_headers,
}

-- A body of at most 1 MiB.
abbrev pub limited : List ℕ → Result (List ℕ)
limited bytes =
    if ltb max_json_bytes (length bytes)
    then err (onyx invalid_argument "command envelope exceeds 1 MiB")
    else ok bytes

append_nil : (xs : List ℕ) → xs ++ [] ≡ xs
append_nil [] = refl
append_nil (x ∷ xs) = ap (λ ys. x ∷ ys) (append_nil xs)

append_assoc : (xs ys zs : List ℕ) → (xs ++ ys) ++ zs ≡ xs ++ (ys ++ zs)
append_assoc [] ys zs = refl
append_assoc (x ∷ xs) ys zs = ap (λ us. x ∷ us) (append_assoc xs ys zs)

concat-append :
    (kept : List (List ℕ)) (chunk : List ℕ) → concat (kept ++ chunk ∷ []) ≡ concat kept ++ chunk
unfolding concat
concat-append [] chunk = append_nil chunk
concat-append (first ∷ kept) chunk =
    ap (λ bytes. first ++ bytes) (concat-append kept chunk)
    ∙ sym (append_assoc first (concat kept) chunk)

longer :
    (count : ℕ) (kept chunk rest : List ℕ)
    → count ≡ length kept
    → ltb max_json_bytes (count + length chunk) ≡ true
    → ltb max_json_bytes (length (kept ++ (chunk ++ rest))) ≡ true
longer count kept chunk rest same over =
    ground (arith, same, over, length-append kept (chunk ++ rest), length-append chunk rest)

read_chunks-limited :
    (chunks : List (List ℕ)) (count : ℕ) (kept : List (List ℕ))
    → count ≡ length (concat kept)
    → ltb max_json_bytes count ≡ false
    → read_chunks chunks count kept ≡ limited (concat kept ++ concat chunks)
unfolding read_chunks concat
read_chunks-limited [] count kept same within = rw (append_nil (concat kept), sym same, within) refl
read_chunks-limited (chunk ∷ chunks) count kept same within =
    elim (Bool-cases (ltb max_json_bytes (count + length chunk))) [
      | inl over ↦ rw (over, longer count (concat kept) chunk (concat chunks) same over) refl
      | inr under ↦
          let joined = concat-append kept chunk in
          rw under (
            read_chunks-limited chunks (count + length chunk) (kept ++ chunk ∷ [])
              (ap (λ n. n + length chunk) same
                ∙ sym (length-append (concat kept) chunk)
                ∙ ap length (sym joined))
              under
            ∙ ap (λ bytes. limited (bytes ++ concat chunks)) joined
            ∙ ap limited (append_assoc (concat kept) chunk (concat chunks)))
    ]

-- The body of a request is read as one text of bytes, however the stream divides it: once the headers are valid,
-- it is refused if it has more than 1 MiB in all, and else all its bytes, in their order, are decoded and parsed.
pub read_json_body-limited :
    (decoder : Decoder) (headers : Headers) (chunks : List (List ℕ))
    → read_json_body decoder headers chunks
      ≡ (validate_json_request_headers headers >> (limited (concat chunks) >>= value_of decoder))
unfolding read_json_body
read_json_body-limited decoder headers chunks =
    ap (λ read. validate_json_request_headers headers >> (read >>= value_of decoder))
      (read_chunks-limited chunks 0 [] refl refl)
