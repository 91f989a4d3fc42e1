-- ===== src/Gateways/FixEngine/Checksum.antt =====
-- The check of the sum in src/gateways/fix_protocol_engine.rs, on messages that consist of fields.
use mathlib.Core.List.{append_assoc}
use backendofcryptotradingbo.Base.{
  ℕ, zero, suc, ◌+◌, ◌%◌, ◌≡◌, ◌≢◌, refl, sym, ◌∙◌, ap, Bool, true, false, Option, none, some, List,
  [], ◌∷◌, ◌++◌, u32, ◌==◌, if◌then◌else◌, length, length-append, arith, All,
}
use backendofcryptotradingbo.Base.Bytes.{take, drop}
use backendofcryptotradingbo.Gateways.FixParse.{
  fix_soh, position, FixField, parse_field, parse_int, tag_check_sum,
}
use backendofcryptotradingbo.Gateways.FixParse.Decimal.{Digits}
use backendofcryptotradingbo.Gateways.FixParse.Fields.{
  Written, NoSoh, IsField, encode_field, encode, tag_from, field_of, field_length,
  parse_field-encode, parse_field-end, next_field, position-append, take-append, drop-append,
  length-encode_field,
}
use backendofcryptotradingbo.Gateways.FixEngine.{
  byte_sum, checksum_start, after_soh, checksum_holds, checksum_loop, validate_checksum,
}

-- The first field up to its delimiter
abbrev body : Written → List ℕ
body w = w.digits ++ b'=' ∷ w.value

All-append {ℓ} : (P : ℕ → Type ℓ) (xs ys : List ℕ) → All P xs → All P ys → All P (xs ++ ys)
All-append P [] ys h k = k
All-append P (x ∷ xs) ys h k = (h.0, All-append P xs ys h.1 k)

Digits-NoSoh : (bytes : List ℕ) → Digits bytes → NoSoh bytes
Digits-NoSoh [] h = tt
Digits-NoSoh (b ∷ bytes) h = ((λ e. omega (arith, h.0.0)), Digits-NoSoh bytes h.1)

body-NoSoh : (w : Written) → IsField w → NoSoh (body w)
body-NoSoh w h =
    All-append (λ b. b ≢ fix_soh) w.digits (b'=' ∷ w.value) (Digits-NoSoh w.digits h.0)
      ((λ e. omega arith), h.1)

encode_field-body : (w : Written) (rest : List ℕ) → encode_field w rest ≡ body w ++ fix_soh ∷ rest
unfolding encode_field
encode_field-body w rest = sym (append_assoc w.digits (b'=' ∷ w.value) (fix_soh ∷ rest))

first_soh :
    (w : Written) (rest : List ℕ)
    → IsField w
    → position fix_soh (encode_field w rest) ≡ some (length (body w))
first_soh w rest h =
    ap (position fix_soh) (encode_field-body w rest)
    ∙ position-append fix_soh (body w) rest (body-NoSoh w h)

length-body : (w : Written) → length (body w) + 1 ≡ field_length w
length-body w = omega (arith, length-append w.digits (b'=' ∷ w.value))

-- The loop goes on after the first field, wherever it is.
after_first :
    (w : Written) (rest : List ℕ) → IsField w → after_soh (encode_field w rest) ≡ field_length w
unfolding after_soh
after_first w rest h = rw (first_soh w rest h, after_soh) (length-body w)

-- The sum goes over the first field and its delimiter only.
start_first :
    (w : Written) (rest : List ℕ)
    → IsField w
    → checksum_start (encode_field w rest) ≡ field_length w
unfolding checksum_start position
start_first w rest h =
    let found : drop (length (body w)) (encode_field w rest) ≡ fix_soh ∷ rest =
      ap (λ l. drop (length (body w)) l) (encode_field-body w rest)
      ∙ ap (λ n. drop n (body w ++ fix_soh ∷ rest)) {y = length (body w) + 0} (omega arith)
      ∙ drop-append (body w) (fix_soh ∷ rest) 0 in
    rw (first_soh w rest h, checksum_start, found) (omega (arith, length-body w))

-- Whether the sum of a field and its delimiter is what a value says
unfoldable pub sum_holds : Written → List ℕ → Bool
sum_holds w value = byte_sum 0 (body w ++ fix_soh ∷ []) % 256 == u32 (parse_int value)

checksum_holds-first :
    (w : Written) (rest value : List ℕ)
    → IsField w
    → checksum_holds (encode_field w rest) value ≡ sum_holds w value
unfolding checksum_holds sum_holds
checksum_holds-first w rest value h =
    let checked : take (checksum_start (encode_field w rest)) (encode_field w rest)
        ≡ body w ++ fix_soh ∷ [] =
      ap (λ n. take n (encode_field w rest))
        (start_first w rest h ∙ sym (length-body w) ∙ sym (length-append (body w) (fix_soh ∷ [])))
      ∙ ap (take (length (body w ++ fix_soh ∷ [])))
          (encode_field-body w rest ∙ sym (append_assoc (body w) (fix_soh ∷ []) rest))
      ∙ take-append (body w ++ fix_soh ∷ []) rest in
    ap (λ l. byte_sum 0 l % 256 == u32 (parse_int value)) checked

module _ (avx2 : Bool) where
  checksum_loop-none :
      (fuel : ℕ) (bytes : List ℕ) (pos : ℕ)
      → parse_field avx2 bytes pos ≡ none
      → checksum_loop avx2 (suc fuel) bytes pos ≡ some true
  unfolding checksum_loop
  checksum_loop-none fuel bytes pos e = rw (e, checksum_loop) refl

  checksum_loop-zero : (bytes : List ℕ) (pos : ℕ) → checksum_loop avx2 zero bytes pos ≡ none
  unfolding checksum_loop
  checksum_loop-zero bytes pos = refl

  -- The first field of a message
  first_field :
      (w : Written) (rest : List ℕ)
      → IsField w
      → parse_field avx2 (encode_field w rest) 0 ≡ some (field_of w, field_length w)
  first_field w rest h =
      parse_field-encode avx2 [] rest w h ∙ ap (λ n. some (field_of w, n)) (omega arith)

  checksum_loop-some :
      (fuel : ℕ) (bytes : List ℕ) (pos next : ℕ) (f : FixField)
      → parse_field avx2 bytes pos ≡ some (f, next)
      → checksum_loop avx2 (suc fuel) bytes pos ≡ (
          if f.tag == tag_check_sum
          then some (checksum_holds bytes f.value)
          else checksum_loop avx2 fuel bytes (after_soh bytes))
  unfolding checksum_loop
  checksum_loop-some fuel bytes pos next f e = rw (e, checksum_loop) refl

  -- The loop comes back to the second field again and again.
  stays :
      (fuel : ℕ) (bytes : List ℕ) (pos next : ℕ) (f : FixField)
      → parse_field avx2 bytes pos ≡ some (f, next)
      → after_soh bytes ≡ pos
      → (f.tag == tag_check_sum) ≡ false
      → checksum_loop avx2 fuel bytes pos ≡ none
  stays zero bytes pos next f e a t = checksum_loop-zero bytes pos
  stays (suc fuel) bytes pos next f e a t =
      let step = checksum_loop-some fuel bytes pos next f e in
      let rest = ap (checksum_loop avx2 fuel bytes) a ∙ stays fuel bytes pos next f e a t in
      ground (arith, step, t, rest)

  -- The field after the first
  second :
      (w v : Written) (rest : List ℕ)
      → IsField v
      → parse_field avx2 (encode_field w (encode_field v rest)) (field_length w)
        ≡ some (field_of v, field_length w + field_length v)
  second w v rest h =
      let place : length (encode_field w []) ≡ field_length w =
        omega (arith, length-encode_field w []) in
      ap (λ l. parse_field avx2 l (field_length w)) (next_field [] (encode_field v rest) w)
      ∙ ap (parse_field avx2 (encode_field w [] ++ encode_field v rest)) (sym place)
      ∙ parse_field-encode avx2 (encode_field w []) rest v h
      ∙ ap (λ n. some (field_of v, n + field_length v)) place

  past_end : (w : Written) → parse_field avx2 (encode_field w []) (field_length w) ≡ none
  past_end w =
      let place : length (encode_field w []) ≡ field_length w =
        omega (arith, length-encode_field w []) in
      ap (parse_field avx2 (encode_field w [])) (sym place)
      ∙ parse_field-end avx2 (encode_field w [])

-- What the check answers; `none` is a loop without an end.
unfoldable pub verdict : List Written → Option Bool
verdict [] = some true
verdict (w ∷ []) =
    if tag_from 0 w.digits == tag_check_sum then some (sum_holds w w.value) else some true
verdict (w ∷ v ∷ ws) =
    if tag_from 0 w.digits == tag_check_sum
    then some (sum_holds w w.value)
    else if tag_from 0 v.digits == tag_check_sum
    then some (sum_holds w v.value)
    else none

-- With any fuel from 3 on, a message of fields gets the verdict: it is accepted when it has at most one
-- field that is no checksum; a checksum in the first or second field is compared with the sum of the
-- first field alone; and with two other fields in front the loop does not end.
pub validate_checksum_lem :
    (avx2 : Bool) (fuel : ℕ) (ws : List Written)
    → All IsField ws
    → validate_checksum avx2 (suc (suc (suc fuel))) (encode ws) ≡ verdict ws
unfolding validate_checksum encode verdict
validate_checksum_lem avx2 fuel [] h =
    checksum_loop-none avx2 (suc (suc fuel)) [] 0 (parse_field-end avx2 [])
validate_checksum_lem avx2 fuel (w ∷ []) h =
    let bytes = encode_field w [] in
    let first =
      checksum_loop-some avx2 (suc (suc fuel)) bytes 0 (field_length w) (field_of w)
        (first_field avx2 w [] h.0) in
    let again =
      ap (checksum_loop avx2 (suc (suc fuel)) bytes) (after_first w [] h.0)
      ∙ checksum_loop-none avx2 (suc fuel) bytes (field_length w) (past_end avx2 w) in
    ground (arith, first, again, checksum_holds-first w [] w.value h.0)
validate_checksum_lem avx2 fuel (w ∷ v ∷ ws) h =
    let bytes = encode_field w (encode_field v (encode ws)) in
    let after = after_first w (encode_field v (encode ws)) h.0 in
    let at_second = second avx2 w v (encode ws) h.1.0 in
    let first =
      checksum_loop-some avx2 (suc (suc fuel)) bytes 0 (field_length w) (field_of w)
        (first_field avx2 w (encode_field v (encode ws)) h.0) in
    let again = ap (checksum_loop avx2 (suc (suc fuel)) bytes) after in
    let next =
      checksum_loop-some avx2 (suc fuel) bytes (field_length w) (field_length w + field_length v)
        (field_of v) at_second in
    let last = ap (checksum_loop avx2 (suc fuel) bytes) after in
    let loops =
      stays avx2 (suc fuel) bytes (field_length w) (field_length w + field_length v) (field_of v)
        at_second after in
    ground (
      arith,
      first,
      again,
      next,
      last,
      loops,
      checksum_holds-first w (encode_field v (encode ws)) w.value h.0,
      checksum_holds-first w (encode_field v (encode ws)) v.value h.0,
    )

pub validate_checksum_never :
    (avx2 : Bool) (fuel : ℕ) (w v : Written) (ws : List Written)
    → All IsField (w ∷ v ∷ ws)
    → (tag_from 0 w.digits == tag_check_sum) ≡ false
    → (tag_from 0 v.digits == tag_check_sum) ≡ false
    → validate_checksum avx2 fuel (encode (w ∷ v ∷ ws)) ≡ none
unfolding validate_checksum encode
validate_checksum_never avx2 zero w v ws h t u = checksum_loop-zero avx2 (encode (w ∷ v ∷ ws)) 0
validate_checksum_never avx2 (suc fuel) w v ws h t u =
    let bytes = encode_field w (encode_field v (encode ws)) in
    let after = after_first w (encode_field v (encode ws)) h.0 in
    let first =
      checksum_loop-some avx2 fuel bytes 0 (field_length w) (field_of w)
        (first_field avx2 w (encode_field v (encode ws)) h.0) in
    let loops =
      stays avx2 fuel bytes (field_length w) (field_length w + field_length v) (field_of v)
        (second avx2 w v (encode ws) h.1.0) after u in
    let again = ap (checksum_loop avx2 fuel bytes) after in ground (arith, first, t, again, loops)
