-- ===== src/Gateways/FixParse/Fields.antt =====
-- Fields of FIX messages (src/gateways/fix_protocol_engine.rs), written and parsed.
use mathlib.Core.List.{append-nil, append_assoc}
use backendofcryptotradingbo.Base.{
  ℕ, zero, suc, ◌+◌, ◌-◌, ◌*◌, ◌%◌, ◌^◌, ◌<◌, ◌≤◌, ◌≡◌, ◌≢◌, refl, sym, ◌∙◌, ap, inl, inr, Bool,
  false, none, some, List, [], ◌∷◌, ◌++◌, leb, ◌==◌, if◌then◌else◌, length, length-append, arith,
  Bool-cases, Option-cases, All,
}
use backendofcryptotradingbo.Base.Bytes.{take, drop}
use backendofcryptotradingbo.Gateways.FixParse.{
  fix_soh, position, tag_loop, find_soh_simd, FixField, FixMsgType, unknown, parse_field,
  msg_type_of, msg_type_loop, parse_msg_type, tag_msg_type,
}
use backendofcryptotradingbo.Gateways.FixParse.Soh.{find_soh_simd_lem}
use backendofcryptotradingbo.Gateways.FixParse.Decimal.{Digits}

-- A field to be written: the digits of its tag, and its value
pub record Written : Type 0 where
  pub digits : List ℕ
  pub value : List ℕ

abbrev pub NoSoh : List ℕ → Type 0
NoSoh bytes = All (λ b. b ≢ fix_soh) bytes

abbrev pub IsField : Written → Type 0
IsField w = Digits w.digits × NoSoh w.value

unfoldable pub encode_field : Written → List ℕ → List ℕ
encode_field w rest = w.digits ++ b'=' ∷ (w.value ++ fix_soh ∷ rest)

unfoldable pub encode : List Written → List ℕ
encode [] = []
encode (w ∷ ws) = encode_field w (encode ws)

-- The tag as a u16
unfoldable pub tag_from : ℕ → List ℕ → ℕ
tag_from n [] = n
tag_from n (b ∷ bytes) = tag_from ((n * 10 + (b - b'0')) % 2 ^ 16) bytes

abbrev pub field_of : Written → FixField
field_of w = record { tag = tag_from 0 w.digits; value = w.value }

pub position-append :
    (c : ℕ) (xs ys : List ℕ) → All (λ b. b ≢ c) xs → position c (xs ++ c ∷ ys) ≡ some (length xs)
unfolding position
position-append c [] ys h = ground arith
position-append c (x ∷ xs) ys h = ground (arith, position-append c xs ys h.1)

Digits-NoEquals : (bytes : List ℕ) → Digits bytes → All (λ b. b ≢ b'=') bytes
Digits-NoEquals [] h = tt
Digits-NoEquals (b ∷ bytes) h = ((λ e. omega (arith, h.0.1)), Digits-NoEquals bytes h.1)

tag_loop-Digits :
    (n : ℕ) (bytes : List ℕ) → Digits bytes → tag_loop n bytes ≡ some (tag_from n bytes)
unfolding tag_loop tag_from
tag_loop-Digits n [] h = refl
tag_loop-Digits n (b ∷ bytes) h =
    ground (arith, tag_loop-Digits ((n * 10 + (b - b'0')) % 2 ^ 16) bytes h.1)

pub take-append : (xs ys : List ℕ) → take (length xs) (xs ++ ys) ≡ xs
take-append [] ys = refl
take-append (x ∷ xs) ys = ap (λ l. x ∷ l) (take-append xs ys)

pub drop-append : (xs ys : List ℕ) (n : ℕ) → drop (length xs + n) (xs ++ ys) ≡ drop n ys
drop-append [] ys n = ap (λ k. drop k ys) {y = n} (omega arith)
drop-append (x ∷ xs) ys n =
    ap (λ k. drop k (x ∷ (xs ++ ys))) {y = suc (length xs + n)} (omega arith) ∙ drop-append xs ys n

abbrev pub field_length : Written → ℕ
field_length w = length w.digits + length w.value + 2

pub length-encode_field :
    (w : Written) (rest : List ℕ) → length (encode_field w rest) ≡ field_length w + length rest
unfolding encode_field
length-encode_field w rest = omega (
  arith,
  length-append w.digits (b'=' ∷ (w.value ++ fix_soh ∷ rest)),
  length-append w.value (fix_soh ∷ rest),
)

eq_at :
    (w : Written) (rest : List ℕ)
    → IsField w
    → position b'=' (encode_field w rest) ≡ some (length w.digits)
unfolding encode_field
eq_at w rest h =
    position-append b'=' w.digits (w.value ++ fix_soh ∷ rest) (Digits-NoEquals w.digits h.0)

take_digits :
    (w : Written) (rest : List ℕ) → take (length w.digits) (encode_field w rest) ≡ w.digits
unfolding encode_field
take_digits w rest = take-append w.digits (b'=' ∷ (w.value ++ fix_soh ∷ rest))

drop_digits :
    (w : Written) (rest : List ℕ)
    → drop (length w.digits + 1) (encode_field w rest) ≡ w.value ++ fix_soh ∷ rest
unfolding encode_field
drop_digits w rest = drop-append w.digits (b'=' ∷ (w.value ++ fix_soh ∷ rest)) 1

long :
    (w : Written) (rest : List ℕ) → leb (length (encode_field w rest)) (length w.digits + 1) ≡ false
long w rest = ground (arith, length-encode_field w rest)

soh_at :
    (avx2 : Bool) (w : Written) (rest : List ℕ)
    → IsField w
    → find_soh_simd avx2 (w.value ++ fix_soh ∷ rest) ≡ some (length w.value)
soh_at avx2 w rest h =
    find_soh_simd_lem avx2 (w.value ++ fix_soh ∷ rest) ∙ position-append fix_soh w.value rest h.1

-- On any processor, the parser finds a field that was written at the end of `done`: its tag, its value
-- without a change, and the place after it.
pub parse_field-encode :
    (avx2 : Bool) (done rest : List ℕ) (w : Written)
    → IsField w
    → parse_field avx2 (done ++ encode_field w rest) (length done)
      ≡ some (field_of w, length done + field_length w)
unfolding parse_field
parse_field-encode avx2 done rest w h =
    let message = done ++ encode_field w rest in
    let size : length message ≡ length done + (field_length w + length rest) =
      omega (arith, length-append done (encode_field w rest), length-encode_field w rest) in
    let inside : leb (length message) (length done) ≡ false = ground (arith, size) in
    let remaining : drop (length done) message ≡ encode_field w rest =
      ap (λ n. drop n message) {y = length done + 0} (omega arith)
      ∙ drop-append done (encode_field w rest) 0 in
    rw
      (
        inside,
        remaining,
        eq_at w rest h,
        take_digits w rest,
        tag_loop-Digits 0 w.digits h.0,
        long w rest,
        drop_digits w rest,
        soh_at avx2 w rest h,
        take-append w.value (fix_soh ∷ rest),
      )
      (ap (λ n. some (field_of w, n)) (omega arith))

parse_field-later :
    (avx2 : Bool) (bytes : List ℕ) (start next : ℕ) (f : FixField)
    → parse_field avx2 bytes start ≡ some (f, next)
    → (start < next) × (start < length bytes)
unfolding parse_field
parse_field-later avx2 bytes start next f e = ground arith

pub parse_field-end : (avx2 : Bool) (bytes : List ℕ) → parse_field avx2 bytes (length bytes) ≡ none
unfolding parse_field
parse_field-end avx2 bytes = ground arith

encode_field-append :
    (w : Written) (rest : List ℕ) → encode_field w rest ≡ encode_field w [] ++ rest
unfolding encode_field
encode_field-append w rest =
    ap (λ l. w.digits ++ b'=' ∷ l) (sym (append_assoc w.value (fix_soh ∷ []) rest))
    ∙ sym (append_assoc w.digits (b'=' ∷ (w.value ++ fix_soh ∷ [])) rest)

-- A field of a message as a part of what stands before the next field
pub next_field :
    (done rest : List ℕ) (w : Written)
    → done ++ encode_field w rest ≡ (done ++ encode_field w []) ++ rest
next_field done rest w =
    ap (λ l. done ++ l) (encode_field-append w rest)
    ∙ sym (append_assoc done (encode_field w []) rest)

pub length-next_field :
    (done : List ℕ) (w : Written)
    → length (done ++ encode_field w []) ≡ length done + field_length w
length-next_field done w =
    omega (arith, length-append done (encode_field w []), length-encode_field w [])

-- The type of a message by its fields: that of the first one with tag 35
unfoldable pub type_of : List Written → FixMsgType
type_of [] = unknown
type_of (w ∷ ws) = if tag_from 0 w.digits == tag_msg_type then msg_type_of w.value else type_of ws

msg_type_loop-none :
    (avx2 : Bool) (fuel : ℕ) (bytes : List ℕ) (pos : ℕ)
    → parse_field avx2 bytes pos ≡ none
    → msg_type_loop avx2 (suc fuel) bytes pos ≡ some unknown
unfolding msg_type_loop
msg_type_loop-none avx2 fuel bytes pos e = rw (e, msg_type_loop) refl

msg_type_loop-some :
    (avx2 : Bool) (fuel : ℕ) (bytes : List ℕ) (pos next : ℕ) (f : FixField)
    → parse_field avx2 bytes pos ≡ some (f, next)
    → msg_type_loop avx2 (suc fuel) bytes pos ≡ (
        if f.tag == tag_msg_type
        then some (msg_type_of f.value)
        else msg_type_loop avx2 fuel bytes next)
unfolding msg_type_loop
msg_type_loop-some avx2 fuel bytes pos next f e = rw (e, msg_type_loop) refl

msg_type_loop-total :
    (avx2 : Bool) (fuel : ℕ) (bytes : List ℕ) (pos : ℕ)
    → length bytes - pos < fuel
    → (t : FixMsgType) × (msg_type_loop avx2 fuel bytes pos ≡ some t)
msg_type_loop-total avx2 zero bytes pos h = absurd (omega arith)
msg_type_loop-total avx2 (suc fuel) bytes pos h = elim (Option-cases (parse_field avx2 bytes pos)) [
  | inl e ↦ (unknown, msg_type_loop-none avx2 fuel bytes pos e)
  | inr ((f, next), e) ↦
      let later = parse_field-later avx2 bytes pos next f e in
      let step = msg_type_loop-some avx2 fuel bytes pos next f e in
      let (t, rest) = msg_type_loop-total avx2 fuel bytes next (omega arith) in
      elim (Bool-cases (f.tag == tag_msg_type)) [
        | inl this ↦ (msg_type_of f.value, ground (arith, step, this))
        | inr other ↦ (t, ground (arith, step, other, rest))
      ]
]

-- Every sequence of bytes has a type: the loop over the fields ends.
pub parse_msg_type_total :
    (avx2 : Bool) (bytes : List ℕ) → (t : FixMsgType) × (parse_msg_type avx2 bytes ≡ some t)
unfolding parse_msg_type
parse_msg_type_total avx2 bytes =
    msg_type_loop-total avx2 (suc (length bytes)) bytes 0 (omega arith)

msg_type_loop-encode :
    (avx2 : Bool) (fuel : ℕ) (done : List ℕ) (ws : List Written)
    → length ws < fuel
    → All IsField ws
    → msg_type_loop avx2 fuel (done ++ encode ws) (length done) ≡ some (type_of ws)
unfolding encode type_of
msg_type_loop-encode avx2 zero done ws l h = absurd (omega arith)
msg_type_loop-encode avx2 (suc fuel) done [] l h =
    let end =
      ap (λ l. parse_field avx2 l (length done)) (append-nil done) ∙ parse_field-end avx2 done in
    msg_type_loop-none avx2 fuel (done ++ []) (length done) end
msg_type_loop-encode avx2 (suc fuel) done (w ∷ ws) l h =
    let rest = msg_type_loop-encode avx2 fuel (done ++ encode_field w []) ws (omega arith) h.1 in
    let step =
      msg_type_loop-some avx2 fuel (done ++ encode_field w (encode ws)) (length done)
        (length done + field_length w) (field_of w)
        (parse_field-encode avx2 done (encode ws) w h.0) in
    let place = length-next_field done w in
    let same : msg_type_loop avx2 fuel (done ++ encode_field w (encode ws))
          (length done + field_length w)
        ≡ some (type_of ws) =
      ap (λ l. msg_type_loop avx2 fuel l (length done + field_length w))
        (next_field done (encode ws) w)
      ∙ ap (msg_type_loop avx2 fuel ((done ++ encode_field w []) ++ encode ws)) (sym place)
      ∙ rest in
    step ∙ ground (arith, same)

pub length-encode : (ws : List Written) → length ws ≤ length (encode ws)
unfolding encode
length-encode [] = omega arith
length-encode (w ∷ ws) = omega (arith, length-encode_field w (encode ws), length-encode ws)

-- The type of a message that consists of fields is that of its first field with tag 35.
pub parse_msg_type-encode :
    (avx2 : Bool) (ws : List Written)
    → All IsField ws
    → parse_msg_type avx2 (encode ws) ≡ some (type_of ws)
unfolding parse_msg_type
parse_msg_type-encode avx2 ws h =
    msg_type_loop-encode avx2 (suc (length (encode ws))) [] ws (omega (arith, length-encode ws)) h
