-- ===== src/Security/NetworkAcl/Parse.antt =====
-- Addresses as text, in src/security/network_acl.rs.
use mathlib.Core.List.{append-nil}
use backendofcryptotradingbo.Base.{
  ℕ, ◌+◌, ◌-◌, ◌*◌, ◌/◌, ◌%◌, ◌^◌, ◌<◌, ◌≡◌, refl, ap, sym, ◌∙◌, true, false, ◌&&◌, some, List, [],
  ◌∷◌, ◌++◌, ltb, leb, ◌==◌, if◌then◌else◌, arith, set, replicate, Bool-cases, inl, inr,
}
use backendofcryptotradingbo.Security.NetworkAcl.{Parsing, parse_byte, parse_bytes, parse_ip}

-- A number below 256 in decimal digits, without leading zeros
abbrev pub decimal : ℕ → List ℕ
decimal n =
    if ltb n 10
    then (n + 48) ∷ []
    else if ltb n 100
    then (n / 10 + 48) ∷ (n % 10 + 48) ∷ []
    else (n / 100 + 48) ∷ (n / 10 % 10 + 48) ∷ (n % 10 + 48) ∷ []

-- The text of an address of four numbers
abbrev pub dotted : ℕ → ℕ → ℕ → ℕ → List ℕ
dotted a b c d = decimal a ++ (46 ∷ (decimal b ++ (46 ∷ (decimal c ++ (46 ∷ decimal d)))))

digit :
    (p : Parsing) (k v : ℕ) (rest : List ℕ)
    → k < 10
    → v ≡ p.current * 10 + k
    → v < 256
    → parse_bytes p ((k + 48) ∷ rest) ≡ parse_bytes (record p { current = v }) rest
unfolding parse_bytes parse_byte
digit p k v rest h e small =
    let value : p.current * 10 + (k + 48 - 48) ≡ v = omega (arith, e) in
    let read : parse_byte p (k + 48) ≡ some (record p { current = v }) =
      let dot : (k + 48 == 46) ≡ false = ground arith in
      let is_digit : (leb 48 (k + 48) && leb (k + 48) 57) ≡ true = ground arith in
      let fits : ltb 255 v ≡ false = ground arith in
      rw (dot, is_digit, value, fits, parse_byte) refl in
    rw (read, parse_bytes) refl

parse_decimal :
    (p : Parsing) (n : ℕ) (rest : List ℕ)
    → n < 256
    → p.current ≡ 0
    → parse_bytes p (decimal n ++ rest) ≡ parse_bytes (record p { current = n }) rest
parse_decimal p n rest h start =
    let now : ℕ → Parsing = λ k. record p { current = k } in
    elim (Bool-cases (ltb n 10)) [
      | inl one ↦ rw one (digit p n n rest (ground arith) (omega (arith, start)) h)
      | inr more ↦ elim (Bool-cases (ltb n 100)) [
        | inl two ↦
            let below : n < 100 = ground arith in
            rw (more, two)
              (digit p (n / 10) (n / 10) _ (omega (arith, below)) (omega (arith, start))
                  (omega (arith, below))
                ∙ digit (now (n / 10)) (n % 10) n rest (omega arith) (omega arith) h)
        | inr three ↦
            rw (more, three)
              (digit p (n / 100) (n / 100) _ (omega arith) (omega (arith, start)) (omega arith)
                ∙ digit (now (n / 100)) (n / 10 % 10) (n / 10) _ (omega arith) (omega arith)
                    (omega arith)
                ∙ digit (now (n / 10)) (n % 10) n rest (omega arith) (omega arith) h)
      ]
    ]

dot :
    (p : Parsing) (rest : List ℕ)
    → p.part_idx < 3
    → parse_bytes p (46 ∷ rest)
      ≡ parse_bytes
          (record {
            parts = set p.parts p.part_idx p.current;
            current = 0;
            part_idx = p.part_idx + 1;
          })
          rest
unfolding parse_bytes parse_byte
dot p rest h =
    let more : leb 3 p.part_idx ≡ false = ground arith in
    let read : parse_byte p 46
        ≡ some (record {
          parts = set p.parts p.part_idx p.current;
          current = 0;
          part_idx = p.part_idx + 1;
        }) =
      rw (more, parse_byte) refl in
    rw (read, parse_bytes) refl

-- The text of an address, read back, is the address, for four numbers below 256.
pub parse_ip-dotted :
    (a b c d : ℕ)
    → a < 256
    → b < 256
    → c < 256
    → d < 256
    → parse_ip (dotted a b c d) ≡ some (a * 2 ^ 24 + b * 2 ^ 16 + c * 2 ^ 8 + d)
unfolding parse_ip parse_bytes
parse_ip-dotted a b c d ha hb hc hd =
    let at : List ℕ → ℕ → ℕ → Parsing =
      λ parts i n. record { parts = parts; current = n; part_idx = i } in
    let parts1 : List ℕ = a ∷ 0 ∷ 0 ∷ 0 ∷ [] in
    let parts2 : List ℕ = a ∷ b ∷ 0 ∷ 0 ∷ [] in
    let parts3 : List ℕ = a ∷ b ∷ c ∷ 0 ∷ [] in
    let last : List ℕ = 46 ∷ decimal d in
    let third : List ℕ = 46 ∷ (decimal c ++ last) in
    let second : List ℕ = 46 ∷ (decimal b ++ third) in
    let read : parse_bytes (at (replicate 4 0) 0 0) (dotted a b c d) ≡ some (at parts3 3 d) =
      parse_decimal (at (replicate 4 0) 0 0) a second ha refl
      ∙ dot (at (replicate 4 0) 0 a) (decimal b ++ third) (omega arith)
      ∙ parse_decimal (at parts1 1 0) b third hb refl
      ∙ dot (at parts1 1 b) (decimal c ++ last) (omega arith)
      ∙ parse_decimal (at parts2 2 0) c last hc refl
      ∙ dot (at parts2 2 c) (decimal d) (omega arith)
      ∙ ap (parse_bytes (at parts3 3 0)) (sym (append-nil (decimal d)))
      ∙ parse_decimal (at parts3 3 0) d [] hd refl in
    rw (read, parse_ip) refl
