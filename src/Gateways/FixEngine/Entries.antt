-- ===== src/Gateways/FixEngine/Entries.antt =====
-- The entries of an incremental refresh (src/gateways/fix_protocol_engine.rs), one after the other.
use mathlib.Core.List.{append-nil, append_assoc}
use backendofcryptotradingbo.Base.{
  ℕ, zero, suc, ◌+◌, ◌<◌, ◌≤◌, ◌≡◌, refl, sym, ◌∙◌, ap, inl, inr, Bool, none, some, List, [], ◌∷◌,
  ◌++◌, ◌==◌, if◌then◌else◌, length, length-append, arith, Bool-cases, All,
}
use backendofcryptotradingbo.Gateways.FixParse.{FixField, parse_field, tag_md_entry_type}
use backendofcryptotradingbo.Gateways.FixParse.Fields.{
  Written, IsField, encode_field, encode, tag_from, field_of, field_length, parse_field-encode,
  parse_field-end, next_field, length-next_field, length-encode_field,
}
use backendofcryptotradingbo.Gateways.FixEngine.{Entry, entry_step, entry_loop}

-- The price and size that the fields up to the next entry give
unfoldable pub entry_of : Entry → List Written → Entry
entry_of e [] = e
entry_of e (w ∷ ws) =
    if tag_from 0 w.digits == tag_md_entry_type then e else entry_of (entry_step e (field_of w)) ws

unfoldable pub after_entry : List Written → List Written
after_entry [] = []
after_entry (w ∷ ws) = if tag_from 0 w.digits == tag_md_entry_type then w ∷ ws else after_entry ws

unfoldable pub skipped : List Written → List ℕ
skipped [] = []
skipped (w ∷ ws) =
    if tag_from 0 w.digits == tag_md_entry_type then [] else encode_field w [] ++ skipped ws

pub encode-skipped : (ws : List Written) → encode ws ≡ skipped ws ++ encode (after_entry ws)
unfolding encode skipped after_entry
encode-skipped [] = refl
encode-skipped (w ∷ ws) = elim (Bool-cases (tag_from 0 w.digits == tag_md_entry_type)) [
  | inl e ↦ rw e refl
  | inr e ↦ rw e (
      next_field [] (encode ws) w
      ∙ ap (λ l. encode_field w [] ++ l) (encode-skipped ws)
      ∙ sym (append_assoc (encode_field w []) (skipped ws) (encode (after_entry ws))))
]

pub length-after_entry : (ws : List Written) → length (after_entry ws) ≤ length ws
unfolding after_entry
length-after_entry [] = omega arith
length-after_entry (w ∷ ws) = ground (arith, length-after_entry ws)

pub All-after_entry : (ws : List Written) → All IsField ws → All IsField (after_entry ws)
unfolding after_entry
All-after_entry [] h = tt
All-after_entry (w ∷ ws) h = elim (Bool-cases (tag_from 0 w.digits == tag_md_entry_type)) [
  | inl e ↦ rw e h
  | inr e ↦ rw e (All-after_entry ws h.1)
]

module _ (avx2 : Bool) where
  entry_loop-none :
      (fuel : ℕ) (bytes : List ℕ) (pos : ℕ) (e : Entry)
      → parse_field avx2 bytes pos ≡ none
      → entry_loop avx2 (suc fuel) bytes pos e ≡ some (e, pos)
  unfolding entry_loop
  entry_loop-none fuel bytes pos e p = rw (p, entry_loop) refl

  entry_loop-some :
      (fuel : ℕ) (bytes : List ℕ) (pos next : ℕ) (f : FixField) (e : Entry)
      → parse_field avx2 bytes pos ≡ some (f, next)
      → entry_loop avx2 (suc fuel) bytes pos e ≡ (
          if f.tag == tag_md_entry_type
          then some (e, pos)
          else entry_loop avx2 fuel bytes next (entry_step e f))
  unfolding entry_loop
  entry_loop-some fuel bytes pos next f e p = rw (p, entry_loop) refl

  pub entry_loop-encode :
      (fuel : ℕ) (done : List ℕ) (ws : List Written) (e : Entry)
      → length ws < fuel
      → All IsField ws
      → entry_loop avx2 fuel (done ++ encode ws) (length done) e
        ≡ some (entry_of e ws, length done + length (skipped ws))
  unfolding encode entry_of skipped
  entry_loop-encode zero done ws e l h = absurd (omega arith)
  entry_loop-encode (suc fuel) done [] e l h =
      let end =
        ap (λ b. parse_field avx2 b (length done)) (append-nil done) ∙ parse_field-end avx2 done in
      entry_loop-none fuel (done ++ []) (length done) e end ∙ ap (λ n. some (e, n)) (omega arith)
  entry_loop-encode (suc fuel) done (w ∷ ws) e l h =
      let bytes = done ++ encode_field w (encode ws) in
      let step =
        entry_loop-some fuel bytes (length done) (length done + field_length w) (field_of w) e
          (parse_field-encode avx2 done (encode ws) w h.0) in
      let place = length-next_field done w in
      let ih =
        entry_loop-encode fuel (done ++ encode_field w []) ws (entry_step e (field_of w))
          (omega arith) h.1 in
      let rest : entry_loop avx2 fuel bytes (length done + field_length w)
            (entry_step e (field_of w))
          ≡ some (
            entry_of (entry_step e (field_of w)) ws,
            length done + field_length w + length (skipped ws),
          ) =
        ap (λ b. entry_loop avx2 fuel b (length done + field_length w) (entry_step e (field_of w)))
          (next_field done (encode ws) w)
        ∙ ap
            (λ n.
              entry_loop avx2 fuel ((done ++ encode_field w []) ++ encode ws) n
                (entry_step e (field_of w)))
            (sym place)
        ∙ ih
        ∙ ap (λ n. some (entry_of (entry_step e (field_of w)) ws, n + length (skipped ws))) place in
      elim (Bool-cases (tag_from 0 w.digits == tag_md_entry_type)) [
        | inl this ↦ step ∙ rw this (ap (λ n. some (e, n)) (omega arith))
        | inr other ↦
            step
            ∙ rw other (
                rest
                ∙ ap (λ n. some (entry_of (entry_step e (field_of w)) ws, n))
                    (omega (
                      arith,
                      length-append (encode_field w []) (skipped ws),
                      length-encode_field w [],
                    )))
      ]
