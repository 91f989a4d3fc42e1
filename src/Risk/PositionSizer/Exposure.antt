-- ===== src/Risk/PositionSizer/Exposure.antt =====
-- The exposure that src/risk/position_sizer.rs adds up.
use backendofcryptotradingbo.Base.{
  ℕ, suc, ◌+◌, ◌*◌, ◌^◌, ◌<◌, ◌≡◌, refl, ap, ◌∙◌, false, ◌&&◌, some, u64, leb, ◌==◌, arith, length,
  length-set, set, get_or-set_self,
}
use backendofcryptotradingbo.Base.Int.{ℤ, pos, negsuc, ◌+ℤ◌, wrap}
use backendofcryptotradingbo.Risk.PositionSizer.{
  PositionSizer, InstrumentPosition, max_instruments, empty_position, position_at, unsigned_abs,
  adds_to, changed_position, update_position, get_position,
}

opened :
    (p : InstrumentPosition) (n price : ℕ)
    → p.current_qty ≡ pos 0
    → n < 2 ^ 63
    → (changed_position p (pos n) price).current_qty ≡ pos n
unfolding changed_position ◌+ℤ◌ wrap
opened p n price flat small = rw flat (ground arith)

closed :
    (p : InstrumentPosition) (n price : ℕ)
    → p.current_qty ≡ pos (suc n)
    → (changed_position p (negsuc n) price).current_qty ≡ pos 0
unfolding changed_position ◌+ℤ◌ wrap
closed p n price held = rw held (ground arith)

-- An update where the quantities do not both have the value -2 ^ 63
update_position-eq :
    (s : PositionSizer) (id : ℕ) (delta : ℤ) (price : ℕ)
    → id < max_instruments
    → length s.positions ≡ max_instruments
    → unsigned_abs (position_at s id).current_qty + unsigned_abs delta < 2 ^ 64
    → 0 < unsigned_abs delta
    → (s' : PositionSizer) × (update_position s id delta price ≡ some s')
      × (length s'.positions ≡ max_instruments)
      × (position_at s' id ≡ changed_position (position_at s id) delta price)
      × (s'.total_exposure
          ≡ u64 (
              s.total_exposure
              + u64 (
                  unsigned_abs (changed_position (position_at s id) delta price).current_qty
                  * price)))
unfolding update_position
update_position-eq s id delta price h l small moves =
    let p' = changed_position (position_at s id) delta price in
    let known : leb max_instruments id ≡ false = ground arith in
    let whole : (u64 (unsigned_abs (position_at s id).current_qty + unsigned_abs delta) == 0)
        ≡ false =
      ground arith in
    let fine : adds_to (position_at s id).current_qty delta
          && (u64 (unsigned_abs (position_at s id).current_qty + unsigned_abs delta) == 0)
        ≡ false =
      ground (arith, whole) in
    (
      record s {
        positions = set s.positions id p';
        total_exposure = u64 (s.total_exposure + u64 (unsigned_abs p'.current_qty * price));
      },
      rw (known, update_position) (rw (fine, update_position) refl),
      length-set s.positions id p' ∙ l,
      get_or-set_self s.positions id p' empty_position (omega (arith, l)),
      refl,
    )

-- A position that is opened from nothing and closed again at the same price leaves its whole value
-- in the total exposure, which no closing takes back.
pub closed_position_exposure :
    (s : PositionSizer) (id n price : ℕ)
    → id < max_instruments
    → length s.positions ≡ max_instruments
    → (position_at s id).current_qty ≡ pos 0
    → suc n < 2 ^ 63
    → s.total_exposure + suc n * price < 2 ^ 64
    → (s1 : PositionSizer) × (s2 : PositionSizer) × (update_position s id (pos (suc n)) price
        ≡ some s1)
      × (update_position s1 id (negsuc n) price ≡ some s2)
      × (get_position s2 id ≡ pos 0)
      × (s2.total_exposure ≡ s.total_exposure + suc n * price)
unfolding get_position
closed_position_exposure s id n price h l flat small fits =
    let nothing : unsigned_abs (position_at s id).current_qty ≡ 0 = ap unsigned_abs flat in
    let (s1, e1, l1, at1, x1) =
      update_position-eq s id (pos (suc n)) price h l (omega (arith, nothing)) (omega arith) in
    let held : (position_at s1 id).current_qty ≡ pos (suc n) =
      ap (λ p. p.current_qty) at1 ∙ opened (position_at s id) (suc n) price flat small in
    let some_held : unsigned_abs (position_at s1 id).current_qty ≡ suc n =
      ap unsigned_abs held ∙ omega arith in
    let (s2, e2, l2, at2, x2) =
      update_position-eq s1 id (negsuc n) price h l1 (omega (arith, some_held)) (omega arith) in
    let gone = closed (position_at s1 id) n price held in
    let worth : unsigned_abs (changed_position (position_at s id) (pos (suc n)) price).current_qty
          * price
        ≡ suc n * price =
      ap (λ q. unsigned_abs q * price) (opened (position_at s id) (suc n) price flat small)
      ∙ ap (λ k. k * price) (omega arith) in
    let first : s1.total_exposure ≡ s.total_exposure + suc n * price =
      omega (arith, x1, worth, fits) in
    let free : unsigned_abs (changed_position (position_at s1 id) (negsuc n) price).current_qty
          * price
        ≡ 0 =
      ap (λ q. unsigned_abs q * price) gone ∙ omega arith in
    let second : s2.total_exposure ≡ s.total_exposure + suc n * price =
      omega (arith, x2, free, first, fits) in
    let flat_again : (position_at s2 id).current_qty ≡ pos 0 = ap (λ p. p.current_qty) at2 ∙ gone in
    (s1, s2, e1, e2, ground (arith, flat_again), second)
