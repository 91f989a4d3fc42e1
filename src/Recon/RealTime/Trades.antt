-- ===== src/Recon/RealTime/Trades.antt =====
-- The pending trades of src/recon/real_time_recon.rs.
use Prim.Native.Nat.{min}
use backendofcryptotradingbo.Base.{
  ℕ, zero, suc, ◌+◌, ◌≤◌, ◌<◌, ◌≡◌, ◌≢◌, ◌⊎◌, refl, ap, ◌∙◌, true, false, none, some, List, [], ◌∷◌,
  ◌==◌, arith, Bool-cases, Option-cases, inl, inr, get_or, set, length,
}
use backendofcryptotradingbo.Recon.RealTime.{
  TradeRecord, RealTimeRecon, max_pending, empty_trade, add_pending_trade, confirm_in,
  confirm_trade,
}

-- The calls of a client: trades that we made, and ids that the exchange reports
pub data Call : Type 0 where
  add_call : TradeRecord → Call
  confirm_call : ℕ → Call

unfoldable pub execute : RealTimeRecon → Call → RealTimeRecon
execute r (add_call trade) = (add_pending_trade r trade).0
execute r (confirm_call id) = (confirm_trade r id).0

unfoldable pub run : RealTimeRecon → List Call → RealTimeRecon
run r [] = r
run r (c ∷ cs) = run (execute r c) cs

abbrev pub adds : List Call → ℕ
adds [] = 0
adds (add_call _ ∷ cs) = suc (adds cs)
adds (confirm_call _ ∷ cs) = adds cs

confirm_trade-num_pending :
    (r : RealTimeRecon) (id : ℕ) → (confirm_trade r id).0.num_pending ≡ r.num_pending
unfolding confirm_trade
confirm_trade-num_pending r id =
    elim (Option-cases (confirm_in (min r.num_pending max_pending) r.pending_trades id)) [
      | inl e ↦ rw (e, confirm_trade) refl
      | inr (trades, e) ↦ rw (e, confirm_trade) refl
    ]

-- After any calls, the number of pending trades is that of the trades added, up to 1024: a
-- confirmation makes no room.
pub num_pending_lem :
    (r : RealTimeRecon) (cs : List Call)
    → r.num_pending ≤ max_pending
    → (run r cs).num_pending ≡ min max_pending (r.num_pending + adds cs)
unfolding run execute add_pending_trade
num_pending_lem r [] h = omega arith
num_pending_lem r (add_call trade ∷ cs) h =
    ground (arith, num_pending_lem (add_pending_trade r trade).0 cs)
num_pending_lem r (confirm_call id ∷ cs) h =
    let same = confirm_trade-num_pending r id in
    ground (arith, same, num_pending_lem (confirm_trade r id).0 cs)

-- A trade among the first `n` that has the id is confirmed, and the others stay.
pub record IsConfirming (n id : ℕ) (before after : List TradeRecord) (i : ℕ) : Type 0 where
  pub bound : i < n
  pub id_is : (get_or before i empty_trade).trade_id ≡ id
  pub replaced : after ≡ set before i (record (get_or before i empty_trade) { confirmed = true })

confirm_in-some :
    (n : ℕ) (trades : List TradeRecord) (id : ℕ) (after : List TradeRecord)
    → confirm_in n trades id ≡ some after
    → (i : ℕ) × IsConfirming n id trades after i
unfolding confirm_in
confirm_in-some zero trades id after e = cc
confirm_in-some (suc n) [] id after e = cc
confirm_in-some (suc n) (t ∷ trades) id after e = elim (Bool-cases (t.trade_id == id)) [
  | inl here ↦ (0, record { bound = omega arith; id_is = ground arith; replaced = ground arith })
  | inr later ↦ elim (Option-cases (confirm_in n trades id)) [
    | inl e' ↦ ground arith
    | inr (rest, e') ↦
        let (i, c) = confirm_in-some n trades id rest e' in
        let whole : after ≡ t ∷ rest = ground (arith, later, e', e) in
        (
          suc i,
          record {
            bound = omega (arith, c.bound);
            id_is = c.id_is;
            replaced = whole ∙ ap (λ l. t ∷ l) c.replaced;
          },
        )
  ]
]

confirm_in-none :
    (n : ℕ) (trades : List TradeRecord) (id i : ℕ)
    → confirm_in n trades id ≡ none
    → i < n
    → i < length trades
    → (get_or trades i empty_trade).trade_id ≢ id
unfolding confirm_in
confirm_in-none zero trades id i e h l = absurd (omega arith)
confirm_in-none (suc n) [] id i e h l = elim l [ ]
confirm_in-none (suc n) (t ∷ trades) id zero e h l = ground arith
confirm_in-none (suc n) (t ∷ trades) id (suc i) e h l =
    ground (arith, confirm_in-none n trades id i)

-- With the table of 1024 entries: `confirm_trade` either answers yes, and it confirms one pending
-- trade that has the id and changes no other; or it answers no, changes nothing, and no pending
-- trade has the id.
pub confirm_trade_lem :
    (r : RealTimeRecon) (id : ℕ)
    → length r.pending_trades ≡ max_pending
    → let (r', answer) = confirm_trade r id in
      let waiting = min r.num_pending max_pending in
      (answer ≡ true) × ((i : ℕ) × IsConfirming waiting id r.pending_trades r'.pending_trades i)
      ⊎ (answer ≡ false)
        × (r' ≡ r)
        × ((i : ℕ) → i < waiting → (get_or r.pending_trades i empty_trade).trade_id ≢ id)
unfolding confirm_trade
confirm_trade_lem r id l =
    let waiting = min r.num_pending max_pending in
    elim (Option-cases (confirm_in waiting r.pending_trades id)) [
      | inl e ↦
          rw (e, confirm_trade)
            (inr (
              refl,
              refl,
              λ i h. confirm_in-none waiting r.pending_trades id i e h (omega (arith, l)),
            ))
      | inr (trades, e) ↦
          rw (e, confirm_trade) (inl (refl, confirm_in-some waiting r.pending_trades id trades e))
    ]
