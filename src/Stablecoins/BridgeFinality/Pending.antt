-- ===== src/Stablecoins/BridgeFinality/Pending.antt =====
-- The pending transfers of a bridge in src/stablecoins/bridge_finality.rs.
use mathlib.Core.Option
use mathlib.Core.Path.{subst}
use backendofcryptotradingbo.Base.{
  ℕ, zero, suc, ◌+◌, ◌-◌, ◌%◌, ◌≤◌, ◌<◌, ◌≡◌, ◌≢◌, refl, sym, ◌∙◌, inl, inr, ◌&&◌, Option, none,
  some, List, [], ◌∷◌, u64, u32, ◌==◌, if◌then◌else◌, All, length-set, arith, Bool-cases,
  Option-cases, length, set, length-replicate, All-replicate,
}
use backendofcryptotradingbo.Base.Search.{update_first, find_first, length-update_first}
use backendofcryptotradingbo.Stablecoins.BridgeFinality.{
  TransferRecord, BridgeInfo, BridgeFinalityMonitor, max_transfers, has_id, waits, empty_transfer,
  new, update_bridge_pending, update_bridge_finalized, record_transfer_init,
  record_transfer_finalize, register_bridge,
}

-- The pending count of the first bridge with an id, among the first `n`
count_of : ℕ → ℕ → List BridgeInfo → ℕ
count_of id n bs = elim (find_first (has_id id) n bs) [ none ↦ 0 | some b ↦ b.pending_count ]

-- The number of the first `n` transfers that are pending on a bridge
unfoldable pub open_on : ℕ → ℕ → List TransferRecord → ℕ
open_on id zero ts = 0
open_on id (suc n) [] = 0
open_on id (suc n) (t ∷ ts) =
    (if t.transfer_bridge == id && t.status == 0 then 1 else 0) + open_on id n ts

open_on-le : (id n : ℕ) (ts : List TransferRecord) → open_on id n ts ≤ n
unfolding open_on
open_on-le id zero ts = omega arith
open_on-le id (suc n) [] = omega arith
open_on-le id (suc n) (t ∷ ts) = ground (arith, open_on-le id n ts)

-- A new transfer after the first `n`
open_on-set :
    (id n : ℕ) (ts : List TransferRecord) (t : TransferRecord)
    → n < length ts
    → open_on id (suc n) (set ts n t)
      ≡ open_on id n ts + (if t.transfer_bridge == id && t.status == 0 then 1 else 0)
unfolding open_on
open_on-set id zero [] t h = absurd (omega arith)
open_on-set id zero (s ∷ ts) t h = ground arith
open_on-set id (suc n) [] t h = absurd (omega arith)
open_on-set id (suc n) (s ∷ ts) t h = ground (arith, open_on-set id n ts t)

-- The bridges after a change of the first with an id
count_of-update :
    (id id' n : ℕ) (bs : List BridgeInfo) (change : BridgeInfo → BridgeInfo)
    → ((b : BridgeInfo) → (change b).bridge_id ≡ b.bridge_id)
    → find_first (has_id id) n (update_first (has_id id') change n bs) ≡ (
        if id' == id
        then Option.map change (find_first (has_id id) n bs)
        else find_first (has_id id) n bs)
unfolding find_first update_first
count_of-update id id' zero bs change k = ground arith
count_of-update id id' (suc n) [] change k = ground arith
count_of-update id id' (suc n) (b ∷ bs) change k =
    ground (arith, k b, count_of-update id id' n bs change k)

-- No transfer after the first `n` has an id.
abbrev pub Unused : ℕ → List TransferRecord → Type 0
Unused zero ts = All (λ t. t.transfer_id ≡ 0) ts
Unused (suc n) [] = Unit
Unused (suc n) (t ∷ ts) = Unused n ts

find_first-unused :
    (id m : ℕ) (ts : List TransferRecord)
    → id ≢ 0
    → All (λ t. t.transfer_id ≡ 0) ts
    → find_first (waits id) m ts ≡ none
unfolding find_first
find_first-unused id zero ts h u = refl
find_first-unused id (suc m) [] h u = refl
find_first-unused id (suc m) (t ∷ ts) h u = ground (arith, h, u.0, find_first-unused id m ts h u.1)

abbrev finalized : ℕ → ℕ → TransferRecord → TransferRecord
finalized time block t = record t { status = 1; finalize_timestamp = time; dest_block = block }

-- What a finalization takes from the open transfers of a bridge
abbrev share : ℕ → Option TransferRecord → ℕ
share id none = 0
share id (some t) = if t.transfer_bridge == id then 1 else 0

open_on-finalized :
    (id tid time block n m : ℕ) (ts : List TransferRecord)
    → tid ≢ 0
    → Unused n ts
    → n ≤ m
    → open_on id n (update_first (waits tid) (finalized time block) m ts)
        + share id (find_first (waits tid) m ts)
      ≡ open_on id n ts
unfolding open_on update_first find_first
open_on-finalized id tid time block zero m ts h u l =
    rw (find_first-unused tid m ts h u) (omega arith)
open_on-finalized id tid time block (suc n) zero ts h u l = absurd (omega arith)
open_on-finalized id tid time block (suc n) (suc m) [] h u l = omega arith
open_on-finalized id tid time block (suc n) (suc m) (t ∷ ts) h u l =
    let ih = open_on-finalized id tid time block n m ts h u (omega arith) in
    elim (Bool-cases (waits tid t)) [
      | inl e ↦ rw e (ground (arith, e))
      | inr e ↦ rw e (omega (arith, ih))
    ]

Unused-finalized :
    (tid time block n m : ℕ) (ts : List TransferRecord)
    → Unused n ts
    → Unused n (update_first (waits tid) (finalized time block) m ts)
unfolding update_first
Unused-finalized tid time block zero zero ts u = u
Unused-finalized tid time block zero (suc m) [] u = u
Unused-finalized tid time block zero (suc m) (t ∷ ts) u = elim (Bool-cases (waits tid t)) [
  | inl e ↦ rw e u
  | inr e ↦ rw e (u.0, Unused-finalized tid time block zero m ts u.1)
]
Unused-finalized tid time block (suc n) zero ts u = u
Unused-finalized tid time block (suc n) (suc m) [] u = u
Unused-finalized tid time block (suc n) (suc m) (t ∷ ts) u = elim (Bool-cases (waits tid t)) [
  | inl e ↦ rw e u
  | inr e ↦ rw e (Unused-finalized tid time block n m ts u)
]

Unused-set :
    (n : ℕ) (ts : List TransferRecord) (t : TransferRecord)
    → Unused n ts
    → Unused (suc n) (set ts n t)
Unused-set zero [] t u = tt
Unused-set zero (s ∷ ts) t u = u.1
Unused-set (suc n) [] t u = tt
Unused-set (suc n) (s ∷ ts) t u = Unused-set n ts t u

-- The pending count of the bridge with an id is the number of the transfers on it that are recorded and
-- pending.
pub record IsTracked (id : ℕ) (m : BridgeFinalityMonitor) : Type 0 where
  pub slots : length m.transfers ≡ max_transfers
  pub recorded : m.transfer_head ≤ max_transfers
  pub unused : Unused m.transfer_head m.transfers
  pub bridge : BridgeInfo
  pub found : find_first (has_id id) m.bridge_count m.bridges ≡ some bridge
  pub counted : bridge.pending_count ≡ open_on id m.transfer_head m.transfers

init-IsTracked :
    (id : ℕ) (m : BridgeFinalityMonitor) (t : TransferRecord)
    → IsTracked id m
    → t.status ≡ 0
    → m.transfer_head < max_transfers
    → IsTracked id (record_transfer_init m t).0
unfolding record_transfer_init update_bridge_pending
init-IsTracked id m t w s h =
    let n = m.transfer_head in
    let place : n % max_transfers ≡ n = omega (arith, h) in
    let next : u64 (n + 1) ≡ suc n = omega (arith, h) in
    let counts = λ (b : BridgeInfo). record b { pending_count = u32 (b.pending_count + 1) } in
    let updated =
      count_of-update id t.transfer_bridge m.bridge_count m.bridges counts (λ b. refl) in
    let opened = open_on-set id n m.transfers t (omega (arith, h, w.slots)) in
    record {
      slots = length-set m.transfers (n % max_transfers) t ∙ w.slots;
      recorded = omega (arith, next, h);
      unused = rw (place, next) (Unused-set n m.transfers t w.unused);
      bridge = if t.transfer_bridge == id then counts w.bridge else w.bridge;
      found = updated ∙ ground (arith, w.found);
      counted =
          rw (place, next) (ground (arith, opened, w.counted, s, open_on-le id n m.transfers));
    }

finalize-none :
    (tid time block : ℕ) (m : BridgeFinalityMonitor)
    → find_first (waits tid) max_transfers m.transfers ≡ none
    → record_transfer_finalize m tid time block ≡ m
unfolding record_transfer_finalize
finalize-none tid time block m e = rw (e, record_transfer_finalize) refl

finalize-some :
    (tid time block : ℕ) (m : BridgeFinalityMonitor) (t : TransferRecord)
    → find_first (waits tid) max_transfers m.transfers ≡ some t
    → record_transfer_finalize m tid time block ≡ record m {
      transfers = update_first (waits tid) (finalized time block) max_transfers m.transfers;
      bridges =
          update_first
            (has_id t.transfer_bridge)
            (λ b. record b { pending_count = b.pending_count - 1 })
            m.bridge_count
            m.bridges;
    }
unfolding record_transfer_finalize update_bridge_finalized
finalize-some tid time block m t e = rw (e, record_transfer_finalize) refl

begin-head :
    (m : BridgeFinalityMonitor) (t : TransferRecord) (n : ℕ)
    → m.transfer_head + suc n ≤ max_transfers
    → (record_transfer_init m t).0.transfer_head + n ≤ max_transfers
unfolding record_transfer_init update_bridge_pending
begin-head m t n h = omega arith

end-head :
    (m : BridgeFinalityMonitor) (tid time block n : ℕ)
    → m.transfer_head + n ≤ max_transfers
    → (record_transfer_finalize m tid time block).transfer_head + n ≤ max_transfers
unfolding record_transfer_finalize update_bridge_finalized
end-head m tid time block n h = ground arith

finalize-IsTracked :
    (id tid time block : ℕ) (m : BridgeFinalityMonitor)
    → IsTracked id m
    → tid ≢ 0
    → IsTracked id (record_transfer_finalize m tid time block)
finalize-IsTracked id tid time block m w h =
    let ts = m.transfers in
    let taken =
      open_on-finalized id tid time block m.transfer_head max_transfers ts h w.unused w.recorded in
    elim (Option-cases (find_first (waits tid) max_transfers ts)) [
      | inl e ↦ subst (λ x. IsTracked id x) (sym (finalize-none tid time block m e)) w
      | inr (t, e) ↦
          let counts = λ (b : BridgeInfo). record b { pending_count = b.pending_count - 1 } in
          let updated =
            count_of-update id t.transfer_bridge m.bridge_count m.bridges counts (λ b. refl) in
          let taken' = rw e at taken in
          subst (λ x. IsTracked id x) (sym (finalize-some tid time block m t e))
            (record {
              slots =
                  length-update_first (waits tid) (finalized time block) max_transfers ts ∙ w.slots;
              recorded = w.recorded;
              unused = Unused-finalized tid time block m.transfer_head max_transfers ts w.unused;
              bridge = if t.transfer_bridge == id then counts w.bridge else w.bridge;
              found = updated ∙ ground (arith, w.found);
              counted = ground (arith, taken', w.counted);
            })
    ]

pub data Event : Type 0 where
  began : TransferRecord → Event
  ended : ℕ → ℕ → ℕ → Event

pub run : BridgeFinalityMonitor → List Event → BridgeFinalityMonitor
run m [] = m
run m (began t ∷ es) = run (record_transfer_init m t).0 es
run m (ended tid time block ∷ es) = run (record_transfer_finalize m tid time block) es

-- The number of transfers that begin
abbrev pub begun : List Event → ℕ
begun [] = 0
begun (began t ∷ es) = suc (begun es)
begun (ended tid time block ∷ es) = begun es

-- A transfer begins as pending, and only an id other than 0 is finalized.
abbrev pub IsUsual : Event → Type 0
IsUsual (began t) = t.status ≡ 0
IsUsual (ended tid time block) = tid ≢ 0

-- From a monitor that is tracked for a registered bridge, after any series of transfers, of this and
-- other bridges, that begin and are finalized, the pending count of the bridge is the number of its
-- transfers that are recorded and not finalized. The conditions are that no more transfers begin than
-- the table holds, that each begins as pending (status 0), and that no transfer with id 0 is
-- finalized: 0 is the id of an empty slot, which the code would take for a pending transfer of bridge 0.
pub run-IsTracked :
    (id : ℕ) (m : BridgeFinalityMonitor) (es : List Event)
    → IsTracked id m
    → All IsUsual es
    → m.transfer_head + begun es ≤ max_transfers
    → IsTracked id (run m es)
unfolding run
run-IsTracked id m [] w u h = w
run-IsTracked id m (began t ∷ es) w u h =
    run-IsTracked id (record_transfer_init m t).0 es (init-IsTracked id m t w u.0 (omega arith)) u.1
      (begin-head m t (begun es) h)
run-IsTracked id m (ended tid time block ∷ es) w u h =
    run-IsTracked id (record_transfer_finalize m tid time block) es
      (finalize-IsTracked id tid time block m w u.0) u.1 (end-head m tid time block (begun es) h)

-- A new monitor with one bridge that has nothing pending
pub register_bridge-IsTracked :
    (b : BridgeInfo) → b.pending_count ≡ 0 → IsTracked b.bridge_id (register_bridge new b).0
unfolding register_bridge find_first open_on
register_bridge-IsTracked b e = record {
  slots = length-replicate max_transfers empty_transfer;
  recorded = omega arith;
  unused = All-replicate (λ t. t.transfer_id ≡ 0) max_transfers empty_transfer refl;
  bridge = b;
  found = ground arith;
  counted = e;
}
