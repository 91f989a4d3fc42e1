-- ===== src/Compliance/Jurisdiction/Features.antt =====
-- The features that src/compliance/jurisdiction_filter.rs allows.
use backendofcryptotradingbo.Base.{
  ℕ, ◌≡◌, refl, ap, ◌∙◌, Bool, true, List, [], ◌∷◌, arith, get_or, get_or-replicate,
}
use backendofcryptotradingbo.Compliance.Jurisdiction.{
  Jurisdiction, JurisdictionFilter, max_jurisdictions, new_rule, new, add_blocked_token,
  check_token, check_feature, set_jurisdiction, set_shadow_mode, shutdown,
}

-- The calls of the filter that change it
pub data Call : Type 0 where
  add_call : List ℕ → ℕ → ℕ → ℕ → Call
  check_call : ℕ → Call
  jurisdiction_call : Jurisdiction → Call
  shadow_call : Bool → Call
  shutdown_call : Call

unfoldable pub execute : JurisdictionFilter → Call → JurisdictionFilter
execute f (add_call symbol hash jurisdictions reason) =
    (add_blocked_token f symbol hash jurisdictions reason).0
execute f (check_call token_hash) = (check_token f token_hash).0
execute f (jurisdiction_call jur) = set_jurisdiction f jur
execute f (shadow_call enabled) = set_shadow_mode f enabled
execute f shutdown_call = shutdown f

unfoldable pub run : JurisdictionFilter → List Call → JurisdictionFilter
run f [] = f
run f (c ∷ cs) = run (execute f c) cs

execute-rules : (f : JurisdictionFilter) (c : Call) → (execute f c).rules ≡ f.rules
unfolding execute add_blocked_token check_token set_jurisdiction set_shadow_mode shutdown
execute-rules f (add_call symbol hash jurisdictions reason) = ground arith
execute-rules f (check_call token_hash) = ground arith
execute-rules f (jurisdiction_call jur) = refl
execute-rules f (shadow_call enabled) = refl
execute-rules f shutdown_call = refl

run-rules : (f : JurisdictionFilter) (cs : List Call) → (run f cs).rules ≡ f.rules
unfolding run
run-rules f [] = refl
run-rules f (c ∷ cs) = run-rules (execute f c) cs ∙ execute-rules f c

-- No call sets a rule, so a filter allows every feature in every jurisdiction, whatever calls were
-- made since it was new.
pub check_feature_lem : (cs : List Call) (feature : ℕ) → check_feature (run new cs) feature ≡ true
unfolding check_feature new
check_feature_lem cs feature =
    let f = run new cs in
    let rule : get_or f.rules f.current_jurisdiction new_rule ≡ new_rule =
      ap (λ rs. get_or rs f.current_jurisdiction new_rule) (run-rules new cs)
      ∙ get_or-replicate max_jurisdictions new_rule f.current_jurisdiction in
    ground (arith, rule)
