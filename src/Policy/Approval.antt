-- ===== src/Policy/Approval.antt =====
-- What the verdict of `Evaluate` in backend/internal/policy/policy.go means.
use mathlib.Core.List.{append-nil, append_assoc}
use razorpay_ai_revenue_reco.Base.{
  ◌∙◌, ℕ, String, ◌≡◌, refl, inl, inr, Bool, true, false, not, ◌&&◌, List, [], ◌∷◌, ◌++◌, map,
  arith,
}
use razorpay_ai_revenue_reco.Base.Tests.{if◌then◌else◌, Bool-cases}
use razorpay_ai_revenue_reco.Base.Lists.{is_empty, All}
use razorpay_ai_revenue_reco.Base.Clock.{Time}
use razorpay_ai_revenue_reco.Context.{DecisionContext, Platform}
use razorpay_ai_revenue_reco.Optimizer.Candidate.{Candidate}
use razorpay_ai_revenue_reco.Gate.{GateResult}
use razorpay_ai_revenue_reco.Policy.Rules.{
  PolicyReason, Level, Check, stops, denies, escalates, all_policy_checks_passed, rules,
}
use razorpay_ai_revenue_reco.Policy.Tally.{
  Decision, Tally, nothing_noted, approve, stop, deny, escalate, add, add_all, tally, verdict,
  evaluate,
}

same_level : Level → Level → Bool
same_level stops stops = true
same_level denies denies = true
same_level escalates escalates = true
same_level _ _ = false

-- The reasons of one level whose condition holds, in the given order.
pub fired : Level → List Check → List PolicyReason
unfolding same_level
fired l [] = []
fired l (c ∷ cs) =
    let rest = fired l cs in if c.fires && same_level c.level l then c.reason ∷ rest else rest

pub outcome_of : Check → PolicyReason × Bool
outcome_of c = (c.reason, not c.fires)

add_all_lem :
    (cs : List Check) (t : Tally)
    → let r = add_all cs t in
      (r.stop_reasons ≡ t.stop_reasons ++ fired stops cs)
      × (r.deny_reasons ≡ t.deny_reasons ++ fired denies cs)
      × (r.escalate_reasons ≡ t.escalate_reasons ++ fired escalates cs)
      × (r.checks ≡ t.checks ++ map outcome_of cs)
unfolding add_all add fired outcome_of
add_all_lem [] t = (simp append-nil, simp append-nil, simp append-nil, simp append-nil)
add_all_lem (c ∷ cs) t =
    let (s, d, e, k) = add_all_lem cs (add c t) in
    (
      ground (arith, s, append_assoc t.stop_reasons (c.reason ∷ []) (fired stops cs)),
      ground (arith, d, append_assoc t.deny_reasons (c.reason ∷ []) (fired denies cs)),
      ground (arith, e, append_assoc t.escalate_reasons (c.reason ∷ []) (fired escalates cs)),
      ground (arith, k, append_assoc t.checks (outcome_of c ∷ []) (map outcome_of cs)),
    )

-- The verdict that the reasons of the three levels call for: a stop outranks a denial, which
-- outranks an escalation, and the reason codes are those of the deciding level.
unfoldable pub ranked :
    List PolicyReason → List PolicyReason → List PolicyReason → Decision × List PolicyReason
ranked (s ∷ ss) ds es = (stop, s ∷ ss)
ranked [] (d ∷ ds) es = (deny, d ∷ ds)
ranked [] [] (e ∷ es) = (escalate, e ∷ es)
ranked [] [] [] = (approve, all_policy_checks_passed ∷ [])

verdict-ranked : (t : Tally) → verdict t ≡ ranked t.stop_reasons t.deny_reasons t.escalate_reasons
unfolding verdict ranked
verdict-ranked t = go t.stop_reasons t.deny_reasons t.escalate_reasons
  where
    go :
        (s d e : List PolicyReason)
        → (if not (is_empty s)
            then (stop, s)
            else if not (is_empty d)
            then (deny, d)
            else if not (is_empty e)
            then (escalate, e)
            else (approve, all_policy_checks_passed ∷ []))
          ≡ ranked s d e
    go (s ∷ ss) d e = refl
    go [] (d ∷ ds) e = refl
    go [] [] (e ∷ es) = refl
    go [] [] [] = refl

-- The verdict is the one that the conditions that hold call for: a stop outranks a denial, which
-- outranks an escalation, and nothing but none of them approves. The reason codes are all the reasons
-- of the deciding level, in order, and the map of checks records each condition's negation.
pub policy_verdict :
    (p : Platform) (ctx : DecisionContext) (id : String) (v : ℕ) (c : Candidate) (g : GateResult)
    (now : Time)
    → let cs = rules p ctx v c g now in
      let r = evaluate p ctx id v c g now in
      ((r.decision, r.reason_codes)
        ≡ ranked (fired stops cs) (fired denies cs) (fired escalates cs))
      × (r.checks ≡ map outcome_of cs)
unfolding evaluate tally
policy_verdict p ctx id v c g now =
    let cs = rules p ctx v c g now in
    let (s, d, e, k) = add_all_lem cs nothing_noted in
    (verdict-ranked (add_all cs nothing_noted) ∙ rw (s, d, e), k)

fired_none :
    (cs : List Check)
    → fired stops cs ≡ []
    → fired denies cs ≡ []
    → fired escalates cs ≡ []
    → All (λ c. c.fires ≡ false) cs
unfolding fired
fired_none [] s d e = tt
fired_none (c ∷ cs) s d e = elim (Bool-cases c.fires) [
  | inl on ↦ absurd (ground arith)
  | inr off ↦ (off, fired_none cs (ground arith) (ground arith) (ground arith))
]

-- An approval means that no condition holds, of any level.
pub approve_means_none :
    (p : Platform) (ctx : DecisionContext) (id : String) (v : ℕ) (c : Candidate) (g : GateResult)
    (now : Time)
    → (evaluate p ctx id v c g now).decision ≡ approve
    → All (λ k. k.fires ≡ false) (rules p ctx v c g now)
unfolding evaluate tally verdict
approve_means_none p ctx id v c g now h =
    let cs = rules p ctx v c g now in
    let (s, d, e, k) = add_all_lem cs nothing_noted in
    fired_none cs (ground arith) (ground arith) (ground arith)
